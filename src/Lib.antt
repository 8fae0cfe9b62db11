-- ===== src/Lib.antt =====
-- A verification library for cpp-jam, a C++ implementation of the JAM protocol.
--
-- The program has a node and a set of state transition functions of the protocol:
-- * test-vectors/disputes/disputes.hpp judges work reports: verdicts, culprits and faults come in,
--   and the sets of good, bad and wonky reports, the punish set and the cores' reports go out.
--   Disputes models it: Types (the data), Check (the loops over verdicts, culprits and faults),
--   Tally (the count of the votes and its analysis), Multimap (`MultimapGroups`), Apply (marks and
--   cleared cores), and Transition, which joins them in the order of `transition`.
-- * test-vectors/history/history.hpp keeps the last blocks and a Merkle mountain range of the
--   accumulate roots. History models it: Mmr is `mathcal_A`, Blocks is `transition`.
-- * test-vectors/authorizations/authorizations.hpp moves authorizers from the cores' queues to
--   their pools. Authorizations.Transition models it.
-- * test-vectors/safrole/safrole.hpp is the ticket contest for the seals of an epoch and the
--   rotation of validators and entropy. Safrole models it: Accumulate is the loop over the
--   extrinsic, Sequence is `Z` and `F`, Transition is `transition`.
-- * src/app/impl/state_manager_impl.cpp leads the node through its stages and calls the components'
--   callbacks. StateManager models it: Stages has registration, the stages, `run` and `shutdown`.
-- * src/utils/parsers.hpp reads sizes and durations of the configuration. Parsers.Quantity models it.
-- * src/storage/in_memory is a sorted map with batches and cursors, behind the interfaces of
--   src/storage/face. Storage models it: Map is the sorted map, Memory its operations.
-- * src/se/impl/scheduler_impl.hpp is the queue of timed tasks of a thread. Scheduler models it: Queue
--   has the operations, Steps the relation of the steps of the thread, its callers and the clock,
--   Loop the thread's loop with the event that wakes it and with dispose.
-- * src/se/impl/async_dispatcher_impl.hpp spreads tasks over such threads: handlers, a pool, bound
--   schedulers and temporary threads. Dispatcher.Tasks models it on top of Scheduler.Queue.
-- * src/se/impl/subscription_engine.hpp and src/se/impl/subscriber_impl.hpp bring events to
--   subscribers. Subscriptions models them: Engine has the lists of nodes by event key and what a
--   notification does, Subscriber each subscriber's own record of its subscriptions, Calls the calls
--   of several subscribers and notifications one after another.
-- * src/se/impl/subscription_manager.hpp keeps one engine for each list of argument types.
--   Manager.Engines models it.
-- * src/utils/channel.hpp hands a value from one thread to another, with the event of
--   src/se/impl/common.hpp. Channel models it: State has the two endpoints, Steps the steps of their
--   threads.
-- * src/app/impl/watchdog.hpp counts the pings of threads and stops the program when one is silent.
--   Watchdog.Threads models it.
-- * src/storage/rocksdb is the storage on top of the RocksDB library. Rocks models it: Library is
--   what is used of the library, Spaces the spaces, batches and columns, Opening the constructor.
-- The transition functions are pure: each takes a configuration, a state and an input and returns
-- the next state with an output. Common holds what they share: tests and lists on the native
-- numbers, results with an error and their do blocks, sets as ascending lists, and the byte
-- strings of test-vectors/common.hpp.
--
-- How the code is read. Hashes, keys and signatures are arrays of a fixed size, read as numbers
-- in big-endian order, so that their order is the order of the arrays; `be_bytes` gives back the
-- bytes where they are hashed or signed. A `std::set` is an ascending list, a `std::multimap` a
-- list sorted by key. An unordered container is iterated in an order that the code does not fix:
-- the order is a parameter of the model, and the theorems hold for every rearrangement. The
-- counters of votes are of 16 bits and wrap around; slots and epochs are read without a bound,
-- with the wrap-around written out where the code adds or multiplies. Hash functions, the
-- verification of signatures and the ring commitment come from other libraries and are parameters,
-- with no assumption on them. Where the code throws, or reads out of a container's range, the
-- model gives an error of its own.
--
-- A request for a shutdown may come at every point where the state manager looks at its stage: the
-- points are Booleans of the callbacks and of the run. A request looks at the stage and stores it
-- later; only a store behind the shutdown differs from one at once, and has a Boolean of its own. Callbacks do not register others. The
-- scheduler's threads hold its lock while they change the queue, so their steps come one after
-- another, in every order. A storage's keys are ordered by their hexadecimal texts: the order is a
-- parameter with the laws of a strict total order, and numbers are an instance. A walk of a cursor
-- is given its number of steps.
--
-- A call of the subscription engine, of a subscriber or of the dispatcher holds a mutex while it
-- changes something, so it is one step. An iterator into an engine's list is the number of its node;
-- to use the iterator of a node that is gone is undefined, and the model says so by none. A call of
-- the manager's `getEngine` takes two locks one after the other and is two steps. The
-- channel's two threads interleave at the points where they take or leave a mutex or the event. The
-- RocksDB library is a parameter: a record of the calls. What its documentation says of the opening is
-- a named hypothesis (Rocks.Found.IsDocumented), of which Rocks.Tests has an instance. The ring
-- commitment of a key list may fail, and then the code throws.
--
-- No function needs fuel: the loops are recursion on the lists and counts that they run over.
-- `MultimapGroups` is the exception: its walk is bounded by the length of the multimap, and each
-- of its groups holds an entry at least.
--
-- Not modelled: signal handlers, the map from spaces to storages in memory, the moves of a
-- channel's endpoint and the timed wait of its event, the end of the dispatcher, the watchdog's
-- loops between its checks, RocksDB's cursor, compaction and
-- sizes, the generated types and codec of the test vectors, the tests' own files, the reading of the
-- configuration, the modules and loaders of the node, networking, logging, metrics, and the bindings
-- to Bandersnatch, Ed25519, Blake and Keccak, which only call other libraries.
pub mod Common
pub mod Disputes
pub mod History
pub mod Manager
pub mod Authorizations
pub mod Safrole
pub mod Parsers
pub mod StateManager
pub mod Storage
pub mod Scheduler
pub mod Subscriptions
pub mod Channel
pub mod Dispatcher
pub mod Watchdog
pub mod Rocks
