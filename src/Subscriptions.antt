-- ===== src/Subscriptions.antt =====
-- src/se/impl/subscription_engine.hpp and subscriber_impl.hpp: who listens to which event.
pub mod Engine
pub mod Subscriber
pub mod Nodes
pub mod Erased
pub mod Linked
pub mod Unsubscribed
pub mod Calls
pub mod Subscribed
pub mod Notified
pub mod World
pub mod WithoutEngine
pub mod Consistent
pub mod Members
pub mod Defined
pub mod Delivered
pub mod Silent
mod Tests
