-- ===== src/Storage/Map.antt =====
-- `std::map<std::string, ByteVec>` as a list in ascending order of keys.
use cpp_jam.Common.{ℕ, true, List, [], ◌∷◌, Option, none, some, if◌then◌else◌, ◌≡◌}
use cpp_jam.Storage.Keys.{KeyOrder}

abbrev pub Bytes : Type 0
Bytes = List ℕ

module _ {K : Type 0} (order : KeyOrder K) where
  abbrev pub Entry : Type 0
  Entry = K × Bytes

  unfoldable pub find : K → List Entry → Option Bytes
  find k [] = none
  find k ((k', v) ∷ es) =
      let rest = find k es in
      if order.before k k' then none else if order.before k' k then rest else some v

  -- `storage_[key] = value`.
  unfoldable pub assign : K → Bytes → List Entry → List Entry
  assign k v [] = (k, v) ∷ []
  assign k v ((k', v') ∷ es) =
      let rest = assign k v es in
      if order.before k k'
      then (k, v) ∷ (k', v') ∷ es
      else if order.before k' k
      then (k', v') ∷ rest
      else (k, v) ∷ es

  unfoldable pub erase : K → List Entry → List Entry
  erase k [] = []
  erase k ((k', v') ∷ es) =
      let rest = erase k es in
      if order.before k k' then (k', v') ∷ es else if order.before k' k then (k', v') ∷ rest else es

  -- The first entry whose key is not before `k`, and the first one whose key is after it.
  unfoldable pub lower_bound : K → List Entry → Option Entry
  lower_bound k [] = none
  lower_bound k (e ∷ es) =
      let rest = lower_bound k es in if order.before e.0 k then rest else some e

  unfoldable pub upper_bound : K → List Entry → Option Entry
  upper_bound k [] = none
  upper_bound k (e ∷ es) =
      let rest = upper_bound k es in if order.before k e.0 then some e else rest

  -- `prev(lower_bound(k))`, or the end at the beginning: `p` is the entry before.
  unfoldable pub before_bound : K → Option Entry → List Entry → Option Entry
  before_bound k p [] = p
  before_bound k p (e ∷ es) =
      let rest = before_bound k (some e) es in if order.before e.0 k then rest else p

  unfoldable pub first : List Entry → Option Entry
  first [] = none
  first (e ∷ es) = some e

  unfoldable pub last : List Entry → Option Entry
  last [] = none
  last (e ∷ []) = some e
  last (e ∷ e' ∷ es) = last (e' ∷ es)

  -- The keys ascend strictly from `p` on.
  abbrev pub ComesAfter : Option K → K → Type 0
  ComesAfter none k = Unit {0}
  ComesAfter (some p) k = order.before p k ≡ true

  abbrev pub IsSorted : Option K → List Entry → Type 0
  IsSorted p [] = Unit {0}
  IsSorted p (e ∷ es) = ComesAfter p e.0 × IsSorted (some e.0) es
