-- ===== src/Storage/Keys.antt =====
-- The order of the keys. A key is mapped to its hexadecimal text, and the map is ordered by these texts.
use cpp_jam.Common.{ℕ, ◌≡◌, Bool, true, false, inl, inr, ltb, arith, Bool-cases}

pub record KeyOrder (K : Type 0) : Type 0 where
  pub before : K → K → Bool
  pub irreflexive : (k : K) → before k k ≡ false
  pub transitive : (a b c : K) → before a b ≡ true → before b c ≡ true → before a c ≡ true
  pub total : (a b : K) → before a b ≡ false → before b a ≡ false → a ≡ b

module _ {K : Type 0} (order : KeyOrder K) where
  pub before_asym : (a b : K) → order.before a b ≡ true → order.before b a ≡ false
  before_asym a b h = elim (Bool-cases (order.before b a)) [
    | inl back ↦
        let loop = order.transitive a b a h back in let self = order.irreflexive a in absurd (cc)
    | inr apart ↦ apart
  ]

pub ltb_irreflexive : (k : ℕ) → ltb k k ≡ false
ltb_irreflexive k = ground arith

pub ltb_transitive : (a b c : ℕ) → ltb a b ≡ true → ltb b c ≡ true → ltb a c ≡ true
ltb_transitive a b c h h' = ground arith

pub ltb_total : (a b : ℕ) → ltb a b ≡ false → ltb b a ≡ false → a ≡ b
ltb_total a b h h' = ground arith

-- Keys of one length are ordered as numbers.
abbrev pub number_order : KeyOrder ℕ
number_order = record {
  before = ltb;
  irreflexive = ltb_irreflexive;
  transitive = ltb_transitive;
  total = ltb_total;
}
