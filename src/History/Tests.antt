-- ===== src/History/Tests.antt =====
-- The theorems on the history at three blocks.
use cpp_jam.Common.{ℕ, suc, ◌≡◌, refl, List, [], ◌∷◌, Option, none, some}
use cpp_jam.Common.Bytes.{be_bytes}
use cpp_jam.History.Mmr.{append, join}
use cpp_jam.History.Represents.{Represents}
use cpp_jam.History.Blocks.{Input, last_mmr}
use cpp_jam.History.Runs.{run, header_hashes, run_mmr, run_blocks}

-- A stand-in for Keccak.
abbrev last_byte : List ℕ → ℕ
last_byte [] = 0
last_byte (b ∷ []) = suc b
last_byte (b ∷ c ∷ bs) = last_byte (c ∷ bs)

abbrev block : ℕ → Input
block n = record {
  header_hash = n;
  parent_state_root = suc n;
  accumulate_root = n;
  work_packages = [];
}

abbrev three : List Input
three = block 1 ∷ block 2 ∷ block 3 ∷ []

abbrev full : List (Option ℕ)
full = some 5 ∷ some 9 ∷ []

carries : append last_byte full 7 ≡ none ∷ none ∷ some 9 ∷ []
unfolding append join be_bytes
carries = refl

run_mmr_example : Represents last_byte 0 (last_mmr (run last_byte [] three)) (1 ∷ 2 ∷ 3 ∷ [])
run_mmr_example = run_mmr last_byte three

run_blocks_example : header_hashes (run last_byte [] three) ≡ 1 ∷ 2 ∷ 3 ∷ []
run_blocks_example = run_blocks last_byte three
