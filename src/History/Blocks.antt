-- ===== src/History/Blocks.antt =====
-- `transition` of history.hpp.
use cpp_jam.Common.{ℕ, List, [], ◌∷◌, ◌++◌, Option, leb, if◌then◌else◌, length, drop}
use cpp_jam.History.Mmr.{append}

pub record BlockInfo : Type 0 where
  pub header_hash : ℕ
  pub mmr : List (Option ℕ)
  pub state_root : ℕ
  pub reported : List (ℕ × ℕ)

pub record Input : Type 0 where
  pub header_hash : ℕ
  pub parent_state_root : ℕ
  pub accumulate_root : ℕ
  pub work_packages : List (ℕ × ℕ)

-- H, the size of the recent history in blocks.
abbrev pub history_size : ℕ
history_size = 8

-- `beta_tick.back().state_root = root`, if there is a last block.
unfoldable pub set_last_root : ℕ → List BlockInfo → List BlockInfo
set_last_root root [] = []
set_last_root root (b ∷ []) = record b { state_root = root } ∷ []
set_last_root root (b ∷ c ∷ bs) = b ∷ set_last_root root (c ∷ bs)

-- The range of the last block, or an empty one.
unfoldable pub last_mmr : List BlockInfo → List (Option ℕ)
last_mmr [] = []
last_mmr (b ∷ []) = b.mmr
last_mmr (b ∷ c ∷ bs) = last_mmr (c ∷ bs)

-- A full history loses its first block.
abbrev pub make_room : List BlockInfo → List BlockInfo
make_room beta = if leb history_size (length beta) then drop 1 beta else beta

unfoldable pub transition : (List ℕ → ℕ) → List BlockInfo → Input → List BlockInfo
transition keccak beta input =
    set_last_root input.parent_state_root (make_room beta)
    ++ record {
      header_hash = input.header_hash;
      mmr = append keccak (last_mmr beta) input.accumulate_root;
      state_root = 0;
      reported = input.work_packages;
    }
      ∷ []
