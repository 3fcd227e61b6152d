-- ===== src/Consensus/Adjuster.antt =====
-- src/consensus/difficulty_adjuster.cpp. The source computes a ratio in `double`, whose operations
-- are a parameter here. A window of 0 blocks divides by zero in `shouldRetarget`, and a window and a
-- block time whose product passes 2^63 overflow the expected time span: both are left out.
use personalblockchain.Prelude.{
  ℕ, ◌+◌, ◌-◌, ◌*◌, ◌/◌, ◌%◌, min, max, Bool, true, false, not, none, some, List, Text, get_elem?,
  length, ltb, leb, ◌==◌, u32_mod, if◌then◌else◌,
}
use personalblockchain.Prelude.Int.{ℤ, pos, ◌-ℤ◌, ltb_ℤ, leb_ℤ}
use personalblockchain.Platform.{Platform}
use personalblockchain.Block.{Block}

-- Arithmetic in `double`. `round_u32` is `static_cast<uint32_t>(std::round(x))`.
pub record Doubles (F : Type 0) : Type 0 where
  pub of_int : ℤ → F
  pub div : F → F → F
  pub mul : F → F → F
  pub lt : F → F → Bool
  pub round_u32 : F → ℕ

pub record DifficultyAdjuster (F : Type 0) : Type 0 where
  pub target_block_time_sec : ℕ
  pub window_size : ℕ
  pub max_adjustment_factor : F
  pub min_difficulty : ℕ
  pub max_difficulty : ℕ

unfoldable pub parse_timestamp : Platform → Text → ℤ
parse_timestamp P iso_timestamp = elim (P.get_time iso_timestamp) [ none ↦ pos 0 | some t ↦ t ]

unfoldable pub validate_block_timestamp : Platform → ℕ → Block → Block → Bool
validate_block_timestamp P now block previous_block =
    let block_time = parse_timestamp P block.timestamp in
    let prev_time = parse_timestamp P previous_block.timestamp in
    if ltb_ℤ block_time prev_time
    then false
    else if ltb_ℤ (pos (now / 1_000_000_000 + 120)) block_time
    then false
    else true

abbrev timestamp_at : Platform → List Block → ℕ → ℤ
timestamp_at P chain i = elim (get_elem? chain i) [
  | none ↦ pos 0
  | some b ↦ parse_timestamp P b.timestamp
]

module _ {F : Type 0} (D : Doubles F) where
  -- `std::max(1.0 / factor, std::min(factor, ratio))`, each with the comparison that it makes.
  unfoldable pub clamp_ratio : F → F → F
  clamp_ratio factor ratio =
      let least = D.div (D.of_int (pos 1)) factor in
      let lowered = if D.lt ratio factor then ratio else factor in
      if D.lt least lowered then lowered else least

  unfoldable pub should_retarget : DifficultyAdjuster F → ℕ → Bool
  should_retarget a chain_length =
      if leb chain_length 1 then false else ((chain_length - 1) % a.window_size) == 0

  -- The new difficulty for a time span, before and after the bounds.
  unfoldable pub retarget : DifficultyAdjuster F → ℤ → ℕ → ℕ
  retarget a actual_time_span current_difficulty =
      let expected_time_span = pos (a.window_size * a.target_block_time_sec) in
      let ratio = D.div (D.of_int expected_time_span) (D.of_int actual_time_span) in
      let clamped = clamp_ratio a.max_adjustment_factor ratio in
      let exact = D.mul (D.of_int (pos current_difficulty)) clamped in
      max a.min_difficulty (min a.max_difficulty (D.round_u32 exact))

  unfoldable pub calculate_next_difficulty : Platform → DifficultyAdjuster F → List Block → ℕ → ℕ
  calculate_next_difficulty P a chain current_difficulty =
      let size = length chain in
      let latest_time = timestamp_at P chain (size - 1) in
      let oldest_time = timestamp_at P chain (size - 1 - a.window_size) in
      let actual_time_span = latest_time -ℤ oldest_time in
      if ltb size ((a.window_size + 1) % u32_mod)
      then current_difficulty
      else if not (should_retarget a size)
      then current_difficulty
      else if leb_ℤ actual_time_span (pos 0)
      then current_difficulty
      else retarget a actual_time_span current_difficulty
