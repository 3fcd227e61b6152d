-- ===== src/Samples/Toy.antt =====
-- A platform (for src/crypto and the clock) that computes: a checksum of 32 bytes for SHA-256, a
-- one-byte signature, and times written as decimal seconds.
use personalblockchain.Prelude.{
  ℕ, ◌+◌, ◌-◌, ◌*◌, ◌/◌, ◌%◌, ◌≡◌, refl, true, false, none, some, [], ◌∷◌, Text, codes, decimal,
  text_eq, text_eq_refl, replicate, any, length, ltb, ◌==◌, arith,
}
use personalblockchain.Prelude.Int.{pos, pos_part}
use personalblockchain.Platform.{Platform}
use personalblockchain.Crypto.Hex.{IsSound}
use personalblockchain.Consensus.Adjuster.{Doubles, DifficultyAdjuster}

abbrev checksum : Text → ℕ
checksum [] = 0
checksum (c ∷ s) = c + checksum s

abbrev read_decimal : ℕ → Text → ℕ
read_decimal n [] = n
read_decimal n (c ∷ s) = read_decimal (n * 10 + (c - b'0')) s

abbrev pub toy : Platform
toy = record {
  digest = λ s. (checksum s % 16) ∷ (checksum s % 256) ∷ (length s % 256) ∷ replicate 29 0;
  scan_hex = λ c d. 0;
  ecdsa_verify = λ h sig key. text_eq sig ((checksum h % 256) ∷ []);
  ecdsa_sign = λ h key. some ((checksum h % 256) ∷ []);
  public_point = λ key. some (codes "02AB");
  get_time =
      λ s. elim (any (λ c. c == b'-') s) [ true ↦ none | false ↦ some (pos (read_decimal 0 s)) ];
  put_time = decimal;
}

pub toy-IsSound : IsSound toy (codes "secret") (codes "alice")
toy-IsSound = record {
  digest_length = λ s. refl;
  digest_bytes = λ s. omega arith;
  der_bytes = λ h k sig e. let same : sig ≡ (checksum h % 256) ∷ [] = cc in rw same (omega arith);
  der_ne = λ h k sig e n. cc;
  signed_verifies =
      λ h sig e. let same : sig ≡ (checksum h % 256) ∷ [] = cc in rw same (text_eq_refl _);
}

-- Arithmetic in whole numbers.
abbrev pub whole : Doubles ℕ
whole = record {
  of_int = pos_part;
  div = λ a b. a / b;
  mul = λ a b. a * b;
  lt = ltb;
  round_u32 = λ a. a;
}

-- A window of two blocks.
abbrev pub adjuster : DifficultyAdjuster ℕ
adjuster = record {
  target_block_time_sec = 10;
  window_size = 2;
  max_adjustment_factor = 4;
  min_difficulty = 1;
  max_difficulty = 8;
}
