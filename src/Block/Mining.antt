-- ===== src/Block/Mining.antt =====
-- The nonce search of `Block::mineBlock` (src/block/block.cpp): what it finds, when it finds it,
-- and a difficulty at which it never ends.
use personalblockchain.Prelude.{
  ℕ, zero, suc, if◌then◌else◌, ◌+◌, ◌%◌, ◌≤◌, ◌<◌, ◌≡◌, refl, ap, Bool, true, false, none, some, [],
  Text, arith, length, length-take, length-replicate, take, replicate, Bool-cases, inl, inr,
  text_eq_iff, text_eq_refl, u64_mod,
}
use native.Mathlib.Decide.{dec_lt}
use personalblockchain.Platform.{Platform}
use personalblockchain.Crypto.Hex.{length-sha256}
use personalblockchain.Block.{
  Block, meets_target, compute_merkle_root, calculate_hash, search_nonce, mine_block, is_valid,
}

meets_target-length :
    (h : Text) (difficulty : ℕ) → meets_target h difficulty ≡ true → difficulty ≤ length h
unfolding meets_target
meets_target-length h d e =
    let same = (text_eq_iff (take d h) (replicate d b'0')).0 e in
    omega (arith, ap length same, length-take d h, length-replicate {A = ℕ} d b'0')

module _ (P : Platform) where
  -- The block as the search has it when it tries the nonce `n`: the root computed, the hash set.
  abbrev pub sealed_at : Block → ℕ → Block
  sealed_at b n =
      let prepared = record b {
        merkle_root = compute_merkle_root P b.transactions;
        nonce = n;
        hash = [];
      } in
      record prepared { hash = calculate_hash P prepared }

  -- The test of the loop at the nonce `n`.
  abbrev pub succeeds_at : Block → ℕ → Bool
  succeeds_at b n = meets_target (sealed_at b n).hash b.difficulty

  pub calculate_hash-hash :
      (b : Block) (h : Text) → calculate_hash P (record b { hash = h }) ≡ calculate_hash P b
  unfolding calculate_hash
  calculate_hash-hash b h = refl

  -- The block as the search meets it, with the hash of the try before.
  abbrev prepared : Block → ℕ → Text → Block
  prepared b n h = record b {
    merkle_root = compute_merkle_root P b.transactions;
    nonce = n;
    hash = h;
  }

  search_nonce-zero : (b : Block) → search_nonce P 0 b ≡ none
  unfolding search_nonce
  search_nonce-zero b = refl

  search_nonce-step :
      (fuel n : ℕ) (b : Block) (h : Text)
      → search_nonce P (suc fuel) (prepared b n h) ≡ (
          if succeeds_at b n
          then some (sealed_at b n)
          else search_nonce P fuel (prepared b ((n + 1) % u64_mod) (sealed_at b n).hash))
  unfolding search_nonce calculate_hash
  search_nonce-step fuel n b h = refl

  search_nonce-first :
      (fuel n m : ℕ) (b : Block) (h : Text)
      → n ≤ m
      → m < u64_mod
      → m < n + fuel
      → ((j : ℕ) → n ≤ j → j < m → succeeds_at b j ≡ false)
      → succeeds_at b m ≡ true
      → search_nonce P fuel (prepared b n h) ≡ some (sealed_at b m)
  search_nonce-first zero n m b h le room f miss hit = absurd (omega arith)
  search_nonce-first (suc fuel) n m b h le room f miss hit = elim (dec_lt n m) [
    | yes p ↦
        let wrapped : (n + 1) % u64_mod ≡ n + 1 = omega arith in
        rw (search_nonce-step fuel n b h, miss n (omega arith) p, wrapped)
          (search_nonce-first fuel (n + 1) m b (sealed_at b n).hash (omega arith) room (omega arith)
            (λ j a c. miss j (omega arith) c) hit)
    | no p ↦ let same : n ≡ m = omega arith in rw (search_nonce-step fuel n b h, same, hit)
  ]

  search_nonce-found :
      (fuel n : ℕ) (b r : Block) (h : Text)
      → search_nonce P fuel (prepared b n h) ≡ some r
      → (m : ℕ) × (r ≡ sealed_at b m) × (succeeds_at b m ≡ true)
  search_nonce-found zero n b r h e = cc (search_nonce-zero (prepared b n h))
  search_nonce-found (suc fuel) n b r h e = elim (Bool-cases (succeeds_at b n)) [
    | inl hit ↦ (n, ground (arith, search_nonce-step fuel n b h), hit)
    | inr miss ↦
        search_nonce-found fuel ((n + 1) % u64_mod) b r (sealed_at b n).hash
          (ground (arith, search_nonce-step fuel n b h))
  ]

  search_nonce-none :
      (fuel n : ℕ) (b : Block) (h : Text)
      → ((j : ℕ) → succeeds_at b j ≡ false)
      → search_nonce P fuel (prepared b n h) ≡ none
  search_nonce-none zero n b h miss = search_nonce-zero (prepared b n h)
  search_nonce-none (suc fuel) n b h miss =
      rw (search_nonce-step fuel n b h, miss n)
        (search_nonce-none fuel ((n + 1) % u64_mod) b (sealed_at b n).hash miss)

  length-calculate_hash :
      (b : Block) → ((s : Text) → length (P.digest s) ≡ 32) → length (calculate_hash P b) ≡ 64
  unfolding calculate_hash
  length-calculate_hash b digest = length-sha256 P digest _

  -- Mining ends, and returns the block sealed with the smallest nonce that meets the target, if
  -- some nonce below 2^64 does and the fuel exceeds the smallest such nonce.
  pub mine_block-first :
      (fuel m : ℕ) (b : Block)
      → m < u64_mod
      → m < fuel
      → ((j : ℕ) → j < m → succeeds_at b j ≡ false)
      → succeeds_at b m ≡ true
      → mine_block P fuel b ≡ some (sealed_at b m)
  unfolding mine_block
  mine_block-first fuel m b room f miss hit =
      search_nonce-first fuel 0 m b b.hash (omega arith) room (omega arith) (λ j a c. miss j c) hit

  -- A mined block is the block that was given, sealed with some nonce: it keeps the index, the
  -- link, the transactions and the difficulty, and passes `is_valid`.
  pub mine_block-is_valid :
      (fuel : ℕ) (b r : Block)
      → mine_block P fuel b ≡ some r
      → (m : ℕ) × (r ≡ sealed_at b m) × (is_valid P r ≡ true)
  unfolding mine_block is_valid calculate_hash
  mine_block-is_valid fuel b r e =
      let (m, same, hit) = search_nonce-found fuel 0 b r b.hash e in
      (m, same, rw (same, text_eq_refl, hit, text_eq_refl))

  -- Where SHA-256 gives 32 bytes, mining a block of a difficulty above 64 ends with no fuel.
  mine_block-diverges :
      (fuel : ℕ) (b : Block)
      → ((s : Text) → length (P.digest s) ≡ 32)
      → 64 < b.difficulty
      → mine_block P fuel b ≡ none
  unfolding mine_block
  mine_block-diverges fuel b digest high = search_nonce-none fuel 0 b b.hash λ n.
      elim (Bool-cases (succeeds_at b n)) [
        | inl hit ↦ absurd (
            omega (
              arith,
              meets_target-length (sealed_at b n).hash b.difficulty hit,
              length-calculate_hash (record (sealed_at b n) { hash = [] }) digest,
            ))
        | inr miss ↦ miss
      ]
