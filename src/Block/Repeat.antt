-- ===== src/Block/Repeat.antt =====
-- src/block/block.cpp hashes a last odd leaf with itself, so that a block whose last transaction
-- stands twice passes every check that the block with one copy passes.
use personalblockchain.Prelude.{
  ℕ, zero, suc, ◌*◌, ◌≤◌, ◌≡◌, refl, ap, Bool, List, [], ◌∷◌, ◌++◌, map, Text, arith, length,
  length-append, length-map, lt→ltb, all,
}
use mathlib.Core.List.{map-append}
use personalblockchain.Platform.{Platform}
use personalblockchain.Transaction
use personalblockchain.Transaction.{Transaction}
use personalblockchain.Block.{
  Block, leaf, next_level, build_tree, root_of, compute_merkle_root, calculate_hash, is_valid,
  has_valid_transactions,
}
use personalblockchain.Block.Merkle.{build_tree_fuel, length-next_level}

all_repeat :
    {A : Type 0} (p : A → Bool) (xs : List A) (x : A)
    → all p (xs ++ x ∷ x ∷ []) ≡ all p (xs ++ x ∷ [])
all_repeat p [] x = ground arith
all_repeat p (y ∷ xs) x = ground (arith, all_repeat p xs x)

module _ (P : Platform) where
  next_level_repeat :
      (n : ℕ) (hs : List Text) (h : Text)
      → length hs ≡ 2 * n
      → next_level P (hs ++ h ∷ h ∷ []) ≡ next_level P (hs ++ h ∷ [])
  unfolding next_level
  next_level_repeat n [] h e = refl
  next_level_repeat n (a ∷ []) h e = absurd (omega arith)
  next_level_repeat zero (a ∷ b ∷ hs) h e = absurd (omega arith)
  next_level_repeat (suc n) (a ∷ b ∷ hs) h e = rw (next_level_repeat n hs h (omega arith))

  -- One round does not see the fuel, as long as there is enough.
  build_tree-next_level :
      (fuel more : ℕ) (hs ks : List Text)
      → 2 ≤ length hs
      → length hs ≤ length ks
      → length hs ≤ fuel
      → length ks ≤ more
      → next_level P ks ≡ next_level P hs
      → build_tree P more ks ≡ build_tree P fuel hs
  unfolding build_tree
  build_tree-next_level zero more hs ks h l f m e = absurd (omega arith)
  build_tree-next_level (suc fuel) zero hs ks h l f m e = absurd (omega arith)
  build_tree-next_level (suc fuel) (suc more) hs ks h l f m e =
      rw (lt→ltb 1 (length hs) (omega arith), lt→ltb 1 (length ks) (omega arith), e)
        (build_tree_fuel P more fuel (next_level P hs) (omega (arith, length-next_level P hs))
          (omega (arith, length-next_level P hs)))

  -- A Merkle root does not change when the last of an odd number of transactions, three or more,
  -- is repeated.
  pub compute_merkle_root_repeat :
      (n : ℕ) (txs : List Transaction) (tx : Transaction)
      → length txs ≡ 2 * n
      → 1 ≤ n
      → compute_merkle_root P (txs ++ tx ∷ tx ∷ []) ≡ compute_merkle_root P (txs ++ tx ∷ [])
  unfolding compute_merkle_root
  compute_merkle_root_repeat n [] tx e h = absurd (omega arith)
  compute_merkle_root_repeat n (t ∷ txs) tx e h =
      let leaves = map (leaf P) (t ∷ txs) in
      let h' = leaf P tx in
      let even : length leaves ≡ 2 * n = omega (arith, length-map (t ∷ txs) (leaf P)) in
      rw (map-append (leaf P) (t ∷ txs) (tx ∷ []), map-append (leaf P) (t ∷ txs) (tx ∷ tx ∷ []))
        (ap (root_of P) (
          build_tree-next_level _ _ (leaves ++ h' ∷ []) (leaves ++ h' ∷ h' ∷ [])
            (omega (arith, length-append leaves (h' ∷ [])))
            (omega (arith, length-append leaves (h' ∷ []), length-append leaves (h' ∷ h' ∷ [])))
            (omega (
              arith,
              length-append leaves (h' ∷ []),
              length-append (t ∷ txs) (tx ∷ []),
              length-map (t ∷ txs) (leaf P),
            ))
            (omega (
              arith,
              length-append leaves (h' ∷ h' ∷ []),
              length-append (t ∷ txs) (tx ∷ tx ∷ []),
              length-map (t ∷ txs) (leaf P),
            ))
            (next_level_repeat n leaves h' even)))

  -- A block whose last transaction, in an odd number of three or more, is written twice passes the
  -- block check and the transaction check exactly when the block with one copy does.
  pub is_valid_repeat :
      (n : ℕ) (b : Block) (txs : List Transaction) (tx : Transaction)
      → length txs ≡ 2 * n
      → 1 ≤ n
      → let once = record b { transactions = txs ++ tx ∷ [] } in
        let twice = record b { transactions = txs ++ tx ∷ tx ∷ [] } in
        (is_valid P twice ≡ is_valid P once)
        × (has_valid_transactions P twice ≡ has_valid_transactions P once)
  unfolding is_valid has_valid_transactions calculate_hash
  is_valid_repeat n b txs tx e h =
      (rw (compute_merkle_root_repeat n txs tx e h), all_repeat (Transaction.verify P) txs tx)
