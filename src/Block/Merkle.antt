-- ===== src/Block/Merkle.antt =====
-- The Merkle tree of src/block/block.cpp: the loop ends with one hash, which is the root of a tree,
-- and a list with a repeated end has the same root as the list without it.
use personalblockchain.Prelude.{
  ℕ, zero, suc, ◌+◌, ◌*◌, ◌/◌, ◌^◌, ◌≤◌, ◌≡◌, refl, sym, ap, ◌∙◌, List, [], ◌∷◌, ◌++◌, map, Text,
  arith, length, length-append, ltb, lt→ltb, true, length-map,
}
use native.Mathlib.Nat.{pow-suc}
use personalblockchain.Platform.{Platform}
use personalblockchain.Crypto.{sha256}
use personalblockchain.Transaction.{Transaction}
use personalblockchain.Block.{leaf, next_level, build_tree, root_of, compute_merkle_root}

module _ (P : Platform) where
  -- A level has half as many hashes, rounded up.
  pub length-next_level : (hs : List Text) → length (next_level P hs) ≡ (length hs + 1) / 2
  unfolding next_level
  length-next_level [] = omega arith
  length-next_level (a ∷ []) = omega arith
  length-next_level (a ∷ b ∷ r) = omega (arith, length-next_level r)

  -- With as much fuel as there are hashes the loop leaves exactly one of one or more.
  pub length-build_tree :
      (fuel : ℕ) (hs : List Text)
      → 1 ≤ length hs
      → length hs ≤ fuel
      → length (build_tree P fuel hs) ≡ 1
  unfolding build_tree
  length-build_tree zero hs h k = absurd (omega arith)
  length-build_tree (suc fuel) hs h k =
      ground (arith, length-next_level hs, length-build_tree fuel (next_level P hs))

  pub build_tree_fuel :
      (fuel more : ℕ) (hs : List Text)
      → length hs ≤ fuel
      → length hs ≤ more
      → build_tree P fuel hs ≡ build_tree P more hs
  unfolding build_tree
  build_tree_fuel zero zero hs h k = refl
  build_tree_fuel zero (suc more) [] h k = refl
  build_tree_fuel zero (suc more) (a ∷ r) h k = absurd (omega arith)
  build_tree_fuel (suc fuel) zero [] h k = refl
  build_tree_fuel (suc fuel) zero (a ∷ r) h k = absurd (omega arith)
  build_tree_fuel (suc fuel) (suc more) hs h k =
      ground (arith, length-next_level hs, build_tree_fuel fuel more (next_level P hs))

-- A full binary tree of texts, all its tips at one depth.
pub data Tree : ℕ → Type 0 where
  tip : Text → Tree zero
  fork : {k : ℕ} → Tree k → Tree k → Tree (suc k)

unfoldable pub leaves : {k : ℕ} → Tree k → List Text
leaves (tip h) = h ∷ []
leaves (fork l r) = leaves l ++ leaves r

length-leaves : {k : ℕ} (t : Tree k) → length (leaves t) ≡ 2 ^ k
unfolding leaves
length-leaves (tip h) = refl
length-leaves (fork {k} l r) =
    omega
      (arith, length-append (leaves l) (leaves r), length-leaves l, length-leaves r, pow-suc 2 k)

pow_pos : (k : ℕ) → 1 ≤ 2 ^ k
pow_pos zero = omega arith
pow_pos (suc k) = omega (arith, pow_pos k, pow-suc 2 k)

module _ (P : Platform) where
  -- The hash of a tree, from its tips up.
  pub tree_hash : {k : ℕ} → Tree k → Text
  tree_hash (tip h) = h
  tree_hash (fork l r) = sha256 P (tree_hash l ++ tree_hash r)

  -- The tree one level up.
  halve : {k : ℕ} → Tree (suc k) → Tree k
  halve {k = zero} (fork (tip a) (tip b)) = tip (sha256 P (a ++ b))
  halve {k = suc k} (fork l r) = fork (halve l) (halve r)

  tree_hash-halve : {k : ℕ} (t : Tree (suc k)) → tree_hash (halve t) ≡ tree_hash t
  unfolding tree_hash halve
  tree_hash-halve {k = zero} (fork (tip a) (tip b)) = refl
  tree_hash-halve {k = suc k} (fork l r) = rw (tree_hash-halve l, tree_hash-halve r)

  next_level-append :
      (n : ℕ) (xs ys : List Text)
      → length xs ≡ 2 * n
      → next_level P (xs ++ ys) ≡ next_level P xs ++ next_level P ys
  unfolding next_level
  next_level-append n [] ys e = refl
  next_level-append n (a ∷ []) ys e = absurd (omega arith)
  next_level-append zero (a ∷ b ∷ xs) ys e = absurd (omega arith)
  next_level-append (suc n) (a ∷ b ∷ xs) ys e = rw (next_level-append n xs ys (omega arith))

  leaves-halve : {k : ℕ} (t : Tree (suc k)) → leaves (halve t) ≡ next_level P (leaves t)
  unfolding leaves halve next_level
  leaves-halve {k = zero} (fork (tip a) (tip b)) = refl
  leaves-halve {k = suc k} (fork l r) =
      rw (leaves-halve l, leaves-halve r)
        (sym (
          next_level-append (2 ^ k) (leaves l) (leaves r)
            (omega (arith, length-leaves l, pow-suc 2 k))))

  build_tree-leaves :
      (k fuel : ℕ) (t : Tree k)
      → 2 ^ k ≤ fuel
      → root_of P (build_tree P fuel (leaves t)) ≡ tree_hash t
  unfolding build_tree tree_hash root_of leaves
  build_tree-leaves zero zero (tip a) h = refl
  build_tree-leaves zero (suc fuel) (tip a) h = refl
  build_tree-leaves (suc k) zero t h = absurd (omega (arith, pow_pos (suc k)))
  build_tree-leaves (suc k) (suc fuel) t h =
      let many : ltb 1 (length (leaves t)) ≡ true =
        lt→ltb _ _ (omega (arith, length-leaves t, pow-suc 2 k, pow_pos k)) in
      rw many (
        rw (← leaves-halve t) (
          build_tree-leaves k fuel (halve t) (omega (arith, pow-suc 2 k, pow_pos k))
          ∙ tree_hash-halve t))

  -- Where the number of transactions is a power of two, the Merkle root is the hash of the full
  -- binary tree over their leaves.
  compute_merkle_root-tree_hash :
      (k : ℕ) (t : Tree k) (tx : Transaction) (txs : List Transaction)
      → map (leaf P) (tx ∷ txs) ≡ leaves t
      → compute_merkle_root P (tx ∷ txs) ≡ tree_hash t
  unfolding compute_merkle_root
  compute_merkle_root-tree_hash k t tx txs e = rw e (
      build_tree-leaves k (length (tx ∷ txs)) t
        (omega (arith, ap length e, length-map (tx ∷ txs) (leaf P), length-leaves t)))
