-- ===== src/Network/ConnectionManager/Slots.antt =====
-- The connections of a node (`connectToPeer`, `doAccept` and `removePeer` of src/network/node.cpp) as
-- the counts of src/network/connection_manager.cpp see them. A dial asks for a slot when it starts
-- and takes one when it is done, and many can be under way; an accepted connection asks and takes in
-- one step. What `connectToPeer` asks of the endpoint itself (its port, its score, its quarantine, and
-- whether it is connected) is left out.
use personalblockchain.Prelude.{
  ℕ, suc, zero, ◌+◌, ◌≤◌, ◌<◌, ◌≡◌, refl, ap, ◌∙◌, true, false, none, inl, inr, List, [], ◌∷◌, ◌++◌,
  Text, text_eq, text_eq_iff, length, ltb→lt, replicate, arith, if◌then◌else◌, Bool-cases,
}
use personalblockchain.Prelude.Map.{Map, lookup, insert, erase, lookup-insert}
use personalblockchain.Network.ConnectionManager.{
  ConnectionDirection, inbound, outbound, same_direction, ConnectionManager, new_manager, count_of,
  inbound_count, outbound_count, can_accept, register_connection, unregister_connection,
}

-- A node's table, and the endpoints that it dials.
pub record Slots : Type 0 where
  pub table : ConnectionManager
  pub dialing : List Text

pub data Step : Slots → Slots → Type 0 where
  dials :
      (s : Slots) (endpoint : Text)
      → can_accept outbound s.table ≡ true
      → Step s (record s { dialing = endpoint ∷ s.dialing })
  connects :
      (s : Slots) (before : List Text) (endpoint : Text) (after : List Text)
      → s.dialing ≡ before ++ endpoint ∷ after
      → Step s (record s {
        table = register_connection endpoint outbound s.table;
        dialing = before ++ after;
      })
  fails :
      (s : Slots) (before : List Text) (endpoint : Text) (after : List Text)
      → s.dialing ≡ before ++ endpoint ∷ after
      → Step s (record s { dialing = before ++ after })
  accepts :
      (s : Slots) (endpoint : Text)
      → can_accept inbound s.table ≡ true
      → Step s (record s { table = register_connection endpoint inbound s.table })
  removes :
      (s : Slots) (endpoint : Text)
      → Step s (record s { table = unregister_connection endpoint s.table })

pub data Reach (max_outbound max_inbound : ℕ) : Slots → Type 0 where
  starts :
      Reach max_outbound max_inbound
        (record { table = new_manager max_outbound max_inbound; dialing = [] })
  steps :
      {s t : Slots} → Reach max_outbound max_inbound s → Step s t → Reach max_outbound max_inbound t

pub count_of-insert :
    (d : ConnectionDirection) (k : Text) (v : ConnectionDirection) (m : Map ConnectionDirection)
    → count_of d (insert k v m) ≤ (if same_direction v d then suc (count_of d m) else count_of d m)
unfolding insert
count_of-insert d k v [] = ground arith
count_of-insert d k v ((j, w) ∷ m) = ground (arith, count_of-insert d k v m)

count_of-erase :
    (d : ConnectionDirection) (k : Text) (m : Map ConnectionDirection)
    → count_of d (erase k m) ≤ count_of d m
unfolding erase
count_of-erase d k [] = ground arith
count_of-erase d k ((j, w) ∷ m) = ground (arith, count_of-erase d k m)

-- The bound is kept by every step, and the limit is the one the node started with.
Step-inbound :
    (max_inbound : ℕ) {s t : Slots}
    → Step s t
    → s.table.max_inbound_peers ≡ max_inbound
    → inbound_count s.table ≤ max_inbound
    → (t.table.max_inbound_peers ≡ max_inbound) × (inbound_count t.table ≤ max_inbound)
unfolding inbound_count can_accept register_connection unregister_connection
Step-inbound max_inbound (dials s endpoint h) e b = (e, b)
Step-inbound max_inbound (connects s before endpoint after h) e b =
    (e, omega (arith, count_of-insert inbound endpoint outbound s.table.peers))
Step-inbound max_inbound (fails s before endpoint after h) e b = (e, b)
Step-inbound max_inbound (accepts s endpoint h) e b =
    let room = ltb→lt (count_of inbound s.table.peers) s.table.max_inbound_peers h in
    (e, omega (arith, room, e, count_of-insert inbound endpoint inbound s.table.peers))
Step-inbound max_inbound (removes s endpoint) e b =
    (e, omega (arith, count_of-erase inbound endpoint s.table.peers))

Reach-limits :
    {max_outbound max_inbound : ℕ} {s : Slots}
    → Reach max_outbound max_inbound s
    → (s.table.max_inbound_peers ≡ max_inbound) × (inbound_count s.table ≤ max_inbound)
unfolding inbound_count
Reach-limits starts = (refl, omega arith)
Reach-limits {max_outbound} {max_inbound} (steps r step) =
    let (e, b) = Reach-limits r in Step-inbound max_inbound step e b

-- After any history of dials, accepted connections and removals the inbound connections are at most
-- as many as the limit.
Reach-inbound_count :
    {max_outbound max_inbound : ℕ} {s : Slots}
    → Reach max_outbound max_inbound s
    → inbound_count s.table ≤ max_inbound
Reach-inbound_count r = (Reach-limits r).1

-- Distinct endpoints, and the dials to the first of them.
abbrev name : ℕ → Text
name n = replicate (suc n) b'a'

abbrev names : ℕ → List Text
names zero = []
names (suc n) = name n ∷ names n

length-replicate : (n c : ℕ) → length (replicate n c) ≡ n
length-replicate zero c = refl
length-replicate (suc n) c = ap suc (length-replicate n c)

name_ne : (n m : ℕ) → m < n → text_eq (name n) (name m) ≡ false
name_ne n m h = elim (Bool-cases (text_eq (name n) (name m))) [
  | inl same ↦
      let equal = ap length ((text_eq_iff (name n) (name m)).0 same) in
      absurd (omega (arith, equal, length-replicate (suc n) b'a', length-replicate (suc m) b'a', h))
  | inr other ↦ other
]

count_of-insert_new :
    (d : ConnectionDirection) (k : Text) (m : Map ConnectionDirection)
    → lookup k m ≡ none
    → count_of d (insert k d m) ≡ suc (count_of d m)
unfolding insert lookup
count_of-insert_new d k [] h = ground arith
count_of-insert_new d k ((j, w) ∷ m) h = ground (arith, count_of-insert_new d k m)

dial_all :
    (max_outbound max_inbound n : ℕ)
    → 0 < max_outbound
    → Reach max_outbound max_inbound
        (record { table = new_manager max_outbound max_inbound; dialing = names n })
unfolding can_accept
dial_all max_outbound max_inbound zero h = starts
dial_all max_outbound max_inbound (suc n) h =
    steps (dial_all max_outbound max_inbound n h) (dials _ (name n) (ground arith))

connect_all :
    {max_outbound max_inbound : ℕ} (n count : ℕ) (s : Slots)
    → Reach max_outbound max_inbound s
    → s.dialing ≡ names n
    → ((i : ℕ) → i < n → lookup (name i) s.table.peers ≡ none)
    → outbound_count s.table ≡ count
    → (t : Slots) × Reach max_outbound max_inbound t × (outbound_count t.table ≡ count + n)
unfolding outbound_count register_connection
connect_all zero count s r d new c = (s, r, omega arith)
connect_all (suc n) count s r d new c =
    let (t, reached, counted) =
      connect_all n (suc count)
        (record s { table = register_connection (name n) outbound s.table; dialing = names n })
        (steps r (connects s [] (name n) (names n) d)) refl
        (λ i h.
          rw (lookup-insert (name n) (name i) outbound s.table.peers, name_ne n i h)
            (new i (omega arith)))
        (count_of-insert_new outbound (name n) s.table.peers (new n (omega arith)) ∙ ap suc c) in
    (t, reached, omega arith)

-- The limit on outbound connections does not hold: from a limit of 1 on, any number of them can
-- come about, since a dial that ends takes its slot without asking again.
Reach-outbound_count :
    (max_outbound max_inbound n : ℕ)
    → 0 < max_outbound
    → (s : Slots) × Reach max_outbound max_inbound s × (outbound_count s.table ≡ n)
unfolding outbound_count lookup
Reach-outbound_count max_outbound max_inbound n h =
    let (s, reached, counted) =
      connect_all n 0 _ (dial_all max_outbound max_inbound n h) refl (λ i e. refl) refl in
    (s, reached, omega arith)
