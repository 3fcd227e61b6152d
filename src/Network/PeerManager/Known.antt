-- ===== src/Network/PeerManager/Known.antt =====
-- The endpoints that src/network/peer_manager.cpp knows, after any history of its calls.
use personalblockchain.Prelude.{
  ℕ, suc, zero, ◌≡◌, refl, ap, sym, ◌∙◌, inl, inr, Bool-cases, Bool, true, false, not, ◌&&◌, ◌||◌,
  List, [], ◌∷◌, ◌++◌, Text, is_empty, text_eq, text_eq_iff, length, take, keep, arith, any-append,
  min, length-take,
}
use mathlib.Core.List.{Permᴰ}
use mathlib.Core.List.Permᴰ.{nil, cons, swap, trans}
use personalblockchain.Network.PeerManager.{
  PeerManager, empty_manager, is_among, push_new, add_known_peer, merged, merge_known_peers,
  has_peer, is_quarantined, get_random_peers, mark_dial_attempt, quarantine_peer,
}

-- Every endpoint stands once.
abbrev pub AreDistinct : List Text → Type 0
AreDistinct [] = Unit {0}
AreDistinct (p ∷ ps) = (is_among p ps ≡ false) × AreDistinct ps

pub is_among-push_new :
    (e p : Text) (known : List Text)
    → is_among e (push_new p known) ≡ (is_among e known || text_eq p e)
is_among-push_new e p known =
    ground (arith, any-append (λ q. text_eq q e) known (p ∷ []), text_eq_iff p e)

pub is_empty-text_eq : (p e : Text) → text_eq p e ≡ true → is_empty p ≡ is_empty e
is_empty-text_eq p e h = ap is_empty ((text_eq_iff p e).0 h)

is_among-merged :
    (e : Text) (peers known : List Text)
    → is_among e (merged peers known) ≡ (is_among e known || (not (is_empty e) && is_among e peers))
unfolding merged
is_among-merged e [] known = ground arith
is_among-merged e (p ∷ peers) known = ground (
  arith,
  is_among-merged e peers known,
  is_among-merged e peers (push_new p known),
  is_among-push_new e p known,
  text_eq_iff p e,
  is_empty-text_eq p e,
)

-- A merge makes exactly the endpoints of the list known, the empty one left out.
has_peer-merge_known_peers :
    (e : Text) (peers : List Text) (pm : PeerManager)
    → has_peer e (merge_known_peers peers pm)
      ≡ (has_peer e pm || (not (is_empty e) && is_among e peers))
unfolding has_peer merge_known_peers
has_peer-merge_known_peers e peers pm = is_among-merged e peers pm.known_peers

-- The shuffle only changes the order.
abbrev IsShuffle : (List Text → List Text) → Type 0
IsShuffle shuffle = (xs : List Text) → Permᴰ (shuffle xs) xs

is_among-Permᴰ : (e : Text) {xs ys : List Text} → Permᴰ xs ys → is_among e xs ≡ is_among e ys
is_among-Permᴰ e nil = refl
is_among-Permᴰ e (cons {a} {b} same d) = rw (same, is_among-Permᴰ e d) refl
is_among-Permᴰ e (swap {a} {b} {a'} {b'} same same') = rw (same, same') (ground arith)
is_among-Permᴰ e (trans d d') = is_among-Permᴰ e d ∙ is_among-Permᴰ e d'

length-Permᴰ : {xs ys : List Text} → Permᴰ xs ys → length xs ≡ length ys
length-Permᴰ nil = refl
length-Permᴰ (cons same d) = ap suc (length-Permᴰ d)
length-Permᴰ (swap same same') = refl
length-Permᴰ (trans d d') = length-Permᴰ d ∙ length-Permᴰ d'

is_among-keep :
    (e : Text) (p : Text → Bool) (xs : List Text) → is_among e (keep p xs) ≡ (is_among e xs && p e)
is_among-keep e p [] = refl
is_among-keep e p (x ∷ xs) = elim (Bool-cases (text_eq x e)) [
  | inl same ↦
      let equal : x ≡ e = (text_eq_iff x e).0 same in
      let passes : p x ≡ p e = ap p equal in ground (arith, is_among-keep e p xs)
  | inr other ↦ ground (arith, is_among-keep e p xs)
]

is_among-take :
    (e : Text) (n : ℕ) (xs : List Text) → is_among e (take n xs) ≡ true → is_among e xs ≡ true
is_among-take e zero xs h = absurd (cc)
is_among-take e (suc n) [] h = h
is_among-take e (suc n) (x ∷ xs) h = ground (arith, is_among-take e n xs)

abbrev pub candidates : ℕ → List Text → PeerManager → List Text
candidates now exclude pm =
    keep (λ p. not (is_among p exclude) && not (is_quarantined now p pm)) pm.known_peers

-- The peers that are picked at random are known, not excluded and not in quarantine, and they are as
-- many as there are of these, up to the count that was asked for, if the shuffle only changes the
-- order.
get_random_peers-candidates :
    (shuffle : List Text → List Text) (now max_count : ℕ) (exclude : List Text) (pm : PeerManager)
    → IsShuffle shuffle
    → ((e : Text)
        → is_among e (get_random_peers shuffle now max_count exclude pm) ≡ true
        → (has_peer e pm ≡ true) × (is_among e exclude ≡ false) × (is_quarantined now e pm ≡ false))
      × (length (get_random_peers shuffle now max_count exclude pm)
          ≡ min max_count (length (candidates now exclude pm)))
unfolding get_random_peers has_peer
get_random_peers-candidates shuffle now max_count exclude pm s =
    let found = candidates now exclude pm in
    let size = length-Permᴰ (s found) in
    (
      λ e h.
          let all_found : is_among e found ≡ true =
            sym (is_among-Permᴰ e (s found))
            ∙ ground (arith, is_among-take e max_count (shuffle found)) in
          let kept =
            is_among-keep e (λ p. not (is_among p exclude) && not (is_quarantined now p pm))
              pm.known_peers in
          ground arith,
      ground (arith, length-take max_count (shuffle found)),
    )

-- A history of calls on the list of endpoints.
pub data Reach : PeerManager → Type 0 where
  starts : Reach empty_manager
  adds : {pm : PeerManager} (endpoint : Text) → Reach pm → Reach (add_known_peer endpoint pm)
  merges : {pm : PeerManager} (peers : List Text) → Reach pm → Reach (merge_known_peers peers pm)
  dials :
      {pm : PeerManager} (now : ℕ) (endpoint : Text)
      → Reach pm
      → Reach (mark_dial_attempt now endpoint pm)
  quarantines :
      {pm : PeerManager} (now : ℕ) (endpoint : Text) (seconds : ℕ)
      → Reach pm
      → Reach (quarantine_peer now endpoint seconds pm)

AreDistinct-snoc :
    (p : Text) (known : List Text)
    → is_among p known ≡ false
    → AreDistinct known
    → AreDistinct (known ++ p ∷ [])
AreDistinct-snoc p [] h d = (refl, tt)
AreDistinct-snoc p (q ∷ known) h d = (
  ground (arith, any-append (λ x. text_eq x q) known (p ∷ []), text_eq_iff p q, text_eq_iff q p),
  AreDistinct-snoc p known (ground arith) d.1,
)

pub AreDistinct-push_new :
    (p : Text) (known : List Text) → AreDistinct known → AreDistinct (push_new p known)
AreDistinct-push_new p known d = elim (Bool-cases (is_among p known)) [
  | inl there ↦ rw there d
  | inr new ↦ rw new (AreDistinct-snoc p known new d)
]

AreDistinct-merged :
    (peers known : List Text) → AreDistinct known → AreDistinct (merged peers known)
unfolding merged
AreDistinct-merged [] known d = d
AreDistinct-merged (p ∷ peers) known d = elim (Bool-cases (is_empty p)) [
  | inl nothing ↦ rw nothing (AreDistinct-merged peers known d)
  | inr named ↦
      rw named (AreDistinct-merged peers (push_new p known) (AreDistinct-push_new p known d))
]

-- After any history of calls every known endpoint stands once in the list, and the empty endpoint
-- is not known.
Reach-AreDistinct :
    {pm : PeerManager} → Reach pm → AreDistinct pm.known_peers × (has_peer [] pm ≡ false)
unfolding add_known_peer has_peer merge_known_peers mark_dial_attempt quarantine_peer
Reach-AreDistinct starts = (tt, refl)
Reach-AreDistinct (adds {pm} endpoint r) =
    let (d, e) = Reach-AreDistinct r in
    elim (Bool-cases (is_empty endpoint)) [
      | inl nothing ↦ rw nothing (d, e)
      | inr named ↦ rw named (
        AreDistinct-push_new endpoint pm.known_peers d,
        ground (arith, is_among-push_new [] endpoint pm.known_peers, is_empty-text_eq endpoint []),
      )
    ]
Reach-AreDistinct (merges {pm} peers r) =
    let (d, e) = Reach-AreDistinct r in
    (
      AreDistinct-merged peers pm.known_peers d,
      ground (arith, is_among-merged [] peers pm.known_peers),
    )
Reach-AreDistinct (dials now endpoint r) = Reach-AreDistinct r
Reach-AreDistinct (quarantines now endpoint seconds r) = Reach-AreDistinct r
