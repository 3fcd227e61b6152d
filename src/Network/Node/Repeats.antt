-- ===== src/Network/Node/Repeats.antt =====
-- What src/network/node.cpp does with a message that comes again.
use personalblockchain.Prelude.{
  ℕ, ◌-◌, ◌/◌, ◌<◌, ◌≡◌, refl, ap, ◌∙◌, true, false, some, inl, inr, [], ◌∷◌, Text, text_eq, ltb,
  arith, lt→ltb, Bool-cases, Option-cases,
}
use personalblockchain.Prelude.Map.{Map, lookup, insert, lookup-insert_self}
use personalblockchain.Platform.{Platform}
use personalblockchain.Json.{Json}
use personalblockchain.Network.Message.{Message}
use personalblockchain.Network.Node.{Node, Clock}
use personalblockchain.Network.Node.Dedup.{is_keep_alive, age, forget_older, dedup_key, deduplicate}

-- What was noted just now is not forgotten.
lookup-forget_older :
    (now window : ℕ) (k : Text) (m : Map ℕ)
    → lookup k m ≡ some now
    → lookup k (forget_older now window m) ≡ some now
unfolding lookup
lookup-forget_older now window k [] h = h
lookup-forget_older now window k ((j, t) ∷ m) h = elim (Bool-cases (text_eq j k)) [
  | inl here ↦
      let same : t ≡ now = ground arith in
      let young : ltb window ((now - t) / 1_000_000_000) ≡ false = ground (arith, same) in
      rw (young, here, same) refl
  | inr there ↦
      let rest : lookup k m ≡ some now = ground arith in
      let kept = lookup-forget_older now window k m rest in
      elim (Bool-cases (ltb window (age now t))) [
        | inl old ↦ rw old kept
        | inr young ↦ rw (young, there) kept
      ]
]

module _ {J : Type 0} {D : Type 0} (json : Json J) (P : Platform) where
  deduplicate-notes :
      (clock : Clock) (msg : Message J) (n : Node J D)
      → is_keep_alive msg.type ≡ false
      → (deduplicate json P clock msg n).1 ≡ true
      → lookup (dedup_key json P msg) (deduplicate json P clock msg n).0.message_dedup
        ≡ some clock.steady
  unfolding deduplicate
  deduplicate-notes clock msg n kind new =
      let key = dedup_key json P msg in
      let noted =
        lookup-forget_older clock.steady n.options.dedup_window_sec key
          (insert key clock.steady n.message_dedup)
          (lookup-insert_self key clock.steady n.message_dedup) in
      elim (Option-cases (lookup key n.message_dedup)) [
        | inl unknown ↦ rw (kind, unknown) noted
        | inr (t, known) ↦ elim (Bool-cases (ltb (age clock.steady t) n.options.dedup_window_sec)) [
          | inl young ↦ absurd (ground arith)
          | inr old ↦ rw (kind, known, old) noted
        ]
      ]

  -- A message that was new is dropped when one with the same type and payload comes within the
  -- window, from whichever peer, unless it is a ping or a pong, or the table of messages has changed
  -- in between.
  deduplicate-repeat :
      (first again : Clock) (msg : Message J) (n later : Node J D)
      → is_keep_alive msg.type ≡ false
      → (deduplicate json P first msg n).1 ≡ true
      → later.message_dedup ≡ (deduplicate json P first msg n).0.message_dedup
      → age again.steady first.steady < later.options.dedup_window_sec
      → deduplicate json P again msg later ≡ (later, false)
  unfolding deduplicate
  deduplicate-repeat first again msg n later kind new same young =
      let known : lookup (dedup_key json P msg) later.message_dedup ≡ some first.steady =
        ap (lookup (dedup_key json P msg)) same ∙ deduplicate-notes first msg n kind new in
      let within : ltb (age again.steady first.steady) later.options.dedup_window_sec ≡ true =
        lt→ltb (age again.steady first.steady) later.options.dedup_window_sec young in
      rw (kind, known, within) refl
