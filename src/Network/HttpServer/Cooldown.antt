-- ===== src/Network/HttpServer/Cooldown.antt =====
-- src/network/http_server.cpp: the pause between two blocks that are mined for one address.
use personalblockchain.Prelude.{
  ℕ, ◌+◌, ◌*◌, ◌-◌, ◌/◌, ◌<◌, ◌≤◌, ◌≡◌, ◌≢◌, ◌⊎◌, inl, inr, refl, ap, ◌∙◌, subst, Option, some,
  none, Text, text_eq, arith, List, Bool-cases, Option-cases, not, ◌&&◌, codes,
}
use personalblockchain.Prelude.Map.{Set, lookup, insert, lookup-insert, lookup-insert_self}
use personalblockchain.Platform.{Platform}
use personalblockchain.Json.{Json}
use personalblockchain.Consensus.{Engine}
use personalblockchain.Blockchain.{Storage, mine_pending_transactions}
use personalblockchain.Network.HttpServer.{HttpServer, Moment}
use personalblockchain.Network.HttpServer.Requests.{
  HttpRequest, Received, received, invalid_length, too_large, split_headers, receive,
}
use personalblockchain.Network.HttpServer.Responses.{HttpResponse, error_response}
use personalblockchain.Wallet.{is_valid_wallet_address}
use personalblockchain.Network.HttpServer.Sending.{
  submit, check_tx_id, take_send_request, handle_send_transaction,
}
use personalblockchain.Network.HttpServer.Mining.{
  mine_for, cooldown, cooldown_active, invalid_miner, try_mine, handle_mine, read_miner,
}
use personalblockchain.Network.HttpServer.Untouched.{
  handle_create_wallet-KeepsNode, handle_import_wallet-KeepsNode, handle_wallet_login-KeepsNode,
  handle_login_challenge-KeepsNode, handle_verify_login-KeepsNode, handle_get-KeepsNode,
}
use personalblockchain.Network.HttpServer.Routing.{handle_request}
use personalblockchain.Network.HttpServer.Connections.{reply_to, handle_connection}
use personalblockchain.Network.HttpServer.Session.{Session, starts, answers, hears, goes_on}

module _ {J : Type 0} {D : Type 0} (json : Json J) (P : Platform) (engine : Option Engine)
    (storage : Option (Storage D)) (m : Moment) where
  -- What an answer does to the times of the last blocks: nothing, or one is set.
  abbrev Marks : {A : Type 0} → HttpServer J D → Option (HttpServer J D × A) → Type 0
  Marks s none = Unit {0}
  Marks s (some (after, answer)) =
      (after.last_mine_at ≡ s.last_mine_at)
      ⊎ ((miner : Text) × (after.last_mine_at ≡ insert miner m.sealed s.last_mine_at))

  handle_send_transaction-last_mine_at :
      (body : Text) (s : HttpServer J D)
      → (handle_send_transaction json P m body s).0.last_mine_at ≡ s.last_mine_at
  unfolding handle_send_transaction take_send_request check_tx_id submit
  handle_send_transaction-last_mine_at body s = ground arith

  mine_for-Marks :
      (miner : Text) (s : HttpServer J D) → Marks s (mine_for json P engine storage m miner s)
  unfolding mine_for
  mine_for-Marks miner s =
      elim (Option-cases (
        mine_pending_transactions P engine storage m.clock.system m.later m.fuel s.node.blockchain
          miner)) [
            | inl out ↦ rw (out, mine_for) tt
            | inr (mined, e) ↦ rw (e, mine_for) (inr (miner, refl))
          ]

  handle_mine-Marks :
      (body path : Text) (s : HttpServer J D)
      → Marks s (handle_mine json P engine storage m body path s)
  unfolding handle_mine try_mine
  handle_mine-Marks body path s = elim (Option-cases (read_miner json body path)) [
    | inl out ↦ rw (out, handle_mine) (inl refl)
    | inr (miner, read) ↦ rw (read, handle_mine) (ground (arith, mine_for-Marks miner s))
  ]

  handle_request-Marks :
      (req : HttpRequest) (s : HttpServer J D)
      → Marks s (handle_request json P engine storage m req s)
  unfolding handle_request
  handle_request-Marks req s = ground (
    arith,
    handle_create_wallet-KeepsNode json P m s,
    handle_import_wallet-KeepsNode json P m req.body s,
    handle_wallet_login-KeepsNode json P m req.body s,
    handle_login_challenge-KeepsNode json P m req.body s,
    handle_verify_login-KeepsNode json P m req.body s,
    handle_send_transaction-last_mine_at req.body s,
    handle_mine-Marks req.body req.path s,
    handle_get-KeepsNode json P m req s,
  )

  reply_to-Marks :
      (got : Received) (s : HttpServer J D) → Marks s (reply_to json P engine storage m got s)
  unfolding reply_to
  reply_to-Marks invalid_length s = inl refl
  reply_to-Marks too_large s = inl refl
  reply_to-Marks (received req) s =
      elim (Option-cases (handle_request json P engine storage m req s)) [
        | inl out ↦ rw (out, reply_to) tt
        | inr ((after, r), handled) ↦
            rw (handled, reply_to) (subst (Marks s) handled (handle_request-Marks req s))
      ]

  handle_connection-Marks :
      (incoming : ℕ → Option Text) (raw : Text) (s : HttpServer J D)
      → Marks s (handle_connection json P engine storage m incoming raw s)
  unfolding handle_connection
  handle_connection-Marks incoming raw s = elim (Option-cases (split_headers raw)) [
    | inl out ↦ rw (out, handle_connection) (inl refl)
    | inr ((headers, extra), split) ↦
        rw (split, handle_connection) (reply_to-Marks (receive incoming headers extra) s)
  ]

-- A block was mined for the address, at that time or later.
abbrev HasMined : {J D : Type 0} → Text → ℕ → HttpServer J D → Type 0
HasMined miner at s = (last : ℕ) × (lookup miner s.last_mine_at ≡ some last) × (at ≤ last)

insert-HasMined :
    {J D : Type 0} (miner other : Text) (at sealed : ℕ) (s after : HttpServer J D)
    → after.last_mine_at ≡ insert other sealed s.last_mine_at
    → at ≤ sealed
    → HasMined miner at s
    → HasMined miner at after
insert-HasMined miner other at sealed s after set order (last, found, later) =
    elim (Bool-cases (text_eq other miner)) [
      | inl same ↦ (sealed, rw (set, lookup-insert, same) refl, order)
      | inr differ ↦ (last, rw (set, lookup-insert, differ) found, later)
    ]

module _ {J : Type 0} {D : Type 0} (json : Json J) (P : Platform) (engine : Option Engine)
    (storage : Option (Storage D)) (shuffle : List Text → List Text)
    (listing : Set → List Text) where
  Session-le :
      {since : ℕ} {s : HttpServer J D} {now : ℕ} {after : HttpServer J D}
      → Session json P engine storage shuffle listing since s now after
      → since ≤ now
  Session-le starts = omega arith
  Session-le (answers m incoming raw reply after run order later e) = omega (arith, Session-le run)
  Session-le (hears clock id msg after run order e) = omega (arith, Session-le run)
  Session-le (goes_on after run q) = Session-le run

  Session-HasMined :
      {since : ℕ} {s : HttpServer J D} {now : ℕ} {after : HttpServer J D} (miner : Text) (at : ℕ)
      → Session json P engine storage shuffle listing since s now after
      → at ≤ since
      → HasMined miner at s
      → HasMined miner at after
  Session-HasMined miner at starts begun h = h
  Session-HasMined miner at (answers {mid} m incoming raw reply after run order later e) begun h =
      let before = Session-HasMined miner at run begun h in
      elim (subst (Marks json P engine storage m mid) e
        (handle_connection-Marks json P engine storage m incoming raw mid)) [
          | inl same ↦ (before.0, ap (lookup miner) same ∙ before.1, before.2)
          | inr (other, set) ↦
              insert-HasMined miner other at m.sealed mid after set (omega (arith, Session-le run))
                before
        ]
  Session-HasMined miner at (hears clock id msg after run order e) begun h =
      Session-HasMined miner at run begun h
  Session-HasMined miner at (goes_on after run q) begun h = Session-HasMined miner at run begun h

  mine_for-HasMined :
      (m : Moment) (miner : Text) (s after : HttpServer J D) (r : HttpResponse)
      → mine_for json P engine storage m miner s ≡ some (after, r)
      → HasMined miner m.sealed after
  unfolding mine_for
  mine_for-HasMined m miner s after r e =
      elim (Option-cases (
        mine_pending_transactions P engine storage m.clock.system m.later m.fuel s.node.blockchain
          miner)) [
            | inl out ↦ absurd (ground arith)
            | inr ((bc, block), mined) ↦
                let set : after.last_mine_at ≡ insert miner m.sealed s.last_mine_at =
                  ground arith in
                (
                  m.sealed,
                  ap (lookup miner) set ∙ lookup-insert_self miner m.sealed s.last_mine_at,
                  omega arith,
                )
          ]

  HasMined-cooldown :
      (now at : ℕ) (miner : Text) (s : HttpServer J D)
      → HasMined miner at s
      → now < at + 30 * 1_000_000_000
      → (remaining : ℕ) × (cooldown now s miner ≡ some remaining)
  unfolding cooldown
  HasMined-cooldown now at miner s (last, found, later) soon =
      (30 - (now - last) / 1_000_000_000, ground arith)

  -- Once a block was mined over HTTP for an address, a request to mine for it within 30 seconds is
  -- refused with nothing changed, whatever clients and peers do in between.
  pub try_mine-cooldown :
      (m later_m : Moment) (miner : Text) (s mid : HttpServer J D) (r : HttpResponse) {now : ℕ}
      {later : HttpServer J D}
      → mine_for json P engine storage m miner s ≡ some (mid, r)
      → Session json P engine storage shuffle listing m.sealed mid now later
      → later_m.clock.steady < m.sealed + 30 * 1_000_000_000
      → (refusal : HttpResponse) × (try_mine json P engine storage later_m miner later
          ≡ some (later, refusal))
        × (refusal.status_code ≢ 200)
  unfolding try_mine error_response
  try_mine-cooldown m later_m miner s mid r {now} {later} mined run soon =
      let known =
        Session-HasMined miner m.sealed run (omega arith)
          (mine_for-HasMined m miner s mid r mined) in
      let (remaining, active) =
        HasMined-cooldown later_m.clock.steady m.sealed miner later known soon in
      elim (Bool-cases
        (not (text_eq miner (codes "GENESIS")) && not (is_valid_wallet_address miner))) [
          | inl invalid ↦ (invalid_miner json, rw invalid refl, omega arith)
          | inr named ↦ (cooldown_active json remaining, rw (named, active) refl, omega arith)
        ]
