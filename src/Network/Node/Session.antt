-- ===== src/Network/Node/Session.antt =====
-- What peers can do to a node (`handleMessage` of src/network/node.cpp).
use personalblockchain.Prelude.{
  ℕ, ◌≡◌, refl, sym, subst, ◌⊎◌, ◌↔◌, inl, inr, true, false, Option, none, List, [], Text, codes,
  Bool-cases,
}
use personalblockchain.Prelude.Map.{Set}
use personalblockchain.Platform.{Platform}
use personalblockchain.Json.{Json}
use personalblockchain.Consensus.{Engine}
use personalblockchain.Blockchain.{Storage}
use personalblockchain.Blockchain.History as History
use personalblockchain.Network.Message.{Message, register_node}
use personalblockchain.Network.PeerScorer.{is_banned}
use personalblockchain.Network.Node.{Node, returns, throws, deadlocks, Clock}
use personalblockchain.Network.Node.Peers.{
  get_endpoint, is_rate_limited, update_peer, remove_peer, refresh_metrics,
}
use personalblockchain.Network.Node.Dedup.{deduplicate}
use personalblockchain.Network.Node.Learning.{on_register_node}
use personalblockchain.Network.Node.ChainMessages.{penalty_invalid_tx}
use personalblockchain.Network.Node.Handlers.{dispatch, process, handle_message}
use personalblockchain.Network.Node.Untouched.{penalize-blockchain}
use personalblockchain.Network.Node.Quiet.{Quiet, Quiet-blockchain}
use personalblockchain.Network.Node.Safety.{Keeps, process-Keeps}

module _ {J : Type 0} {D : Type 0} (json : Json J) (P : Platform) (engine : Option Engine)
    (storage : Option (Storage D)) (shuffle : List Text → List Text) (listing : Set → List Text)
    (clock : Clock) where
  handle_message-Keeps :
      (id : ℕ) (msg : Message J) (n : Node J D)
      → is_banned (get_endpoint (n.sockets id)) n.peer_scorer ≡ false
      → Keeps P engine storage n.blockchain
          (handle_message json P engine storage shuffle listing clock id msg n)
  unfolding handle_message
  handle_message-Keeps id msg n allowed =
      let limited = is_rate_limited clock.steady 100 (n.sockets id) in
      let counted = update_peer id (λ p. limited.0) n in
      let key = get_endpoint (n.sockets id) in
      elim (Bool-cases limited.1) [
        | inl many ↦
            rw (allowed, many)
              (inl (penalize-blockchain clock.steady key penalty_invalid_tx counted))
        | inr few ↦
            rw (allowed, few)
              (process-Keeps json P engine storage shuffle listing clock id key msg counted)
      ]

  handle_message-banned :
      (id : ℕ) (msg : Message J) (n : Node J D)
      → is_banned (get_endpoint (n.sockets id)) n.peer_scorer ≡ true
      → handle_message json P engine storage shuffle listing clock id msg n ≡ deadlocks
  unfolding handle_message remove_peer refresh_metrics
  handle_message-banned id msg n banned = rw banned refl

  -- The handler comes to stand still, at a mutex that its own thread holds, exactly when the peer
  -- that sent the message is banned.
  handle_message-deadlocks_iff :
      (id : ℕ) (msg : Message J) (n : Node J D)
      → (handle_message json P engine storage shuffle listing clock id msg n ≡ deadlocks)
        ↔ (is_banned (get_endpoint (n.sockets id)) n.peer_scorer ≡ true)
  handle_message-deadlocks_iff id msg n = (
    λ e. elim (Bool-cases (is_banned (get_endpoint (n.sockets id)) n.peer_scorer)) [
      | inl banned ↦ banned
      | inr allowed ↦
          absurd
            (subst (Keeps P engine storage n.blockchain) e (handle_message-Keeps id msg n allowed))
    ],
    handle_message-banned id msg n,
  )

  -- A registration in which the endpoint cannot be read as a text ends the handler with an exception
  -- that nothing catches, if the peer is neither banned nor above its rate and the message is new.
  handle_message-throws :
      (id : ℕ) (payload : J) (n : Node J D)
      → let msg : Message J = record { type = register_node; payload = payload } in
        let limited = is_rate_limited clock.steady 100 (n.sockets id) in
        is_banned (get_endpoint (n.sockets id)) n.peer_scorer ≡ false
        → limited.1 ≡ false
        → (deduplicate json P clock msg (update_peer id (λ p. limited.0) n)).1 ≡ true
        → json.value_text payload (codes "endpoint") [] ≡ none
        → handle_message json P engine storage shuffle listing clock id msg n ≡ throws
  unfolding handle_message process dispatch on_register_node
  handle_message-throws id payload n allowed few new out =
      rw (allowed, handle_message, few, process, new, dispatch, out, on_register_node) refl

-- A node in the course of its events, one behind the other: messages from whichever peers,
-- connections and timers, at whatever times.
module _ {J : Type 0} {D : Type 0} (json : Json J) (P : Platform) (engine : Option Engine)
    (storage : Option (Storage D)) (shuffle : List Text → List Text)
    (listing : Set → List Text) where
  pub data Session (n : Node J D) : Node J D → Type 0 where
    starts : Session n n
    handles :
        {mid : Node J D} (clock : Clock) (id : ℕ) (msg : Message J) (after : Node J D)
        → Session n mid
        → handle_message json P engine storage shuffle listing clock id msg mid ≡ returns after
        → Session n after
    goes_on :
        {mid : Node J D} (after : Node J D)
        → Session n mid
        → Quiet json P shuffle mid after
        → Session n after

  pub handled-Evolves :
      (clock : Clock) (id : ℕ) (msg : Message J) (n after : Node J D)
      → handle_message json P engine storage shuffle listing clock id msg n ≡ returns after
      → (after.blockchain ≡ n.blockchain)
        ⊎ History.Step P engine storage n.blockchain after.blockchain
  handled-Evolves clock id msg n after e =
      elim (Bool-cases (is_banned (get_endpoint (n.sockets id)) n.peer_scorer)) [
        | inl banned ↦
            let stuck =
              handle_message-banned json P engine storage shuffle listing clock id msg n banned in
            absurd (cc)
        | inr allowed ↦
            subst (Keeps P engine storage n.blockchain) e
              (handle_message-Keeps json P engine storage shuffle listing clock id msg n allowed)
      ]

  -- Whatever messages a node handles, whichever connections it makes and whichever timers fire,
  -- what becomes of its chain, ledger and mempool can come about by calls of the chain alone, if
  -- what it had before can.
  Session-Reach :
      {n after : Node J D}
      → Session n after
      → History.Reach P engine storage n.blockchain
      → History.Reach P engine storage after.blockchain
  Session-Reach starts r = r
  Session-Reach (handles {mid} clock id msg after s e) r =
      elim (handled-Evolves clock id msg mid after e) [
        | inl same ↦ subst (History.Reach P engine storage) (sym same) (Session-Reach s r)
        | inr step ↦ History.Reach.steps (Session-Reach s r) step
      ]
  Session-Reach (goes_on after s q) r =
      subst (History.Reach P engine storage) (sym (Quiet-blockchain json P shuffle q))
        (Session-Reach s r)
