-- ===== src/Network/HttpServer/Session.antt =====
-- A node with its HTTP interface in the course of its events (src/network/http_server.cpp and
-- src/network/node.cpp), one behind the other.
use personalblockchain.Prelude.{ℕ, ◌≤◌, ◌≡◌, sym, subst, inl, inr, Option, some, List, Text}
use personalblockchain.Prelude.Map.{Set}
use personalblockchain.Platform.{Platform}
use personalblockchain.Json.{Json}
use personalblockchain.Consensus.{Engine}
use personalblockchain.Blockchain.{Blockchain, Storage}
use personalblockchain.Blockchain.History as History
use personalblockchain.Network.Message.{Message}
use personalblockchain.Network.Node.{Node, returns, Clock}
use personalblockchain.Network.Node.Handlers.{handle_message}
use personalblockchain.Network.Node.Quiet.{Quiet, Quiet-blockchain}
use personalblockchain.Network.Node.Safety.{Evolves}
use personalblockchain.Network.Node.Session.{handled-Evolves}
use personalblockchain.Network.HttpServer.{HttpServer, Moment}
use personalblockchain.Network.HttpServer.Connections.{handle_connection}
use personalblockchain.Network.HttpServer.Safety.{Serves, handle_connection-Serves}

module _ {J : Type 0} {D : Type 0} (json : Json J) (P : Platform) (engine : Option Engine)
    (storage : Option (Storage D)) (shuffle : List Text → List Text)
    (listing : Set → List Text) where
  -- From one state, at a time of the steady clock, to another: connections of clients, messages of
  -- peers, connections and timers of the node.
  pub data Session (since : ℕ) (s : HttpServer J D) : ℕ → HttpServer J D → Type 0 where
    starts : Session since s since s
    answers :
        {now : ℕ} {mid : HttpServer J D} (m : Moment) (incoming : ℕ → Option Text) (raw : Text)
        (reply : Option Text) (after : HttpServer J D)
        → Session since s now mid
        → now ≤ m.clock.steady
        → m.clock.steady ≤ m.sealed
        → handle_connection json P engine storage m incoming raw mid ≡ some (after, reply)
        → Session since s m.sealed after
    hears :
        {now : ℕ} {mid : HttpServer J D} (clock : Clock) (id : ℕ) (msg : Message J)
        (after : Node J D)
        → Session since s now mid
        → now ≤ clock.steady
        → handle_message json P engine storage shuffle listing clock id msg mid.node ≡ returns after
        → Session since s clock.steady (record mid { node = after })
    goes_on :
        {now : ℕ} {mid : HttpServer J D} (after : Node J D)
        → Session since s now mid
        → Quiet json P shuffle mid.node after
        → Session since s now (record mid { node = after })

  Evolves-Reach :
      {bc after : Blockchain D}
      → Evolves P engine storage bc after
      → History.Reach P engine storage bc
      → History.Reach P engine storage after
  Evolves-Reach (inl same) r = subst (History.Reach P engine storage) (sym same) r
  Evolves-Reach (inr step) r = History.Reach.steps r step

  -- Whatever clients send over HTTP and peers send as messages, in whichever order, what becomes of
  -- the chain, the ledger and the mempool can come about by calls of the chain alone, if what there
  -- was before can.
  pub http_Session-Reach :
      {since : ℕ} {s : HttpServer J D} {now : ℕ} {after : HttpServer J D}
      → Session since s now after
      → History.Reach P engine storage s.node.blockchain
      → History.Reach P engine storage after.node.blockchain
  http_Session-Reach starts r = r
  http_Session-Reach (answers {mid} m incoming raw reply after run order later e) r =
      Evolves-Reach
        (subst (Serves json P engine storage m mid) e
          (handle_connection-Serves json P engine storage m incoming raw mid))
        (http_Session-Reach run r)
  http_Session-Reach (hears {mid} clock id msg after run order e) r =
      Evolves-Reach
        (handled-Evolves json P engine storage shuffle listing clock id msg mid.node after e)
        (http_Session-Reach run r)
  http_Session-Reach (goes_on {mid} after run q) r =
      Evolves-Reach (inl (Quiet-blockchain json P shuffle q)) (http_Session-Reach run r)
