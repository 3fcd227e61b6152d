-- ===== src/Main/Peers.antt =====
-- src/main.cpp: the lists of peers on the command line.
use personalblockchain.Prelude.{
  ℕ, ◌<◌, ◌≡◌, ◌∙◌, ap, sym, append-nil, refl, false, true, some, List, [], ◌∷◌, ◌++◌, Text,
  is_empty, decimal, ltb, arith, append_assoc, ◌^◌, ◌%◌,
}
use personalblockchain.Network.PeerManager.Endpoint.{
  make_endpoint, split_last-append, split_last-digits, decimal-all_digits, port_of-decimal,
}
use personalblockchain.Network.HttpServer.Words.{lines}
use personalblockchain.Network.HttpServer.Framing.{Lacks, Lacks-append, lines-Lacks}
use personalblockchain.Network.HttpServer.Answers.{digits-Lacks}
use personalblockchain.Main.{PeerAddress, parse_endpoint, add_peers, parse_peer_list}

-- The addresses with a ',' behind each.
abbrev pub print_peers : List PeerAddress → Text
print_peers [] = []
print_peers (p ∷ peers) = make_endpoint p.host p.port ++ b',' ∷ print_peers peers

-- A host that is not empty and holds no ',', and a port of 16 bits that is not 0.
pub record IsAddress (p : PeerAddress) : Type 0 where
  pub host_given : is_empty p.host ≡ false
  pub one_entry : Lacks b',' p.host
  pub port_positive : 0 < p.port
  pub port_small : p.port < 2 ^ 16

pub data AreAddresses : List PeerAddress → Type 0 where
  nil : AreAddresses []
  cons :
      {p : PeerAddress} {peers : List PeerAddress}
      → IsAddress p
      → AreAddresses peers
      → AreAddresses (p ∷ peers)

is_empty-make_endpoint : (host : Text) (n : ℕ) → is_empty (make_endpoint host n) ≡ false
unfolding make_endpoint
is_empty-make_endpoint [] n = refl
is_empty-make_endpoint (c ∷ host) n = refl

parse_endpoint-make_endpoint :
    (p : PeerAddress) → IsAddress p → parse_endpoint (make_endpoint p.host p.port) ≡ some (some p)
unfolding parse_endpoint make_endpoint
parse_endpoint-make_endpoint p h =
    let split =
      split_last-append p.host (decimal p.port)
        (split_last-digits (decimal p.port) (decimal-all_digits p.port)) in
    let port : ltb 0 p.port ≡ true = ground (arith, h.port_positive) in
    let small : p.port % 2 ^ 16 ≡ p.port = omega (arith, h.port_small) in
    rw
      (
        parse_endpoint,
        is_empty-make_endpoint p.host p.port,
        split,
        h.host_given,
        port_of-decimal p.port (omega (arith, h.port_small)),
        small,
        port,
      )
      refl

make_endpoint-Lacks : (p : PeerAddress) → IsAddress p → Lacks b',' (make_endpoint p.host p.port)
unfolding make_endpoint
make_endpoint-Lacks p h =
    Lacks-append b',' p.host (b':' ∷ decimal p.port) h.one_entry
      (digits-Lacks b',' (decimal p.port) refl (decimal-all_digits p.port))

add_peers-print_peers :
    (peers target : List PeerAddress)
    → AreAddresses peers
    → add_peers (lines b',' (print_peers peers)) target ≡ some (target ++ peers)
unfolding add_peers lines
add_peers-print_peers [] target nil = ap some (sym (append-nil target))
add_peers-print_peers (p ∷ peers) target (cons h rest) =
    let first =
      lines-Lacks b',' (make_endpoint p.host p.port) (print_peers peers)
        (make_endpoint-Lacks p h) in
    rw (first, add_peers, parse_endpoint-make_endpoint p h)
      (add_peers-print_peers peers (target ++ p ∷ []) rest
        ∙ ap some (append_assoc target (p ∷ []) peers))

-- A list of peers that is written "host:port," for each is read back behind the peers that are there,
-- if each host is given and holds no ',', and each port is from 1 to 65535.
pub parse_peer_list-print_peers :
    (peers target : List PeerAddress)
    → AreAddresses peers
    → parse_peer_list (print_peers peers) target ≡ some (target ++ peers)
unfolding parse_peer_list
parse_peer_list-print_peers peers target h = add_peers-print_peers peers target h
