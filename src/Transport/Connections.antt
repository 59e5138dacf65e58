-- ===== src/Transport/Connections.antt =====
-- internal/transport: the life of a connection, from the handshake to its end (manager.go), the hello
-- exchange (peer.go) and the peer exchange that is sent (discovery.go). Deadlines are left out: one
-- that passes is an error of the read or write that it cuts short.
pub mod Greeted
pub mod WellFormed
pub mod Steps
pub mod Events
use micelio.Base.{
  ℕ, Bool, true, false, not, Option, none, some, List, [], ◌∷◌, ◌==◌, nat_eq, if◌then◌else◌,
}
use micelio.Base.Bytes.{Bytes, bytes_eq}
use micelio.Base.Dict.{Dict, lookup, insert}
use micelio.Base.Results.{ok, err}
use micelio.Stdlib.Crypto.{Crypto}
use micelio.Proto.{Envelope, PeerInfo, sign_envelope}
use micelio.Transport.State.{Manager, Peer, Identity, Services}
use micelio.Gossip.KeyRing
use micelio.Gossip.KeyRing.{directly_verified}
use micelio.Transport.Discovery.{load_known_peers}
use micelio.Gossip.State.{PeerHandle, Host, Engine}
use micelio.Gossip.Engine.{handle_incoming}
use micelio.Transport.Chat.{Handler}
use micelio.Transport.Peers.{
  Admission, admitted, add_peer, remove_peer, at_capacity, send_raw, advertise_addr,
}
use micelio.Transport.Exchange.{on_peer_connected, build_peer_info_list, merge_discovered_peers}
use micelio.Transport.Hello.{
  Link, Wire, receive_hello, receive, nothing, exchange, gossip, msg_type_peer_hello,
  msg_type_peer_hello_ack, msg_type_peer_exchange,
}
use micelio.Transport.Hello.Greeting.{Encoder, HelloConfig, local_hello, send_hello}

-- newPeer
unfoldable pub new_link : Bytes → Link
new_link peer_x25519 = record {
  node_id = [];
  ed_pub_key = [];
  peer_x25519 = peer_x25519;
  remote_reachable = false;
  remote_listen_addr = [];
  seen = [];
}

-- The peer after its hello, with an empty send channel.
unfoldable pub to_peer : Link → Peer
to_peer p = record {
  node_id = p.node_id;
  ed_pub_key = p.ed_pub_key;
  remote_reachable = p.remote_reachable;
  remote_listen_addr = p.remote_listen_addr;
  send_queue = [];
}

-- What the other side and the network do during the opening of a connection: the static key that the
-- handshake gives (`none` is an error), the frame that is read, whether a frame is taken, and the new
-- UUIDs of the hello and of the exchange message.
pub record Opening : Type 0 where
  pub handshake : Option Bytes
  pub frame : Option Bytes
  pub takes : Bytes → Bool
  pub hello_id : Bytes
  pub exchange_id : Bytes

-- How handleInbound or dial went on.
pub data Outcome : Type 0 where
  refused failed : Outcome
  rejected : Admission → Outcome
  running : Link → Outcome

-- helloConfig; `tags` are those of the configuration.
unfoldable pub hello_config : Manager → List Bytes → HelloConfig
hello_config m tags =
    let addr = advertise_addr m in
    record { tags = tags; reachable = not (addr == []); listen_addr = addr }

-- sendPeerExchangeTo, up to the bytes of the envelope; proto.Marshal of the list is `marshal`.
unfoldable pub exchange_bytes :
    Crypto → Encoder → (List PeerInfo → Option Bytes) → Manager → Bytes → Bytes → ℕ → Option Bytes
exchange_bytes c m marshal mgr node_id message_id now =
    elim (build_peer_info_list mgr node_id now) [
      | [] ↦ none
      | info ∷ infos ↦ elim (marshal (info ∷ infos)) [
        | none ↦ none
        | some payload ↦ m.envelope (
            sign_envelope c
              (record {
                message_id = message_id;
                sender_id = mgr.id.node_id;
                lamport_ts = 0;
                hop_count = 1;
                msg_type = msg_type_peer_exchange;
                payload = payload;
                signature = [];
                sender_pubkey = [];
              })
              mgr.id.private_key)
      ]
    ]

-- The send to the channel of a peer in the table.
unfoldable pub queue_to : Manager → Bytes → Option Bytes → Manager
queue_to m node_id none = m
queue_to m node_id (some bytes) = elim (lookup node_id m.peers) [
  | none ↦ m
  | some p ↦ record m { peers = insert node_id (send_raw p bytes).1 m.peers }
]

module _ (sv : Services) (w : Wire) (enc : Encoder) (marshal : List PeerInfo → Option Bytes)
    (tags : List Bytes) where
  -- sendPeerExchangeTo
  unfoldable pub send_peer_exchange_to : Manager → Bytes → Bytes → ℕ → Manager
  send_peer_exchange_to m node_id message_id now =
      queue_to m node_id (exchange_bytes sv.crypto enc marshal m node_id message_id now)

  -- sendHello and its WriteFrame
  unfoldable pub greet : Manager → Opening → ℕ → Bool
  greet m o type =
      elim (send_hello sv.crypto enc m.id (local_hello m.id (hello_config m tags)) type
        o.hello_id) [ none ↦ false | some bytes ↦ o.takes bytes ]

  -- recvHello and verifyPeerIdentity
  unfoldable pub be_greeted : Link → ℕ → Opening → Option Link
  be_greeted p type o = elim o.frame [
    | none ↦ none
    | some raw ↦ elim (receive_hello sv.crypto w p type raw) [ err e ↦ none | ok p' ↦ some p' ]
  ]

  -- ExchangeHello; `none` is an error.
  unfoldable pub exchange_hello : Manager → Bool → Link → Opening → Option Link
  exchange_hello m initiator p o =
      if initiator
      then (if greet m o msg_type_peer_hello then be_greeted p msg_type_peer_hello_ack o else none)
      else elim (be_greeted p msg_type_peer_hello o) [
        | none ↦ none
        | some p' ↦ if greet m o msg_type_peer_hello_ack then some p' else none
      ]

  -- addPeer and onPeerConnected
  unfoldable pub enter_table : Manager → Link → Opening → ℕ → Manager × Outcome
  enter_table m p o now =
      let (m', admission) = add_peer m (to_peer p) in
      elim admission [
        | admitted ↦ (
          send_peer_exchange_to (on_peer_connected sv m' (to_peer p) now) p.node_id o.exchange_id
              now,
          running p,
        )
        | reason ↦ (m', rejected reason)
      ]

  -- A tick of exchangeLoop over the connected peers; `ids` gives the new UUIDs.
  unfoldable pub exchange_tick : Manager → List Bytes → (Bytes → Bytes) → ℕ → Manager
  exchange_tick m [] ids now = m
  exchange_tick m (node_id ∷ node_ids) ids now =
      exchange_tick (send_peer_exchange_to m node_id (ids node_id) now) node_ids ids now

  -- Handshake, newPeer and what follows up to peer.Run
  unfoldable pub open_connection : Manager → Bool → Opening → ℕ → Manager × Outcome
  open_connection m initiator o now = elim o.handshake [
    | none ↦ (m, failed)
    | some peer_x25519 ↦ elim (exchange_hello m initiator (new_link peer_x25519) o) [
      | none ↦ (m, failed)
      | some p ↦ enter_table m p o now
    ]
  ]

  -- handleInbound up to peer.Run
  unfoldable pub handle_inbound : Manager → Opening → ℕ → Manager × Outcome
  handle_inbound m o now = if at_capacity m then (m, refused) else open_connection m false o now

  -- dial up to peer.Run; `connected` is the result of net.DialTimeout.
  unfoldable pub dial : Manager → Bool → Opening → ℕ → Manager × Outcome
  dial m connected o now = if connected then open_connection m true o now else (m, failed)

  -- After peer.Run, in handleInbound as in dial
  unfoldable pub disconnect : Manager → Bytes → Manager
  disconnect m node_id = remove_peer m node_id

-- What a gossip message meets in the manager's engine besides the key ring, the handles of the connected
-- peers, and rand.Shuffle.
pub record EngineView : Type 0 where
  pub engine : Engine Handler
  pub handles : List PeerHandle
  pub shuffle : List PeerHandle → List PeerHandle

abbrev pub host_of : Services → Encoder → EngineView → Host
host_of sv enc v = record { crypto = sv.crypto; marshal = enc.envelope; shuffle = v.shuffle }

-- gossipMessageHandler: the key ring after HandleIncoming, which may learn the sender's key.
unfoldable pub learn_from :
    Services → Encoder → EngineView → Manager → Bytes → Envelope → ℕ → Manager
learn_from sv enc v m from env now =
    let e = record v.engine { key_ring = m.key_ring } in
    record m {
      key_ring = (handle_incoming (host_of sv enc v) e from env now v.handles).engine.key_ring;
    }

-- The frame of a connected peer, as far as it concerns the manager.
unfoldable pub on_frame :
    Services → Wire → Encoder → EngineView → Manager → Link → Bytes → ℕ → Manager
on_frame sv w enc v m p raw now = elim (receive sv.crypto w p raw now).1 [
  | nothing ↦ m
  | exchange from infos ↦ merge_discovered_peers sv m infos
  | gossip from env ↦ learn_from sv enc v m from env now
]

-- The settings of the configuration that the manager reads.
pub record Settings : Type 0 where
  pub max_peers : ℕ
  pub advertise_addr : Bytes
  pub bootstrap : List Bytes

unfoldable pub set_all : Dict Bytes Bool → List Bytes → Dict Bytes Bool
set_all set [] = set
set_all set (addr ∷ addrs) = set_all (insert addr true set) addrs

-- The manager before loadKnownPeers.
unfoldable pub fresh_manager : Settings → Identity → Option (Dict Bytes Bytes) → Manager
fresh_manager cfg id st = record {
  id = id;
  max_peers = cfg.max_peers;
  configured_addr = cfg.advertise_addr;
  listen_addr = [];
  key_ring = KeyRing.add KeyRing.new_key_ring id.node_id id.public_key directly_verified;
  peers = [];
  known_peers = [];
  dialing = [];
  bootstrap_addrs = set_all [] cfg.bootstrap;
  store = st;
}

-- NewManager: the tables; `noise_key` is the derived key, or none on an error.
unfoldable pub new_manager :
    {K : Type 0}
    → Services
    → Settings
    → Identity
    → Option K
    → Option (Dict Bytes Bytes)
    → Option Manager
new_manager sv cfg id none st = none
new_manager sv cfg id (some noise_key) st = some (load_known_peers sv (fresh_manager cfg id st))

-- Start, when it listens: `addr` is the bound address.
unfoldable pub listen : Manager → Bytes → Manager
listen m addr = record m { listen_addr = addr }
