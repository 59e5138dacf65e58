-- ===== src/Transport/Chat.antt =====
-- internal/transport/manager.go: chat between the hub and the gossip engine. A turn of fanoutLoop
-- signs and broadcasts a message of a local user; the handler for chat messages gives a received one
-- to the hub. proto.Marshal and proto.Unmarshal of a chat message are parameters.
pub mod Delivered
pub mod FirstHop
use micelio.Base.{ℕ, Option, none, some, List, [], ◌∷◌, nat_eq}
use micelio.Base.Bytes.{Bytes}
use micelio.Proto.{Envelope, ChatMessage, sign_envelope}
use micelio.Gossip.KeyRing
use micelio.Gossip.KeyRing.{directly_verified}
use micelio.Gossip.State.{
  PeerHandle, Host, Engine, Delivery, Send, Handled, new_engine, register_handler,
}
use micelio.Gossip.Engine.{broadcast, handle_incoming}
use micelio.Partyline.{Hub, RemoteMsg, deliver_remote, serve}
use micelio.Transport.State.{Identity}
use micelio.Transport.Hello.{Wire, Link, receive, nothing, exchange, gossip}

abbrev pub msg_type_chat : ℕ
msg_type_chat = 3

-- `none` is an error.
pub record ChatCodec : Type 0 where
  pub marshal : ChatMessage → Option Bytes
  pub unmarshal : Bytes → Option ChatMessage

-- The one handler that NewManager registers.
pub data Handler : Type 0 where
  chat_handler : Handler

-- The engine of NewManager: the handler, and the node's own key in the ring.
unfoldable pub node_engine : Identity → Engine Handler
node_engine id =
    let e = register_handler (new_engine id.node_id) msg_type_chat chat_handler in
    record e { key_ring = KeyRing.add e.key_ring id.node_id id.public_key directly_verified }

-- The channel remoteSend: the next message, and the hub without it.
unfoldable pub take_remote : Hub → Option (RemoteMsg × Hub)
take_remote hub = elim hub.remote [
  | none ↦ none
  | some queue ↦ elim queue [
    | [] ↦ none
    | msg ∷ rest ↦ some (msg, record hub { remote = some rest })
  ]
]

unfoldable pub chat_message : RemoteMsg → ℕ → ChatMessage
chat_message msg now = record { nick = msg.nick; text = msg.text; timestamp = now }

-- The envelope before it is signed; `message_id` is the new UUID.
unfoldable pub chat_envelope : Identity → ℕ → Bytes → Bytes → Envelope
chat_envelope id max_hops message_id payload = record {
  message_id = message_id;
  sender_id = id.node_id;
  lamport_ts = 0;
  hop_count = max_hops;
  msg_type = msg_type_chat;
  payload = payload;
  signature = [];
  sender_pubkey = id.public_key;
}

module _ (h : Host) (codec : ChatCodec) where
  -- A turn of fanoutLoop for `msg`: `unix` and `now` are the clock in seconds and in nanoseconds.
  unfoldable pub fan_out :
      {H : Type 0}
      → Engine H
      → Identity
      → RemoteMsg
      → ℕ
      → Bytes
      → ℕ
      → List PeerHandle
      → Engine H × List Send
  fan_out e id msg unix message_id now peers = elim (codec.marshal (chat_message msg unix)) [
    | none ↦ (e, [])
    | some payload ↦
        let env =
          sign_envelope h.crypto (chat_envelope id e.max_hops message_id payload) id.private_key in
        let (e', counts, sends) = broadcast h e env now peers in (e', sends)
  ]

  -- The handler for chat messages
  unfoldable pub handle_chat : Hub → Bytes → Hub
  handle_chat hub payload = elim (codec.unmarshal payload) [
    | none ↦ hub
    | some chat ↦ (serve hub (deliver_remote chat.nick chat.text)).0
  ]

  unfoldable pub run_handlers : Hub → List (Delivery Handler) → Hub
  run_handlers hub [] = hub
  run_handlers hub (d ∷ ds) = run_handlers (handle_chat hub d.payload) ds

  -- gossipMessageHandler, with what its handlers do to the hub
  unfoldable pub receive_gossip :
      Engine Handler → Hub → Bytes → Envelope → ℕ → List PeerHandle → Handled Handler × Hub
  receive_gossip e hub from env now peers =
      let r = handle_incoming h e from env now peers in (r, run_handlers hub r.deliveries)

-- recvLoop with the callbacks of the manager: a frame from the peer behind `p`.
unfoldable pub receive_frame :
    Host
    → ChatCodec
    → Wire
    → Engine Handler
    → Hub
    → Link
    → Bytes
    → ℕ
    → List PeerHandle
    → Engine Handler × Hub
receive_frame h codec w e hub p raw now peers = elim (receive h.crypto w p raw now).1 [
  | nothing ↦ (e, hub)
  | exchange from infos ↦ (e, hub)
  | gossip from env ↦
      let (r, hub') = receive_gossip h codec e hub from env now peers in (r.engine, hub')
]
