-- ===== src/Transport/Chat/Delivered.antt =====
-- A chat message of one node reaches the sessions of another.
use micelio.Base.{ℕ, ◌≡◌, true, false, none, some, List, length, nat_eq}
use micelio.Base.Bytes.{Bytes, bytes_eq}
use micelio.Base.Dict
use micelio.Stdlib.Crypto.{Crypto, IsKeyPair}
use micelio.Stdlib.Hex
use micelio.Proto.{Envelope, ChatMessage, envelope_sign_data, sign_envelope}
use micelio.Gossip.Seen
use micelio.Gossip.KeyRing
use micelio.Gossip.KeyRing.{KeyRing, KeyEntry}
use micelio.Gossip.Limiter
use micelio.Gossip.State.{PeerHandle, Host, Engine}
use micelio.Gossip.Engine.Outcome.{WellSized}
use micelio.Partyline.{Hub}
use micelio.Partyline.Delivery.{line_for}
use micelio.Transport.State.{Identity}
use micelio.Transport.Chat.{ChatCodec, Handler, chat_handler, msg_type_chat, chat_envelope}

-- What a node needs to sign its messages: a key pair, the node id that is its hash, and a hash of 32
-- bytes.
pub record CanSign (c : Crypto) (id : Identity) : Type 0 where
  pub pair : IsKeyPair c id.private_key id.public_key
  pub named : id.node_id ≡ Hex.encode (c.sum256 id.public_key)
  pub hash_size : length (c.sum256 id.public_key) ≡ 32

-- What a node needs to accept a message of `id`: no other key under its id, the message id not seen,
-- and the sender within the rate; it has the chat handler.
pub record Ready (e : Engine Handler) (id : Identity) (message_id : Bytes) (now : ℕ) : Type 0 where
  pub knows :
      (entry : KeyEntry)
      → KeyRing.lookup e.key_ring id.node_id ≡ some entry
      → entry.pub_key ≡ id.public_key
  pub unseen : Seen.has e.seen message_id ≡ false
  pub in_rate : (Limiter.allow e.limiter id.node_id now).0 ≡ true
  pub handler : Dict.lookup msg_type_chat e.handlers ≡ some chat_handler

abbrev with_hops : ℕ → Envelope → Envelope
with_hops hops env = record env { hop_count = hops }

-- The signed envelope, after relays have changed its hop count.
abbrev pub relayed : Host → Identity → ℕ → Bytes → Bytes → ℕ → Envelope
relayed h id max_hops message_id payload hops =
    record (sign_envelope h.crypto (chat_envelope id max_hops message_id payload) id.private_key) {
      hop_count = hops;
    }

-- The envelope with its signature written out.
abbrev signed : Host → Identity → ℕ → Bytes → Bytes → ℕ → Envelope
signed h id max_hops message_id payload hops =
    record (chat_envelope id max_hops message_id payload) {
      signature =
          h.crypto.sign id.private_key
            (envelope_sign_data (chat_envelope id max_hops message_id payload));
      hop_count = hops;
    }

module _ (h : Host) (id : Identity) (can : CanSign h.crypto id) (max_hops : ℕ)
    (message_id payload : Bytes) (hops : ℕ) where
  module _ (e : Engine Handler) (from : Bytes) (now : ℕ) (peers : List PeerHandle)
      (ready : Ready e id message_id now)
      (sized : WellSized (signed h id max_hops message_id payload hops)) where
    abbrev env : Envelope
    env = signed h id max_hops message_id payload hops

-- proto.Unmarshal reads back what proto.Marshal wrote.
pub record IsChatCodec (codec : ChatCodec) : Type 0 where
  pub reads :
      (chat : ChatMessage) (payload : Bytes)
      → codec.marshal chat ≡ some payload
      → codec.unmarshal payload ≡ some chat

-- Every session of the hub has been offered the line, and nothing went back to the transport.
pub record Shows (before after : Hub) (line : Bytes) : Type 0 where
  pub lines :
      (sid : ℕ)
      → Dict.lookup sid after.sessions ≡ line_for none sid line (Dict.lookup sid before.sessions)
  pub remote : after.remote ≡ before.remote
