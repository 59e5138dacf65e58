-- ===== src/Proto.antt =====
-- pkg/proto: the wire messages (proto/micelio.proto) and envelope.go, the signature of an envelope.
pub mod SignData
use micelio.Base.{ℕ, Bool, false, if◌then◌else◌, ◌==◌, nat_eq, [], ◌++◌, length, List, Option}
use micelio.Base.Bytes.{Bytes}
use micelio.Stdlib.Binary.{put_uint32, put_uint64}
use micelio.Stdlib.Crypto.{Crypto, public_key_size, private_key_size, signature_size}

-- message Envelope; a uint32 or uint64 field is a number in its range
pub record Envelope : Type 0 where
  pub message_id : Bytes
  pub sender_id : Bytes
  pub lamport_ts : ℕ
  pub hop_count : ℕ
  pub msg_type : ℕ
  pub payload : Bytes
  pub signature : Bytes
  pub sender_pubkey : Bytes

pub record PeerHello : Type 0 where
  pub node_id : Bytes
  pub version : Bytes
  pub tags : List Bytes
  pub reachable : Bool
  pub listen_addr : Bytes
  pub ed25519_pubkey : Bytes

pub record ChatMessage : Type 0 where
  pub nick : Bytes
  pub text : Bytes
  pub timestamp : ℕ

pub record PeerInfo : Type 0 where
  pub node_id : Bytes
  pub addr : Bytes
  pub reachable : Bool
  pub ed25519_pubkey : Bytes
  pub last_seen : ℕ

-- EnvelopeSignData
unfoldable pub envelope_sign_data : Envelope → Bytes
envelope_sign_data env =
    env.message_id
    ++ env.sender_id
    ++ put_uint64 env.lamport_ts
    ++ put_uint32 env.msg_type
    ++ env.payload

module _ (c : Crypto) where
  -- SignEnvelope
  unfoldable pub sign_envelope : Envelope → Bytes → Envelope
  sign_envelope env private_key =
      if length private_key == private_key_size
      then record env { signature = c.sign private_key (envelope_sign_data env) }
      else record env { signature = [] }

  -- VerifyEnvelope
  unfoldable pub verify_envelope : Envelope → Bytes → Bool
  verify_envelope env public_key =
      if length public_key == public_key_size
      then (if length env.signature == signature_size
          then c.verify public_key (envelope_sign_data env) env.signature
          else false)
      else false
