-- ===== src/Tests/Transport.antt =====
-- Runs of the frames, the hello and the table of connected peers.
use micelio.Base.{ℕ, ◌≡◌, refl, arith, true, false, some, [], ◌∷◌, ◌++◌, All, nat_eq}
use micelio.Base.Bytes.{Bytes, bytes_eq, codes, IsByte}
use micelio.Base.Results.{ok}
use micelio.Stdlib.Binary.{put_uint16, put_uint32, uint16, uint32}
use micelio.Proto.{Envelope, PeerHello, PeerInfo}
use micelio.Transport.Frame.{write_frame, read_frame, read_full, read_payload}
use micelio.Transport.Frame.RoundTrip.{read_frame-write_frame, read_frame_sound}
use micelio.Transport.State.{Manager, Peer}
use micelio.Transport.Hello.{Link, Wire, receive}
use micelio.Transport.Hello.Dispatch.{Justified, receive-Justified}
use micelio.Tests.{toy_crypto, key_a, private_a, id_a, zeros}

-- "abc" in a frame, with a byte of the next frame behind it.
abbrev frame : Bytes
frame = 77 ∷ 73 ∷ 0 ∷ 1 ∷ 0 ∷ 0 ∷ 0 ∷ 3 ∷ 97 ∷ 98 ∷ 99 ∷ []

frame_written : write_frame (codes "abc") ≡ ok frame
unfolding write_frame put_uint16 put_uint32
frame_written = refl

frame_read : read_frame (frame ++ (77 ∷ [])) ≡ ok (codes "abc", 77 ∷ [])
unfolding read_frame read_full read_payload uint16 uint32
frame_read = refl

read_frame-write_frame_example : read_frame (frame ++ (77 ∷ [])) ≡ ok (codes "abc", 77 ∷ [])
read_frame-write_frame_example = read_frame-write_frame (codes "abc") frame (77 ∷ []) frame_written

frame_bytes : All IsByte (frame ++ (77 ∷ []))
frame_bytes = omega arith

read_frame_sound_example :
    (b : Bytes) × (write_frame (codes "abc") ≡ ok b) × (frame ++ (77 ∷ []) ≡ b ++ (77 ∷ []))
read_frame_sound_example =
    read_frame_sound (frame ++ (77 ∷ [])) (codes "abc") (77 ∷ []) frame_bytes frame_read

abbrev pub peer : Bytes → Peer
peer node_id = record {
  node_id = node_id;
  ed_pub_key = key_a;
  remote_reachable = true;
  remote_listen_addr = codes "10.0.0.1:4000";
  send_queue = [];
}

abbrev pub manager : Manager
manager = record {
  id = record { node_id = codes "09"; public_key = 9 ∷ zeros 31; private_key = 9 ∷ zeros 63 };
  max_peers = 1;
  configured_addr = codes "10.0.0.9:4000";
  listen_addr = [];
  key_ring = record { keys = [] };
  peers = [];
  known_peers = [];
  dialing = [];
  bootstrap_addrs = [];
  store = some [];
}

abbrev hello_envelope : Envelope
hello_envelope = record {
  message_id = codes "m1";
  sender_id = id_a;
  lamport_ts = 0;
  hop_count = 1;
  msg_type = 1;
  payload = codes "h";
  signature = private_a;
  sender_pubkey = [];
}

abbrev pub hello : PeerHello
hello = record {
  node_id = id_a;
  version = codes "0.1.0";
  tags = [];
  reachable = true;
  listen_addr = codes "10.0.0.1:4000";
  ed25519_pubkey = key_a;
}

abbrev pub info : PeerInfo
info = record {
  node_id = id_a;
  addr = codes "10.0.0.1:4000";
  reachable = true;
  ed25519_pubkey = key_a;
  last_seen = 50;
}

-- A wire on which the first byte of a frame is the message type.
abbrev msg_type_of : Bytes → ℕ
msg_type_of [] = 0
msg_type_of (b ∷ bs) = b

abbrev pub wire : Wire
wire = record {
  envelope = λ raw. some (record hello_envelope { msg_type = msg_type_of raw });
  hello = λ raw. some hello;
  peer_exchange = λ raw. some (info ∷ []);
  to_x25519 = λ key. some key;
}

abbrev pub link : Link
link = record {
  node_id = [];
  ed_pub_key = [];
  peer_x25519 = key_a;
  remote_reachable = false;
  remote_listen_addr = [];
  seen = [];
}

abbrev pub greeted : Link
greeted = record link {
  node_id = id_a;
  ed_pub_key = key_a;
  remote_reachable = true;
  remote_listen_addr = codes "10.0.0.1:4000";
}

receive-Justified_example :
    Justified toy_crypto wire greeted
      (4 ∷ [])
      (receive toy_crypto wire greeted (4 ∷ []) 7).0
      (receive toy_crypto wire greeted (4 ∷ []) 7).1
receive-Justified_example = receive-Justified toy_crypto wire greeted (4 ∷ []) 7
