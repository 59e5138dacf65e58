-- ===== src/Tests/Greeting.antt =====
-- A run of the hello, with a toy codec: each field behind its length.
use micelio.Base.{
  suc, ◌≡◌, refl, sym, ap, ◌∙◌, arith, Bool, true, false, Option, none, some, List, [], ◌∷◌, ◌++◌,
  length, take, drop, take-length-append, drop-length-append,
}
use micelio.Base.Bytes.{Bytes, bytes_beq, codes}
use micelio.Base.Results.{ok}
use micelio.Stdlib.Hex
use micelio.Proto.{Envelope, PeerHello, sign_envelope}
use micelio.Transport.State.{Identity}
use micelio.Transport.Hello.{Wire, receive_hello}
use micelio.Transport.Hello.Greeting.{
  Encoder, IsCodec, HelloConfig, CanGreet, local_hello, hello_envelope, send_hello,
  receive-send_hello,
}
use micelio.Tests.{toy_crypto, key_a, private_a, id_a}
use micelio.Tests.Transport.{link, wire}

abbrev pub field : Bytes → Bytes → Bytes
field b rest = length b ∷ (b ++ rest)

unfoldable pub get : Bytes → Bytes × Bytes
get [] = ([], [])
get (n ∷ rest) = (take n rest, drop n rest)

get-field : (b rest : Bytes) → get (field b rest) ≡ (b, rest)
unfolding get
get-field b rest = rw (take-length-append b rest, drop-length-append b rest) refl

abbrev pub put_envelope : Envelope → Bytes
put_envelope e = field e.message_id (
    field e.sender_id (
      field e.payload
        (field e.signature (field e.sender_pubkey (e.lamport_ts ∷ e.hop_count ∷ e.msg_type ∷ [])))))

abbrev pub build_envelope : Bytes → Bytes → Bytes → Bytes → Bytes × Bytes → Option Envelope
build_envelope id sender payload signature (key, ts ∷ hops ∷ type ∷ rest) = some (record {
  message_id = id;
  sender_id = sender;
  lamport_ts = ts;
  hop_count = hops;
  msg_type = type;
  payload = payload;
  signature = signature;
  sender_pubkey = key;
})
build_envelope id sender payload signature (key, _) = none

abbrev pub step4 : Bytes → Bytes → Bytes → Bytes × Bytes → Option Envelope
step4 id sender payload (signature, rest) = build_envelope id sender payload signature (get rest)

abbrev pub step3 : Bytes → Bytes → Bytes × Bytes → Option Envelope
step3 id sender (payload, rest) = step4 id sender payload (get rest)

abbrev pub step2 : Bytes → Bytes × Bytes → Option Envelope
step2 id (sender, rest) = step3 id sender (get rest)

abbrev pub step1 : Bytes × Bytes → Option Envelope
step1 (id, rest) = step2 id (get rest)

abbrev pub get_envelope : Bytes → Option Envelope
get_envelope raw = step1 (get raw)

pub get-put_envelope : (e : Envelope) → get_envelope (put_envelope e) ≡ some e
get-put_envelope e =
    rw
      (
        get-field e.message_id (
            field e.sender_id (
              field e.payload (
                field e.signature
                  (field e.sender_pubkey (e.lamport_ts ∷ e.hop_count ∷ e.msg_type ∷ []))))),
        get-field e.sender_id (
            field e.payload (
              field e.signature
                (field e.sender_pubkey (e.lamport_ts ∷ e.hop_count ∷ e.msg_type ∷ [])))),
        get-field e.payload (
            field e.signature
              (field e.sender_pubkey (e.lamport_ts ∷ e.hop_count ∷ e.msg_type ∷ []))),
        get-field e.signature
            (field e.sender_pubkey (e.lamport_ts ∷ e.hop_count ∷ e.msg_type ∷ [])),
        get-field e.sender_pubkey (e.lamport_ts ∷ e.hop_count ∷ e.msg_type ∷ []),
      )
      refl

-- Only a hello without tags is encoded.
abbrev pub put_parts : Bytes → Bytes → List Bytes → Bool → Bytes → Bytes → Option Bytes
put_parts id version [] true addr key =
    some (field id (field version (field addr (field key (1 ∷ [])))))
put_parts id version [] false addr key =
    some (field id (field version (field addr (field key (0 ∷ [])))))
put_parts id version (tag ∷ tags) reachable addr key = none

abbrev pub put_hello : PeerHello → Option Bytes
put_hello h = put_parts h.node_id h.version h.tags h.reachable h.listen_addr h.ed25519_pubkey

abbrev flag : Bytes → Bool
flag (suc n ∷ rest) = true
flag _ = false

abbrev build_hello : Bytes → Bytes → Bytes → Bytes × Bytes → Option PeerHello
build_hello id version addr (key, rest) = some (record {
  node_id = id;
  version = version;
  tags = [];
  reachable = flag rest;
  listen_addr = addr;
  ed25519_pubkey = key;
})

abbrev hello3 : Bytes → Bytes → Bytes × Bytes → Option PeerHello
hello3 id version (addr, rest) = build_hello id version addr (get rest)

abbrev hello2 : Bytes → Bytes × Bytes → Option PeerHello
hello2 id (version, rest) = hello3 id version (get rest)

abbrev hello1 : Bytes × Bytes → Option PeerHello
hello1 (id, rest) = hello2 id (get rest)

abbrev get_hello : Bytes → Option PeerHello
get_hello raw = hello1 (get raw)

get-fields :
    (id version addr key rest : Bytes)
    → get_hello (field id (field version (field addr (field key rest))))
      ≡ build_hello id version addr (key, rest)
get-fields id version addr key rest =
    rw
      (
        get-field id (field version (field addr (field key rest))),
        get-field version (field addr (field key rest)),
        get-field addr (field key rest),
        get-field key rest,
      )
      refl

from_some : (a b : Bytes) → some a ≡ some b → a ≡ b
from_some a b p = ground arith

get-put_parts :
    (id version : Bytes) (tags : List Bytes) (reachable : Bool) (addr key raw : Bytes)
    → put_parts id version tags reachable addr key ≡ some raw
    → get_hello raw
      ≡ some (record {
        node_id = id;
        version = version;
        tags = tags;
        reachable = reachable;
        listen_addr = addr;
        ed25519_pubkey = key;
      })
get-put_parts id version [] true addr key raw p =
    ap get_hello (sym (from_some _ raw p)) ∙ get-fields id version addr key (1 ∷ [])
get-put_parts id version [] false addr key raw p =
    ap get_hello (sym (from_some _ raw p)) ∙ get-fields id version addr key (0 ∷ [])
get-put_parts id version (tag ∷ tags) reachable addr key raw p = ground arith

abbrev pub encoder : Encoder
encoder = record { envelope = λ e. some (put_envelope e); hello = put_hello }

abbrev pub decoder : Wire
decoder = record wire { envelope = get_envelope; hello = get_hello }

codec : IsCodec encoder decoder
codec = record {
  envelopes = λ e raw p. ap get_envelope (sym (from_some _ raw p)) ∙ get-put_envelope e;
  hellos = λ h raw p.
      get-put_parts h.node_id h.version h.tags h.reachable h.listen_addr h.ed25519_pubkey raw p;
}

abbrev pub ada : Identity
ada = record { node_id = id_a; public_key = key_a; private_key = private_a }

abbrev config : HelloConfig
config = record { tags = []; reachable = true; listen_addr = codes "10.0.0.1:4000" }

ada_greets : CanGreet toy_crypto decoder ada link
unfolding Hex.encode bytes_beq
ada_greets = record {
  pair = record {
    private_size = refl;
    public_size = refl;
    sign_size = λ msg. refl;
    verifies = λ msg. refl;
  };
  named = refl;
  same_key = refl;
}

abbrev raw_hello : Bytes
raw_hello = put_envelope (
    sign_envelope toy_crypto
      (hello_envelope ada 1 (codes "m1")
        (field id_a (field (codes "0.1.0") (field (codes "10.0.0.1:4000") (field key_a (1 ∷ []))))))
      private_a)

ada_sends :
    send_hello toy_crypto encoder ada (local_hello ada config) 1 (codes "m1") ≡ some raw_hello
unfolding send_hello local_hello
ada_sends = refl

receive-send_hello_example :
    receive_hello toy_crypto decoder link 1 raw_hello
    ≡ ok (record link {
      node_id = id_a;
      ed_pub_key = key_a;
      remote_reachable = true;
      remote_listen_addr = codes "10.0.0.1:4000";
    })
receive-send_hello_example =
    receive-send_hello toy_crypto encoder decoder ada config link 1 (codes "m1") raw_hello codec
      ada_greets ada_sends
