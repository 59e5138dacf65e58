-- ===== src/Proto/SignData.antt =====
-- What an envelope's signature covers.
use micelio.Base.{ℕ, ◌<◌, ◌^◌, ◌≡◌, refl, sym, ◌∙◌, arith, true, [], ◌∷◌, ◌++◌, length}
use micelio.Base.Bytes.{Bytes}
use micelio.Stdlib.Binary.{put_uint32, put_uint64, put_uint32-injective, put_uint64-injective}
use micelio.Stdlib.Crypto.{Crypto, IsKeyPair}
use micelio.Proto.{Envelope, envelope_sign_data, sign_envelope, verify_envelope}
use mathlib.Core.List.{append_assoc}

-- An envelope signed with a key pair verifies under its public key, also after relays have changed
-- its hop count and its sender_pubkey.
pub verify-sign_envelope :
    (c : Crypto) (env : Envelope) (private_key public_key : Bytes) (hops : ℕ) (learned : Bytes)
    → IsKeyPair c private_key public_key
    → verify_envelope c
        (record (sign_envelope c env private_key) { hop_count = hops; sender_pubkey = learned })
        public_key
      ≡ true
unfolding sign_envelope verify_envelope envelope_sign_data
verify-sign_envelope c env sk pk hops learned k =
    ground (arith, k.sign_size (envelope_sign_data env), k.verifies (envelope_sign_data env))

append_split : (a b xs ys : Bytes) → length a ≡ length b → a ++ xs ≡ b ++ ys → (a ≡ b) × (xs ≡ ys)
append_split [] [] xs ys l h = (refl, h)
append_split [] (y ∷ b) xs ys l h = absurd (omega arith)
append_split (x ∷ a) [] xs ys l h = absurd (omega arith)
append_split (x ∷ a) (y ∷ b) xs ys l h =
    let (p, q) = append_split a b xs ys (omega arith) (cc) in (cc, q)

regroup :
    (e : Envelope)
    → e.message_id
        ++ (e.sender_id ++ (put_uint64 e.lamport_ts ++ (put_uint32 e.msg_type ++ e.payload)))
      ≡ e.message_id ++ e.sender_id ++ put_uint64 e.lamport_ts ++ put_uint32 e.msg_type ++ e.payload
regroup e = simp append_assoc

length_ts : (a b : Envelope) → length (put_uint64 a.lamport_ts) ≡ length (put_uint64 b.lamport_ts)
unfolding put_uint64
length_ts a b = refl

length_type : (a b : Envelope) → length (put_uint32 a.msg_type) ≡ length (put_uint32 b.msg_type)
unfolding put_uint32
length_type a b = refl

-- The fields that a signature covers.
pub record SameSigned (a b : Envelope) : Type 0 where
  pub message_id : a.message_id ≡ b.message_id
  pub sender_id : a.sender_id ≡ b.sender_id
  pub lamport_ts : a.lamport_ts ≡ b.lamport_ts
  pub msg_type : a.msg_type ≡ b.msg_type
  pub payload : a.payload ≡ b.payload

-- For envelopes whose ids have the same lengths and whose numbers fit their fields, the signed
-- bytes determine every signed field.
pub sign_data-injective :
    (a b : Envelope)
    → length a.message_id ≡ length b.message_id
    → length a.sender_id ≡ length b.sender_id
    → a.lamport_ts < 2 ^ 64
    → b.lamport_ts < 2 ^ 64
    → a.msg_type < 2 ^ 32
    → b.msg_type < 2 ^ 32
    → envelope_sign_data a ≡ envelope_sign_data b
    → SameSigned a b
unfolding envelope_sign_data
sign_data-injective a b lm ls ta tb ma mb h =
    let (m, h1) = append_split a.message_id b.message_id _ _ lm (regroup a ∙ h ∙ sym (regroup b)) in
    let (s, h2) = append_split a.sender_id b.sender_id _ _ ls h1 in
    let (t, h3) =
      append_split (put_uint64 a.lamport_ts) (put_uint64 b.lamport_ts) _ _ (length_ts a b) h2 in
    let (y, p) =
      append_split (put_uint32 a.msg_type) (put_uint32 b.msg_type) _ _ (length_type a b) h3 in
    record {
      message_id = m;
      sender_id = s;
      lamport_ts = put_uint64-injective a.lamport_ts b.lamport_ts ta tb t;
      msg_type = put_uint32-injective a.msg_type b.msg_type ma mb y;
      payload = p;
    }
