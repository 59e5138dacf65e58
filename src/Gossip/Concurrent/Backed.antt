-- ===== src/Gossip/Concurrent/Backed.antt =====
-- What a call of HandleIncoming has found out of its envelope, kept by each of its turns.
use micelio.Base.{
  ℕ, ◌≡◌, refl, arith, true, none, inl, inr, List, ◌-◌, leb, ◌==◌, nat_eq, length, if◌then◌else◌,
  Bool-cases, Option-cases, beq_iff,
}
use micelio.Base.Bytes.{Bytes, bytes_eq}
use micelio.Stdlib.Crypto.{Crypto}
use micelio.Proto.{Envelope, verify_envelope}
use micelio.Gossip.KeyRing
use micelio.Gossip.KeyRing.{KeyEntry, gossip_learned}
use micelio.Gossip.Engine.{candidates}
use micelio.Gossip.Engine.Outcome.{WellSized}
use micelio.Gossip.Engine.Binding.{IsBound, node_id_of, add-IsBound}
use micelio.Gossip.Engine.Fields.{deliver-SameTables}
use micelio.Gossip.Seen
use micelio.Gossip.Limiter
use micelio.Gossip.State.{PeerHandle, Host, Engine, unknown_sender}
use micelio.Gossip.Concurrent.{
  Pc, Task, idle, entering, looking, learning, relooking, verifying, checking, counting, delivering,
  forwarding, reporting, stopped, finished, found, reject, can_learn, enter, test_and_set, verify,
  handle_message, send_on, relay, advance_from,
}

-- The signature verifies under a key whose hash is the sender id.
abbrev pub IsAuthentic : Crypto → Envelope → Type 0
IsAuthentic c env =
    (key : Bytes) × (node_id_of c key ≡ env.sender_id) × (verify_envelope c env key ≡ true)

abbrev pub Fits : Envelope → Type 0
Fits env = reject env ≡ none

-- What a call has found out of its envelope at each place.
abbrev pub Backed : Host → Pc → Envelope → Type 0
Backed h idle env = Unit
Backed h entering env = Unit
Backed h looking env = Fits env
Backed h learning env = Fits env × (can_learn h env ≡ true)
Backed h relooking env = Fits env
Backed h (verifying entry) env = Fits env × (node_id_of h.crypto entry.pub_key ≡ env.sender_id)
Backed h (stopped verdict) env = Unit
Backed h other env = Fits env × IsAuthentic h.crypto env

pub reject_sized : (env : Envelope) → Fits env → WellSized env
unfolding reject
reject_sized env f = ground arith

module _ (h : Host) where
  can_learn-bound :
      (env : Envelope)
      → can_learn h env ≡ true
      → node_id_of h.crypto env.sender_pubkey ≡ env.sender_id
  unfolding can_learn
  can_learn-bound env can =
      ground (arith, beq_iff (node_id_of h.crypto env.sender_pubkey) env.sender_id)

  -- What `found` goes to, after a lookup in a bound ring.
  found-Backed :
      (ring : KeyRing.KeyRing) (env : Envelope) (other : Pc)
      → IsBound h.crypto ring
      → Fits env
      → Backed h other env
      → Backed h (found (KeyRing.lookup ring env.sender_id) other) env
  found-Backed ring env other b fits back =
      elim (Option-cases (KeyRing.lookup ring env.sender_id)) [
        | inl absent ↦ rw absent back
        | inr (entry, known) ↦ rw known (fits, b.at env.sender_id entry known)
      ]

module _ (h : Host) {H : Type 0} where
  abbrev pub Sound : Engine H × Task H → Envelope → Type 0
  Sound r env = IsBound h.crypto r.0.key_ring × Backed h r.1.pc env × (r.1.env ≡ env)

  enter-Sound : (e : Engine H) (t : Task H) → IsBound h.crypto e.key_ring → Sound (enter e t) t.env
  unfolding enter
  enter-Sound e t b = elim (Option-cases (reject t.env)) [
    | inr (v, bad) ↦ rw (bad, enter) (b, tt, refl)
    | inl fits ↦ elim (Bool-cases (Seen.has e.seen t.env.message_id)) [
      | inl old ↦ rw (fits, old, enter) (b, tt, refl)
      | inr new ↦ rw (fits, new, enter) (b, fits, refl)
    ]
  ]

  look_sound :
      (e : Engine H) (t : Task H)
      → IsBound h.crypto e.key_ring
      → Fits t.env
      → Backed h
          (found
            (KeyRing.lookup e.key_ring t.env.sender_id)
            (if can_learn h t.env then learning else stopped unknown_sender))
          t.env
  look_sound e t b fits = elim (Bool-cases (can_learn h t.env)) [
    | inl can ↦ rw can (found-Backed h e.key_ring t.env learning b fits (fits, can))
    | inr cannot ↦ rw cannot (found-Backed h e.key_ring t.env (stopped unknown_sender) b fits tt)
  ]

  verify-Sound :
      (e : Engine H) (t : Task H) (entry : KeyEntry) (now : ℕ)
      → IsBound h.crypto e.key_ring
      → Backed h (verifying entry) t.env
      → Sound (verify h e t entry now) t.env
  unfolding verify
  verify-Sound e t entry now b (fits, bound) =
      elim (Bool-cases (verify_envelope h.crypto t.env entry.pub_key)) [
        | inr bad ↦ rw bad (b, tt, refl)
        | inl good ↦ elim (Bool-cases (Limiter.allow e.limiter t.env.sender_id now).0) [
          | inl within ↦ rw (good, within) (b, (fits, (entry.pub_key, bound, good)), refl)
          | inr over ↦ rw (good, over) (b, tt, refl)
        ]
      ]

  check-Sound :
      (e : Engine H) (t : Task H) (now : ℕ)
      → IsBound h.crypto e.key_ring
      → Backed h checking t.env
      → Sound (test_and_set e t now) t.env
  unfolding test_and_set
  check-Sound e t now b back = elim (Bool-cases (Seen.check e.seen t.env.message_id now).0) [
    | inl old ↦ rw old (b, tt, refl)
    | inr new ↦ rw new (b, back, refl)
  ]

  send-Sound :
      (e : Engine H) (t : Task H) (at : ℕ) (peers : List PeerHandle) (raw : Bytes)
      → IsBound h.crypto e.key_ring
      → Backed h (forwarding at) t.env
      → Sound (send_on h e t at peers raw) t.env
  unfolding send_on
  send-Sound e t at peers raw b back = elim (Bool-cases (length (candidates peers t.from) == 0)) [
    | inl empty ↦ rw empty (b, back, refl)
    | inr others ↦ rw others (b, back, refl)
  ]

  relay-Sound :
      (e : Engine H) (t : Task H) (at : ℕ) (peers : List PeerHandle)
      → IsBound h.crypto e.key_ring
      → Backed h (forwarding at) t.env
      → Sound (relay h e t at peers) t.env
  unfolding relay
  relay-Sound e t at peers b back = elim (Bool-cases (leb t.env.hop_count 1)) [
    | inl last ↦ rw last (b, back, refl)
    | inr more ↦
        elim (Option-cases (h.marshal (record t.env { hop_count = t.env.hop_count - 1 }))) [
          | inl failed ↦ rw (more, failed, relay) (b, back, refl)
          | inr (raw, made) ↦ rw (more, made, relay) (send-Sound e t at peers raw b back)
        ]
  ]

  pub advance-Sound :
      (p : Pc) (e : Engine H) (t : Task H) (now : ℕ) (peers : List PeerHandle)
      → t.pc ≡ p
      → IsBound h.crypto e.key_ring
      → Backed h p t.env
      → Sound (advance_from h p e t now peers) t.env
  unfolding advance_from handle_message
  advance-Sound idle e t now peers at b back = (b, rw at back, refl)
  advance-Sound entering e t now peers at b back = enter-Sound e t b
  advance-Sound looking e t now peers at b back = (b, look_sound e t b back, refl)
  advance-Sound learning e t now peers at b (fits, can) = (
    add-IsBound h.crypto e.key_ring _ _ gossip_learned b (can_learn-bound h t.env can),
    fits,
    refl,
  )
  advance-Sound relooking e t now peers at b fits =
      (b, found-Backed h e.key_ring t.env (stopped unknown_sender) b fits tt, refl)
  advance-Sound (verifying entry) e t now peers at b back = verify-Sound e t entry now b back
  advance-Sound checking e t now peers at b back = check-Sound e t now b back
  advance-Sound (counting a) e t now peers at b back = (b, back, refl)
  advance-Sound (delivering a) e t now peers at b back =
      (rw (deliver-SameTables h e t.env).key_ring b, back, refl)
  advance-Sound (forwarding a) e t now peers at b back = relay-Sound e t a peers b back
  advance-Sound (reporting a dropped) e t now peers at b back = (b, back, refl)
  advance-Sound (stopped v) e t now peers at b back = (b, rw at back, refl)
  advance-Sound (finished a) e t now peers at b back = (b, rw at back, refl)
