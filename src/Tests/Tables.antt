-- ===== src/Tests/Tables.antt =====
-- Runs of the seen cache, the key ring, the rate limiter and the signatures.
use micelio.Base.{◌≡◌, ◌≤◌, ◌+◌, ◌*◌, refl, arith, List, [], ◌∷◌}
use micelio.Base.Bytes.{bytes_eq, bytes_beq, codes}
use micelio.Base.Dict.{lookup, UniqueKeys}
use micelio.Base.Int.{pos}
use micelio.Proto.{Envelope, envelope_sign_data}
use micelio.Proto.SignData.{SameSigned, sign_data-injective}
use micelio.Gossip.Limiter
use micelio.Gossip.Limiter.{RateLimiter, token}
use micelio.Gossip.Limiter.Cleanup.{IsConfigured, FilledBy, allow-cleanup}
use micelio.Gossip.Limiter.Rate.{InOrder, allow_call, total_granted, total_granted-le}
use micelio.Gossip.Limiter.Rate
use micelio.Tests.{key_a, id_a}

abbrev burst_calls : List Rate.Call
burst_calls = allow_call id_a 5 ∷ allow_call id_a 6 ∷ Rate.cleanup_call 7 ∷ allow_call id_a 8 ∷ []

total_granted-le_example :
    total_granted (Limiter.new_rate_limiter 1) id_a burst_calls + 1 * 5 ≤ 1 * 2 * token + 1 * 10
total_granted-le_example = total_granted-le 1 id_a 5 10 burst_calls (omega arith) in_order
  where
    in_order : InOrder 5 burst_calls 10
    in_order = (omega arith, (omega arith, (omega arith, (omega arith, omega arith))))

abbrev spent : RateLimiter
spent = record {
  senders = (id_a, record { tokens = pos 0; last_check = 10 }) ∷ [];
  max_per_sec = 10;
  burst = 20;
}

allow-cleanup_example :
    ((Limiter.allow (Limiter.cleanup spent 400_000_000_000) id_a 400_000_000_001).0
      ≡ (Limiter.allow spent id_a 400_000_000_001).0)
    × (lookup id_a
          (Limiter.allow (Limiter.cleanup spent 400_000_000_000) id_a 400_000_000_001).1.senders
        ≡ lookup id_a (Limiter.allow spent id_a 400_000_000_001).1.senders)
allow-cleanup_example =
    allow-cleanup spent id_a 400_000_000_000 400_000_000_001 configured spent_unique filled
      (omega arith)
  where
    configured : IsConfigured spent
    configured = record { positive = omega arith; doubled = refl }

    spent_unique : UniqueKeys spent.senders
    spent_unique = unfold lookup in (refl, tt)

    filled : FilledBy spent 400_000_000_000 (lookup id_a spent.senders)
    filled =
        unfold lookup bytes_beq in
        (record { nonneg = omega arith; capped = omega arith }, omega arith)

abbrev draft : Envelope
draft = record {
  message_id = codes "m1";
  sender_id = id_a;
  lamport_ts = 1;
  hop_count = 10;
  msg_type = 3;
  payload = codes "hi";
  signature = [];
  sender_pubkey = key_a;
}

sign_data-injective_example : SameSigned draft (record draft { hop_count = 4 })
sign_data-injective_example =
    sign_data-injective draft (record draft { hop_count = 4 }) refl refl (omega arith) (omega arith)
      (omega arith) (omega arith) same_bytes
  where
    same_bytes : envelope_sign_data draft ≡ envelope_sign_data (record draft { hop_count = 4 })
    same_bytes = unfold envelope_sign_data in refl
