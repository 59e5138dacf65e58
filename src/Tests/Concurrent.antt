-- ===== src/Tests/Concurrent.antt =====
-- Runs of calls that are interleaved (internal/gossip).
use micelio.Base.{
  ℕ, suc, zero, ◌+◌, ◌<◌, ◌≤◌, ◌≡◌, ◌≢◌, ◌⊎◌, refl, arith, true, false, some, List, [], ◌∷◌, ◌++◌,
  All, nat_eq,
}
use micelio.Base.Bytes.{bytes_eq, bytes_beq, codes}
use micelio.Base.Dict
use micelio.Base.Int.{◌+ℤ◌, ◌-ℤ◌}
use micelio.Stdlib.Hex
use micelio.Proto.{verify_envelope, envelope_sign_data}
use micelio.Gossip.Seen
use micelio.Gossip.KeyRing
use micelio.Gossip.KeyRing.{gossip_learned}
use micelio.Gossip.Limiter
use micelio.Gossip.State.{new_engine, register_handler}
use micelio.Gossip.Engine.{candidates, choose, send_all, count_sent, deliver}
use micelio.Gossip.Engine.Outcome.{WellSized}
use micelio.Gossip.Concurrent.{
  enter, reject, can_learn, test_and_set, verify, handle_message, send_on, relay, advance_from,
  advance,
}
use micelio.Gossip.Concurrent.System.{
  Move, arrive, turn, tick, sweep_seen, add_key, init, move, moves,
}
use micelio.Gossip.Concurrent.Acceptances.{Apart}
use micelio.Gossip.Concurrent.Once.{acceptance, accepted_at, accepted-Apart}
use micelio.Gossip.Concurrent.Authentic.{AddsBound, accepted-IsAuthentic}
use micelio.Gossip.Concurrent.Backed.{IsAuthentic}
use micelio.Tests.{toy_crypto, key_a, id_a}
use micelio.Tests.Gossip.{host, engine, peers, hello, engine_unique, engine-IsBound}

abbrev turns : ℕ → ℕ → List Move
turns i zero = []
turns i (suc n) = turn i peers ∷ turns i n

-- Two calls with one message: the second comes back to life after the id has been swept.
abbrev twice : List Move
twice =
    arrive 0 (codes "p1") hello
    ∷ (turns 0 10
        ++ (tick 300_000_000_001
            ∷ sweep_seen
            ∷ add_key id_a key_a gossip_learned
            ∷ arrive 1 (codes "p2") hello
            ∷ turns 1 10))

first_accepted : acceptance ((moves host (init engine 5) twice).task 0) ≡ some (codes "m1", 5)
unfolding moves move advance advance_from enter reject can_learn test_and_set verify handle_message
    send_on relay new_engine register_handler deliver candidates choose send_all count_sent
    Seen.new_seen_cache Seen.has Seen.check Seen.cleanup Seen.is_expired KeyRing.new_key_ring
    KeyRing.lookup KeyRing.add Limiter.new_rate_limiter Limiter.allow Limiter.visit Limiter.spend
    Limiter.refill micelio.Base.Int.◌+ℤ◌ micelio.Base.Int.◌-ℤ◌ Dict.lookup Dict.insert
    Dict.keep_entries verify_envelope envelope_sign_data Hex.encode bytes_beq
first_accepted = refl

second_accepted :
    acceptance ((moves host (init engine 5) twice).task 1) ≡ some (codes "m1", 300_000_000_006)
unfolding moves move advance advance_from enter reject can_learn test_and_set verify handle_message
    send_on relay new_engine register_handler deliver candidates choose send_all count_sent
    Seen.new_seen_cache Seen.has Seen.check Seen.cleanup Seen.is_expired KeyRing.new_key_ring
    KeyRing.lookup KeyRing.add Limiter.new_rate_limiter Limiter.allow Limiter.visit Limiter.spend
    Limiter.refill micelio.Base.Int.◌+ℤ◌ micelio.Base.Int.◌-ℤ◌ Dict.lookup Dict.insert
    Dict.keep_entries verify_envelope envelope_sign_data Hex.encode bytes_beq
second_accepted = refl

accepted-Apart_example : Apart engine.seen.ttl 5 300_000_000_006
accepted-Apart_example =
    accepted-Apart host engine 5 twice 0 1 5 300_000_000_006 (codes "m1") engine_unique
      (λ e. absurd (omega arith)) first_accepted second_accepted

twice-AddsBound : All (AddsBound host) twice
unfolding Hex.encode
twice-AddsBound = (
  tt,
  (
    tt,
    (
      tt,
      (
        tt,
        (
          tt,
          (
            tt,
            (
              tt,
              (
                tt,
                (
                  tt,
                  (
                    tt,
                    (
                      tt,
                      (
                        tt,
                        (
                          tt,
                          (
                            refl,
                            (tt, (tt, (tt, (tt, (tt, (tt, (tt, (tt, (tt, (tt, (tt, tt))))))))))),
                          ),
                        ),
                      ),
                    ),
                  ),
                ),
              ),
            ),
          ),
        ),
      ),
    ),
  ),
)

at_five : accepted_at ((moves host (init engine 5) twice).task 0).pc ≡ some 5
unfolding moves move advance advance_from enter reject can_learn test_and_set verify handle_message
    send_on relay new_engine register_handler deliver candidates choose send_all count_sent
    Seen.new_seen_cache Seen.has Seen.check Seen.cleanup Seen.is_expired KeyRing.new_key_ring
    KeyRing.lookup KeyRing.add Limiter.new_rate_limiter Limiter.allow Limiter.visit Limiter.spend
    Limiter.refill micelio.Base.Int.◌+ℤ◌ micelio.Base.Int.◌-ℤ◌ Dict.lookup Dict.insert
    Dict.keep_entries verify_envelope envelope_sign_data Hex.encode bytes_beq
at_five = refl

accepted-IsAuthentic_example :
    WellSized ((moves host (init engine 5) twice).task 0).env
    × IsAuthentic toy_crypto ((moves host (init engine 5) twice).task 0).env
accepted-IsAuthentic_example =
    accepted-IsAuthentic host engine 5 twice 0 5 engine-IsBound twice-AddsBound at_five
