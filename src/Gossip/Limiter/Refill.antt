-- ===== src/Gossip/Limiter/Refill.antt =====
-- The tokens of a sender under one call, as linear facts.
use micelio.Base.{ℕ, ◌+◌, ◌*◌, ◌≤◌, ◌≡◌, refl, arith, Bool, true, false, some, if◌then◌else◌}
use micelio.Base.Int.{ℤ, pos, pos_part, ◌+ℤ◌, ◌-ℤ◌, ◌≤ℤ◌}
use micelio.Gossip.Limiter.{RateLimiter, SenderState, token, refill, spend, visit, allow}
use micelio.Base.{◌==◌, beq_refl}
use micelio.Base.Bytes.{Bytes, bytes_eq}
use micelio.Base.Dict.{lookup, lookup-insert}

abbrev pub used : Bool → ℕ
used true = token
used false = 0

-- A sender's state that calls in the order of the clock can leave.
pub record IsFilled (r : RateLimiter) (state : SenderState) : Type 0 where
  pub nonneg : pos 0 ≤ℤ state.tokens
  pub capped : state.tokens ≤ℤ pos (r.burst * token)

pub refill-IsFilled :
    (r : RateLimiter) (state : SenderState) (now : ℕ)
    → IsFilled r state
    → r.max_per_sec * state.last_check ≤ r.max_per_sec * now
    → (pos 0 ≤ℤ refill r state now)
      × (refill r state now ≤ℤ pos (r.burst * token))
      × (pos_part (refill r state now) + r.max_per_sec * state.last_check
          ≤ pos_part state.tokens + r.max_per_sec * now)
unfolding refill ◌+ℤ◌
refill-IsFilled r state now f le = ground arith

pub spend-used :
    (tokens : ℤ) (now : ℕ)
    → pos 0 ≤ℤ tokens
    → (pos 0 ≤ℤ (spend tokens now).1.tokens)
      × ((spend tokens now).1.tokens ≤ℤ tokens)
      × (used (spend tokens now).0 + pos_part (spend tokens now).1.tokens ≡ pos_part tokens)
      × ((spend tokens now).1.last_check ≡ now)
unfolding spend ◌-ℤ◌
spend-used tokens now h = ground arith

pub lookup-allow :
    (r : RateLimiter) (id j : Bytes) (now : ℕ)
    → lookup j (allow r id now).1.senders
      ≡ (if id == j then some (visit r (lookup id r.senders) now).1 else lookup j r.senders)
unfolding allow
lookup-allow r id j now = lookup-insert id j _ r.senders

pub lookup-allow_self :
    (r : RateLimiter) (id : Bytes) (now : ℕ)
    → lookup id (allow r id now).1.senders ≡ some (visit r (lookup id r.senders) now).1
lookup-allow_self r id now = rw (lookup-allow r id id now, beq_refl id)

pub allow-visit :
    (r : RateLimiter) (id : Bytes) (now : ℕ)
    → (allow r id now).0 ≡ (visit r (lookup id r.senders) now).0
unfolding allow
allow-visit r id now = refl
