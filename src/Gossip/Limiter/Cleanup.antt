-- ===== src/Gossip/Limiter/Cleanup.antt =====
-- Forgetting a stale sender changes no answer: by then its bucket would have been full again.
use micelio.Base.{
  ℕ, ◌+◌, ◌*◌, ◌≤◌, ◌<◌, ◌≡◌, refl, arith, true, not, Option, none, some, ap, inl, inr, Bool-cases,
  sym, ◌∙◌,
}
use native.Mathlib.Nat.{mul-le-mul_left, le_of_lt}
use micelio.Base.Bytes.{Bytes, bytes_eq}
use micelio.Base.Dict.{lookup, kept, UniqueKeys, lookup-keep_entries}
use micelio.Base.Int.{pos, ◌+ℤ◌}
use micelio.Gossip.Limiter.{
  RateLimiter, SenderState, token, stale_after, is_stale, refill, spend, visit, allow, cleanup,
}
use micelio.Gossip.Limiter.Refill.{IsFilled, allow-visit, lookup-allow_self}

-- As NewRateLimiter sets the fields.
pub record IsConfigured (r : RateLimiter) : Type 0 where
  pub positive : 0 < r.max_per_sec
  pub doubled : r.burst ≡ r.max_per_sec * 2

-- What is stored for a sender, none or a filled state not newer than `t`.
abbrev pub FilledBy : RateLimiter → ℕ → Option SenderState → Type 0
FilledBy r t none = Unit {0}
FilledBy r t (some state) = IsFilled r state × (state.last_check ≤ t)

stale_product : (m last now : ℕ) → last + stale_after < now → m * last + m * stale_after ≤ m * now
stale_product m last now h = omega (arith, mul-le-mul_left m (le_of_lt h))

pub refill-stale :
    (r : RateLimiter) (state : SenderState) (now : ℕ)
    → IsConfigured r
    → IsFilled r state
    → state.last_check + stale_after < now
    → refill r state now ≡ pos (r.burst * token)
unfolding refill ◌+ℤ◌
refill-stale r state now c f h =
    ground (arith, stale_product r.max_per_sec state.last_check now, c.doubled)

spend_full :
    (r : RateLimiter) (now : ℕ)
    → IsConfigured r
    → spend (pos (r.burst * token)) now ≡ visit r none now
unfolding spend visit
spend_full r now c = ground (arith, c.doubled, c.positive)

visit-stale :
    (r : RateLimiter) (state : SenderState) (now : ℕ)
    → IsConfigured r
    → IsFilled r state
    → state.last_check + stale_after < now
    → visit r none now ≡ visit r (some state) now
visit-stale r state now c f h =
    unfold visit in rw (refill-stale r state now c f h, spend_full r now c)

pub lookup-cleanup :
    (r : RateLimiter) (id : Bytes) (t : ℕ)
    → UniqueKeys r.senders
    → lookup id (cleanup r t).senders ≡ kept (λ state. not (is_stale t state)) (lookup id r.senders)
unfolding cleanup
lookup-cleanup r id t u = lookup-keep_entries (λ k state. not (is_stale t state)) id r.senders u

pub stale_before :
    (t now : ℕ) (state : SenderState)
    → is_stale t state ≡ true
    → t ≤ now
    → state.last_check + stale_after < now
unfolding is_stale
stale_before t now state h le = ground arith

visit-cleanup :
    (r : RateLimiter) (t now : ℕ) (o : Option SenderState)
    → IsConfigured r
    → FilledBy r t o
    → t ≤ now
    → visit r (kept (λ state. not (is_stale t state)) o) now ≡ visit r o now
visit-cleanup r t now none c f le = refl
visit-cleanup r t now (some state) c f le = elim (Bool-cases (is_stale t state)) [
  | inl old ↦ rw old (visit-stale r state now c f.0 (stale_before t now state old le))
  | inr fresh ↦ rw fresh
]

visit_config :
    (r : RateLimiter) (t now : ℕ) (o : Option SenderState)
    → visit (cleanup r t) o now ≡ visit r o now
unfolding visit refill cleanup
visit_config r t now none = refl
visit_config r t now (some state) = refl

visit_after :
    (r : RateLimiter) (id : Bytes) (t now : ℕ)
    → IsConfigured r
    → UniqueKeys r.senders
    → FilledBy r t (lookup id r.senders)
    → t ≤ now
    → visit (cleanup r t) (lookup id (cleanup r t).senders) now ≡ visit r (lookup id r.senders) now
visit_after r id t now c u f le =
    visit_config r t now (lookup id (cleanup r t).senders)
    ∙ ap (λ o. visit r o now) (lookup-cleanup r id t u)
    ∙ visit-cleanup r t now (lookup id r.senders) c f le

-- In a limiter with a positive rate and twice that as its burst, where the sender's tokens lie
-- between 0 and the burst and were last changed by `t`: a clean-up at `t` changes neither the
-- answer of a later call of the sender nor what that call stores.
pub allow-cleanup :
    (r : RateLimiter) (id : Bytes) (t now : ℕ)
    → IsConfigured r
    → UniqueKeys r.senders
    → FilledBy r t (lookup id r.senders)
    → t ≤ now
    → ((allow (cleanup r t) id now).0 ≡ (allow r id now).0)
      × (lookup id (allow (cleanup r t) id now).1.senders ≡ lookup id (allow r id now).1.senders)
allow-cleanup r id t now c u f le =
    let same = visit_after r id t now c u f le in
    (
      allow-visit (cleanup r t) id now ∙ ap (λ p. p.0) same ∙ sym (allow-visit r id now),
      lookup-allow_self (cleanup r t) id now
          ∙ ap (λ p. some p.1) same
          ∙ sym (lookup-allow_self r id now),
    )
