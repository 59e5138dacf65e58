-- ===== src/Gossip/Limiter/Budget.antt =====
-- What a sender can still spend at a time: the refilled tokens, or a full bucket for one who is not
-- stored.
use micelio.Base.{
  ℕ, ◌+◌, ◌*◌, ◌≤◌, ◌≡◌, refl, sym, ap, ◌∙◌, arith, true, not, Option, none, some, Bool-cases, inl,
  inr,
}
use mathlib.Core.Path.{subst}
use micelio.Base.Dict.{kept}
use micelio.Base.Int.{ℤ, pos, pos_part, ◌+ℤ◌, ◌≤ℤ◌}
use micelio.Gossip.Limiter.{RateLimiter, SenderState, token, is_stale, refill, spend, visit}
use micelio.Gossip.Limiter.Refill.{IsFilled, used, refill-IsFilled, spend-used}
use micelio.Gossip.Limiter.Cleanup.{IsConfigured, FilledBy, refill-stale, stale_before}
use native.Mathlib.Nat.{mul-le-mul_left, le_refl}

unfoldable pub budget : RateLimiter → Option SenderState → ℕ → ℕ
budget r none t = r.burst * token
budget r (some state) t = pos_part (refill r state t)

refill_again :
    (r : RateLimiter) (state : SenderState)
    → IsFilled r state
    → refill r state state.last_check ≡ state.tokens
unfolding refill ◌+ℤ◌
refill_again r state f = ground arith

spend-IsFilled :
    (r : RateLimiter) (tokens : ℤ) (now : ℕ)
    → pos 0 ≤ℤ tokens
    → tokens ≤ℤ pos (r.burst * token)
    → IsFilled r (spend tokens now).1
spend-IsFilled r tokens now lo hi = let (a, b, c, d) = spend-used tokens now lo in omega arith

spend-budget :
    (r : RateLimiter) (tokens : ℤ) (now : ℕ)
    → pos 0 ≤ℤ tokens
    → tokens ≤ℤ pos (r.burst * token)
    → used (spend tokens now).0 + budget r (some (spend tokens now).1) now ≡ pos_part tokens
unfolding budget
spend-budget r tokens now lo hi =
    let (a, b, c, d) = spend-used tokens now lo in
    let again = refill_again r (spend tokens now).1 (spend-IsFilled r tokens now lo hi) in
    let at_now : refill r (spend tokens now).1 now ≡ (spend tokens now).1.tokens =
      subst (λ t. refill r (spend tokens now).1 t ≡ (spend tokens now).1.tokens) d again in
    omega (arith, ap pos_part at_now, c)

full_bounds :
    (r : RateLimiter)
    → (pos 0 ≤ℤ pos (r.burst * token)) × (pos (r.burst * token) ≤ℤ pos (r.burst * token))
full_bounds r = omega arith

visit_full :
    (r : RateLimiter) (now : ℕ)
    → IsConfigured r
    → visit r none now ≡ spend (pos (r.burst * token)) now
unfolding visit spend
visit_full r now c = ground (arith, c.doubled, c.positive)

budget-none : (r : RateLimiter) (now : ℕ) → budget r none now ≡ pos_part (pos (r.burst * token))
unfolding budget
budget-none r now = refl

budget-some :
    (r : RateLimiter) (state : SenderState) (now : ℕ)
    → budget r (some state) now ≡ pos_part (refill r state now)
unfolding budget
budget-some r state now = refl

pos_part-le : (a : ℤ) (n : ℕ) → a ≤ℤ pos n → pos_part a ≤ n
pos_part-le (pos k) n h = omega arith
pos_part-le _ n h = omega arith

visit-some :
    (r : RateLimiter) (state : SenderState) (now : ℕ)
    → visit r (some state) now ≡ spend (refill r state now) now
unfolding visit
visit-some r state now = refl

refill-grows :
    (r : RateLimiter) (state : SenderState) (t now : ℕ)
    → IsFilled r state
    → r.max_per_sec * state.last_check ≤ r.max_per_sec * t
    → r.max_per_sec * t ≤ r.max_per_sec * now
    → pos_part (refill r state now) + r.max_per_sec * t
      ≤ pos_part (refill r state t) + r.max_per_sec * now
unfolding refill ◌+ℤ◌
refill-grows r state t now f a b = ground arith

spend_step :
    (r : RateLimiter) (tokens : ℤ) (now : ℕ)
    → pos 0 ≤ℤ tokens
    → tokens ≤ℤ pos (r.burst * token)
    → (used (spend tokens now).0 + budget r (some (spend tokens now).1) now ≡ pos_part tokens)
      × FilledBy r now (some (spend tokens now).1)
spend_step r tokens now lo hi = (
  spend-budget r tokens now lo hi,
  (spend-IsFilled r tokens now lo hi, omega (arith, (spend-used tokens now lo).3)),
)

-- A call spends exactly what it is charged for.
pub visit-budget :
    (r : RateLimiter) (o : Option SenderState) (now : ℕ)
    → IsConfigured r
    → FilledBy r now o
    → (used (visit r o now).0 + budget r (some (visit r o now).1) now ≡ budget r o now)
      × FilledBy r now (some (visit r o now).1)
visit-budget r none now c f =
    let (lo, hi) = full_bounds r in
    let (b, g) = spend_step r (pos (r.burst * token)) now lo hi in
    rw (visit_full r now c) (b ∙ sym (budget-none r now), g)
visit-budget r (some state) now c f =
    let (lo, hi, grow) = refill-IsFilled r state now f.0 (mul-le-mul_left r.max_per_sec f.1) in
    let (b, g) = spend_step r (refill r state now) now lo hi in
    rw (visit-some r state now) (b ∙ sym (budget-some r state now), g)

-- Time adds `max_per_sec` parts a nanosecond at most.
pub budget-grows :
    (r : RateLimiter) (o : Option SenderState) (t now : ℕ)
    → FilledBy r t o
    → t ≤ now
    → (budget r o now + r.max_per_sec * t ≤ budget r o t + r.max_per_sec * now) × FilledBy r now o
unfolding budget
budget-grows r none t now f le = (omega (arith, mul-le-mul_left r.max_per_sec le), tt)
budget-grows r (some state) t now f le = (
  refill-grows r state t now f.0 (mul-le-mul_left _ f.1) (mul-le-mul_left _ le),
  (f.0, omega arith),
)

pub budget-stale :
    (r : RateLimiter) (state : SenderState) (t : ℕ)
    → IsConfigured r
    → IsFilled r state
    → is_stale t state ≡ true
    → budget r none t ≡ budget r (some state) t
unfolding budget
budget-stale r state t c f h =
    rw (refill-stale r state t c f (stale_before t t state h (le_refl t)))

-- The clean-up changes no budget.
pub budget-kept :
    (r : RateLimiter) (o : Option SenderState) (t : ℕ)
    → IsConfigured r
    → FilledBy r t o
    → (budget r (kept (λ state. not (is_stale t state)) o) t ≡ budget r o t)
      × FilledBy r t (kept (λ state. not (is_stale t state)) o)
budget-kept r none t c f = (refl, f)
budget-kept r (some state) t c f = elim (Bool-cases (is_stale t state)) [
  | inl old ↦ rw old (budget-stale r state t c f.0 old, tt)
  | inr fresh ↦ rw fresh (refl, f)
]

pub budget-le :
    (r : RateLimiter) (o : Option SenderState) (t : ℕ)
    → FilledBy r t o
    → budget r o t ≤ r.burst * token
unfolding budget
budget-le r none t f = le_refl _
budget-le r (some state) t f =
    pos_part-le (refill r state t) (r.burst * token)
      (refill-IsFilled r state t f.0 (mul-le-mul_left r.max_per_sec f.1)).1
