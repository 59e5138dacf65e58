-- ===== src/Gossip/Limiter/Rate.antt =====
-- The rate that the limiter promises, over any run of calls and clean-ups by any senders.
use micelio.Base.{
  ℕ, ◌+◌, ◌*◌, ◌≤◌, ◌<◌, ◌≡◌, refl, ap, arith, true, false, not, Option, none, some, List, [], ◌∷◌,
  ◌==◌, if◌then◌else◌, Bool-cases, inl, inr, beq_iff,
}
use native.Mathlib.Nat.{mul-le-mul_left}
use micelio.Base.Bytes.{Bytes, bytes_eq}
use micelio.Base.Dict.{lookup, UniqueKeys, UniqueKeys-insert, UniqueKeys-keep_entries, kept}
use micelio.Gossip.Limiter.{
  RateLimiter, SenderState, token, is_stale, refill, visit, allow, cleanup, new_rate_limiter,
}
use micelio.Gossip.Limiter.Refill.{used, allow-visit, lookup-allow, lookup-allow_self}
use micelio.Gossip.Limiter.Cleanup.{IsConfigured, FilledBy, lookup-cleanup}
use micelio.Gossip.Limiter.Budget.{budget, visit-budget, budget-grows, budget-kept}

-- The calls of the limiter, with their clock readings.
pub data Call : Type 0 where
  allow_call : Bytes → ℕ → Call
  cleanup_call : ℕ → Call

abbrev pub call_time : Call → ℕ
call_time (allow_call id now) = now
call_time (cleanup_call now) = now

unfoldable pub call : RateLimiter → Call → RateLimiter
call r (allow_call id now) = (allow r id now).1
call r (cleanup_call now) = cleanup r now

-- What one call allows to the sender `id`: a token, or nothing.
unfoldable pub granted : RateLimiter → Bytes → Call → ℕ
granted r id (allow_call j now) = if j == id then used (allow r j now).0 else 0
granted r id (cleanup_call now) = 0

unfoldable pub total_granted : RateLimiter → Bytes → List Call → ℕ
unfolding granted call
total_granted r id [] = 0
total_granted r id (c ∷ cs) = granted r id c + total_granted (call r c) id cs

-- The clock readings do not decrease, from `t` on and up to `end`.
abbrev pub InOrder : ℕ → List Call → ℕ → Type 0
InOrder t [] end = t ≤ end
InOrder t (c ∷ cs) end = (t ≤ call_time c) × InOrder (call_time c) cs end

pub record IsValid (r : RateLimiter) (id : Bytes) (t : ℕ) : Type 0 where
  pub configured : IsConfigured r
  pub unique : UniqueKeys r.senders
  pub filled : FilledBy r t (lookup id r.senders)

abbrev left : RateLimiter → Bytes → ℕ → ℕ
left r id t = budget r (lookup id r.senders) t

call_config :
    (r : RateLimiter) (c : Call)
    → ((call r c).max_per_sec ≡ r.max_per_sec) × ((call r c).burst ≡ r.burst)
unfolding call allow cleanup
call_config r (allow_call id now) = (refl, refl)
call_config r (cleanup_call now) = (refl, refl)

-- One call: what is left falls by what is granted, and grows with the time since `t`.
record Step (r : RateLimiter) (id : Bytes) (t : ℕ) (c : Call) : Type 0 where
  paid :
      granted r id c + left (call r c) id (call_time c) + r.max_per_sec * t
      ≤ left r id t + r.max_per_sec * call_time c
  valid : IsValid (call r c) id (call_time c)

SameConfig : RateLimiter → RateLimiter → Type 0
SameConfig r' r = (r'.max_per_sec ≡ r.max_per_sec) × (r'.burst ≡ r.burst)

budget_config :
    (r' r : RateLimiter) (o : Option SenderState) (t : ℕ)
    → SameConfig r' r
    → budget r' o t ≡ budget r o t
unfolding SameConfig budget refill
budget_config r' r none t (m, b) = rw b
budget_config r' r (some state) t (m, b) = rw (m, b)

FilledBy-config :
    (r' r : RateLimiter) (o : Option SenderState) (t : ℕ)
    → SameConfig r' r
    → FilledBy r t o
    → FilledBy r' t o
unfolding SameConfig
FilledBy-config r' r none t c f = tt
FilledBy-config r' r (some state) t (m, b) (f, le) =
    (record { nonneg = f.nonneg; capped = rw b f.capped }, le)

call_unique : (r : RateLimiter) (c : Call) → UniqueKeys r.senders → UniqueKeys (call r c).senders
unfolding call allow cleanup
call_unique r (allow_call id now) u = UniqueKeys-insert id _ r.senders u
call_unique r (cleanup_call now) u = UniqueKeys-keep_entries _ r.senders u

-- From what the call stores for `id`, with the old configuration.
make_Step :
    (r : RateLimiter) (id : Bytes) (t : ℕ) (c : Call) (o : Option SenderState)
    → IsValid r id t
    → lookup id (call r c).senders ≡ o
    → granted r id c + budget r o (call_time c) + r.max_per_sec * t
      ≤ left r id t + r.max_per_sec * call_time c
    → FilledBy r (call_time c) o
    → Step r id t c
unfolding SameConfig
make_Step r id t c o v e paid f = record {
  paid = rw (e, budget_config (call r c) r o (call_time c) (call_config r c)) paid;
  valid = record {
    configured = omega (arith, v.configured.doubled, v.configured.positive, call_config r c);
    unique = call_unique r c v.unique;
    filled = rw e (FilledBy-config (call r c) r o (call_time c) (call_config r c) f);
  };
}

granted_self :
    (r : RateLimiter) (j id : Bytes) (now : ℕ)
    → (j == id) ≡ true
    → granted r id (allow_call j now) ≡ used (visit r (lookup id r.senders) now).0
unfolding granted
granted_self r j id now h = rw (h, (beq_iff j id).0 h, allow-visit r id now)

granted_other :
    (r : RateLimiter) (j id : Bytes) (now : ℕ)
    → (j == id) ≡ false
    → granted r id (allow_call j now) ≡ 0
unfolding granted
granted_other r j id now h = rw h

stored_self :
    (r : RateLimiter) (j id : Bytes) (now : ℕ)
    → (j == id) ≡ true
    → lookup id (call r (allow_call j now)).senders ≡ some (visit r (lookup id r.senders) now).1
unfolding call
stored_self r j id now h = rw ((beq_iff j id).0 h, lookup-allow_self r id now)

stored_other :
    (r : RateLimiter) (j id : Bytes) (now : ℕ)
    → (j == id) ≡ false
    → lookup id (call r (allow_call j now)).senders ≡ lookup id r.senders
unfolding call
stored_other r j id now h = rw (lookup-allow r j id now, h)

stored_cleanup :
    (r : RateLimiter) (id : Bytes) (now : ℕ)
    → UniqueKeys r.senders
    → lookup id (call r (cleanup_call now)).senders
      ≡ kept (λ state. not (is_stale now state)) (lookup id r.senders)
unfolding call
stored_cleanup r id now u = lookup-cleanup r id now u

granted_cleanup : (r : RateLimiter) (id : Bytes) (now : ℕ) → granted r id (cleanup_call now) ≡ 0
unfolding granted
granted_cleanup r id now = refl

call-Step :
    (r : RateLimiter) (id : Bytes) (t : ℕ) (c : Call)
    → IsValid r id t
    → t ≤ call_time c
    → Step r id t c
call-Step r id t (cleanup_call now) v le =
    let o = lookup id r.senders in
    let (grown, f) = budget-grows r o t now v.filled le in
    let (same, g) = budget-kept r o now v.configured f in
    make_Step r id t (cleanup_call now) _ v (stored_cleanup r id now v.unique)
      (omega (arith, granted_cleanup r id now, same, grown)) g
call-Step r id t (allow_call j now) v le =
    let o = lookup id r.senders in
    let (grown, f) = budget-grows r o t now v.filled le in
    let (spent, g) = visit-budget r o now v.configured f in
    elim (Bool-cases (j == id)) [
      | inl here ↦
          make_Step r id t (allow_call j now) _ v (stored_self r j id now here)
            (omega (arith, granted_self r j id now here, spent, grown)) g
      | inr other ↦
          make_Step r id t (allow_call j now) _ v (stored_other r j id now other)
            (omega (arith, granted_other r j id now other, grown)) f
    ]

total_le :
    (r : RateLimiter) (id : Bytes) (t end : ℕ) (cs : List Call)
    → IsValid r id t
    → InOrder t cs end
    → total_granted r id cs + r.max_per_sec * t ≤ left r id t + r.max_per_sec * end
unfolding total_granted
total_le r id t end [] v le = omega (arith, mul-le-mul_left r.max_per_sec le)
total_le r id t end (c ∷ cs) v (le, later) =
    let s = call-Step r id t c v le in
    omega (
      arith,
      s.paid,
      total_le (call r c) id (call_time c) end cs s.valid later,
      ap (λ (m : ℕ). m * call_time c) (call_config r c).0,
      ap (λ (m : ℕ). m * end) (call_config r c).0,
    )

new_fields : (m : ℕ) → ((new_rate_limiter m).max_per_sec ≡ m) × ((new_rate_limiter m).burst ≡ m * 2)
unfolding new_rate_limiter
new_fields m = (refl, refl)

new_left : (m : ℕ) (id : Bytes) (t : ℕ) → left (new_rate_limiter m) id t ≡ m * 2 * token
unfolding new_rate_limiter lookup budget
new_left m id t = refl

new-IsValid : (m : ℕ) (id : Bytes) (t : ℕ) → 0 < m → IsValid (new_rate_limiter m) id t
unfolding new_rate_limiter lookup
new-IsValid m id t h = record { configured = omega arith; unique = tt; filled = tt }

-- Between `t` and `end` a new limiter with a positive rate grants each sender no more than the
-- burst of `2 * max_per_sec` messages and `max_per_sec` a second, whatever the calls of all
-- senders and the clean-ups in between, as long as the clock does not run backwards.
pub total_granted-le :
    (max_per_sec : ℕ) (id : Bytes) (t end : ℕ) (cs : List Call)
    → 0 < max_per_sec
    → InOrder t cs end
    → total_granted (new_rate_limiter max_per_sec) id cs + max_per_sec * t
      ≤ max_per_sec * 2 * token + max_per_sec * end
total_granted-le m id t end cs h order =
    let r = new_rate_limiter m in
    omega (
      arith,
      total_le r id t end cs (new-IsValid m id t h) order,
      new_fields m,
      new_left m id t,
      ap (λ (k : ℕ). k * t) (new_fields m).0,
      ap (λ (k : ℕ). k * end) (new_fields m).0,
    )
