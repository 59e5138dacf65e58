-- ===== src/Gossip/Limiter.antt =====
-- internal/gossip/ratelimit.go: a token bucket for each sender. A token is counted as 10^9 parts
-- and a time is a number of nanoseconds, so that a refill of `elapsed * maxPerSec` is whole: the
-- rounding of the program's floats is left out. `max_per_sec` is a whole number, as its only use,
-- `DefaultMaxPerSec`, is.
pub mod Refill
pub mod Cleanup
pub mod Budget
pub mod Rate
use micelio.Base.{ℕ, ◌+◌, ◌*◌, Bool, true, false, Option, none, some, [], ltb, not, if◌then◌else◌}
use micelio.Base.Bytes.{Bytes, bytes_eq}
use micelio.Base.Dict.{Dict, lookup, insert, keep_entries}
use micelio.Base.Int.{ℤ, pos, sub_ℕ, ◌+ℤ◌, ◌-ℤ◌, ltb_ℤ, leb_ℤ}

abbrev pub token : ℕ
token = 1_000_000_000

pub record SenderState : Type 0 where
  pub tokens : ℤ
  pub last_check : ℕ

pub record RateLimiter : Type 0 where
  pub senders : Dict Bytes SenderState
  pub max_per_sec : ℕ
  pub burst : ℕ

unfoldable pub new_rate_limiter : ℕ → RateLimiter
new_rate_limiter max_per_sec = record {
  senders = [];
  max_per_sec = max_per_sec;
  burst = max_per_sec * 2;
}

-- `tokens += elapsed * maxPerSec`, at most `burst`
unfoldable pub refill : RateLimiter → SenderState → ℕ → ℤ
refill r state now =
    let tokens = state.tokens +ℤ sub_ℕ (r.max_per_sec * now) (r.max_per_sec * state.last_check) in
    if ltb_ℤ (pos (r.burst * token)) tokens then pos (r.burst * token) else tokens

-- What a call does with the refilled tokens: the answer, and the sender's next state.
unfoldable pub spend : ℤ → ℕ → Bool × SenderState
spend tokens now =
    if leb_ℤ (pos token) tokens
    then (true, record { tokens = tokens -ℤ pos token; last_check = now })
    else (false, record { tokens = tokens; last_check = now })

unfoldable pub visit : RateLimiter → Option SenderState → ℕ → Bool × SenderState
visit r none now = (true, record { tokens = pos (r.burst * token) -ℤ pos token; last_check = now })
visit r (some state) now = spend (refill r state now) now

-- Allow: the answer, and the limiter after the call.
unfoldable pub allow : RateLimiter → Bytes → ℕ → Bool × RateLimiter
allow r sender_id now =
    let (ok, state) = visit r (lookup sender_id r.senders) now in
    (ok, record r { senders = insert sender_id state r.senders })

-- 5 * time.Minute
abbrev pub stale_after : ℕ
stale_after = 300_000_000_000

unfoldable pub is_stale : ℕ → SenderState → Bool
is_stale now state = ltb (state.last_check + stale_after) now

unfoldable pub cleanup : RateLimiter → ℕ → RateLimiter
cleanup r now = record r { senders = keep_entries (λ id state. not (is_stale now state)) r.senders }
