-- ===== src/Transport/Dials/Backoff.antt =====
-- The wait between dials of a failing peer.
use micelio.Base.{
  ℕ, zero, suc, ◌+◌, ◌-◌, ◌*◌, ◌^◌, ◌≤◌, ◌≡◌, refl, arith, ◌==◌, nat_eq, if◌then◌else◌,
}
use micelio.Transport.State.{PeerRecord}
use micelio.Transport.Discovery.{backoff}
use Prim.Native.Nat.{min}
use native.Mathlib.Nat.{pow-suc}
use native.Mathlib.Numerals.{add-one}

abbrev pub failed_once_more : PeerRecord → PeerRecord
failed_once_more r = record r { fail_count = r.fail_count + 1 }

pow_pos : (k : ℕ) → 1 ≤ 2 ^ k
pow_pos zero = omega arith
pow_pos (suc k) = omega (arith, pow_pos k, pow-suc 2 k)

delay : ℕ → ℕ
delay zero = 0
delay (suc k) = min (2 ^ k) 30

by_count : (n : ℕ) → (if n == 0 then 0 else min (2 ^ (n - 1)) 30) ≡ delay n
unfolding delay
by_count zero = refl
by_count (suc k) = let e : suc k - 1 ≡ k = omega arith in rw e (ground arith)

backoff-delay : (r : PeerRecord) → backoff r ≡ delay r.fail_count
unfolding backoff
backoff-delay r = by_count r.fail_count

delay_doubles :
    (n : ℕ)
    → (delay (suc n) ≡ (if n == 0 then 1 else min (2 * delay n) 30))
      × (delay n ≤ delay (suc n))
      × (delay n ≤ 30)
unfolding delay
delay_doubles zero = (refl, omega arith, omega arith)
delay_doubles (suc k) = ground (arith, pow-suc 2 k, pow_pos k)

-- Without failures there is no wait, one failure makes it a second, and each further failure
-- doubles it up to 30 seconds, which it never passes.
pub backoff_doubles :
    (r : PeerRecord)
    → (backoff (failed_once_more r) ≡ (if r.fail_count == 0 then 1 else min (2 * backoff r) 30))
      × (backoff r ≤ backoff (failed_once_more r))
      × (backoff r ≤ 30)
backoff_doubles r =
    rw (backoff-delay (failed_once_more r), backoff-delay r, add-one) (delay_doubles r.fail_count)
