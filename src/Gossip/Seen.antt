-- ===== src/Gossip/Seen.antt =====
-- internal/gossip/seen.go: the cache of message ids. A time is a number of nanoseconds; the clock
-- readings of `time.Now` are arguments.
pub mod Once
use micelio.Base.{ℕ, ◌+◌, Bool, true, false, not, [], ltb, length, if◌then◌else◌}
use micelio.Base.Bytes.{Bytes, bytes_eq}
use micelio.Base.Dict.{Dict, insert, has_key, keep_entries}

pub record SeenCache : Type 0 where
  pub entries : Dict Bytes ℕ
  pub ttl : ℕ

unfoldable pub new_seen_cache : ℕ → SeenCache
new_seen_cache ttl = record { entries = []; ttl = ttl }

unfoldable pub has : SeenCache → Bytes → Bool
has s message_id = has_key message_id s.entries

-- The answer, and the cache after the call.
unfoldable pub check : SeenCache → Bytes → ℕ → Bool × SeenCache
check s message_id now =
    if has_key message_id s.entries
    then (true, s)
    else (false, record s { entries = insert message_id now s.entries })

unfoldable pub len : SeenCache → ℕ
len s = length s.entries

-- `t.Before(now.Add(-ttl))`
unfoldable pub is_expired : SeenCache → ℕ → ℕ → Bool
is_expired s now t = ltb (t + s.ttl) now

unfoldable pub cleanup : SeenCache → ℕ → SeenCache
cleanup s now = record s { entries = keep_entries (λ id t. not (is_expired s now t)) s.entries }
