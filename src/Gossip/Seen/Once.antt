-- ===== src/Gossip/Seen/Once.antt =====
-- The seen cache remembers an id for its time to live.
use micelio.Base.{ℕ, ◌+◌, ◌≤◌, ◌≡◌, refl, arith, not, Option, some, List, [], ◌∷◌, ◌||◌, ltb, ◌==◌}
use micelio.Base.{beq_iff, All}
use micelio.Base.Bytes.{Bytes, bytes_eq}
use micelio.Base.Dict.{
  lookup, kept, UniqueKeys, lookup-insert, lookup-keep_entries, UniqueKeys-insert,
  UniqueKeys-keep_entries,
}
use micelio.Gossip.Seen.{SeenCache, has, check, is_expired, cleanup}

abbrev pub seen_at : SeenCache → Bytes → Option ℕ
seen_at s id = lookup id s.entries

-- `check` answers as `has` does, and afterwards exactly the ids seen before and its own are seen.
pub has-check :
    (s : SeenCache) (id j : Bytes) (now : ℕ)
    → ((check s id now).0 ≡ has s id) × (has (check s id now).1 j ≡ (id == j || has s j))
unfolding has check
has-check s id j now =
    (ground arith, ground (arith, lookup-insert id j now s.entries, beq_iff id j))

-- The calls that change the cache, with their clock readings.
pub data Call : Type 0 where
  check_call : Bytes → ℕ → Call
  cleanup_call : ℕ → Call

unfoldable pub call : SeenCache → Call → SeenCache
call s (check_call id now) = (check s id now).1
call s (cleanup_call now) = cleanup s now

unfoldable pub calls : SeenCache → List Call → SeenCache
unfolding call
calls s [] = s
calls s (c ∷ cs) = calls (call s c) cs

abbrev pub call_time : Call → ℕ
call_time (check_call id now) = now
call_time (cleanup_call now) = now

pub UniqueKeys-call :
    (s : SeenCache) (c : Call) → UniqueKeys s.entries → UniqueKeys (call s c).entries
unfolding call check cleanup
UniqueKeys-call s (check_call id now) u = ground (arith, UniqueKeys-insert id now s.entries)
UniqueKeys-call s (cleanup_call now) u = UniqueKeys-keep_entries _ s.entries u

pub seen_at-call :
    (s : SeenCache) (c : Call) (id : Bytes) (t : ℕ)
    → UniqueKeys s.entries
    → seen_at s id ≡ some t
    → call_time c ≤ t + s.ttl
    → seen_at (call s c) id ≡ some t
unfolding call check cleanup is_expired
seen_at-call s (check_call j now) id t u h le =
    ground (arith, lookup-insert j id now s.entries, beq_iff j id)
seen_at-call s (cleanup_call now) id t u h le =
    rw (lookup-keep_entries (λ k v. not (ltb (v + s.ttl) now)) id s.entries u) (ground arith)

pub ttl-call : (s : SeenCache) (c : Call) → (call s c).ttl ≡ s.ttl
unfolding call check cleanup
ttl-call s (check_call id now) = ground arith
ttl-call s (cleanup_call now) = refl

-- In a cache that has no id twice, an id seen at time `t` is still seen, with the same time, after
-- any calls with clock readings up to `t + ttl`.
pub calls-remember :
    (s : SeenCache) (cs : List Call) (id : Bytes) (t : ℕ)
    → UniqueKeys s.entries
    → seen_at s id ≡ some t
    → All (λ c. call_time c ≤ t + s.ttl) cs
    → seen_at (calls s cs) id ≡ some t
unfolding calls
calls-remember s [] id t u h le = h
calls-remember s (c ∷ cs) id t u h le =
    calls-remember (call s c) cs id t (UniqueKeys-call s c u) (seen_at-call s c id t u h le.0)
      (rw ttl-call le.1)

-- After the clean-up at `now` an id is seen exactly if it was seen at most `ttl` before.
pub has-cleanup :
    (s : SeenCache) (id : Bytes) (now : ℕ)
    → UniqueKeys s.entries
    → seen_at (cleanup s now) id ≡ kept (λ t. not (is_expired s now t)) (seen_at s id)
unfolding cleanup
has-cleanup s id now u = lookup-keep_entries _ id s.entries u
