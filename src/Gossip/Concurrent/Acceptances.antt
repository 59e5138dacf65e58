-- ===== src/Gossip/Concurrent/Acceptances.antt =====
-- What has been accepted, and when, against the seen cache and the clock.
use micelio.Base.{
  ℕ, ◌+◌, ◌≤◌, ◌<◌, ◌≡◌, ◌≢◌, refl, sym, ◌∙◌, arith, ◌⊎◌, inl, inr, true, false, Option, some, ◌==◌,
  leb, leb→le, nat_eq, Bool-cases, beq_iff,
}
use micelio.Base.Bytes.{Bytes, bytes_eq}
use micelio.Base.Dict.{UniqueKeys}
use micelio.Gossip.Seen
use micelio.Gossip.Seen.{SeenCache}
use micelio.Gossip.Seen.Once.{
  seen_at, Call, check_call, call, call_time, UniqueKeys-call, seen_at-call, ttl-call,
}
use micelio.Gossip.Engine.Replay.{first_seen_at}
use micelio.Gossip.Concurrent.System.{set_at}

-- The times of two acceptances are more than `ttl` apart.
abbrev pub Apart : ℕ → ℕ → ℕ → Type 0
Apart ttl t u = (t + ttl < u) ⊎ (u + ttl < t)

-- The acceptances of all calls, against the cache and the clock.
pub record IsOnce (acc : ℕ → Option (Bytes × ℕ)) (s : SeenCache) (clock ttl : ℕ) : Type 0 where
  pub unique : UniqueKeys s.entries
  pub lives : s.ttl ≡ ttl
  pub past : (i : ℕ) (id : Bytes) (t : ℕ) → acc i ≡ some (id, t) → t ≤ clock
  pub held :
      (i : ℕ) (id : Bytes) (t : ℕ) → acc i ≡ some (id, t) → clock ≤ t + ttl → seen_at s id ≡ some t
  pub apart :
      (i j : ℕ) (id : Bytes) (t u : ℕ)
      → i ≢ j
      → acc i ≡ some (id, t)
      → acc j ≡ some (id, u)
      → Apart ttl t u

module _ (acc : ℕ → Option (Bytes × ℕ)) (s : SeenCache) (clock ttl : ℕ) where
  -- Time passes.
  pub IsOnce-later : (d : ℕ) → IsOnce acc s clock ttl → IsOnce acc s (clock + d) ttl
  IsOnce-later d o = record {
    unique = o.unique;
    lives = o.lives;
    past = λ i id t a. omega (arith, o.past i id t a);
    held = λ i id t a le. o.held i id t a (omega arith);
    apart = o.apart;
  }

  -- A call of the cache by which nothing is accepted.
  pub IsOnce-call :
      (c : Call) → call_time c ≡ clock → IsOnce acc s clock ttl → IsOnce acc (call s c) clock ttl
  IsOnce-call c now o = record {
    unique = UniqueKeys-call s c o.unique;
    lives = ttl-call s c ∙ o.lives;
    past = o.past;
    held =
        λ i id t a le. seen_at-call s c id t o.unique (o.held i id t a le) (omega (arith, o.lives));
    apart = o.apart;
  }

  pub IsOnce-same :
      (acc' : ℕ → Option (Bytes × ℕ))
      → ((i : ℕ) → acc' i ≡ acc i)
      → IsOnce acc s clock ttl
      → IsOnce acc' s clock ttl
  IsOnce-same acc' same o = record {
    unique = o.unique;
    lives = o.lives;
    past = λ i id t a. o.past i id t (sym (same i) ∙ a);
    held = λ i id t a. o.held i id t (sym (same i) ∙ a);
    apart = λ i j id t u ne a b. o.apart i j id t u ne (sym (same i) ∙ a) (sym (same j) ∙ b);
  }

  -- An id that is not in the cache was accepted more than `ttl` ago, if at all.
  long_ago :
      (i : ℕ) (id : Bytes) (t : ℕ)
      → Seen.has s id ≡ false
      → IsOnce acc s clock ttl
      → acc i ≡ some (id, t)
      → t + ttl < clock
  unfolding Seen.has
  long_ago i id t unseen o a = elim (Bool-cases (leb clock (t + ttl))) [
    | inl within ↦ absurd (ground (arith, o.held i id t a (leb→le clock (t + ttl) within)))
    | inr past ↦ ground arith
  ]

  module _ (i : ℕ) (id : Bytes) (unseen : Seen.has s id ≡ false) (o : IsOnce acc s clock ttl) where
    abbrev pub won : ℕ → Option (Bytes × ℕ)
    won = set_at acc i (some (id, clock))

    won_self :
        (j : ℕ) (id' : Bytes) (t : ℕ)
        → (i == j) ≡ true
        → won j ≡ some (id', t)
        → (id' ≡ id) × (t ≡ clock)
    won_self j id' t here a = ground arith

    won_other : (j : ℕ) → (i == j) ≡ false → won j ≡ acc j
    won_other j there = rw there refl

    won_past : (j : ℕ) (id' : Bytes) (t : ℕ) → won j ≡ some (id', t) → t ≤ clock
    won_past j id' t a = elim (Bool-cases (i == j)) [
      | inl here ↦ let (same, now) = won_self j id' t here a in omega arith
      | inr there ↦ o.past j id' t (sym (won_other j there) ∙ a)
    ]

    won_held :
        (j : ℕ) (id' : Bytes) (t : ℕ)
        → won j ≡ some (id', t)
        → clock ≤ t + ttl
        → seen_at (call s (check_call id clock)) id' ≡ some t
    unfolding call
    won_held j id' t a le = elim (Bool-cases (i == j)) [
      | inl here ↦
          let (same, now) = won_self j id' t here a in
          rw (same, now) (first_seen_at s id clock unseen)
      | inr there ↦
          seen_at-call s (check_call id clock) id' t o.unique
            (o.held j id' t (sym (won_other j there) ∙ a) le) (omega (arith, o.lives))
    ]

    won-Apart :
        (j k : ℕ) (id' : Bytes) (t u : ℕ)
        → j ≢ k
        → won j ≡ some (id', t)
        → won k ≡ some (id', u)
        → Apart ttl t u
    won-Apart j k id' t u ne a b = elim (Bool-cases (i == j)) [
      | inl here ↦ elim (Bool-cases (i == k)) [
        | inl also ↦ absurd (ne (sym ((beq_iff i j).0 here) ∙ (beq_iff i k).0 also))
        | inr there ↦
            let (same, now) = won_self j id' t here a in
            inr (rw now (long_ago k id u unseen o (rw (← same) (sym (won_other k there) ∙ b))))
      ]
      | inr there ↦ elim (Bool-cases (i == k)) [
        | inl here ↦
            let (same, now) = won_self k id' u here b in
            inl (rw now (long_ago j id t unseen o (rw (← same) (sym (won_other j there) ∙ a))))
        | inr also ↦
            o.apart j k id' t u ne (sym (won_other j there) ∙ a) (sym (won_other k also) ∙ b)
      ]
    ]

    -- A call accepts an id that the cache does not have.
    pub IsOnce-won : IsOnce won (call s (check_call id clock)) clock ttl
    IsOnce-won = record {
      unique = UniqueKeys-call s (check_call id clock) o.unique;
      lives = ttl-call s (check_call id clock) ∙ o.lives;
      past = won_past;
      held = won_held;
      apart = won-Apart;
    }
