-- ===== src/Gossip/Concurrent/Once.antt =====
-- Calls that run at the same time do not accept one message id twice within its time to live.
use micelio.Base.{
  ◌∙◌, ap, sym, ℕ, ◌≡◌, ◌≢◌, refl, arith, ◌⊎◌, inl, inr, false, Option, none, some, List, [], ◌∷◌,
  ◌==◌, nat_eq, Bool-cases, beq_iff,
}
use micelio.Base.Bytes.{Bytes, bytes_eq}
use micelio.Base.Dict.{UniqueKeys}
use micelio.Proto.{Envelope}
use micelio.Gossip.Seen
use micelio.Gossip.Seen.{SeenCache}
use micelio.Gossip.Seen.Once.{check_call, cleanup_call, call}
use micelio.Gossip.Engine.Replay.{broadcast-seen}
use micelio.Gossip.Engine.Fields.{deliver-SameTables}
use micelio.Gossip.State.{PeerHandle, Host, Engine}
use micelio.Gossip.Concurrent.{
  Pc, Task, idle, entering, looking, learning, relooking, verifying, checking, counting, delivering,
  forwarding, reporting, stopped, finished, enter, test_and_set, verify, handle_message, send_on,
  relay, advance_from, advance,
}
use micelio.Gossip.Concurrent.System.{
  begin-cases, System, Move, arrive, turn, tick, sweep_seen, sweep_limiter, own, add_key, move,
  moves, set_at, begin, init,
}
use micelio.Gossip.Concurrent.Acceptances.{
  Apart, IsOnce, IsOnce-later, IsOnce-call, IsOnce-same, IsOnce-won,
}

-- When the call accepted its message.
abbrev pub accepted_at : Pc → Option ℕ
accepted_at (counting at) = some at
accepted_at (delivering at) = some at
accepted_at (forwarding at) = some at
accepted_at (reporting at dropped) = some at
accepted_at (finished at) = some at
accepted_at other = none

abbrev at_id : Option ℕ → Bytes → Option (Bytes × ℕ)
at_id none id = none
at_id (some at) id = some (id, at)

-- The message id that a call accepted, and when.
abbrev pub acceptance : {H : Type 0} → Task H → Option (Bytes × ℕ)
acceptance t = at_id (accepted_at t.pc) t.env.message_id

-- What a turn does to the cache and to the acceptance of its call: nothing, or both at once.
abbrev Quiet : {H : Type 0} → Engine H → Task H → Engine H → Task H → Type 0
Quiet e t e' t' = (e'.seen ≡ e.seen) × (acceptance t' ≡ acceptance t)

abbrev Wins : {H : Type 0} → Engine H → Task H → ℕ → Engine H → Task H → Type 0
Wins e t now e' t' =
    (Seen.has e.seen t.env.message_id ≡ false)
    × (e'.seen ≡ call e.seen (check_call t.env.message_id now))
    × (acceptance t' ≡ some (t.env.message_id, now))

module _ (h : Host) {H : Type 0} where
  abbrev Effect : Engine H → Task H → ℕ → Engine H × Task H → Type 0
  Effect e t now r = Quiet e t r.0 r.1 ⊎ Wins e t now r.0 r.1

  advance-Effect :
      (p : Pc) (e : Engine H) (t : Task H) (now : ℕ) (peers : List PeerHandle)
      → t.pc ≡ p
      → Effect e t now (advance_from h p e t now peers)
  unfolding advance_from enter test_and_set verify handle_message relay send_on call Seen.check
      Seen.has
  advance-Effect idle e t now peers at = inl (refl, refl)
  advance-Effect entering e t now peers at = inl (ground arith, ground arith)
  advance-Effect looking e t now peers at = inl (refl, ground arith)
  advance-Effect learning e t now peers at = inl (refl, ground arith)
  advance-Effect relooking e t now peers at = inl (refl, ground arith)
  advance-Effect (verifying entry) e t now peers at = inl (ground arith, ground arith)
  advance-Effect checking e t now peers at = ground arith
  advance-Effect (counting a) e t now peers at = inl (refl, rw at refl)
  advance-Effect (delivering a) e t now peers at =
      inl ((deliver-SameTables h e t.env).seen, rw at refl)
  advance-Effect (forwarding a) e t now peers at = inl (ground arith, ground arith)
  advance-Effect (reporting a dropped) e t now peers at = inl (refl, rw at refl)
  advance-Effect (stopped v) e t now peers at = inl (refl, refl)
  advance-Effect (finished a) e t now peers at = inl (refl, refl)

  abbrev acceptances : System H → ℕ → Option (Bytes × ℕ)
  acceptances s i = acceptance (s.task i)

  -- One call has a new state, the others are as before.
  updated :
      (s : System H) (i : ℕ) (t : Task H) (x : Option (Bytes × ℕ))
      → acceptance t ≡ x
      → (j : ℕ) → acceptance (set_at s.task i t j) ≡ set_at (acceptances s) i x j
  updated s i t x e j = elim (Bool-cases (i == j)) [
    | inl here ↦ rw here e
    | inr there ↦ rw there refl
  ]

  unchanged :
      (s : System H) (i : ℕ) (t : Task H)
      → acceptance t ≡ acceptance (s.task i)
      → (j : ℕ) → acceptance (set_at s.task i t j) ≡ acceptances s j
  unchanged s i t e j = elim (Bool-cases (i == j)) [
    | inl here ↦ let same : i ≡ j = (beq_iff i j).0 here in rw here (rw (← same) e)
    | inr there ↦ rw there refl
  ]

  begin-acceptance :
      (p : Pc) (t : Task H) (from : Bytes) (env : Envelope)
      → t.pc ≡ p
      → acceptance (begin p t from env) ≡ acceptance t
  begin-acceptance p t from env at = elim (begin-cases p t from env) [
    | inl (fresh, new) ↦
        rw new (sym (ap (λ q. at_id (accepted_at q) t.env.message_id) (at ∙ fresh)))
    | inr same ↦ rw same refl
  ]

  turn-IsOnce :
      (s : System H) (i ttl : ℕ) (r : Engine H × Task H)
      → Effect s.engine (s.task i) s.clock r
      → IsOnce (acceptances s) s.engine.seen s.clock ttl
      → IsOnce (λ j. acceptance (set_at s.task i r.1 j)) r.0.seen s.clock ttl
  turn-IsOnce s i ttl (e', t') (inl (seen, acc)) o =
      rw seen (IsOnce-same _ _ _ _ _ (unchanged s i t' acc) o)
  turn-IsOnce s i ttl (e', t') (inr (unseen, seen, acc)) o = rw seen (
      IsOnce-same _ _ _ _ _ (updated s i t' _ acc)
        (IsOnce-won (acceptances s) s.engine.seen s.clock ttl i (s.task i).env.message_id unseen o))

  move-IsOnce :
      (s : System H) (m : Move) (ttl : ℕ)
      → IsOnce (acceptances s) s.engine.seen s.clock ttl
      → IsOnce (acceptances (move h s m)) (move h s m).engine.seen (move h s m).clock ttl
  unfolding move advance call
  move-IsOnce s (arrive i from env) ttl o =
      IsOnce-same _ _ _ _ _
        (unchanged s i (begin (s.task i).pc (s.task i) from env)
          (begin-acceptance (s.task i).pc (s.task i) from env refl))
        o
  move-IsOnce s (turn i peers) ttl o =
      turn-IsOnce s i ttl (advance_from h (s.task i).pc s.engine (s.task i) s.clock peers)
        (advance-Effect (s.task i).pc s.engine (s.task i) s.clock peers refl) o
  move-IsOnce s (tick d) ttl o = IsOnce-later _ _ _ _ d o
  move-IsOnce s sweep_seen ttl o = IsOnce-call _ _ _ _ (cleanup_call s.clock) refl o
  move-IsOnce s sweep_limiter ttl o = o
  move-IsOnce s (own env peers) ttl o =
      rw (broadcast-seen h s.engine env s.clock peers)
        (IsOnce-call _ _ _ _ (check_call env.message_id s.clock) refl o)
  move-IsOnce s (add_key id key trust) ttl o = o

  moves-IsOnce :
      (s : System H) (ms : List Move) (ttl : ℕ)
      → IsOnce (acceptances s) s.engine.seen s.clock ttl
      → IsOnce (acceptances (moves h s ms)) (moves h s ms).engine.seen (moves h s ms).clock ttl
  unfolding moves
  moves-IsOnce s [] ttl o = o
  moves-IsOnce s (m ∷ ms) ttl o = moves-IsOnce (move h s m) ms ttl (move-IsOnce s m ttl o)

  init-IsOnce :
      (e : Engine H) (clock : ℕ)
      → UniqueKeys e.seen.entries
      → IsOnce (acceptances (init e clock)) e.seen clock e.seen.ttl
  init-IsOnce e clock u = record {
    unique = u;
    lives = refl;
    past = λ i id t a. absurd (ground arith);
    held = λ i id t a le. absurd (ground arith);
    apart = λ i j id t u ne a b. absurd (ground arith);
  }

  -- An engine whose seen cache has no id twice, and any number of calls of HandleIncoming that run at
  -- the same time, in any order of their turns, with clean-ups, own messages, new keys and the passing
  -- of time in between: two calls that accept messages with one id accept them more than `ttl` apart.
  pub accepted-Apart :
      (e : Engine H) (clock : ℕ) (ms : List Move) (i j t u : ℕ) (id : Bytes)
      → UniqueKeys e.seen.entries
      → i ≢ j
      → acceptance ((moves h (init e clock) ms).task i) ≡ some (id, t)
      → acceptance ((moves h (init e clock) ms).task j) ≡ some (id, u)
      → Apart e.seen.ttl t u
  accepted-Apart e clock ms i j t u id unique ne a b =
      (moves-IsOnce (init e clock) ms e.seen.ttl (init-IsOnce e clock unique)).apart i j id t u ne a
        b
