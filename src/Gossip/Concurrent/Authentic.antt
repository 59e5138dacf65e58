-- ===== src/Gossip/Concurrent/Authentic.antt =====
-- Calls that run at the same time accept authentic messages only.
use micelio.Base.{ℕ, ◌≡◌, refl, arith, some, inl, inr, List, [], ◌∷◌, All, ◌==◌, nat_eq, Bool-cases}
use micelio.Base.Bytes.{Bytes, bytes_eq}
use micelio.Proto.{Envelope}
use micelio.Gossip.Engine.{broadcast}
use micelio.Gossip.Engine.Outcome.{WellSized}
use micelio.Gossip.Engine.Binding.{IsBound, node_id_of, add-IsBound}
use micelio.Gossip.State.{PeerHandle, Host, Engine}
use micelio.Gossip.Concurrent.{
  Pc, Task, idle, entering, looking, learning, relooking, verifying, checking, counting, delivering,
  forwarding, reporting, stopped, finished, advance_from, advance,
}
use micelio.Gossip.Concurrent.System.{
  System, Move, arrive, turn, tick, sweep_seen, sweep_limiter, own, add_key, move, moves, set_at,
  begin, begin-cases, init,
}
use micelio.Gossip.Concurrent.Once.{accepted_at}
use micelio.Gossip.Concurrent.Backed.{IsAuthentic, Fits, Backed, Sound, reject_sized, advance-Sound}

module _ (h : Host) where
  -- A key that the manager adds hashes to its node id.
  abbrev pub AddsBound : Move → Type 0
  AddsBound (add_key id key trust) = node_id_of h.crypto key ≡ id
  AddsBound other = Unit

  accepted-Backed :
      (p : Pc) (env : Envelope) (t : ℕ)
      → accepted_at p ≡ some t
      → Backed h p env
      → Fits env × IsAuthentic h.crypto env
  accepted-Backed idle env t a back = cc
  accepted-Backed entering env t a back = cc
  accepted-Backed looking env t a back = cc
  accepted-Backed learning env t a back = cc
  accepted-Backed relooking env t a back = cc
  accepted-Backed (verifying entry) env t a back = cc
  accepted-Backed checking env t a back = cc
  accepted-Backed (counting at) env t a back = back
  accepted-Backed (delivering at) env t a back = back
  accepted-Backed (forwarding at) env t a back = back
  accepted-Backed (reporting at dropped) env t a back = back
  accepted-Backed (stopped v) env t a back = cc
  accepted-Backed (finished at) env t a back = back

module _ (h : Host) {H : Type 0} where
  -- The ring and all calls.
  pub record IsSound (s : System H) : Type 0 where
    pub ring : IsBound h.crypto s.engine.key_ring
    pub backed : (i : ℕ) → Backed h (s.task i).pc (s.task i).env

  begin-Backed :
      (p : Pc) (t : Task H) (from : Bytes) (env : Envelope)
      → t.pc ≡ p
      → Backed h p t.env
      → Backed h (begin p t from env).pc (begin p t from env).env
  begin-Backed p t from env at back = elim (begin-cases p t from env) [
    | inl (fresh, new) ↦ rw new tt
    | inr same ↦ rw same (rw at back)
  ]

  -- One call has a new state, the others are as before.
  set_at-Backed :
      (s : System H) (i : ℕ) (t : Task H)
      → IsSound s
      → Backed h t.pc t.env
      → (j : ℕ) → Backed h (set_at s.task i t j).pc (set_at s.task i t j).env
  set_at-Backed s i t o back j = elim (Bool-cases (i == j)) [
    | inl here ↦ rw here back
    | inr there ↦ rw there (o.backed j)
  ]

  broadcast_ring :
      (e : Engine H) (env : Envelope) (now : ℕ) (peers : List PeerHandle)
      → (broadcast h e env now peers).0.key_ring ≡ e.key_ring
  unfolding broadcast
  broadcast_ring e env now peers = ground arith

  turn-IsSound :
      (s : System H) (i : ℕ) (r : Engine H × Task H)
      → Sound h r (s.task i).env
      → IsSound s
      → IsSound (record s { engine = r.0; task = set_at s.task i r.1 })
  turn-IsSound s i (e', t') (ring, back, same) o = record {
    ring = ring;
    backed = set_at-Backed s i t' o (rw same back);
  }

  move-IsSound : (s : System H) (m : Move) → AddsBound h m → IsSound s → IsSound (move h s m)
  unfolding move advance
  move-IsSound s (arrive i from env) k o = record {
    ring = o.ring;
    backed =
        set_at-Backed s i _ o (begin-Backed (s.task i).pc (s.task i) from env refl (o.backed i));
  }
  move-IsSound s (turn i peers) k o =
      turn-IsSound s i (advance_from h (s.task i).pc s.engine (s.task i) s.clock peers)
        (advance-Sound h (s.task i).pc s.engine (s.task i) s.clock peers refl o.ring (o.backed i)) o
  move-IsSound s (tick d) k o = record { ring = o.ring; backed = o.backed }
  move-IsSound s sweep_seen k o = record { ring = o.ring; backed = o.backed }
  move-IsSound s sweep_limiter k o = record { ring = o.ring; backed = o.backed }
  move-IsSound s (own env peers) k o = record {
    ring = rw (broadcast_ring s.engine env s.clock peers) o.ring;
    backed = o.backed;
  }
  move-IsSound s (add_key id key trust) k o = record {
    ring = add-IsBound h.crypto s.engine.key_ring id key trust o.ring k;
    backed = o.backed;
  }

  moves-IsSound :
      (s : System H) (ms : List Move) → All (AddsBound h) ms → IsSound s → IsSound (moves h s ms)
  unfolding moves
  moves-IsSound s [] ks o = o
  moves-IsSound s (m ∷ ms) (k, ks) o = moves-IsSound (move h s m) ms ks (move-IsSound s m k o)

  init-IsSound : (e : Engine H) (clock : ℕ) → IsBound h.crypto e.key_ring → IsSound (init e clock)
  init-IsSound e clock b = record { ring = b; backed = λ i. tt }

  -- From an engine whose keys hash to their node ids, with any number of calls of HandleIncoming that
  -- run at the same time, in any order of their turns, and keys added in between that hash to their
  -- node ids too: a message that any of the calls has accepted has well-sized fields and carries a
  -- signature that verifies under a key whose hash is the message's sender id.
  pub accepted-IsAuthentic :
      (e : Engine H) (clock : ℕ) (ms : List Move) (i t : ℕ)
      → IsBound h.crypto e.key_ring
      → All (AddsBound h) ms
      → accepted_at ((moves h (init e clock) ms).task i).pc ≡ some t
      → WellSized ((moves h (init e clock) ms).task i).env
        × IsAuthentic h.crypto ((moves h (init e clock) ms).task i).env
  accepted-IsAuthentic e clock ms i t b ks a =
      let o = moves-IsSound (init e clock) ms ks (init-IsSound e clock b) in
      let (fits, authentic) = accepted-Backed h _ _ t a (o.backed i) in
      (reject_sized _ fits, authentic)
