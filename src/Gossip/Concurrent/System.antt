-- ===== src/Gossip/Concurrent/System.antt =====
-- Any number of calls over one engine, beside the other uses of it, interleaved in any order.
use micelio.Base.{ℕ, ◌≡◌, refl, ◌⊎◌, inl, inr, ◌+◌, List, [], ◌∷◌, ◌==◌, nat_eq, if◌then◌else◌}
use micelio.Base.Bytes.{Bytes}
use micelio.Proto.{Envelope}
use micelio.Gossip.Seen
use micelio.Gossip.KeyRing
use micelio.Gossip.KeyRing.{TrustLevel}
use micelio.Gossip.Limiter
use micelio.Gossip.State.{PeerHandle, Host, Engine}
use micelio.Gossip.Engine.{broadcast}
use micelio.Gossip.Concurrent.{
  Pc, Task, idle, entering, looking, learning, relooking, verifying, checking, counting, delivering,
  forwarding, reporting, stopped, finished, advance,
}

abbrev pub set_at {ℓ} : {A : Type ℓ} → (ℕ → A) → ℕ → A → ℕ → A
set_at tasks i task j = if i == j then task else tasks j

-- A call has a number of its own; one that has not come yet is `idle`. The clock is time.Now.
pub record System (H : Type 0) : Type 0 where
  pub engine : Engine H
  pub task : ℕ → Task H
  pub clock : ℕ

-- What may happen next: a receive loop calls HandleIncoming, a call takes a turn, time passes, a
-- clean-up loop runs, the node broadcasts a message of its own, or the manager adds a key.
pub data Move : Type 0 where
  arrive : ℕ → Bytes → Envelope → Move
  turn : ℕ → List PeerHandle → Move
  tick : ℕ → Move
  sweep_seen : Move
  sweep_limiter : Move
  own : Envelope → List PeerHandle → Move
  add_key : Bytes → Bytes → TrustLevel → Move

abbrev blank : Envelope
blank = record {
  message_id = [];
  sender_id = [];
  lamport_ts = 0;
  hop_count = 0;
  msg_type = 0;
  payload = [];
  signature = [];
  sender_pubkey = [];
}

abbrev pub waiting : {H : Type 0} → Task H
waiting = record { from = []; env = blank; pc = idle; deliveries = []; sends = [] }

abbrev pub init : {H : Type 0} → Engine H → ℕ → System H
init e clock = record { engine = e; task = λ _. waiting; clock = clock }

-- A call begins if its number is not taken.
abbrev pub begin : {H : Type 0} → Pc → Task H → Bytes → Envelope → Task H
begin idle t from env = record t { from = from; env = env; pc = entering }
begin other t from env = t

pub begin-cases :
    {H : Type 0} (p : Pc) (t : Task H) (from : Bytes) (env : Envelope)
    → ((p ≡ idle) × (begin p t from env ≡ record t { from = from; env = env; pc = entering }))
      ⊎ (begin p t from env ≡ t)
begin-cases idle t from env = inl (refl, refl)
begin-cases entering t from env = inr refl
begin-cases looking t from env = inr refl
begin-cases learning t from env = inr refl
begin-cases relooking t from env = inr refl
begin-cases (verifying entry) t from env = inr refl
begin-cases checking t from env = inr refl
begin-cases (counting at) t from env = inr refl
begin-cases (delivering at) t from env = inr refl
begin-cases (forwarding at) t from env = inr refl
begin-cases (reporting at dropped) t from env = inr refl
begin-cases (stopped verdict) t from env = inr refl
begin-cases (finished at) t from env = inr refl

module _ (h : Host) {H : Type 0} where
  unfoldable pub move : System H → Move → System H
  move s (arrive i from env) = record s {
    task = set_at s.task i (begin (s.task i).pc (s.task i) from env);
  }
  move s (turn i peers) =
      let (engine, t) = advance h s.engine (s.task i) s.clock peers in
      record s { engine = engine; task = set_at s.task i t }
  move s (tick d) = record s { clock = s.clock + d }
  move s sweep_seen = record s {
    engine = record s.engine { seen = Seen.cleanup s.engine.seen s.clock };
  }
  move s sweep_limiter = record s {
    engine = record s.engine { limiter = Limiter.cleanup s.engine.limiter s.clock };
  }
  move s (own env peers) = record s { engine = (broadcast h s.engine env s.clock peers).0 }
  move s (add_key id key trust) = record s {
    engine = record s.engine { key_ring = KeyRing.add s.engine.key_ring id key trust };
  }

  unfoldable pub moves : System H → List Move → System H
  moves s [] = s
  moves s (m ∷ ms) = moves (move s m) ms
