-- ===== src/Gossip/Engine/Forwarding.antt =====
-- What the engine sends to its peers.
use micelio.Base.{
  ℕ, ◌-◌, ◌≤◌, ◌<◌, ◌≡◌, ap, ◌∙◌, sym, ◌≢◌, arith, some, List, [], ◌∷◌, length, All, ltb, leb, inl,
  inr, ◌==◌, nat_eq, false, refl, not, ◌++◌, keep, map, take, drop as drop_first, take-append-drop,
  Bool-cases, Option-cases, beq_iff, length-take, length-map,
}
use micelio.Base.Bytes.{Bytes, bytes_eq}
use micelio.Base.Perms.{length_of_perm, All_of_perm, All-take, All-map, same_order}
use micelio.Proto.{Envelope}
use micelio.Gossip.Seen
use micelio.Gossip.State.{PeerHandle, Host, Engine, Send, accepted, drop, add_uint64}
use micelio.Gossip.Engine.{
  choose, candidates, send_all, deliver, forward_to, forward, accept, handle_incoming,
}
use micelio.Gossip.Engine.Outcome.{admitted, accepted-Passed, handle_drop}
use micelio.Gossip.Engine.Fields.{deliver-SameTables, Verdict-cases}
use Prim.Native.Nat.{min}
use mathlib.Core.Path.{subst}
use mathlib.Core.List.{Permᴰ, append-nil}

-- rand.Shuffle rearranges.
pub record IsShuffle (h : Host) : Type 0 where
  pub permutes : (ps : List PeerHandle) → Permᴰ (h.shuffle ps) ps

abbrev Other : Bytes → PeerHandle → Type 0
Other exclude p = p.node_id ≢ exclude

candidates-Other :
    (peers : List PeerHandle) (exclude : Bytes) → All (Other exclude) (candidates peers exclude)
unfolding candidates
candidates-Other [] exclude = tt
candidates-Other (p ∷ ps) exclude = elim (Bool-cases (p.node_id == exclude)) [
  | inl same ↦ rw same (candidates-Other ps exclude)
  | inr other ↦ rw other ((λ q. cc ((beq_iff p.node_id exclude).1 q)), candidates-Other ps exclude)
]

module _ (h : Host) (law : IsShuffle h) where
  choose-Other :
      (fanout : ℕ) (ps : List PeerHandle) (exclude : Bytes)
      → All (Other exclude) ps
      → All (Other exclude) (choose h fanout ps)
  unfolding choose
  choose-Other fanout ps exclude a = elim (Bool-cases (ltb fanout (length ps))) [
    | inl many ↦ rw many (
        All-take (Other exclude) fanout (h.shuffle ps)
          (All_of_perm (Other exclude) (law.permutes ps) a))
    | inr few ↦ rw few a
  ]

  length-choose :
      (fanout : ℕ) (ps : List PeerHandle) → length (choose h fanout ps) ≡ min fanout (length ps)
  unfolding choose
  length-choose fanout ps =
      ground (arith, length-take fanout (h.shuffle ps), length_of_perm (law.permutes ps))

-- A send of the relayed envelope, its hop count one less, to another peer than it came from.
pub record IsRelay (h : Host) (env : Envelope) (from : Bytes) (s : Send) : Type 0 where
  pub other : s.node_id ≢ from
  pub hops_left : 1 < env.hop_count
  pub decremented : h.marshal (record env { hop_count = env.hop_count - 1 }) ≡ some s.raw

send_all-IsRelay :
    (h : Host) (env : Envelope) (from raw : Bytes) (ps : List PeerHandle)
    → 1 < env.hop_count
    → h.marshal (record env { hop_count = env.hop_count - 1 }) ≡ some raw
    → All (Other from) ps
    → All (IsRelay h env from) (send_all ps raw)
unfolding send_all
send_all-IsRelay h env from raw ps hops made a =
    All-map (Other from) (IsRelay h env from) _ ps
      (λ p o. record { other = o; hops_left = hops; decremented = made }) a

length-send_all : (ps : List PeerHandle) (raw : Bytes) → length (send_all ps raw) ≡ length ps
unfolding send_all
length-send_all ps raw = length-map _ ps

module _ (h : Host) (law : IsShuffle h) {H : Type 0} where
  forward_to_sends :
      (e : Engine H) (env : Envelope) (from raw : Bytes) (peers : List PeerHandle)
      → 1 < env.hop_count
      → h.marshal (record env { hop_count = env.hop_count - 1 }) ≡ some raw
      → All (IsRelay h env from) (forward_to h e peers raw from).1
  unfolding forward_to
  forward_to_sends e env from raw peers hops made =
      elim (Bool-cases (length (candidates peers from) == 0)) [
        | inl empty ↦ rw empty tt
        | inr some_left ↦ rw some_left (
            send_all-IsRelay h env from raw _ hops made
              (choose-Other h law e.fanout _ from (candidates-Other peers from)))
      ]

  length-forward_to :
      (e : Engine H) (raw from : Bytes) (peers : List PeerHandle)
      → length (forward_to h e peers raw from).1 ≡ min e.fanout (length (candidates peers from))
  unfolding forward_to
  length-forward_to e raw from peers = ground (
    arith,
    length-send_all (choose h e.fanout (candidates peers from)) raw,
    length-choose h law e.fanout (candidates peers from),
  )

  forward_sends :
      (e : Engine H) (env : Envelope) (from : Bytes) (peers : List PeerHandle)
      → All (IsRelay h env from) (forward h e env from peers).1
        × (length (forward h e env from peers).1 ≤ e.fanout)
  unfolding forward
  forward_sends e env from peers = elim (Bool-cases (leb env.hop_count 1)) [
    | inl last ↦ rw last (tt, omega arith)
    | inr more ↦ elim (Option-cases (h.marshal (record env { hop_count = env.hop_count - 1 }))) [
      | inl failed ↦ rw (more, failed, forward) (tt, omega arith)
      | inr (raw, made) ↦
          rw (more, made, forward)
            (
              forward_to_sends e env from raw peers (ground arith) made,
              omega (arith, length-forward_to e raw from peers),
            )
    ]
  ]

module _ (h : Host) {H : Type 0} where
  -- The engine that forwards an accepted message.
  abbrev pub forwarder : Engine H → Envelope → ℕ → Engine H
  forwarder e env now =
      (deliver h
        (record e {
          seen = (Seen.check e.seen env.message_id now).1;
          stats = record e.stats { received = add_uint64 e.stats.received 1 };
        })
        env).0

  accept_sends :
      (e : Engine H) (env : Envelope) (from : Bytes) (now : ℕ) (peers : List PeerHandle)
      → (accept h e env from now peers).verdict ≡ accepted
      → (accept h e env from now peers).sends ≡ (forward h (forwarder e env now) env from peers).1
  unfolding accept drop
  accept_sends e env from now peers ok = ground arith

  forwarder_fanout :
      (e : Engine H) (env : Envelope) (now : ℕ) → (forwarder e env now).fanout ≡ e.fanout
  forwarder_fanout e env now = (deliver-SameTables h _ env).fanout

  handle_forward :
      (e : Engine H) (from : Bytes) (env : Envelope) (now : ℕ) (peers : List PeerHandle)
      → (handle_incoming h e from env now peers).verdict ≡ accepted
      → (handle_incoming h e from env now peers).sends
        ≡ (forward h (forwarder (admitted h e from env now peers) env now) env from peers).1
  handle_forward e from env now peers ok =
      let (entry, passed, same) = accepted-Passed h e from env now peers ok in
      ap (λ r. r.sends) same
      ∙ accept_sends (admitted h e from env now peers) env from now peers
          (ap (λ r. r.verdict) (sym same) ∙ ok)

module _ (h : Host) (law : IsShuffle h) {H : Type 0} (e : Engine H) (from : Bytes) (env : Envelope)
    (now : ℕ) (peers : List PeerHandle) where
  -- If the shuffle rearranges: whatever a call sends is the received envelope with its hop count
  -- one less, when that count was above 1, to at most `fanout` peers, none of which is the one
  -- that it came from.
  pub handle_sends :
      All (IsRelay h env from) (handle_incoming h e from env now peers).sends
      × (length (handle_incoming h e from env now peers).sends ≤ e.fanout)
  handle_sends = elim (Verdict-cases (handle_incoming h e from env now peers).verdict) [
    | inl ok ↦
        let f = forwarder h (admitted h e from env now peers) env now in
        let (relays, few) = forward_sends h law f env from peers in
        rw (handle_forward h e from env now peers ok)
          (relays, omega (arith, few, forwarder_fanout h (admitted h e from env now peers) env now))
    | inr other ↦ rw (handle_drop h env from now peers e other).sends (tt, omega arith)
  ]

-- The peers but the one with this id.
abbrev pub others : List PeerHandle → Bytes → List PeerHandle
others peers from = keep (λ p. not (p.node_id == from)) peers

-- What Send of a peer does with the bytes.
abbrev pub sent_to : Bytes → PeerHandle → Send
sent_to raw p = record { node_id = p.node_id; raw = raw; accepted = p.send raw }

-- The sends go to different ones of the peers `all`: to `fanout` of them, or to all if they are fewer.
pub record Fanned (all : List PeerHandle) (fanout : ℕ) (raw : Bytes) (sends : List Send)
    : Type 0 where
  pub chosen : List PeerHandle
  pub rest : List PeerHandle
  pub parts : Permᴰ (chosen ++ rest) all
  pub size : length chosen ≡ min fanout (length all)
  pub sent : sends ≡ map (sent_to raw) chosen

module _ (h : Host) (law : IsShuffle h) where
  choose-Fanned :
      (fanout : ℕ) (all : List PeerHandle) (raw : Bytes)
      → Fanned all fanout raw (send_all (choose h fanout all) raw)
  unfolding choose send_all
  choose-Fanned fanout all raw = elim (Bool-cases (ltb fanout (length all))) [
    | inl many ↦ rw many (record {
      chosen = take fanout (h.shuffle all);
      rest = drop_first fanout (h.shuffle all);
      parts = rw (take-append-drop fanout (h.shuffle all)) (law.permutes all);
      size = ground (arith, length-take fanout (h.shuffle all), length_of_perm (law.permutes all));
      sent = refl;
    })
    | inr few ↦ rw few (record {
      chosen = all;
      rest = [];
      parts = rw (append-nil all) (same_order all);
      size = ground arith;
      sent = refl;
    })
  ]

  forward_to-Fanned :
      {H : Type 0} (e : Engine H) (raw from : Bytes) (peers : List PeerHandle)
      → Fanned (others peers from) e.fanout raw (forward_to h e peers raw from).1
  unfolding forward_to candidates
  forward_to-Fanned e raw from peers = elim (Bool-cases (length (others peers from) == 0)) [
    | inl empty ↦ rw empty (record {
      chosen = [];
      rest = others peers from;
      parts = same_order (others peers from);
      size = ground arith;
      sent = refl;
    })
    | inr some_left ↦ rw some_left (choose-Fanned e.fanout (others peers from) raw)
  ]

module _ (h : Host) (law : IsShuffle h) {H : Type 0} (e : Engine H) (from : Bytes) (env : Envelope)
    (now : ℕ) (peers : List PeerHandle) where
  forward-Fanned :
      (f : Engine H) {raw : Bytes}
      → 1 < env.hop_count
      → h.marshal (record env { hop_count = env.hop_count - 1 }) ≡ some raw
      → Fanned (others peers from) f.fanout raw (forward h f env from peers).1
  unfolding forward
  forward-Fanned f {raw} hops made =
      let more : leb env.hop_count 1 ≡ false = ground arith in
      rw (more, made, forward) (forward_to-Fanned h law f raw from peers)

  -- If the shuffle rearranges: an accepted message that has hops left and can be encoded is sent
  -- once to each of `fanout` of the peers that did not send it, or of all of these if they are
  -- fewer, whether they take it or not. These are all connected peers but the one that it came from.
  pub accepted_fanout :
      {raw : Bytes}
      → (handle_incoming h e from env now peers).verdict ≡ accepted
      → 1 < env.hop_count
      → h.marshal (record env { hop_count = env.hop_count - 1 }) ≡ some raw
      → Fanned (others peers from) e.fanout raw (handle_incoming h e from env now peers).sends
  accepted_fanout {raw} ok hops made =
      let a = admitted h e from env now peers in
      let f = forwarder h a env now in
      rw (handle_forward h e from env now peers ok) (
        subst (λ n. Fanned (others peers from) n raw (forward h f env from peers).1)
          (forwarder_fanout h a env now) (forward-Fanned f hops made))
