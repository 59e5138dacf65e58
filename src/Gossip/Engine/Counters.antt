-- ===== src/Gossip/Engine/Counters.antt =====
-- The counters account for every message and every attempt to send.
use micelio.Base.{
  ℕ, ◌+◌, ◌-◌, ◌^◌, ◌<◌, ◌≡◌, refl, ap, ◌∙◌, sym, ◌≢◌, arith, true, some, List, [], ◌∷◌, map,
  length, inl, inr, nat_eq, if◌then◌else◌, ◌==◌, leb, Bool-cases, Option-cases, length-map,
}
use micelio.Base.Bytes.{Bytes, bytes_eq}
use micelio.Base.Dict.{lookup-insert_self}
use micelio.Proto.{Envelope}
use micelio.Gossip.Seen
use micelio.Gossip.State.{
  PeerHandle, Host, Engine, Stats, Send, Verdict, accepted, drop, add_uint64,
}
use micelio.Gossip.Engine.{
  choose, candidates, send_all, count_sent, deliver, forward_to, forward, accept, handle_incoming,
  broadcast,
}
use micelio.Gossip.Engine.Outcome.{admitted, accepted-Passed, handle_drop}
use micelio.Gossip.Engine.Fields.{Verdict-cases}

-- The counters are 64-bit words.
pub record IsWords (s : Stats) : Type 0 where
  pub received : s.received < 2 ^ 64
  pub delivered : s.delivered < 2 ^ 64
  pub broadcast : s.broadcast < 2 ^ 64
  pub forwarded : s.forwarded < 2 ^ 64
  pub dropped : s.dropped < 2 ^ 64

-- How many of the sends a peer has taken, and how many not.
unfoldable pub taken : List Send → ℕ
taken [] = 0
taken (s ∷ ss) = taken ss + (if s.accepted then 1 else 0)

unfoldable pub refused : List Send → ℕ
refused [] = 0
refused (s ∷ ss) = refused ss + (if s.accepted then 0 else 1)

-- The counters `b` after handing out the deliveries and sends, from the counters `a`.
pub record Accounts (a b : Stats) (received deliveries : ℕ) (sends : List Send) : Type 0 where
  pub received_counted : b.received ≡ add_uint64 a.received received
  pub delivered_counted : b.delivered ≡ add_uint64 a.delivered deliveries
  pub forwarded_counted : b.forwarded ≡ add_uint64 a.forwarded (taken sends)
  pub dropped_counted : b.dropped ≡ add_uint64 a.dropped (refused sends)
  pub broadcast_kept : b.broadcast ≡ a.broadcast

count_sent-taken : (sends : List Send) → count_sent sends ≡ taken sends
unfolding count_sent taken
count_sent-taken [] = refl
count_sent-taken (s ∷ ss) = ground (arith, count_sent-taken ss)

length-taken : (sends : List Send) → length sends ≡ taken sends + refused sends
unfolding taken refused
length-taken [] = refl
length-taken (s ∷ ss) = ground (arith, length-taken ss)

abbrev pub accepted_count : Verdict → ℕ
accepted_count accepted = 1
accepted_count _ = 0

accepted_count_other : (v : Verdict) → v ≢ accepted → accepted_count v ≡ 0
accepted_count_other v n = ground arith

same_Accounts : (s : Stats) → IsWords s → Accounts s s 0 0 []
unfolding taken refused
same_Accounts s w = ground arith

has_after_check :
    (s : Seen.SeenCache) (id : Bytes) (now : ℕ) → Seen.has (Seen.check s id now).1 id ≡ true
unfolding Seen.check Seen.has
has_after_check s id now = ground (arith, lookup-insert_self id now s.entries)

module _ (h : Host) {H : Type 0} where
  forward_to-Accounts :
      (e : Engine H) (peers : List PeerHandle) (raw exclude : Bytes)
      → IsWords e.stats
      → Accounts e.stats
          (forward_to h e peers raw exclude).0.stats
          0
          0
          (forward_to h e peers raw exclude).1
  unfolding forward_to
  forward_to-Accounts e peers raw exclude w =
      elim (Bool-cases (length (candidates peers exclude) == 0)) [
        | inl empty ↦ rw empty (same_Accounts e.stats w)
        | inr some_left ↦
            let sends = send_all (choose h e.fanout (candidates peers exclude)) raw in
            rw some_left (ground (arith, count_sent-taken sends, length-taken sends))
      ]

  forward-Accounts :
      (e : Engine H) (env : Envelope) (from : Bytes) (peers : List PeerHandle)
      → IsWords e.stats
      → Accounts e.stats (forward h e env from peers).0.stats 0 0 (forward h e env from peers).1
  unfolding forward
  forward-Accounts e env from peers w = elim (Bool-cases (leb env.hop_count 1)) [
    | inl last ↦ rw last (same_Accounts e.stats w)
    | inr more ↦
        rw more (elim (Option-cases (h.marshal (record env { hop_count = env.hop_count - 1 }))) [
          | inl failed ↦ rw (failed, forward) (same_Accounts e.stats w)
          | inr (raw, made) ↦ rw (made, forward) (forward_to-Accounts e peers raw from w)
        ])
  ]

  deliver_stats :
      (e : Engine H) (env : Envelope)
      → IsWords e.stats
      → ((deliver h e env).0.stats ≡ record e.stats {
        delivered = add_uint64 e.stats.delivered (length (deliver h e env).1);
      })
        × IsWords (deliver h e env).0.stats
  unfolding deliver
  deliver_stats e env w = ground arith

  accept-Accounts :
      (e : Engine H) (env : Envelope) (from : Bytes) (now : ℕ) (peers : List PeerHandle)
      → IsWords e.stats
      → (accept h e env from now peers).verdict ≡ accepted
      → Accounts e.stats
          (accept h e env from now peers).engine.stats
          1
          (length (accept h e env from now peers).deliveries)
          (accept h e env from now peers).sends
  unfolding accept drop
  accept-Accounts e env from now peers w ok =
      let e1 = record e {
        seen = (Seen.check e.seen env.message_id now).1;
        stats = record e.stats { received = add_uint64 e.stats.received 1 };
      } in
      ground (arith, deliver_stats e1 env, forward-Accounts (deliver h e1 env).0 env from peers)

  -- From counters that are 64-bit words, and up to their wrap-around: a call counts one message as
  -- received if it is accepted, and as delivered what it hands to the handlers; the sends that a peer
  -- took are counted as forwarded and those that a peer refused as dropped, and nothing as broadcast.
  pub handle-Accounts :
      (e : Engine H) (from : Bytes) (env : Envelope) (now : ℕ) (peers : List PeerHandle)
      → IsWords e.stats
      → Accounts e.stats
          (handle_incoming h e from env now peers).engine.stats
          (accepted_count (handle_incoming h e from env now peers).verdict)
          (length (handle_incoming h e from env now peers).deliveries)
          (handle_incoming h e from env now peers).sends
  handle-Accounts e from env now peers w =
      elim (Verdict-cases (handle_incoming h e from env now peers).verdict) [
        | inl ok ↦
            let (entry, passed, same) = accepted-Passed h e from env now peers ok in
            rw (ok, same)
              (accept-Accounts (admitted h e from env now peers) env from now peers w
                (ap (λ r. r.verdict) (sym same) ∙ ok))
        | inr other ↦
            let u = handle_drop h env from now peers e other in
            rw (accepted_count_other _ other, u.stats, u.deliveries, u.sends)
              (same_Accounts e.stats w)
      ]

  -- From counters that are 64-bit words: a broadcast of an envelope that can be encoded offers it
  -- to every peer once, in their order, and returns how many took it, of how many; the first count
  -- is added to the broadcasts, the number of refusals to the drops, and the id is marked as seen.
  pub broadcast_all :
      (e : Engine H) (env : Envelope) (now : ℕ) (peers : List PeerHandle) {raw : Bytes}
      → IsWords e.stats
      → h.marshal env ≡ some raw
      → (let (e', (sent, total), sends) = broadcast h e env now peers in
          (sends
            ≡ map (λ p. record { node_id = p.node_id; raw = raw; accepted = p.send raw }) peers)
          × (total ≡ length peers)
          × (sent ≡ taken sends)
          × (e'.stats.broadcast ≡ add_uint64 e.stats.broadcast (taken sends))
          × (e'.stats.dropped ≡ add_uint64 e.stats.dropped (refused sends))
          × (Seen.has e'.seen env.message_id ≡ true))
  unfolding broadcast
  broadcast_all e env now peers {raw} w made =
      let sends = send_all peers raw in
      let same : length sends ≡ length peers = unfold send_all in length-map _ peers in
      rw (made, broadcast)
        (
          unfold send_all in refl,
          refl,
          count_sent-taken sends,
          ground (arith, count_sent-taken sends),
          ground (arith, count_sent-taken sends, length-taken sends, same),
          has_after_check e.seen env.message_id now,
        )
