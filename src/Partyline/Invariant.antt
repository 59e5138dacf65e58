-- ===== src/Partyline/Invariant.antt =====
-- Every request keeps the hub valid.
use micelio.Base.{
  ℕ, ◌+◌, ◌%◌, ◌^◌, ◌≤◌, ◌<◌, ◌≡◌, refl, sym, ap, arith, Bool, true, false, Option, none, some, inl,
  inr, List, [], ◌∷◌, map, length, if◌then◌else◌, Bool-cases, Option-cases, length-append, nat_eq,
}
use mathlib.Core.Path.{subst}
use micelio.Base.Bytes.{Bytes}
use micelio.Base.Dict.{
  lookup, insert, UniqueKeys-insert, UniqueKeys-remove, All-insert, All-remove, All-lookup,
}
use micelio.Partyline.{
  Hub, Session, Request, RemoteMsg, buffer_size, send_all, offer, close_session, serve, dispatch,
  nothing, serve_join, serve_leave, serve_broadcast, serve_set_nick, forward_remote, rename, join,
  leave, broadcast, system_message, who, set_nick, stop, nick_of, joined_line, left_line,
  renamed_line,
}
use micelio.Partyline.Sessions.{
  EntryOk, IsValid, send_all-EntryOk, send_all-UniqueKeys, rename-EntryOk, rename-UniqueKeys,
  weaken, close_all, close_unique,
}

lines-IsValid :
    (h : Hub) (ex : Option ℕ) (line : Bytes)
    → IsValid h
    → IsValid (record h { sessions = send_all h.sessions ex line })
lines-IsValid h ex line v = record {
  unique = send_all-UniqueKeys h.sessions ex line v.unique;
  entries = send_all-EntryOk h.session_counter h.stopped h.sessions ex line v.entries;
  left_closed = v.left_closed;
  remote_fits = v.remote_fits;
}

join_grown :
    (h : Hub) (nick : Bytes)
    → IsValid h
    → h.stopped ≡ false
    → h.session_counter + 1 < 2 ^ 64
    → IsValid (serve_join h nick).0
unfolding serve_join
join_grown h nick v open_ room =
    let id = (h.session_counter + 1) % 2 ^ 64 in
    let s : Session = record { id = id; nick = nick; queue = []; closed = false } in
    let new : EntryOk id h.stopped (id, s) = record {
      named = refl;
      issued = omega arith;
      fits = omega arith;
      closed_as = sym open_;
    } in
    let old = weaken h.session_counter id h.stopped h.sessions (omega arith) v.entries in
    let table = insert id s h.sessions in
    record {
      unique =
          send_all-UniqueKeys table none (joined_line nick)
            (UniqueKeys-insert id s h.sessions v.unique);
      entries =
          send_all-EntryOk id h.stopped table none (joined_line nick)
            (All-insert (EntryOk id h.stopped) id s h.sessions new old);
      left_closed = weaken h.session_counter id true h.left (omega arith) v.left_closed;
      remote_fits = v.remote_fits;
    }

closed_entry :
    (n : ℕ) (c : Bool) (id : ℕ) (s : Session)
    → EntryOk n c (id, s)
    → EntryOk n true (id, close_session s)
unfolding close_session
closed_entry n c id s ok = record {
  named = ok.named;
  issued = ok.issued;
  fits = ok.fits;
  closed_as = refl;
}

leave-IsValid : (h : Hub) (id : ℕ) → IsValid h → IsValid (serve_leave h id)
unfolding serve_leave
leave-IsValid h id v = elim (Option-cases (lookup id h.sessions)) [
  | inl absent ↦ rw (absent, serve_leave) v
  | inr (s, found) ↦
      let n = h.session_counter in
      let line = left_line s.nick in
      let ok =
        closed_entry n h.stopped id s
          (All-lookup (EntryOk n h.stopped) id s h.sessions v.entries found) in
      rw (found, serve_leave)
        (record {
          unique = send_all-UniqueKeys _ none line (UniqueKeys-remove id h.sessions v.unique);
          entries =
              send_all-EntryOk n h.stopped _ none line
                (All-remove (EntryOk n h.stopped) id h.sessions v.entries);
          left_closed = All-insert (EntryOk n true) id (close_session s) h.left ok v.left_closed;
          remote_fits = v.remote_fits;
        })
]

offer_within :
    (queue : List RemoteMsg) (m : RemoteMsg)
    → length queue ≤ buffer_size
    → length (offer queue m) ≤ buffer_size
offer_within queue m h = ground (arith, length-append queue (m ∷ []))

remote-IsValid : (h : Hub) (m : RemoteMsg) → IsValid h → IsValid (forward_remote h m)
unfolding forward_remote
remote-IsValid h m v = elim (Option-cases h.remote) [
  | inl absent ↦ rw (absent, forward_remote) v
  | inr (queue, found) ↦
      rw (found, forward_remote)
        (record {
          unique = v.unique;
          entries = v.entries;
          left_closed = v.left_closed;
          remote_fits = offer_within queue m (rw found at v.remote_fits);
        })
]

set_nick-IsValid :
    (h : Hub) (id : ℕ) (nick : Bytes) → IsValid h → IsValid (serve_set_nick h id nick).0
unfolding serve_set_nick
set_nick-IsValid h id nick v =
    let n = h.session_counter in
    let line = renamed_line (nick_of h id) nick in
    let table = rename (lookup id h.sessions) nick id h.sessions in
    record {
      unique = send_all-UniqueKeys table none line (rename-UniqueKeys h.sessions nick id v.unique);
      entries =
          send_all-EntryOk n h.stopped table none line
            (rename-EntryOk n h.stopped h.sessions nick id v.entries);
      left_closed = rename-EntryOk n true h.left nick id v.left_closed;
      remote_fits = v.remote_fits;
    }

stop-IsValid :
    (h : Hub)
    → IsValid h
    → IsValid
        (record h { stopped = true; sessions = map (λ e. (e.0, close_session e.1)) h.sessions })
stop-IsValid h v = record {
  unique = close_unique h.sessions v.unique;
  entries = close_all h.session_counter h.stopped h.sessions v.entries;
  left_closed = v.left_closed;
  remote_fits = v.remote_fits;
}

dispatch-IsValid :
    (h : Hub) (r : Request)
    → IsValid h
    → h.stopped ≡ false
    → h.session_counter + 1 < 2 ^ 64
    → IsValid (dispatch h r).0
unfolding dispatch serve_broadcast
dispatch-IsValid h (join nick) v open_ room = join_grown h nick v open_ room
dispatch-IsValid h (leave id) v open_ room = leave-IsValid h id v
dispatch-IsValid h (broadcast from text) v open_ room =
    remote-IsValid _ _ (lines-IsValid h (some from) _ v)
dispatch-IsValid h (system_message text) v open_ room = lines-IsValid h none text v
dispatch-IsValid h who v open_ room = v
dispatch-IsValid h (set_nick id nick) v open_ room = set_nick-IsValid h id nick v
dispatch-IsValid h stop v open_ room = stop-IsValid h v

pub serve_open : (h : Hub) (r : Request) → h.stopped ≡ false → serve h r ≡ dispatch h r
unfolding serve
serve_open h r e = ap (λ b. if b then (h, nothing) else dispatch h r) e

serve_stopped : (h : Hub) (r : Request) → h.stopped ≡ true → (serve h r).0 ≡ h
unfolding serve
serve_stopped h r e = ap (λ b. (if b then (h, nothing) else dispatch h r).0) e

-- A valid hub stays valid, whatever the request, as long as there are session ids left: no channel
-- holds more than its buffer, every channel in the table is closed exactly if the hub has stopped,
-- and every channel of a session that has left is closed.
pub serve-IsValid :
    (h : Hub) (r : Request) → IsValid h → h.session_counter + 1 < 2 ^ 64 → IsValid (serve h r).0
serve-IsValid h r v room = elim (Bool-cases h.stopped) [
  | inl over ↦ subst IsValid (sym (serve_stopped h r over)) v
  | inr open_ ↦
      subst (λ p. IsValid p.0) (sym (serve_open h r open_)) (dispatch-IsValid h r v open_ room)
]
