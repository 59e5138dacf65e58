-- ===== src/Partyline/Delivery.antt =====
-- Who gets which line, and what goes to the transport.
use micelio.Base.{
  ℕ, ◌≡◌, [], ◌∷◌, ◌++◌, length, ltb, beq_iff, refl, ap, ◌∙◌, arith, true, false, Option, none,
  some, List, ◌==◌, nat_eq, if◌then◌else◌,
}
use micelio.Base.Bytes.{Bytes, codes}
use micelio.Base.Dict.{lookup, insert, remove, lookup-insert_self, lookup-remove, All-remove}
use micelio.Partyline.{
  Hub, Session, Request, RemoteMsg, send_all, put_line, offer, is_excluded, close_session, serve,
  dispatch, serve_leave, serve_join, serve_broadcast, serve_set_nick, forward_remote,
  deliver_remote, join, leave, broadcast, system_message, who, set_nick, stop, nick_of, chat_line,
  left_line,
}
use micelio.Partyline.Sessions.{IsValid, EntryOk, lookup-send_all}
use micelio.Partyline.Invariant.{serve_open}

abbrev pub offered : Option RemoteMsg → Option (List RemoteMsg) → Option (List RemoteMsg)
offered none queue = queue
offered (some m) none = none
offered (some m) (some queue) = some (offer queue m)

-- What a request sends to the transport: the text of a local user, and nothing else.
abbrev pub outgoing : Hub → Request → Option RemoteMsg
outgoing h (broadcast from text) = some (record { nick = nick_of h from; text = text })
outgoing h _ = none

forward_remote-offered :
    (h : Hub) (m : RemoteMsg)
    → ((forward_remote h m).remote ≡ offered (some m) h.remote)
      × ((forward_remote h m).sessions ≡ h.sessions)
unfolding forward_remote
forward_remote-offered h m = ground arith

dispatch_remote :
    (h : Hub) (r : Request) → (dispatch h r).0.remote ≡ offered (outgoing h r) h.remote
unfolding dispatch serve_broadcast serve_join serve_leave serve_set_nick
dispatch_remote h (join nick) = refl
dispatch_remote h (leave id) = ground arith
dispatch_remote h (broadcast from text) = (forward_remote-offered _ _).0
dispatch_remote h (system_message text) = refl
dispatch_remote h who = refl
dispatch_remote h (set_nick id nick) = refl
dispatch_remote h stop = refl

abbrev pub line_for : Option ℕ → ℕ → Bytes → Option Session → Option Session
line_for exclude id line none = none
line_for exclude id line (some s) = some (if is_excluded exclude id then s else put_line line s)

-- The session of an entry with a line that its channel has room for.
abbrev pub with_line : Bytes → Option Session → Option Session
with_line line none = none
with_line line (some s) =
    some (record s { queue = if ltb (length s.queue) 64 then s.queue ++ (line ∷ []) else s.queue })

lookup_lines :
    (h : Hub) (exclude : Option ℕ) (line : Bytes) (id : ℕ)
    → IsValid h
    → lookup id (send_all h.sessions exclude line) ≡ line_for exclude id line (lookup id h.sessions)
lookup_lines h exclude line id v =
    ground (arith, lookup-send_all h.session_counter h.stopped h.sessions exclude line id v.entries)

lookup_rest :
    (h : Hub) (id j : ℕ) (line : Bytes)
    → IsValid h
    → lookup j (send_all (remove id h.sessions) none line)
      ≡ (if id == j then none else line_for none j line (lookup j h.sessions))
lookup_rest h id j line v = ground (
  arith,
  lookup-send_all h.session_counter h.stopped (remove id h.sessions) none line j
      (All-remove (EntryOk h.session_counter h.stopped) id h.sessions v.entries),
  lookup-remove id j h.sessions,
)

dispatch_leave :
    (h : Hub) (id : ℕ) (s : Session)
    → lookup id h.sessions ≡ some s
    → (dispatch h (leave id)).0 ≡ record h {
      sessions = send_all (remove id h.sessions) none (left_line s.nick);
      left = insert id (close_session s) h.left;
    }
unfolding dispatch serve_leave
dispatch_leave h id s found = ground arith

module _ (h : Hub) (open_ : h.stopped ≡ false) where
  -- In a hub that runs, only messages of local users go to the transport; a message delivered from
  -- a remote peer, a system message or any other request does not.
  pub serve_remote : (r : Request) → (serve h r).0.remote ≡ offered (outgoing h r) h.remote
  serve_remote r = ap (λ p. p.0.remote) (serve_open h r open_) ∙ dispatch_remote h r

  broadcast_table :
      (from id : ℕ) (text : Bytes)
      → IsValid h
      → lookup id (serve h (broadcast from text)).0.sessions
        ≡ line_for (some from) id (chat_line (nick_of h from) text) (lookup id h.sessions)
  broadcast_table from id text v =
      ap (λ p. lookup id p.0.sessions) (serve_open h (broadcast from text) open_)
      ∙ dispatched
      ∙ lookup_lines h (some from) _ id v
    where
      dispatched :
          lookup id (dispatch h (broadcast from text)).0.sessions
          ≡ lookup id (send_all h.sessions (some from) (chat_line (nick_of h from) text))
      dispatched = unfold dispatch serve_broadcast in ap (lookup id) (forward_remote-offered _ _).1

  -- In a valid hub that runs, a chat message leaves its sender's entry in the table as it is; in
  -- any other session's entry the line, the sender's nick in brackets and the text, is put behind
  -- the queue if that has fewer than 64 lines, and nothing else of the entry changes; no session
  -- comes or goes.
  pub broadcast_lines :
      (from id : ℕ) (text : Bytes)
      → IsValid h
      → lookup id (serve h (broadcast from text)).0.sessions ≡ (
          if from == id
          then lookup id h.sessions
          else with_line
              (codes "[" ++ (nick_of h from ++ (codes "] " ++ text)))
              (lookup id h.sessions))
  unfolding put_line chat_line
  broadcast_lines from id text v =
      ground (arith, broadcast_table from id text v, beq_iff id from, beq_iff from id)

  -- In a valid hub that runs, a message from a remote peer is offered to every session, in the
  -- form of a chat line, and does not go back to the transport.
  pub remote_lines :
      (nick text : Bytes) (id : ℕ)
      → IsValid h
      → (lookup id (serve h (deliver_remote nick text)).0.sessions
          ≡ line_for none id (chat_line nick text) (lookup id h.sessions))
        × ((serve h (deliver_remote nick text)).0.remote ≡ h.remote)
  unfolding deliver_remote
  remote_lines nick text id v = (
    ap (λ p. lookup id p.0.sessions) (serve_open h (system_message (chat_line nick text)) open_)
        ∙ unfold dispatch in lookup_lines h none _ id v,
    serve_remote (system_message (chat_line nick text)),
  )

  leave_table :
      (id j : ℕ) {s : Session}
      → IsValid h
      → lookup id h.sessions ≡ some s
      → (lookup j (serve h (leave id)).0.sessions
          ≡ (if id == j then none else line_for none j (left_line s.nick) (lookup j h.sessions)))
        × (lookup id (serve h (leave id)).0.left ≡ some (close_session s))
  leave_table id j {s} v found =
      let e = ap (λ p. p.0) (serve_open h (leave id) open_) ∙ dispatch_leave h id s found in
      (
        ap (λ k. lookup j k.sessions) e ∙ lookup_rest h id j (left_line s.nick) v,
        ap (λ k. lookup id k.left) e ∙ lookup-insert_self id (close_session s) h.left,
      )

  -- In a valid hub that runs, when a session leaves, its id is not in the table any more, and it is kept
  -- as it was but for its channel, which is closed; in every other session's entry the notice with its
  -- nick is put behind the queue if that has fewer than 64 lines, and nothing else changes.
  pub leave_effect :
      (id j : ℕ) {s : Session}
      → IsValid h
      → lookup id h.sessions ≡ some s
      → (lookup j (serve h (leave id)).0.sessions ≡ (
          if id == j
          then none
          else with_line
              (codes "* " ++ (s.nick ++ codes " left the partyline"))
              (lookup j h.sessions)))
        × (lookup id (serve h (leave id)).0.left ≡ some (record s { closed = true }))
  unfolding put_line left_line close_session
  leave_effect id j v found = ground (arith, leave_table id j v found)
