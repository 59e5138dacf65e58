-- ===== src/Partyline.antt =====
-- internal/partyline/partyline.go: the hub. `Run` owns the sessions and serves one request at a
-- time: `serve` is one round of its loop. A session's channel of 64 lines is its `queue` of lines not
-- yet displayed; a line that finds it full is dropped.
pub mod Sessions
pub mod Invariant
pub mod Delivery
use micelio.Base.{
  ℕ, ◌+◌, ◌%◌, ◌^◌, Bool, true, false, not, ◌&&◌, Option, none, some, List, [], ◌∷◌, ◌++◌, map,
  length, ltb, ◌==◌, nat_eq, if◌then◌else◌,
}
use micelio.Base.Bytes.{Bytes, codes}
use micelio.Base.Dict.{Dict, lookup, insert, remove, values}

-- make(chan string, 64), make(chan partyline.RemoteMsg, 64)
abbrev pub buffer_size : ℕ
buffer_size = 64

pub record Session : Type 0 where
  pub id : ℕ
  pub nick : Bytes
  pub queue : List Bytes
  pub closed : Bool

pub record RemoteMsg : Type 0 where
  pub nick : Bytes
  pub text : Bytes

-- `sessions` are the hub's, `left` those that have left and keep their closed channel. A session is
-- a pointer that its user keeps: a request names it by its id. `remote` is the channel to the
-- transport, `none` if there is no P2P.
pub record Hub : Type 0 where
  pub node_name : Bytes
  pub sessions : Dict ℕ Session
  pub left : Dict ℕ Session
  pub session_counter : ℕ
  pub remote : Option (List RemoteMsg)
  pub stopped : Bool

unfoldable pub new_hub : Bytes → Hub
new_hub node_name = record {
  node_name = node_name;
  sessions = [];
  left = [];
  session_counter = 0;
  remote = none;
  stopped = false;
}

-- `select { case ch <- x: default: }`
abbrev pub offer {ℓ} : {A : Type ℓ} → List A → A → List A
offer queue x = if ltb (length queue) buffer_size then queue ++ (x ∷ []) else queue

unfoldable pub put_line : Bytes → Session → Session
put_line line s = record s { queue = offer s.queue line }

-- `exclude` is the id of a session, if there is one to leave out.
abbrev pub is_excluded : Option ℕ → ℕ → Bool
is_excluded none id = false
is_excluded (some x) id = id == x

-- sendAll
unfoldable pub send_all : Dict ℕ Session → Option ℕ → Bytes → Dict ℕ Session
send_all [] exclude line = []
send_all ((id, s) ∷ rest) exclude line =
    (id, if is_excluded exclude s.id then s else put_line line s) ∷ send_all rest exclude line

unfoldable pub close_session : Session → Session
close_session s = record s { closed = true }

unfoldable pub joined_line : Bytes → Bytes
joined_line nick = codes "* " ++ (nick ++ codes " joined the partyline")

unfoldable pub left_line : Bytes → Bytes
left_line nick = codes "* " ++ (nick ++ codes " left the partyline")

unfoldable pub renamed_line : Bytes → Bytes → Bytes
renamed_line old nick = codes "* " ++ (old ++ (codes " is now known as " ++ nick))

-- fmt.Sprintf("[%s] %s", nick, text)
unfoldable pub chat_line : Bytes → Bytes → Bytes
chat_line nick text = codes "[" ++ (nick ++ (codes "] " ++ text))

-- A request on one of the hub's channels. A system message has no sender.
pub data Request : Type 0 where
  join : Bytes → Request
  leave : ℕ → Request
  broadcast : ℕ → Bytes → Request
  system_message : Bytes → Request
  who : Request
  set_nick : ℕ → Bytes → Request
  stop : Request

-- What the hub sends back on the request's result channel.
pub data Reply : Type 0 where
  nothing : Reply
  session : Session → Reply
  nicks : List Bytes → Reply
  previous : Bytes → Reply

-- DeliverRemote: a message from a remote peer comes in as a system message.
unfoldable pub deliver_remote : Bytes → Bytes → Request
deliver_remote nick text = system_message (chat_line nick text)

-- SetRemoteSend
unfoldable pub set_remote_send : Hub → Hub
set_remote_send h = record h { remote = some [] }

unfoldable pub serve_join : Hub → Bytes → Hub × Reply
serve_join h nick =
    let id = (h.session_counter + 1) % 2 ^ 64 in
    let s : Session = record { id = id; nick = nick; queue = []; closed = false } in
    (
      record h {
        session_counter = id;
        sessions = send_all (insert id s h.sessions) none (joined_line nick);
      },
      session s,
    )

unfoldable pub serve_leave : Hub → ℕ → Hub
serve_leave h id = elim (lookup id h.sessions) [
  | none ↦ h
  | some s ↦ record h {
    sessions = send_all (remove id h.sessions) none (left_line s.nick);
    left = insert id (close_session s) h.left;
  }
]

-- The nick of a session, in the hub or not.
unfoldable pub nick_of : Hub → ℕ → Bytes
nick_of h id = elim (lookup id h.sessions) [
  | some s ↦ s.nick
  | none ↦ elim (lookup id h.left) [ some s ↦ s.nick | none ↦ [] ]
]

unfoldable pub forward_remote : Hub → RemoteMsg → Hub
forward_remote h msg = elim h.remote [
  | none ↦ h
  | some queue ↦ record h { remote = some (offer queue msg) }
]

unfoldable pub serve_broadcast : Hub → ℕ → Bytes → Hub
serve_broadcast h from text =
    let nick = nick_of h from in
    let h' = record h { sessions = send_all h.sessions (some from) (chat_line nick text) } in
    forward_remote h' (record { nick = nick; text = text })

abbrev pub rename : Option Session → Bytes → ℕ → Dict ℕ Session → Dict ℕ Session
rename none nick id m = m
rename (some s) nick id m = insert id (record s { nick = nick }) m

unfoldable pub serve_set_nick : Hub → ℕ → Bytes → Hub × Reply
serve_set_nick h id nick =
    let old = nick_of h id in
    let sessions = rename (lookup id h.sessions) nick id h.sessions in
    (
      record h {
        sessions = send_all sessions none (renamed_line old nick);
        left = rename (lookup id h.left) nick id h.left;
      },
      previous old,
    )

-- The cases of Run's select.
unfoldable pub dispatch : Hub → Request → Hub × Reply
dispatch h (join nick) = serve_join h nick
dispatch h (leave id) = (serve_leave h id, nothing)
dispatch h (broadcast from text) = (serve_broadcast h from text, nothing)
dispatch h (system_message text) = (record h { sessions = send_all h.sessions none text }, nothing)
dispatch h who = (h, nicks (map (λ s. s.nick) (values h.sessions)))
dispatch h (set_nick id nick) = serve_set_nick h id nick
dispatch h stop = (
  record h { stopped = true; sessions = map (λ e. (e.0, close_session e.1)) h.sessions },
  nothing,
)

-- One round of Run. After `stop` the loop has ended and no request is served.
unfoldable pub serve : Hub → Request → Hub × Reply
serve h r = if h.stopped then (h, nothing) else dispatch h r

unfoldable pub run : Hub → List Request → Hub
run h [] = h
run h (r ∷ rs) = run (serve h r).0 rs
