-- ===== src/Ssh.antt =====
-- internal/ssh/server.go: the SSH server of the partyline. The SSH protocol and the terminal are of
-- golang.org/x: a session reads the lines that the terminal gives it.
pub mod Terminal
pub mod Shutdown
use micelio.Base.{
  ℕ, zero, suc, ◌+◌, ◌-◌, ◌%◌, ◌^◌, Bool, true, false, ◌&&◌, Option, none, some, List, [], ◌∷◌,
  ◌++◌, length, ◌==◌, nat_eq, if◌then◌else◌,
}
use micelio.Base.Bytes.{Bytes, bytes_eq, codes}
use micelio.Stdlib.Trim.{trim_space, has_prefix}
use micelio.Partyline.{
  Hub, Request, Reply, join, leave, broadcast, session, nothing, nicks, previous, serve, run,
}
use micelio.Commands.{
  CommandRegistry, Builtin, who, nick, quit, help, Dispatched, blank, unknown, called, crashed,
  dispatch, run_builtin,
}

-- What comes before a session reads a line: the requests of others that the hub serves in between,
-- and whether the channel of broadcasts, with its 64 places, is full and is not being emptied.
pub record Input : Type 0 where
  pub others : List Request
  pub full : Bool
  pub line : Bytes

-- How a line ends: with a panic in Dispatch, not at all, or with the hub after it and whether the loop
-- ends with it.
pub data LineEnd : Type 0 where
  line_panics line_blocks : LineEnd
  line_served : Hub → Bool → LineEnd

-- A call of Join, Leave, Who or SetNick sends on a channel without places: when the hub has stopped, it
-- never returns. Broadcast returns while its channel has a place.
unfoldable pub needs_hub : Builtin → List Bytes → Bool
needs_hub who args = true
needs_hub nick [] = false
needs_hub nick (name ∷ args) = true
needs_hub quit args = false
needs_hub help args = false

unfoldable pub call : Hub → ℕ → Builtin → List Bytes → LineEnd
call hub id handler args =
    if hub.stopped && needs_hub handler args
    then line_blocks
    else (let (hub', ends) = run_builtin handler hub id args in line_served hub' ends)

unfoldable pub dispatched : Hub → ℕ → Dispatched Builtin → LineEnd
dispatched hub id blank = line_served hub false
dispatched hub id (unknown name) = line_served hub false
dispatched hub id (called handler args) = call hub id handler args
dispatched hub id crashed = line_panics

unfoldable pub say : Hub → ℕ → Bool → Bytes → LineEnd
say hub id full line =
    if hub.stopped && full then line_blocks else line_served (serve hub (broadcast id line)).0 false

-- A line of the terminal, without its line end
unfoldable pub read_line : CommandRegistry Builtin → Hub → ℕ → Bool → Bytes → LineEnd
read_line r hub id full raw =
    let line = trim_space raw in
    if line == []
    then line_served hub false
    else if has_prefix line (codes "/")
    then dispatched hub id (dispatch r line)
    else say hub id full line

-- How the read loop ends, and with it the terminal.
pub data LoopEnd : Type 0 where
  loop_panics loop_blocks : LoopEnd
  loop_ends : Hub → LoopEnd

pub data SessionEnd : Type 0 where
  panicked blocked : SessionEnd
  left : ℕ → Hub → SessionEnd

-- The read loop; behind the last line ReadLine returns an error.
unfoldable pub read_loop : CommandRegistry Builtin → Hub → ℕ → List Input → LoopEnd
read_loop r hub id [] = loop_ends hub
read_loop r hub id (i ∷ rest) = elim (read_line r (run hub i.others) id i.full i.line) [
  | line_panics ↦ loop_panics
  | line_blocks ↦ loop_blocks
  | line_served hub' ends ↦ elim ends [ true ↦ loop_ends hub' | false ↦ read_loop r hub' id rest ]
]

-- The id of the session that Join gives.
unfoldable pub session_id : Reply → ℕ
session_id nothing = 0
session_id (session s) = s.id
session_id (nicks ns) = 0
session_id (previous old) = 0

unfoldable pub leave_hub : ℕ → LoopEnd → List Request → SessionEnd
leave_hub id loop_panics others = panicked
leave_hub id loop_blocks others = blocked
leave_hub id (loop_ends hub) others =
    let hub' = run hub others in if hub'.stopped then blocked else left id (serve hub' (leave id)).0

-- runTerminal: the id of its session and the hub after Leave, if it comes so far. `others` are the
-- requests that the hub serves between the end of the loop and Leave.
unfoldable pub run_terminal :
    CommandRegistry Builtin → Hub → Bytes → List Input → List Request → SessionEnd
run_terminal r hub name lines others =
    if hub.stopped
    then blocked
    else (let (hub1, reply) = serve hub (join name) in
        let id = session_id reply in leave_hub id (read_loop r hub1 id lines) others)

-- publicKeyCallback, with the marshalled keys
unfoldable pub public_key_callback : List Bytes → Bytes → Bool
public_key_callback [] key = false
public_key_callback (authorized ∷ keys) key =
    if key == authorized then true else public_key_callback keys key

-- loadAuthorizedKeys, with fuel; `parse` is ssh.ParseAuthorizedKey, with the marshalled key and what
-- is left of the file.
unfoldable pub load_keys : (Bytes → Option (Bytes × Bytes)) → ℕ → Bytes → List Bytes
load_keys parse zero content = []
load_keys parse (suc fuel) content =
    if length content == 0
    then []
    else elim (parse content) [ none ↦ [] | some (key, rest) ↦ key ∷ load_keys parse fuel rest ]

unfoldable pub load_authorized_keys : (Bytes → Option (Bytes × Bytes)) → Option Bytes → List Bytes
load_authorized_keys parse none = []
load_authorized_keys parse (some content) = load_keys parse (length content) content

-- A request on a session's channel.
pub data SessionRequest : Type 0 where
  pty_req shell other_request : Bool → SessionRequest

abbrev answer : Bool → Bool → List Bool
answer want_reply reply = if want_reply then reply ∷ [] else []

-- The requests behind the shell: none is granted.
unfoldable pub drain : List SessionRequest → List Bool
drain [] = []
drain (pty_req want ∷ reqs) = answer want false ++ drain reqs
drain (shell want ∷ reqs) = answer want false ++ drain reqs
drain (other_request want ∷ reqs) = answer want false ++ drain reqs

-- handleSession: the replies, and whether the terminal was run.
unfoldable pub handle_session : List SessionRequest → List Bool × Bool
handle_session [] = ([], false)
handle_session (pty_req want ∷ reqs) =
    let (replies, ran) = handle_session reqs in (answer want true ++ replies, ran)
handle_session (shell want ∷ reqs) = (answer want true ++ drain reqs, true)
handle_session (other_request want ∷ reqs) =
    let (replies, ran) = handle_session reqs in (answer want false ++ replies, ran)
