-- ===== src/Ssh/Terminal.antt =====
-- However the session of a terminal ends, it leaves the hub.
use micelio.Base.{
  ℕ, ◌+◌, ◌%◌, ◌^◌, All, ◌≡◌, ◌≢◌, refl, arith, Bool, false, none, inl, inr, List, [], ◌∷◌, ◌==◌,
  nat_eq, Bool-cases, Option-cases, beq_refl,
}
use micelio.Base.Bytes.{Bytes, bytes_eq, codes}
use micelio.Base.Dict.{lookup, remove, lookup-remove}
use micelio.Stdlib.Trim.{trim_space, has_prefix}
use micelio.Partyline.{
  Hub, Request, join, leave, broadcast, system_message, who, set_nick, stop, serve, run, dispatch,
  serve_leave, serve_join, serve_broadcast, forward_remote, serve_set_nick,
}
use micelio.Partyline.Sessions.{none-send_all}
use micelio.Commands
use micelio.Commands.{
  CommandRegistry, Builtin, Dispatched, run_builtin, blank, unknown, called, crashed,
}
use micelio.Commands.Registry.{IsValid, dispatch-handled}
use micelio.Ssh.{
  Input, LineEnd, line_served, call, dispatched, say, read_line, loop_ends, SessionEnd, left,
  read_loop, session_id, leave_hub, run_terminal,
}

-- After its leave a session is not in the table of a hub that runs.
leave_gone :
    (h : Hub) (id : ℕ)
    → (serve h (leave id)).0.stopped ≡ false
    → lookup id (serve h (leave id)).0.sessions ≡ none
unfolding serve dispatch serve_leave
leave_gone h id open_ = elim (Bool-cases h.stopped) [
  | inl over ↦ absurd (ground arith)
  | inr runs ↦ rw runs (elim (Option-cases (lookup id h.sessions)) [
    | inl absent ↦ rw (absent, serve_leave) absent
    | inr (s, there) ↦
        rw (there, serve_leave)
          (none-send_all (remove id h.sessions) none _ id
            (ground (arith, lookup-remove id id h.sessions, beq_refl id)))
  ])
]

-- The hub goes on running, whatever is asked of it but to stop.
IsNoStop : Request → Type 0
IsNoStop request = request ≢ stop

serve_runs :
    (h : Hub) (request : Request)
    → IsNoStop request
    → h.stopped ≡ false
    → (serve h request).0.stopped ≡ false
unfolding serve dispatch serve_join serve_leave serve_broadcast forward_remote serve_set_nick
    IsNoStop
serve_runs h (join nick) ne open_ = ground arith
serve_runs h (leave id) ne open_ = ground arith
serve_runs h (broadcast from text) ne open_ = ground arith
serve_runs h (system_message text) ne open_ = ground arith
serve_runs h who ne open_ = ground arith
serve_runs h (set_nick id nick) ne open_ = ground arith
serve_runs h stop ne open_ = absurd (ne refl)

-- None of the requests stops the hub.
abbrev pub Unstopped : List Request → Type 0
Unstopped requests = All (λ q. q ≢ stop) requests

run_runs :
    (h : Hub) (requests : List Request)
    → Unstopped requests
    → h.stopped ≡ false
    → (run h requests).stopped ≡ false
unfolding run IsNoStop
run_runs h [] u open_ = open_
run_runs h (q ∷ qs) (ne, u) open_ = run_runs (serve h q).0 qs u (serve_runs h q ne open_)

-- A line is served, by a hub that runs before and after.
record Served (x : LineEnd) : Type 0 where
  hub' : Hub
  ends : Bool
  served : x ≡ line_served hub' ends
  runs : hub'.stopped ≡ false

builtin_runs :
    (hub : Hub) (id : ℕ) (handler : Builtin) (args : List Bytes)
    → hub.stopped ≡ false
    → (run_builtin handler hub id args).0.stopped ≡ false
unfolding run_builtin IsNoStop
builtin_runs hub id Builtin.who args open_ = serve_runs hub who (ground arith) open_
builtin_runs hub id Builtin.nick [] open_ = open_
builtin_runs hub id Builtin.nick (name ∷ args) open_ =
    serve_runs hub (set_nick id name) (ground arith) open_
builtin_runs hub id Builtin.quit args open_ = open_
builtin_runs hub id Builtin.help args open_ = open_

dispatched-Served :
    (hub : Hub) (id : ℕ) (d : Dispatched Builtin)
    → d ≢ crashed
    → hub.stopped ≡ false
    → Served (dispatched hub id d)
unfolding dispatched call
dispatched-Served hub id blank ne open_ = record {
  hub' = hub;
  ends = false;
  served = refl;
  runs = open_;
}
dispatched-Served hub id (unknown name) ne open_ = record {
  hub' = hub;
  ends = false;
  served = refl;
  runs = open_;
}
dispatched-Served hub id (called handler args) ne open_ = record {
  hub' = (run_builtin handler hub id args).0;
  ends = (run_builtin handler hub id args).1;
  served = ground arith;
  runs = builtin_runs hub id handler args open_;
}
dispatched-Served hub id crashed ne open_ = absurd (ne refl)

module _ (r : CommandRegistry Builtin) (v : IsValid r) where
  read_line-Served :
      (hub : Hub) (id : ℕ) (full : Bool) (raw : Bytes)
      → hub.stopped ≡ false
      → Served (read_line r hub id full raw)
  unfolding read_line say IsNoStop
  read_line-Served hub id full raw open_ = elim (Bool-cases (trim_space raw == [])) [
    | inl empty ↦ rw empty (record { hub' = hub; ends = false; served = refl; runs = open_ })
    | inr line ↦ rw line (elim (Bool-cases (has_prefix (trim_space raw) (codes "/"))) [
      | inl command ↦ rw command (
          dispatched-Served hub id (Commands.dispatch r (trim_space raw))
            (dispatch-handled r (trim_space raw) v) open_)
      | inr chat ↦ rw chat (record {
        hub' = (serve hub (broadcast id (trim_space raw))).0;
        ends = false;
        served = ground arith;
        runs = serve_runs hub (broadcast id (trim_space raw)) (ground arith) open_;
      })
    ])
  ]

  read_loop-runs :
      (hub : Hub) (id : ℕ) (lines : List Input)
      → All (λ i. Unstopped i.others) lines
      → hub.stopped ≡ false
      → (hub' : Hub) × (read_loop r hub id lines ≡ loop_ends hub') × (hub'.stopped ≡ false)
  unfolding read_loop
  read_loop-runs hub id [] u open_ = (hub, refl, open_)
  read_loop-runs hub id (i ∷ rest) (u, us) open_ =
      let s =
        read_line-Served (run hub i.others) id i.full i.line (run_runs hub i.others u open_) in
      rw (s.served, read_loop)
        (elim (Bool-cases s.ends) [
          | inl quit ↦ rw quit (s.hub', refl, s.runs)
          | inr on ↦ rw on (read_loop-runs s.hub' id rest us s.runs)
        ])

-- The session with the next number has left the hub, which runs and does not have it any more.
pub record HasLeft (counter : ℕ) (x : SessionEnd) : Type 0 where
  pub hub' : Hub
  pub at : x ≡ left ((counter + 1) % 2 ^ 64) hub'
  pub runs : hub'.stopped ≡ false
  pub gone : lookup ((counter + 1) % 2 ^ 64) hub'.sessions ≡ none

joined :
    (h : Hub) (name : Bytes)
    → h.stopped ≡ false
    → session_id (serve h (join name)).1 ≡ (h.session_counter + 1) % 2 ^ 64
unfolding serve dispatch serve_join session_id
joined h name open_ = ground arith

leave_hub-HasLeft :
    (counter : ℕ) (hub : Hub) (others : List Request)
    → (run hub others).stopped ≡ false
    → HasLeft counter (leave_hub ((counter + 1) % 2 ^ 64) (loop_ends hub) others)
unfolding leave_hub IsNoStop
leave_hub-HasLeft counter hub others open_ =
    let id = (counter + 1) % 2 ^ 64 in
    let runs = serve_runs (run hub others) (leave id) (ground arith) open_ in
    record {
      hub' = (serve (run hub others) (leave id)).0;
      at = ground arith;
      runs = runs;
      gone = leave_gone (run hub others) id runs;
    }

open_session :
    (r : CommandRegistry Builtin) (hub : Hub) (name : Bytes) (lines : List Input)
    (others : List Request)
    → hub.stopped ≡ false
    → run_terminal r hub name lines others
      ≡ leave_hub
          ((hub.session_counter + 1) % 2 ^ 64)
          (read_loop r (serve hub (join name)).0 ((hub.session_counter + 1) % 2 ^ 64) lines)
          others
unfolding run_terminal
open_session r hub name lines others runs = ground (arith, joined hub name runs)

-- With a valid registry, on a hub that runs and that nobody stops before the session ends: whatever
-- lines the user types and whatever else others ask of the hub in between, the terminal comes to its
-- end, by /quit or behind the last line, without a panic and without blocking, and the table of the
-- hub, which still runs, does not have its session.
pub run_terminal-leaves :
    (r : CommandRegistry Builtin) (hub : Hub) (name : Bytes) (lines : List Input)
    (others : List Request)
    → IsValid r
    → hub.stopped ≡ false
    → All (λ i. Unstopped i.others) lines
    → Unstopped others
    → HasLeft hub.session_counter (run_terminal r hub name lines others)
unfolding IsNoStop
run_terminal-leaves r hub name lines others v runs u us =
    let (hub2, ended, on) =
      read_loop-runs r v (serve hub (join name)).0 ((hub.session_counter + 1) % 2 ^ 64) lines u
        (serve_runs hub (join name) (ground arith) runs) in
    rw (open_session r hub name lines others runs, ended)
      (leave_hub-HasLeft hub.session_counter hub2 others (run_runs hub2 others us on))
