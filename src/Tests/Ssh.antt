-- ===== src/Tests/Ssh.antt =====
-- Runs of the SSH server (internal/ssh).
use micelio.Base.{All, List, arith, ℕ, ◌≡◌, refl, false, some, [], ◌∷◌, none, nat_eq}
use micelio.Base.Bytes.{codes}
use micelio.Partyline.{Hub, Request, broadcast, who}
use micelio.Partyline
use micelio.Ssh.{Input, SessionEnd, blocked, run_terminal}
use micelio.Ssh.Terminal.{HasLeft, Unstopped, run_terminal-leaves}
use micelio.Ssh.Shutdown.{
  Server, IsClosing, accept, stop, steps, accepted, finished, stopped, new_server, stop_drains,
}
use micelio.Tests.Commands.{filled, filled-IsValid}
use micelio.Tests.Partyline.{hub}

-- A user who says "hi", while another says "yo", and quits.
abbrev typed : List Input
typed =
    record { others = []; full = false; line = codes "hi" }
    ∷ record { others = broadcast 1 (codes "yo") ∷ []; full = false; line = codes " /quit " }
    ∷ []

nobody_stops : All (λ i. Unstopped i.others) typed
nobody_stops = (tt, ((ground arith, tt), tt))

run_terminal-leaves_example : HasLeft 2 (run_terminal filled hub (codes "eve") typed (who ∷ []))
run_terminal-leaves_example =
    run_terminal-leaves filled hub (codes "eve") typed (who ∷ []) filled-IsValid refl nobody_stops
      (ground arith, tt)

-- The hub stops while the session reads.
abbrev stopped_early : List Input
stopped_early = record { others = Partyline.stop ∷ []; full = false; line = codes "hi" } ∷ []

stopped_blocks : run_terminal filled hub (codes "eve") stopped_early [] ≡ blocked
unfolding run_terminal micelio.Ssh.leave_hub micelio.Ssh.read_loop micelio.Ssh.read_line
    micelio.Base.Bytes.bytes_beq micelio.Stdlib.Trim.trim_space micelio.Stdlib.Trim.trim_right
    micelio.Stdlib.Trim.trim_left micelio.Stdlib.Fields.space_length micelio.Stdlib.Trim.all_spaces
    micelio.Stdlib.Trim.has_prefix micelio.Ssh.say Partyline.run Partyline.serve Partyline.dispatch
    Partyline.serve_join
stopped_blocks = refl

abbrev two_connections : Server
two_connections = steps new_server (accepted 7 ∷ accepted 8 ∷ [])

runs : two_connections.stopping ≡ false
unfolding steps micelio.Ssh.Shutdown.step accept
runs = refl

stop_drains_example :
    IsClosing two_connections
      (steps (stop two_connections) (accepted 9 ∷ finished 7 ∷ stopped ∷ []))
stop_drains_example = stop_drains two_connections (accepted 9 ∷ finished 7 ∷ stopped ∷ []) runs
