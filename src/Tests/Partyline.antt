-- ===== src/Tests/Partyline.antt =====
-- Runs of the hub.
use micelio.Base.{ℕ, ◌≡◌, ◌++◌, refl, arith, true, false, some, [], ◌∷◌, nat_eq}
use micelio.Base.Bytes.{Bytes, codes}
use micelio.Base.Dict.{lookup}
use micelio.Partyline.{Hub, Session, join, leave, broadcast, serve, nick_of}
use micelio.Partyline.Sessions.{IsValid}
use micelio.Partyline.Invariant.{serve-IsValid}
use micelio.Partyline.Delivery.{
  offered, outgoing, with_line, serve_remote, broadcast_lines, leave_effect,
}

abbrev session_of : ℕ → Bytes → Session
session_of id nick = record { id = id; nick = nick; queue = []; closed = false }

-- Two users, with a transport.
abbrev pub hub : Hub
hub = record {
  node_name = codes "n1";
  sessions = (1, session_of 1 (codes "ada")) ∷ (2, session_of 2 (codes "bob")) ∷ [];
  left = [];
  session_counter = 2;
  remote = some [];
  stopped = false;
}

pub hub-IsValid : IsValid hub
unfolding lookup
hub-IsValid = record {
  unique = (refl, (refl, tt));
  entries = (
    record { named = refl; issued = omega arith; fits = omega arith; closed_as = refl },
    (record { named = refl; issued = omega arith; fits = omega arith; closed_as = refl }, tt),
  );
  left_closed = tt;
  remote_fits = omega arith;
}

serve-IsValid_example : IsValid (serve hub (join (codes "eve"))).0
serve-IsValid_example = serve-IsValid hub (join (codes "eve")) hub-IsValid (omega arith)

serve_remote_example :
    (serve hub (broadcast 1 (codes "hi"))).0.remote
    ≡ offered (outgoing hub (broadcast 1 (codes "hi"))) (some [])
serve_remote_example = serve_remote hub refl (broadcast 1 (codes "hi"))

broadcast_lines_example :
    lookup 2 (serve hub (broadcast 1 (codes "hi"))).0.sessions
    ≡ with_line (codes "[" ++ (nick_of hub 1 ++ (codes "] " ++ codes "hi"))) (lookup 2 hub.sessions)
broadcast_lines_example = broadcast_lines hub refl 1 2 (codes "hi") hub-IsValid

leave_effect_example :
    (lookup 2 (serve hub (leave 1)).0.sessions
      ≡ with_line
          (codes "* " ++ (codes "ada" ++ codes " left the partyline"))
          (lookup 2 hub.sessions))
    × (lookup 1 (serve hub (leave 1)).0.left
        ≡ some (record (session_of 1 (codes "ada")) { closed = true }))
leave_effect_example =
    leave_effect hub refl 1 2 {s = session_of 1 (codes "ada")} hub-IsValid (unfold lookup in refl)
