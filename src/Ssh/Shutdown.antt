-- ===== src/Ssh/Shutdown.antt =====
-- internal/ssh/server.go: the connections that Serve has accepted, and Stop.
use micelio.Base.{
  ◌⊎◌, ℕ, ◌+◌, ◌-◌, ◌≡◌, refl, Bool, true, false, not, inl, inr, List, [], ◌∷◌, ◌++◌, keep, ◌==◌,
  nat_eq, if◌then◌else◌, Bool-cases,
}

-- A connection is a number. `running` is the count of the wait group, `closed` holds every connection
-- that has been closed, `serving` says whether Serve still accepts.
pub record Server : Type 0 where
  pub conns : List ℕ
  pub stopping : Bool
  pub running : ℕ
  pub closed : List ℕ
  pub serving : Bool

abbrev pub new_server : Server
new_server = record { conns = []; stopping = false; running = 0; closed = []; serving = true }

-- A turn of Serve's loop with a new connection.
unfoldable pub accept : Server → ℕ → Server
accept s conn =
    if not s.serving
    then s
    else if s.stopping
    then record s { closed = conn ∷ s.closed; serving = false }
    else record s { conns = conn ∷ s.conns; running = s.running + 1 }

-- The end of handleConnection: removeConn, Close, Done
unfoldable pub finish : Server → ℕ → Server
finish s conn = record s {
  conns = keep (λ c. not (c == conn)) s.conns;
  closed = conn ∷ s.closed;
  running = s.running - 1;
}

-- Stop, up to its wait, under stopOnce
unfoldable pub stop : Server → Server
stop s = if s.stopping then s else record s { stopping = true; closed = s.conns ++ s.closed }

pub data Step : Type 0 where
  accepted finished : ℕ → Step
  stopped : Step

unfoldable pub step : Server → Step → Server
step s (accepted conn) = accept s conn
step s (finished conn) = finish s conn
step s stopped = stop s

unfoldable pub steps : Server → List Step → Server
steps s [] = s
steps s (x ∷ xs) = steps (step s x) xs

-- Membership by recursion.
abbrev pub Has : ℕ → List ℕ → Type 0
Has c [] = ⊥
Has c (x ∷ xs) = (x ≡ c) ⊎ Has c xs

Has-append_left : (c : ℕ) (xs ys : List ℕ) → Has c xs → Has c (xs ++ ys)
Has-append_left c [] ys h = absurd h
Has-append_left c (x ∷ xs) ys (inl e) = inl e
Has-append_left c (x ∷ xs) ys (inr h) = inr (Has-append_left c xs ys h)

Has-append_right : (c : ℕ) (xs ys : List ℕ) → Has c ys → Has c (xs ++ ys)
Has-append_right c [] ys h = h
Has-append_right c (x ∷ xs) ys h = inr (Has-append_right c xs ys h)

Has-keep : (c x : ℕ) (xs : List ℕ) → Has c (keep (λ y. not (y == x)) xs) → Has c xs
Has-keep c x [] h = h
Has-keep c x (y ∷ xs) h = elim (Bool-cases (y == x)) [
  | inl gone ↦ inr (Has-keep c x xs (rw gone at h))
  | inr kept ↦ kept_case (rw kept at h) (Has-keep c x xs)
]
  where
    kept_case :
        Has c (y ∷ keep (λ z. not (z == x)) xs)
        → (Has c (keep (λ z. not (z == x)) xs) → Has c xs)
        → Has c (y ∷ xs)
    kept_case (inl e) rest = inl e
    kept_case (inr h) rest = inr (rest h)

-- The server stops: its connections are closed, and were there when it began to stop.
pub record IsClosing (before s : Server) : Type 0 where
  pub stops : s.stopping ≡ true
  pub all_closed : (c : ℕ) → Has c s.conns → Has c s.closed
  pub no_new : (c : ℕ) → Has c s.conns → Has c before.conns

step-IsClosing : (before s : Server) (x : Step) → IsClosing before s → IsClosing before (step s x)
unfolding step accept finish stop
step-IsClosing before s (accepted conn) k = elim (Bool-cases s.serving) [
  | inr over ↦ rw over (record { stops = k.stops; all_closed = k.all_closed; no_new = k.no_new })
  | inl on ↦
      rw (on, k.stops)
        (record { stops = refl; all_closed = λ c h. inr (k.all_closed c h); no_new = k.no_new })
]
step-IsClosing before s (finished conn) k = record {
  stops = k.stops;
  all_closed = λ c h. inr (k.all_closed c (Has-keep c conn s.conns h));
  no_new = λ c h. k.no_new c (Has-keep c conn s.conns h);
}
step-IsClosing before s stopped k =
    rw k.stops (record { stops = refl; all_closed = k.all_closed; no_new = k.no_new })

steps-IsClosing :
    (before s : Server) (xs : List Step) → IsClosing before s → IsClosing before (steps s xs)
unfolding steps
steps-IsClosing before s [] k = k
steps-IsClosing before s (x ∷ xs) k =
    steps-IsClosing before (step s x) xs (step-IsClosing before s x k)

stop-IsClosing : (s : Server) → s.stopping ≡ false → IsClosing s (stop s)
unfolding stop
stop-IsClosing s open_ = rw open_ (record {
  stops = refl;
  all_closed = λ c h. Has-append_left c s.conns s.closed h;
  no_new = λ c h. h;
})

-- From a server that does not stop yet: once Stop has begun, whatever connections come, end or Stop
-- is called again, every connection that is still in the table has been closed, and none is there
-- that was not there when Stop began.
pub stop_drains :
    (s : Server) (xs : List Step) → s.stopping ≡ false → IsClosing s (steps (stop s) xs)
stop_drains s xs open_ = steps-IsClosing s (stop s) xs (stop-IsClosing s open_)
