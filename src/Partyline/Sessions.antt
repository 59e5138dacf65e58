-- ===== src/Partyline/Sessions.antt =====
-- The hub's table of sessions: what holds of it after every request.
use micelio.Base.{
  ℕ, ◌≤◌, ◌≡◌, refl, arith, Bool, true, Option, none, some, inl, inr, List, [], ◌∷◌, map, length,
  nat_eq, beq_iff, if◌then◌else◌, All, Bool-cases, Option-cases, length-append,
}
use micelio.Base.Bytes.{Bytes}
use micelio.Base.Dict.{Dict, lookup, UniqueKeys, UniqueKeys-insert, All-insert, All-lookup}
use micelio.Partyline.{
  Hub, Session, RemoteMsg, buffer_size, send_all, put_line, is_excluded, close_session, rename,
}

-- An entry of the hub's table: the session has the id that it stands under, its channel is not
-- overfull, and it is closed exactly if the hub has stopped.
pub record EntryOk (counter : ℕ) (closed : Bool) (entry : ℕ × Session) : Type 0 where
  pub named : entry.1.id ≡ entry.0
  pub issued : entry.0 ≤ counter
  pub fits : length entry.1.queue ≤ buffer_size
  pub closed_as : entry.1.closed ≡ closed

abbrev pub Within : Option (List RemoteMsg) → Type 0
Within none = Unit {0}
Within (some queue) = length queue ≤ buffer_size

pub record IsValid (h : Hub) : Type 0 where
  pub unique : UniqueKeys h.sessions
  pub entries : All (EntryOk h.session_counter h.stopped) h.sessions
  pub left_closed : All (EntryOk h.session_counter true) h.left
  pub remote_fits : Within h.remote

pub put_line-EntryOk :
    (n : ℕ) (c : Bool) (id : ℕ) (s : Session) (line : Bytes)
    → EntryOk n c (id, s)
    → EntryOk n c (id, put_line line s)
unfolding put_line
put_line-EntryOk n c id s line ok = ground (arith, length-append s.queue (line ∷ []))

pub send_all-EntryOk :
    (n : ℕ) (c : Bool) (m : Dict ℕ Session) (ex : Option ℕ) (line : Bytes)
    → All (EntryOk n c) m
    → All (EntryOk n c) (send_all m ex line)
unfolding send_all
send_all-EntryOk n c [] ex line h = h
send_all-EntryOk n c ((id, s) ∷ m) ex line (ok, h) = elim (Bool-cases (is_excluded ex s.id)) [
  | inl out ↦ rw out (ok, send_all-EntryOk n c m ex line h)
  | inr in_ ↦ rw in_ (put_line-EntryOk n c id s line ok, send_all-EntryOk n c m ex line h)
]

-- What `send_all` leaves under an id: the same session, with the line offered to it or not.
pub lookup-send_all :
    (n : ℕ) (c : Bool) (m : Dict ℕ Session) (ex : Option ℕ) (line : Bytes) (id : ℕ)
    → All (EntryOk n c) m
    → lookup id (send_all m ex line) ≡ elim (lookup id m) [
      | none ↦ none
      | some s ↦ some (if is_excluded ex id then s else put_line line s)
    ]
unfolding send_all lookup
lookup-send_all n c [] ex line id h = refl
lookup-send_all n c ((j, s) ∷ m) ex line id (ok, h) =
    ground (arith, beq_iff j id, ok.named, lookup-send_all n c m ex line id h)

pub none-send_all :
    (m : Dict ℕ Session) (ex : Option ℕ) (line : Bytes) (id : ℕ)
    → lookup id m ≡ none
    → lookup id (send_all m ex line) ≡ none
unfolding send_all lookup
none-send_all [] ex line id h = refl
none-send_all ((j, s) ∷ m) ex line id h = ground (arith, none-send_all m ex line id)

pub send_all-UniqueKeys :
    (m : Dict ℕ Session) (ex : Option ℕ) (line : Bytes)
    → UniqueKeys m
    → UniqueKeys (send_all m ex line)
unfolding send_all
send_all-UniqueKeys [] ex line u = u
send_all-UniqueKeys ((j, s) ∷ m) ex line (new, u) =
    (none-send_all m ex line j new, send_all-UniqueKeys m ex line u)

pub rename-EntryOk :
    (n : ℕ) (c : Bool) (m : Dict ℕ Session) (nick : Bytes) (id : ℕ)
    → All (EntryOk n c) m
    → All (EntryOk n c) (rename (lookup id m) nick id m)
rename-EntryOk n c m nick id h = elim (Option-cases (lookup id m)) [
  | inl absent ↦ rw absent h
  | inr (s, found) ↦
      let ok = All-lookup (EntryOk n c) id s m h found in
      rw found
        (All-insert (EntryOk n c) id (record s { nick = nick }) m (omega_entry n c id s nick ok) h)
]
  where
    omega_entry :
        (n : ℕ) (c : Bool) (id : ℕ) (s : Session) (nick : Bytes)
        → EntryOk n c (id, s)
        → EntryOk n c (id, record s { nick = nick })
    omega_entry n c id s nick ok = record {
      named = ok.named;
      issued = ok.issued;
      fits = ok.fits;
      closed_as = ok.closed_as;
    }

pub rename-UniqueKeys :
    (m : Dict ℕ Session) (nick : Bytes) (id : ℕ)
    → UniqueKeys m
    → UniqueKeys (rename (lookup id m) nick id m)
rename-UniqueKeys m nick id u = elim (Option-cases (lookup id m)) [
  | inl absent ↦ rw absent u
  | inr (s, found) ↦ rw found (UniqueKeys-insert id (record s { nick = nick }) m u)
]

pub weaken :
    (n k : ℕ) (c : Bool) (m : Dict ℕ Session) → n ≤ k → All (EntryOk n c) m → All (EntryOk k c) m
weaken n k c [] le h = h
weaken n k c (e ∷ m) le (ok, h) = (
  record { named = ok.named; issued = omega arith; fits = ok.fits; closed_as = ok.closed_as },
  weaken n k c m le h,
)

pub close_all :
    (n : ℕ) (c : Bool) (m : Dict ℕ Session)
    → All (EntryOk n c) m
    → All (EntryOk n true) (map (λ e. (e.0, close_session e.1)) m)
unfolding close_session
close_all n c [] h = h
close_all n c (e ∷ m) (ok, h) = (
  record { named = ok.named; issued = ok.issued; fits = ok.fits; closed_as = refl },
  close_all n c m h,
)

none_close :
    (m : Dict ℕ Session) (id : ℕ)
    → lookup id m ≡ none
    → lookup id (map (λ e. (e.0, close_session e.1)) m) ≡ none
unfolding lookup
none_close [] id h = refl
none_close (e ∷ m) id h = ground (arith, none_close m id)

pub close_unique :
    (m : Dict ℕ Session) → UniqueKeys m → UniqueKeys (map (λ e. (e.0, close_session e.1)) m)
close_unique [] u = u
close_unique (e ∷ m) (new, u) = (none_close m e.0 new, close_unique m u)
