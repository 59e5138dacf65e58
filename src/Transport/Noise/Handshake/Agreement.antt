-- ===== src/Transport/Noise/Handshake/Agreement.antt =====
-- The two parties of a handshake end with paired cipher states.
use micelio.Base.{
  ℕ, true, false, ◌+◌, ◌≤◌, ◌≡◌, ◌%◌, ◌^◌, refl, sym, ap, ◌∙◌, arith, Bool, Option, none, some, [],
  ◌++◌, length, nat_eq,
}
use mathlib.Core.List.{append_assoc, append-nil}
use mathlib.Core.Path.{subst}
use micelio.Base.Bytes.{Bytes}
use micelio.Base.Results.{ok, bind-ok}
use micelio.Stdlib.Binary.{put_uint16, uint16, uint16-put_uint16}
use micelio.Transport.Frame.{read_full}
use micelio.Transport.Frame.RoundTrip.{read_full-append}
use micelio.Transport.Noise.{NoiseConn}
use micelio.Transport.Noise.Handshake.{
  Library, HandshakeError, write_handshake_msg, read_handshake_msg, or_fail, initiate, respond,
  complete, conclude, config, write_failed, read_failed,
}

-- What the Noise pattern XX promises of two handshake states, after `n` messages, of which the first
-- writes the next one: that message is read, and the roles change; after the third the states that
-- both calls return pair up, and each party knows the static key of the other.
pub record IsXx {K S HS : Type 0} (lib : Library K S HS) (InStep : K → K → ℕ → HS → HS → Type 0)
    (Pair : S → S → Type 0) (static : K → Bytes) : Type 0 where
  pub begins :
      (ki kr : K) (hi hr : HS)
      → lib.new_state true ki ≡ some hi
      → lib.new_state false kr ≡ some hr
      → InStep ki kr 0 hi hr
  pub follows :
      (ki kr : K) (n : ℕ) (w w' r : HS) (msg : Bytes) (cs1 cs2 : S)
      → InStep ki kr n w r
      → lib.write_message w ≡ some (msg, w', cs1, cs2)
      → n ≤ 2
      → (r' : HS) × (ds1 ds2 : S) × (lib.read_message r msg ≡ some (r', ds1, ds2))
        × InStep ki kr (n + 1) r' w'
        × (n ≡ 2 → Pair cs1 ds1 × Pair ds2 cs2)
  pub statics :
      (ki kr : K) (hr hi : HS)
      → InStep ki kr 3 hr hi
      → (lib.peer_static hi ≡ static kr) × (lib.peer_static hr ≡ static ki)

len_bytes : Bytes → Bytes
len_bytes msg = put_uint16 (length msg % 2 ^ 16)

written-ok :
    (takes : Bytes → Bool) (msg out : Bytes)
    → write_handshake_msg takes msg ≡ ok out
    → (length msg ≤ 0xFFFF) × (out ≡ len_bytes msg ++ msg)
unfolding write_handshake_msg len_bytes
written-ok takes msg out h = ground arith

read_written :
    (msg rest : Bytes)
    → length msg ≤ 0xFFFF
    → read_handshake_msg (len_bytes msg ++ (msg ++ rest)) ≡ ok (msg, rest)
unfolding read_handshake_msg len_bytes
read_written msg rest h =
    let size : length (len_bytes msg) ≡ 2 = unfold put_uint16 in refl in
    let first : read_full 2 (len_bytes msg ++ (msg ++ rest)) ≡ some (len_bytes msg, msg ++ rest) =
      rw (← size) (read_full-append (len_bytes msg) (msg ++ rest)) in
    let same : uint16 (len_bytes msg) ≡ length msg =
      uint16-put_uint16 (length msg % 2 ^ 16) (omega arith) ∙ omega arith in
    rw (first, read_handshake_msg) (rw (same, read_full-append msg rest) refl)

-- What writeHandshakeMsg writes, readHandshakeMsg reads back, and leaves the bytes that follow it.
pub read-write_handshake_msg :
    (takes : Bytes → Bool) (msg out rest : Bytes)
    → write_handshake_msg takes msg ≡ ok out
    → read_handshake_msg (out ++ rest) ≡ ok (msg, rest)
read-write_handshake_msg takes msg out rest h =
    let (fits, e) = written-ok takes msg out h in rw (e, append_assoc) (read_written msg rest fits)

read_sent :
    (takes : Bytes → Bool) (msg out : Bytes)
    → write_handshake_msg takes msg ≡ ok out
    → read_handshake_msg out ≡ ok (msg, [])
read_sent takes msg out h =
    ap read_handshake_msg (sym (append-nil out)) ∙ read-write_handshake_msg takes msg out [] h

or_fail-ok :
    {A : Type 0} (e : HandshakeError) (o : Option A) {a : A} → or_fail e o ≡ ok a → o ≡ some a
unfolding or_fail
or_fail-ok e none h = cc
or_fail-ok e (some x) h = ground arith

module _ {K S HS : Type 0} (lib : Library K S HS) (takes : Bytes → Bool) where
  initiate-ok :
      (key : K) (out : Bytes) (hs1 : HS)
      → initiate lib takes key ≡ ok (out, hs1)
      → (hs : HS) × (msg : Bytes) × (cs1 cs2 : S) × (lib.new_state true key ≡ some hs)
        × (lib.write_message hs ≡ some (msg, hs1, cs1, cs2))
        × (write_handshake_msg takes msg ≡ ok out)
  unfolding initiate
  initiate-ok key out hs1 h =
      let (hs, made, h1) = bind-ok (or_fail config (lib.new_state true key)) _ h in
      let ((msg, hs', cs1, cs2), wrote, h2) =
        bind-ok (or_fail write_failed (lib.write_message hs)) _ h1 in
      let (out', sent, h3) = bind-ok (write_handshake_msg takes msg) _ h2 in
      let e : lib.write_message hs ≡ some (msg, hs', cs1, cs2) = or_fail-ok write_failed _ wrote in
      (hs, msg, cs1, cs2, or_fail-ok config _ made, ground arith, ground arith)

  respond-ok :
      (key : K) (conn out rest msg1 : Bytes) (hs2 : HS)
      → read_handshake_msg conn ≡ ok (msg1, [])
      → respond lib takes key conn ≡ ok (out, hs2, rest)
      → (hs hs1 : HS) × (msg : Bytes) × (ds1 ds2 cs1 cs2 : S) × (lib.new_state false key ≡ some hs)
        × (lib.read_message hs msg1 ≡ some (hs1, ds1, ds2))
        × (lib.write_message hs1 ≡ some (msg, hs2, cs1, cs2))
        × (write_handshake_msg takes msg ≡ ok out)
        × (rest ≡ [])
  unfolding respond
  respond-ok key conn out rest msg1 hs2 got h =
      let (hs, made, h1) = bind-ok (or_fail config (lib.new_state false key)) _ h in
      let ((msg1', rest'), read, h2) = bind-ok (read_handshake_msg conn) _ h1 in
      let ((hs1, ds1, ds2), took, h3) =
        bind-ok (or_fail read_failed (lib.read_message hs msg1')) _ h2 in
      let ((msg, hs', cs1, cs2), wrote, h4) =
        bind-ok (or_fail write_failed (lib.write_message hs1)) _ h3 in
      let (out', sent, h5) = bind-ok (write_handshake_msg takes msg) _ h4 in
      let e = or_fail-ok write_failed (lib.write_message hs1) wrote in
      let d = or_fail-ok read_failed (lib.read_message hs msg1') took in
      (
        hs,
        hs1,
        msg,
        ds1,
        ds2,
        cs1,
        cs2,
        or_fail-ok config _ made,
        ground arith,
        ground arith,
        ground arith,
        ground arith,
      )

  complete-ok :
      (hs : HS) (conn out msg2 : Bytes) (nc : NoiseConn S)
      → read_handshake_msg conn ≡ ok (msg2, [])
      → complete lib takes hs conn ≡ ok (out, nc)
      → (hs1 hs2 : HS) × (msg : Bytes) × (ds1 ds2 cs1 cs2 : S) × (lib.read_message hs msg2
          ≡ some (hs1, ds1, ds2))
        × (lib.write_message hs1 ≡ some (msg, hs2, cs1, cs2))
        × (write_handshake_msg takes msg ≡ ok out)
        × (nc ≡ record {
          conn = [];
          send = cs1;
          recv = cs2;
          read_buf = [];
          peer_static = lib.peer_static hs2;
        })
  unfolding complete
  complete-ok hs conn out msg2 nc got h =
      let ((msg2', rest'), read, h2) = bind-ok (read_handshake_msg conn) _ h in
      let ((hs1, ds1, ds2), took, h3) =
        bind-ok (or_fail read_failed (lib.read_message hs msg2')) _ h2 in
      let ((msg, hs', cs1, cs2), wrote, h4) =
        bind-ok (or_fail write_failed (lib.write_message hs1)) _ h3 in
      let (out', sent, h5) = bind-ok (write_handshake_msg takes msg) _ h4 in
      let e = or_fail-ok write_failed (lib.write_message hs1) wrote in
      let d = or_fail-ok read_failed (lib.read_message hs msg2') took in
      (hs1, hs', msg, ds1, ds2, cs1, cs2, ground arith, e, ground arith, ground arith)

module _ {K S HS : Type 0} (lib : Library K S HS) where
  conclude-reads :
      (hs hs1 : HS) (conn rest msg3 : Bytes) (cs1 cs2 : S)
      → read_handshake_msg conn ≡ ok (msg3, rest)
      → lib.read_message hs msg3 ≡ some (hs1, cs1, cs2)
      → conclude lib hs conn
        ≡ ok (record {
          conn = rest;
          send = cs2;
          recv = cs1;
          read_buf = [];
          peer_static = lib.peer_static hs1;
        })
  unfolding conclude or_fail
  conclude-reads hs hs1 conn rest msg3 cs1 cs2 got took =
      rw (got, conclude) (rw (took, or_fail) refl)

-- The two ends of an encrypted connection.
pub record Joined {S : Type 0} (Pair : S → S → Type 0) (a b : NoiseConn S) : Type 0 where
  pub forth : Pair a.send b.recv
  pub back : Pair b.send a.recv
  pub unread_a : a.read_buf ≡ []
  pub unread_b : b.read_buf ≡ []

-- A message that was written and read.
advances :
    {K S HS : Type 0} (lib : Library K S HS) (InStep : K → K → ℕ → HS → HS → Type 0)
    (Pair : S → S → Type 0) (static : K → Bytes) (ki kr : K) (n : ℕ) (w w' r r' : HS) (msg : Bytes)
    (cs1 cs2 ds1 ds2 : S)
    → IsXx lib InStep Pair static
    → InStep ki kr n w r
    → n ≤ 2
    → lib.write_message w ≡ some (msg, w', cs1, cs2)
    → lib.read_message r msg ≡ some (r', ds1, ds2)
    → InStep ki kr (n + 1) r' w' × (n ≡ 2 → Pair cs1 ds1 × Pair ds2 cs2)
advances {S = S} {HS = HS} lib InStep Pair static ki kr n w w' r r' msg cs1 cs2 ds1 ds2 xx step le
      write read =
    let (q, es1, es2, read', step', last) = xx.follows ki kr n w w' r msg cs1 cs2 step write le in
    let e : ◌≡◌ {A = HS × S × S} (q, es1, es2) (r', ds1, ds2) = ground arith in
    subst (λ t. InStep ki kr (n + 1) t.0 w' × (n ≡ 2 → Pair cs1 t.1 × Pair t.2 cs2)) e (step', last)

-- If the library keeps to the pattern XX: once the initiator and the responder have made their three
-- sends, each on what the other wrote, the responder ends too, whatever follows on the wire stays for
-- its connection, the cipher states of the two ends pair up crosswise, and each end has the static
-- key of the other.
pub handshake-Joined :
    {K S HS : Type 0} (lib : Library K S HS) (InStep : K → K → ℕ → HS → HS → Type 0)
    (Pair : S → S → Type 0) (static : K → Bytes) (takes takes' : Bytes → Bool) (ki kr : K)
    (out1 out2 out3 rest more : Bytes) (hi hr : HS) (a : NoiseConn S)
    → IsXx lib InStep Pair static
    → initiate lib takes ki ≡ ok (out1, hi)
    → respond lib takes' kr out1 ≡ ok (out2, hr, rest)
    → complete lib takes hi out2 ≡ ok (out3, a)
    → (b : NoiseConn S) × (conclude lib hr (out3 ++ more) ≡ ok b)
      × Joined Pair a b
      × (b.conn ≡ more)
      × (a.peer_static ≡ static kr)
      × (b.peer_static ≡ static ki)
handshake-Joined lib InStep Pair static takes takes' ki kr out1 out2 out3 rest more hi hr a xx first
      second third =
    let (i0, m1, _, _, new_i, write1, sent1) = initiate-ok lib takes ki out1 hi first in
    let (r0, r1, m2, _, _, _, _, new_r, read1, write2, sent2, _) =
      respond-ok lib takes' kr out1 out2 rest m1 hr (read_sent takes m1 out1 sent1) second in
    let (i1, i2, m3, _, _, cs1, cs2, read2, write3, sent3, made) =
      complete-ok lib takes hi out2 out3 m2 a (read_sent takes' m2 out2 sent2) third in
    let step0 = xx.begins ki kr i0 r0 new_i new_r in
    let (step1, _) =
      advances lib InStep Pair static ki kr 0 i0 hi r0 r1 m1 _ _ _ _ xx step0 (omega arith) write1
        read1 in
    let (step2, _) =
      advances lib InStep Pair static ki kr 1 r1 hr hi i1 m2 _ _ _ _ xx step1 (omega arith) write2
        read2 in
    let (r3, ds1, ds2, read3, step3, last) =
      xx.follows ki kr 2 i1 i2 hr m3 cs1 cs2 step2 write3 (omega arith) in
    let (forth, back) = last refl in
    let (his, hers) = xx.statics ki kr r3 i2 step3 in
    (
      _,
      conclude-reads lib hr r3 (out3 ++ more) more m3 ds1 ds2
          (read-write_handshake_msg takes m3 out3 more sent3) read3,
      record {
        forth = subst (λ q. Pair q ds1) (sym (ap (λ x. x.send) made)) forth;
        back = subst (λ q. Pair ds2 q) (sym (ap (λ x. x.recv) made)) back;
        unread_a = ap (λ x. x.read_buf) made;
        unread_b = refl;
      },
      refl,
      ap (λ x. x.peer_static) made ∙ his,
      hers,
    )
