-- ===== src/Transport/Noise/Frames.antt =====
-- Frames over the encrypted connection.
use micelio.Base.{
  ℕ, suc, ◌≤◌, ◌≡◌, refl, sym, ap, ◌∙◌, arith, Option, some, List, [], ◌∷◌, ◌++◌, inl, inr, All,
  length, take, drop, nat_eq, Option-cases, flatten,
}
use mathlib.Core.Path.{subst}
use mathlib.Core.List.{append_assoc}
use micelio.Base.Bytes.{Bytes, bytes_eq}
use micelio.Base.Results.{ok, Result-cases}
use micelio.Stdlib.Binary.{put_uint16, put_uint32, uint32}
use micelio.Transport.Frame.{
  read_full, read_payload_from, read_frame_from, read_frame, write_frame, header_size, slice,
}
use micelio.Transport.Frame.RoundTrip.{read_frame-write_frame}
use micelio.Transport.Noise.{
  Cipher, NoiseConn, len_buf, write, read_full_noise, read_frame_noise, write_frames, read_frames,
}
use micelio.Transport.Noise.Stream.{IsCipher, Carries, Sealed, Short, read_full_noise-Reads}

read_full-some :
    (n : ℕ) (r a b : Bytes)
    → read_full n r ≡ some (a, b)
    → (n ≤ length r) × (a ≡ take n r) × (b ≡ drop n r)
unfolding read_full
read_full-some n r a b h = ground arith

-- A header that passes the tests, and what follows it.
read_payload_from-ok :
    {R : Type 0} (read : ℕ → R → Option (Bytes × R)) (hdr p : Bytes) (r rest : R)
    → read_payload_from read hdr r ≡ ok (p, rest)
    → read (uint32 (slice hdr 4 8)) r ≡ some (p, rest)
unfolding read_payload_from
read_payload_from-ok read hdr p r rest h = ground arith

read_payload_from-passes :
    {R Q : Type 0} (read : ℕ → R → Option (Bytes × R)) (read' : ℕ → Q → Option (Bytes × Q))
    (hdr p : Bytes) (r rest : R) (q q' : Q)
    → read_payload_from read hdr r ≡ ok (p, rest)
    → read' (uint32 (slice hdr 4 8)) q ≡ some (p, q')
    → read_payload_from read' hdr q ≡ ok (p, q')
unfolding read_payload_from
read_payload_from-passes read read' hdr p r rest q q' h got = ground arith

read_frame_from-ok :
    {R : Type 0} (read : ℕ → R → Option (Bytes × R)) (p : Bytes) (r rest : R)
    → read_frame_from read r ≡ ok (p, rest)
    → (hdr : Bytes) × (mid : R) × (read header_size r ≡ some (hdr, mid))
      × (read_payload_from read hdr mid ≡ ok (p, rest))
unfolding read_frame_from
read_frame_from-ok read p r rest h = elim (Option-cases (read header_size r)) [
  | inl absent ↦ cc (rw (absent, read_frame_from) at h)
  | inr ((hdr, mid), got) ↦ (hdr, mid, got, ground arith)
]

module _ {S : Type 0} (c : Cipher S) (Pair : S → S → Type 0) (laws : IsCipher c Pair) where
  -- io.ReadFull on the connection does what it does on the bytes that the connection carries.
  read_full-refines :
      (n : ℕ) (nc : NoiseConn S) (plain a b : Bytes)
      → Carries c Pair nc plain
      → read_full n plain ≡ some (a, b)
      → (nc' : NoiseConn S) × (read_full_noise c n nc ≡ some (a, nc')) × Carries c Pair nc' b
  read_full-refines n nc plain a b k h =
      let (le, head, tail) = read_full-some n plain a b h in
      let (nc', got, k') = read_full_noise-Reads c Pair n nc plain laws k le in
      (nc', got ∙ ap (λ t. some (t, nc')) (sym head), subst (Carries c Pair nc') (sym tail) k')

  -- With a cipher whose paired states decrypt what they encrypt, the encrypted connection
  -- implements the byte stream of its plaintext: wherever ReadFrame reads a frame from the bytes
  -- that the connection carries, however they are cut into Noise messages of at most a frame's
  -- length, it reads the same payload from the connection, which then carries the bytes behind
  -- that frame.
  pub read_frame_noise-refines :
      (nc : NoiseConn S) (plain p rest : Bytes)
      → Carries c Pair nc plain
      → read_frame plain ≡ ok (p, rest)
      → (nc' : NoiseConn S) × (read_frame_noise c nc ≡ ok (p, nc')) × Carries c Pair nc' rest
  unfolding read_frame read_frame_noise
  read_frame_noise-refines nc plain p rest k h =
      let (hdr, mid, first, second) = read_frame_from-ok read_full p plain rest h in
      let body = read_payload_from-ok read_full hdr p mid rest second in
      let (nc1, got1, k1) = read_full-refines header_size nc plain hdr mid k first in
      let (nc2, got2, k2) = read_full-refines (uint32 (slice hdr 4 8)) nc1 mid p rest k1 body in
      (
        nc2,
        rw (got1, read_frame_from)
            (read_payload_from-passes read_full (read_full_noise c) hdr p mid rest nc1 nc2 second
              got2),
        k2,
      )

-- The frames of the payloads.
abbrev Framed : List Bytes → List Bytes → Type 0
Framed [] [] = Unit
Framed [] (b ∷ bs) = ⊥
Framed (p ∷ ps) [] = ⊥
Framed (p ∷ ps) (b ∷ bs) = (write_frame p ≡ ok b) × Framed ps bs

write_frame-Short : (p b : Bytes) → write_frame p ≡ ok b → Short b
unfolding write_frame put_uint16 put_uint32
write_frame-Short p b h = ground arith

module _ {S : Type 0} (c : Cipher S) where
  write_frames-cons :
      (nc nc' : NoiseConn S) (p : Bytes) (ps : List Bytes) (wire : Bytes)
      → write_frames c nc (p ∷ ps) ≡ some (nc', wire)
      → (b ct more : Bytes) × (s : S) × (write_frame p ≡ ok b)
        × (c.encrypt nc.send b ≡ some (ct, s))
        × (write_frames c (record nc { send = s }) ps ≡ some (nc', more))
        × (wire ≡ (len_buf ct ++ ct) ++ more)
  unfolding write_frames write
  write_frames-cons nc nc' p ps wire h = elim (Result-cases (write_frame p)) [
    | inr (e, bad) ↦ absurd (ground arith)
    | inl (b, fits) ↦ elim (Option-cases (c.encrypt nc.send b)) [
      | inl failed ↦ absurd (ground arith)
      | inr ((ct, s), made) ↦ elim (Option-cases (write_frames c (record nc { send = s }) ps)) [
        | inl stuck ↦ absurd (ground arith)
        | inr ((nc2, more), sent) ↦ (b, ct, more, s, fits, made, ground arith, ground arith)
      ]
    ]
  ]

  write_frames-Sealed :
      (nc nc' : NoiseConn S) (ps : List Bytes) (wire : Bytes)
      → write_frames c nc ps ≡ some (nc', wire)
      → (bs : List Bytes) × Framed ps bs × All Short bs × Sealed c nc.send bs wire
  write_frames-Sealed nc nc' [] wire h = unfold write_frames in ([], tt, tt, ground arith)
  write_frames-Sealed nc nc' (p ∷ ps) wire h =
      let (b, ct, more, s, fits, made, sent, split) = write_frames-cons nc nc' p ps wire h in
      let (bs, framed, short, sealed) =
        write_frames-Sealed (record nc { send = s }) nc' ps more sent in
      (
        b ∷ bs,
        (fits, framed),
        (write_frame-Short p b fits, short),
        (ct, s, more, made, split ∙ append_assoc (len_buf ct) ct more, sealed),
      )

  read_frames-cons :
      (nc nc1 nc2 : NoiseConn S) (n : ℕ) (p : Bytes) (ps : List Bytes)
      → read_frame_noise c nc ≡ ok (p, nc1)
      → read_frames c n nc1 ≡ some (ps, nc2)
      → read_frames c (suc n) nc ≡ some (p ∷ ps, nc2)
  unfolding read_frames
  read_frames-cons nc nc1 nc2 n p ps first more = rw (first, read_frames) (rw more refl)

module _ {S : Type 0} (c : Cipher S) (Pair : S → S → Type 0) (laws : IsCipher c Pair) where
  read_frames-Framed :
      (nc : NoiseConn S) (ps bs : List Bytes)
      → Framed ps bs
      → Carries c Pair nc (flatten bs)
      → (nc' : NoiseConn S) × (read_frames c (length ps) nc ≡ some (ps, nc'))
        × Carries c Pair nc' []
  read_frames-Framed nc [] [] f k = unfold read_frames in (nc, refl, k)
  read_frames-Framed nc [] (b ∷ bs) f k = absurd f
  read_frames-Framed nc (p ∷ ps) [] f k = absurd f
  read_frames-Framed nc (p ∷ ps) (b ∷ bs) (fits, f) k =
      let (nc1, first, k1) =
        read_frame_noise-refines c Pair laws nc (b ++ flatten bs) p (flatten bs) k
          (read_frame-write_frame p b (flatten bs) fits) in
      let (nc2, more, k2) = read_frames-Framed nc1 ps bs f k1 in
      (nc2, read_frames-cons c nc nc1 nc2 (length ps) p ps first more, k2)

  -- With a cipher whose paired states decrypt what they encrypt, and two ends whose cipher states
  -- are paired, the reader with an empty buffer: any frames that one end writes, on a TCP
  -- connection that takes them, the other end reads in the order and with the payloads of their
  -- writing, and then has nothing more to read.
  pub read_frames-write_frames :
      (tx tx' rx : NoiseConn S) (ps : List Bytes)
      → Pair tx.send rx.recv
      → rx.read_buf ≡ []
      → write_frames c tx ps ≡ some (tx', rx.conn)
      → (rx' : NoiseConn S) × (read_frames c (length ps) rx ≡ some (ps, rx'))
        × Carries c Pair rx' []
  read_frames-write_frames tx tx' rx ps paired empty sent =
      let (bs, framed, short, sealed) = write_frames-Sealed c tx tx' ps rx.conn sent in
      read_frames-Framed rx ps bs framed (record {
        sender = tx.send;
        messages = bs;
        paired = paired;
        sealed = sealed;
        short = short;
        bytes = sym (ap (λ b. b ++ flatten bs) empty);
      })
