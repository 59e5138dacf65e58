-- ===== src/Tests/Noise.antt =====
-- Runs of the encrypted connection (internal/transport/noise.go), with a toy cipher that counts its
-- messages and writes the count into the tag.
use micelio.Base.{
  ℕ, suc, zero, ◌+◌, ◌≤◌, ◌≡◌, refl, ap, arith, Bool, true, Option, none, some, [], ◌∷◌, ◌++◌,
  length, drop, ◌==◌, nat_eq, if◌then◌else◌, length-append,
}
use micelio.Base.Bytes.{Bytes, codes}
use micelio.Base.Results.{ok}
use micelio.Stdlib.Binary.{put_uint16, put_uint32, uint16, uint32}
use micelio.Transport.Frame.{write_frame, read_frame, read_full, read_frame_from, read_payload_from}
use micelio.Transport.Noise.{
  Cipher, NoiseConn, write_frames, read_frames, read_frame_noise, write, len_buf,
}
use micelio.Transport.Noise.Stream.{IsCipher, Carries}
use micelio.Transport.Noise.Frames.{read_frame_noise-refines, read_frames-write_frames}
use micelio.Transport.Noise.Handshake.{
  Library, initiate, respond, complete, conclude, or_fail, write_handshake_msg, read_handshake_msg,
}
use micelio.Transport.Noise.Handshake.Agreement.{IsXx, Joined, handshake-Joined}

abbrev tag : ℕ → Bytes
tag n = n ∷ 0 ∷ 0 ∷ 0 ∷ 0 ∷ 0 ∷ 0 ∷ 0 ∷ 0 ∷ 0 ∷ 0 ∷ 0 ∷ 0 ∷ 0 ∷ 0 ∷ 0 ∷ []

abbrev opened : ℕ → Bytes → Option Bytes × ℕ
opened n [] = (none, n)
opened n (t ∷ rest) = if t == n then (some (drop 15 rest), n + 1) else (none, n)

abbrev toy_cipher : Cipher ℕ
toy_cipher = record { encrypt = λ n p. some (tag n ++ p, n + 1); decrypt = opened }

abbrev Same : ℕ → ℕ → Type 0
Same a b = a ≡ b

toy_opens :
    (s r s' : ℕ) (p ct : Bytes)
    → Same s r
    → toy_cipher.encrypt s p ≡ some (ct, s')
    → (r' : ℕ) × (toy_cipher.decrypt r ct ≡ (some p, r')) × Same s' r'
toy_opens s r s' p ct same made =
    let ct_is : ct ≡ tag s ++ p = ground arith in
    let next : s' ≡ s + 1 = ground arith in (r + 1, rw (ct_is, same) (ground arith), omega arith)

toy-IsCipher : IsCipher toy_cipher Same
toy-IsCipher = record {
  opens = toy_opens;
  size = λ s s' p ct made.
      let e : ct ≡ tag s ++ p = ground arith in omega (arith, ap length e, length-append (tag s) p);
}

abbrev end : Bytes → NoiseConn ℕ
end conn = record { conn = conn; send = 0; recv = 0; read_buf = []; peer_static = [] }

-- "hi" and "yo", each in a frame.
abbrev frame_hi : Bytes
frame_hi = 77 ∷ 73 ∷ 0 ∷ 1 ∷ 0 ∷ 0 ∷ 0 ∷ 2 ∷ codes "hi"

abbrev frame_yo : Bytes
frame_yo = 77 ∷ 73 ∷ 0 ∷ 1 ∷ 0 ∷ 0 ∷ 0 ∷ 2 ∷ codes "yo"

abbrev sealed_hi : Bytes
sealed_hi = 0 ∷ 0 ∷ 0 ∷ 26 ∷ (tag 0 ++ frame_hi)

abbrev sealed_both : Bytes
sealed_both = sealed_hi ++ (0 ∷ 0 ∷ 0 ∷ 26 ∷ (tag 1 ++ frame_yo))

carried : Carries toy_cipher Same (end sealed_hi) frame_hi
unfolding len_buf put_uint32
carried = record {
  sender = 0;
  messages = frame_hi ∷ [];
  paired = refl;
  sealed = (tag 0 ++ frame_hi, 1, [], refl, refl, refl);
  short = (omega arith, tt);
  bytes = refl;
}

hi_read : read_frame frame_hi ≡ ok (codes "hi", [])
unfolding read_frame read_frame_from read_payload_from read_full uint16 uint32
hi_read = refl

read_frame_noise-refines_example :
    (nc' : NoiseConn ℕ) × (read_frame_noise toy_cipher (end sealed_hi) ≡ ok (codes "hi", nc'))
    × Carries toy_cipher Same nc' []
read_frame_noise-refines_example =
    read_frame_noise-refines toy_cipher Same toy-IsCipher (end sealed_hi) frame_hi (codes "hi") []
      carried hi_read

both_written :
    write_frames toy_cipher (end []) (codes "hi" ∷ codes "yo" ∷ [])
    ≡ some (record (end []) { send = 2 }, sealed_both)
unfolding write_frames write write_frame len_buf put_uint16 put_uint32
both_written = refl

read_frames-write_frames_example :
    (rx' : NoiseConn ℕ) × (read_frames toy_cipher 2 (end sealed_both)
      ≡ some (codes "hi" ∷ codes "yo" ∷ [], rx'))
    × Carries toy_cipher Same rx' []
read_frames-write_frames_example =
    read_frames-write_frames toy_cipher Same toy-IsCipher (end []) (record (end []) { send = 2 })
      (end sealed_both) (codes "hi" ∷ codes "yo" ∷ []) refl refl both_written

-- A handshake in which each party sends its static key: its own key, and what it has read.
abbrev toy_library : Library Bytes ℕ (Bytes × Bytes)
toy_library = record {
  new_state = λ initiator key. some (key, []);
  write_message = λ hs. some (hs.0, hs, 5, 6);
  read_message = λ hs msg. some ((hs.0, msg), 5, 6);
  peer_static = λ hs. hs.1;
}

abbrev InStep : Bytes → Bytes → ℕ → Bytes × Bytes → Bytes × Bytes → Type 0
InStep ki kr zero w r = (w.0 ≡ ki) × (r.0 ≡ kr)
InStep ki kr (suc zero) w r = (w.0 ≡ kr) × (r.0 ≡ ki) × (w.1 ≡ ki)
InStep ki kr (suc (suc zero)) w r = (w.0 ≡ ki) × (r.0 ≡ kr) × (w.1 ≡ kr) × (r.1 ≡ ki)
InStep ki kr (suc (suc (suc n))) w r = (w.1 ≡ ki) × (r.1 ≡ kr)

toy_follows :
    (ki kr : Bytes) (n : ℕ) (w w' r : Bytes × Bytes) (msg : Bytes) (cs1 cs2 : ℕ)
    → InStep ki kr n w r
    → toy_library.write_message w ≡ some (msg, w', cs1, cs2)
    → n ≤ 2
    → (r' : Bytes × Bytes) × (ds1 ds2 : ℕ) × (toy_library.read_message r msg ≡ some (r', ds1, ds2))
      × InStep ki kr (n + 1) r' w'
      × (n ≡ 2 → (cs1 ≡ ds1) × (ds2 ≡ cs2))
toy_follows ki kr zero w w' r msg cs1 cs2 (a, b) h le =
    ((r.0, msg), 5, 6, refl, (ground arith, ground arith, ground arith), λ e. absurd (omega arith))
toy_follows ki kr (suc zero) w w' r msg cs1 cs2 (a, b, c) h le = (
  (r.0, msg),
  5,
  6,
  refl,
  (ground arith, ground arith, ground arith, ground arith),
  λ e. absurd (omega arith),
)
toy_follows ki kr (suc (suc zero)) w w' r msg cs1 cs2 (a, b, c, d) h le =
    ((r.0, msg), 5, 6, refl, (ground arith, ground arith), λ e. (ground arith, ground arith))
toy_follows ki kr (suc (suc (suc n))) w w' r msg cs1 cs2 k h le = absurd (omega arith)

toy-IsXx : IsXx toy_library InStep Same (λ key. key)
toy-IsXx = record {
  begins = λ ki kr hi hr mi mr. (ground arith, ground arith);
  follows = toy_follows;
  statics = λ ki kr hr hi k. (k.1, k.0);
}

abbrev all_taken : Bytes → Bool
all_taken bytes = true

abbrev ki_sent : Bytes
ki_sent = 0 ∷ 2 ∷ codes "ki"

abbrev kr_sent : Bytes
kr_sent = 0 ∷ 2 ∷ codes "kr"

initiated : initiate toy_library all_taken (codes "ki") ≡ ok (ki_sent, (codes "ki", []))
unfolding initiate or_fail write_handshake_msg put_uint16
initiated = refl

responded :
    respond toy_library all_taken (codes "kr") ki_sent ≡ ok (kr_sent, (codes "kr", codes "ki"), [])
unfolding respond or_fail write_handshake_msg read_handshake_msg read_full put_uint16 uint16
responded = refl

abbrev initiator_end : NoiseConn ℕ
initiator_end = record { conn = []; send = 5; recv = 6; read_buf = []; peer_static = codes "kr" }

completed : complete toy_library all_taken (codes "ki", []) kr_sent ≡ ok (ki_sent, initiator_end)
unfolding complete or_fail write_handshake_msg read_handshake_msg read_full put_uint16 uint16
completed = refl

handshake-Joined_example :
    (b : NoiseConn ℕ) × (conclude toy_library (codes "kr", codes "ki") (ki_sent ++ codes "x")
      ≡ ok b)
    × Joined Same initiator_end b
    × (b.conn ≡ codes "x")
    × (initiator_end.peer_static ≡ codes "kr")
    × (b.peer_static ≡ codes "ki")
handshake-Joined_example =
    handshake-Joined toy_library InStep Same (λ key. key) all_taken all_taken (codes "ki")
      (codes "kr") ki_sent kr_sent ki_sent [] (codes "x") (codes "ki", []) (codes "kr", codes "ki")
      initiator_end toy-IsXx initiated responded completed
