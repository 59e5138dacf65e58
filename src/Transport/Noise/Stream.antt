-- ===== src/Transport/Noise/Stream.antt =====
-- The encrypted connection is a stream of bytes: reads of any size see the plaintext of the messages.
use micelio.Base.{
  ℕ, suc, zero, ◌+◌, ◌-◌, ◌≤◌, ◌<◌, ◌≡◌, ◌%◌, ◌^◌, refl, sym, ap, ◌∙◌, arith, true, Option, some,
  List, [], ◌∷◌, ◌++◌, inl, inr, All, length, take, drop, ltb, ◌==◌, nat_eq, Bool-cases,
  length-append, length-take, length-drop, take-append-drop, drop_of_le, eq-nil_of_length, flatten,
  take-append_ge, drop-append_ge,
}
use mathlib.Core.Path.{subst}
use mathlib.Core.List.{append_assoc}
use micelio.Base.Bytes.{Bytes, bytes_eq}
use micelio.Base.Results.{ok}
use micelio.Stdlib.Binary.{put_uint32, uint32, uint32-put_uint32}
use micelio.Transport.Frame.{read_full, max_payload, header_size}
use micelio.Transport.Frame.RoundTrip.{read_full-append}
use micelio.Transport.Noise.{
  Cipher, NoiseConn, len_buf, copy_out, read_body, read, read_loop, fuel_for, read_full_noise,
  max_noise_msg,
}

-- What the documentation of the cipher promises of two states that the handshake made for one
-- direction: a message that one encrypts the other decrypts next, and the tag has 16 bytes.
pub record IsCipher {S : Type 0} (c : Cipher S) (Pair : S → S → Type 0) : Type 0 where
  pub opens :
      (s r s' : S) (p ct : Bytes)
      → Pair s r
      → c.encrypt s p ≡ some (ct, s')
      → (r' : S) × (c.decrypt r ct ≡ (some p, r')) × Pair s' r'
  pub size : (s s' : S) (p ct : Bytes) → c.encrypt s p ≡ some (ct, s') → length ct ≡ length p + 16

-- A message that one Write of a frame has.
abbrev pub Short : Bytes → Type 0
Short m = length m ≤ max_payload + header_size

module _ {S : Type 0} (c : Cipher S) where
  -- `wire` holds the messages, encrypted one after the other from state `s`.
  abbrev pub Sealed : S → List Bytes → Bytes → Type 0
  Sealed s [] wire = wire ≡ []
  Sealed s (m ∷ ms) wire =
      (ct : Bytes) × (s' : S) × (rest : Bytes) × (c.encrypt s m ≡ some (ct, s'))
      × (wire ≡ len_buf ct ++ (ct ++ rest))
      × Sealed s' ms rest

-- The connection gives the bytes `plain`, those in its buffer first.
pub record Carries {S : Type 0} (c : Cipher S) (Pair : S → S → Type 0) (nc : NoiseConn S)
    (plain : Bytes) : Type 0 where
  pub sender : S
  pub messages : List Bytes
  pub paired : Pair sender nc.recv
  pub sealed : Sealed c sender messages nc.conn
  pub short : All Short messages
  pub bytes : plain ≡ nc.read_buf ++ flatten messages

length-len_buf : (ct : Bytes) → length (len_buf ct) ≡ 4
unfolding len_buf put_uint32
length-len_buf ct = refl

uint32-len_buf : (ct : Bytes) → length ct ≤ max_noise_msg → uint32 (len_buf ct) ≡ length ct
unfolding len_buf
uint32-len_buf ct h = uint32-put_uint32 (length ct % 2 ^ 32) (omega arith) ∙ omega arith

module _ {S : Type 0} (c : Cipher S) where
  copy_out-empty :
      (nc : NoiseConn S) (n : ℕ) (m : Bytes)
      → nc.read_buf ≡ []
      → copy_out c nc n m ≡ (take n m, record nc { read_buf = drop n m })
  unfolding copy_out
  copy_out-empty nc n m empty = ground (arith, drop_of_le n m)

  read_body-sealed :
      (nc : NoiseConn S) (n : ℕ) (m ct rest : Bytes) (r' : S)
      → nc.read_buf ≡ []
      → nc.conn ≡ ct ++ rest
      → c.decrypt nc.recv ct ≡ (some m, r')
      → length ct ≤ max_noise_msg
      → read_body c nc n (length ct)
        ≡ ok (take n m, record nc { conn = rest; recv = r'; read_buf = drop n m })
  unfolding read_body
  read_body-sealed nc n m ct rest r' empty wire opened fits =
      let full : read_full (length ct) nc.conn ≡ some (ct, rest) =
        ap (read_full (length ct)) wire ∙ read_full-append ct rest in
      ground (arith, full, opened, copy_out-empty (record nc { conn = rest; recv = r' }) n m empty)

  -- Read, on a message that the other side has encrypted.
  read-sealed :
      (nc : NoiseConn S) (n : ℕ) (m ct rest : Bytes) (r' : S)
      → nc.read_buf ≡ []
      → nc.conn ≡ len_buf ct ++ (ct ++ rest)
      → c.decrypt nc.recv ct ≡ (some m, r')
      → length ct ≤ max_noise_msg
      → read c nc n ≡ ok (take n m, record nc { conn = rest; recv = r'; read_buf = drop n m })
  unfolding read
  read-sealed nc n m ct rest r' empty wire opened fits =
      let full : read_full 4 nc.conn ≡ some (len_buf ct, ct ++ rest) =
        ap (read_full 4) wire
        ∙ rw (← length-len_buf ct) (read_full-append (len_buf ct) (ct ++ rest)) in
      ground (
        arith,
        full,
        ap length empty,
        uint32-len_buf ct fits,
        read_body-sealed (record nc { conn = ct ++ rest }) n m ct rest r' empty refl opened fits,
      )

-- What one Read of a connection that carries `plain` gives and leaves.
record Took {S : Type 0} (c : Cipher S) (Pair : S → S → Type 0) (nc : NoiseConn S) (plain : Bytes)
    (n : ℕ) : Type 0 where
  got : Bytes
  after : NoiseConn S
  left : Bytes
  result : read c nc n ≡ ok (got, after)
  split : plain ≡ got ++ left
  carries : Carries c Pair after left
  fits : length got ≤ n
  shrinks : fuel_for after < fuel_for nc

module _ {S : Type 0} (c : Cipher S) (Pair : S → S → Type 0) where
  Took-buffered :
      (nc : NoiseConn S) (plain : Bytes) (n : ℕ)
      → Carries c Pair nc plain
      → 0 < n
      → ltb 0 (length nc.read_buf) ≡ true
      → Took c Pair nc plain n
  unfolding read fuel_for
  Took-buffered nc plain n k pos full = record {
    got = take n nc.read_buf;
    after = record nc { read_buf = drop n nc.read_buf };
    left = drop n nc.read_buf ++ flatten k.messages;
    result = rw full refl;
    split =
        k.bytes
        ∙ ap (λ b. b ++ flatten k.messages) (sym (take-append-drop n nc.read_buf))
        ∙ append_assoc (take n nc.read_buf) (drop n nc.read_buf) (flatten k.messages);
    carries = record {
      sender = k.sender;
      messages = k.messages;
      paired = k.paired;
      sealed = k.sealed;
      short = k.short;
      bytes = refl;
    };
    fits = omega (arith, length-take n nc.read_buf);
    shrinks = ground (arith, length-drop n nc.read_buf);
  }

  Took-message :
      (nc : NoiseConn S) (plain : Bytes) (n : ℕ) (s : S) (ms : List Bytes)
      → IsCipher c Pair
      → nc.read_buf ≡ []
      → Pair s nc.recv
      → Sealed c s ms nc.conn
      → All Short ms
      → plain ≡ nc.read_buf ++ flatten ms
      → n ≤ length plain
      → 0 < n
      → Took c Pair nc plain n
  unfolding fuel_for
  Took-message nc plain n s [] laws empty paired sealed short bytes le pos =
      absurd (omega (arith, ap length bytes, ap length empty, length-append nc.read_buf []))
  Took-message nc plain n s (m ∷ ms) laws empty paired (ct, s', rest, made, wire, sealed)
        (fits, short) bytes le pos =
      let (r', opened, paired') = laws.opens s nc.recv s' m ct paired made in
      let size = laws.size s s' m ct made in
      record {
        got = take n m;
        after = record nc { conn = rest; recv = r'; read_buf = drop n m };
        left = drop n m ++ flatten ms;
        result = read-sealed c nc n m ct rest r' empty wire opened (omega arith);
        split =
            bytes
            ∙ ap (λ b. b ++ (m ++ flatten ms)) empty
            ∙ ap (λ b. b ++ flatten ms) (sym (take-append-drop n m))
            ∙ append_assoc (take n m) (drop n m) (flatten ms);
        carries = record {
          sender = s';
          messages = ms;
          paired = paired';
          sealed = sealed;
          short = short;
          bytes = refl;
        };
        fits = omega (arith, length-take n m);
        shrinks = omega (
          arith,
          ap length wire,
          length-drop n m,
          length-append (len_buf ct) (ct ++ rest),
          length-append ct rest,
          length-len_buf ct,
        );
      }

  took :
      (nc : NoiseConn S) (plain : Bytes) (n : ℕ)
      → IsCipher c Pair
      → Carries c Pair nc plain
      → 0 < n
      → n ≤ length plain
      → Took c Pair nc plain n
  took nc plain n laws k pos le = elim (Bool-cases (ltb 0 (length nc.read_buf))) [
    | inl full ↦ Took-buffered nc plain n k pos full
    | inr none_left ↦
        Took-message nc plain n k.sender k.messages laws
          (eq-nil_of_length nc.read_buf (ground arith)) k.paired k.sealed k.short k.bytes le pos
  ]

  -- io.ReadFull on the connection gives the next `n` bytes of what it carries.
  abbrev pub Reads : NoiseConn S → Bytes → ℕ → Option (Bytes × NoiseConn S) → Type 0
  Reads nc plain n r =
      (nc' : NoiseConn S) × (r ≡ some (take n plain, nc')) × Carries c Pair nc' (drop n plain)

  read_loop-Reads :
      (fuel n : ℕ) (nc : NoiseConn S) (plain : Bytes)
      → IsCipher c Pair
      → Carries c Pair nc plain
      → n ≤ length plain
      → fuel_for nc ≤ fuel
      → Reads nc plain n (read_loop c fuel n nc)
  unfolding read_loop
  read_loop-Reads zero n nc plain laws k le enough = unfold fuel_for in absurd (omega arith)
  read_loop-Reads (suc fuel) n nc plain laws k le enough = elim (Bool-cases (n == 0)) [
    | inl all ↦ let e : n ≡ 0 = ground arith in (nc, rw (all, e) refl, rw e k)
    | inr more ↦
        let t = took nc plain n laws k (ground arith) le in
        let (nc', rest, k') =
          read_loop-Reads fuel (n - length t.got) t.after t.left laws t.carries
            (omega (arith, t.fits, ap length t.split, length-append t.got t.left))
            (omega (arith, t.shrinks)) in
        (
          nc',
          rw (more, t.result, rest, read_loop)
              (ap (λ b. some (b, nc'))
                (sym (ap (take n) t.split ∙ take-append_ge n t.got t.left t.fits))),
          subst (Carries c Pair nc')
              (sym (ap (drop n) t.split ∙ drop-append_ge n t.got t.left t.fits)) k',
        )
  ]

  pub read_full_noise-Reads :
      (n : ℕ) (nc : NoiseConn S) (plain : Bytes)
      → IsCipher c Pair
      → Carries c Pair nc plain
      → n ≤ length plain
      → Reads nc plain n (read_full_noise c n nc)
  unfolding read_full_noise
  read_full_noise-Reads n nc plain laws k le =
      read_loop-Reads (fuel_for nc) n nc plain laws k le (omega arith)
