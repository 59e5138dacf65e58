-- ===== src/Stdlib/Crypto.antt =====
-- crypto/sha256 and crypto/ed25519, which the repository only calls: operations, and the laws that
-- their documentation states.
use micelio.Base.{ℕ, ◌≡◌, Bool, true, length}
use micelio.Base.Bytes.{Bytes}

-- ed25519.PublicKeySize, PrivateKeySize, SignatureSize
abbrev pub public_key_size : ℕ
public_key_size = 32

abbrev pub private_key_size : ℕ
private_key_size = 64

abbrev pub signature_size : ℕ
signature_size = 64

pub record Crypto : Type 0 where
  -- sha256.Sum256
  pub sum256 : Bytes → Bytes
  -- ed25519.Sign(key, message), ed25519.Verify(key, message, signature), key.Public()
  pub sign : Bytes → Bytes → Bytes
  pub verify : Bytes → Bytes → Bytes → Bool
  pub public : Bytes → Bytes

-- A key pair that ed25519 made: its signatures have the documented size and verify.
pub record IsKeyPair (c : Crypto) (private_key public_key : Bytes) : Type 0 where
  pub private_size : length private_key ≡ private_key_size
  pub public_size : length public_key ≡ public_key_size
  pub sign_size : (msg : Bytes) → length (c.sign private_key msg) ≡ signature_size
  pub verifies : (msg : Bytes) → c.verify public_key msg (c.sign private_key msg) ≡ true
