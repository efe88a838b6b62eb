-- ===== src/Secrets.antt =====
-- The symmetric encryption of sovrin/common/util.py: `getSymmetricallyEncryptedVal` and
-- `getSymmetricallyDecryptedVal`. Bytes, texts as bytes, and libnacl's box are parameters.
pub mod Returned
mod Tests
use sovrin.Prelude.{
  String, Bool, true, false, Option, none, some, if◌then◌else◌, ◌≡◌, not, String-Eq, ◌==◌,
}
use sovrin.Python.Result.{Result, ok, err, type_error, other, ◌>>=◌, ◌>>◌}

-- A value of Python that is a text or bytes.
pub data Raw (B : Type 0) : Type 0 where
  text : String → Raw B
  bytes : B → Raw B

-- Bytes with their hexadecimal notation and the encoding of texts, and `libnacl.secret.SecretBox`,
-- which needs a key of the right size, and makes one if it is given none. Both encodings are
-- inverse to their decoding, and a box opens what a box with the same key has closed.
pub record Box : Type 1 where
  pub Bytes : Type 0
  pub encode : String → Bytes
  pub decode : Bytes → Result String
  pub hex : Bytes → String
  pub from_hex : String → Result Bytes
  -- plenum's `isHex`
  pub is_hex : Raw Bytes → Bool
  pub is_empty : Bytes → Bool
  -- `SecretBox(key)`, and `SecretBox()` for none
  pub key_of : Bytes → Result Bytes
  pub fresh : Bytes
  pub encrypt : (key : Bytes) → Bytes → Bytes
  pub decrypt : (key : Bytes) → Bytes → Result Bytes
  pub decode-encode : (s : String) → decode (encode s) ≡ ok s
  pub from_hex-hex : (b : Bytes) → from_hex (hex b) ≡ ok b
  pub is_hex-hex : (b : Bytes) → is_hex (text (hex b)) ≡ true
  pub key_of-key_of : (b k : Bytes) → key_of b ≡ ok k → key_of k ≡ ok k
  pub key_of-fresh : key_of fresh ≡ ok fresh
  pub decrypt-encrypt : (k m : Bytes) → decrypt k (encrypt k m) ≡ ok m

module _ (x : Box) where
  -- `bytes(bytearray.fromhex(val))`
  abbrev bytes_of_hex : Raw x.Bytes → Result x.Bytes
  bytes_of_hex (text s) = x.from_hex s
  bytes_of_hex (bytes b) = err type_error

  abbrev encoded : Raw x.Bytes → x.Bytes
  encoded (text s) = x.encode s
  encoded (bytes b) = b

  -- a key is hexadecimal, or bytes; `error` raises
  abbrev only_bytes : Raw x.Bytes → Result x.Bytes
  only_bytes (text s) = err (other "Secret key must be either in hex or bytes")
  only_bytes (bytes b) = ok b

  abbrev is_given : Option (Raw x.Bytes) → Bool
  is_given none = false
  is_given (some (text s)) = not (s == "")
  is_given (some (bytes b)) = not (x.is_empty b)

  abbrev key_from : Option (Raw x.Bytes) → Result x.Bytes
  key_from none = ok x.fresh
  key_from (some k) =
      if is_given (some k)
      then (do b ← if x.is_hex k then bytes_of_hex k else only_bytes k; x.key_of b)
      else ok x.fresh

  -- `getSymmetricallyEncryptedVal`
  unfoldable pub get_symmetrically_encrypted_val :
      (val : Raw x.Bytes) → (secret_key : Option (Raw x.Bytes)) → Result (String × String)
  get_symmetrically_encrypted_val val secret_key = do
    k ← key_from secret_key
    ok (x.hex (x.encrypt k (encoded val)), x.hex k)

  -- `getSymmetricallyDecryptedVal`
  unfoldable pub get_symmetrically_decrypted_val : (val secret_key : Raw x.Bytes) → Result String
  get_symmetrically_decrypted_val val secret_key = do
    v ← if x.is_hex val then bytes_of_hex val else ok (encoded val)
    b ← if x.is_hex secret_key then bytes_of_hex secret_key else ok (encoded secret_key)
    k ← x.key_of b
    m ← x.decrypt k v
    x.decode m
