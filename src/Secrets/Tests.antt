-- ===== src/Secrets/Tests.antt =====
-- The theorem on boxes, with bytes that are texts and a box that closes nothing.
use sovrin.Prelude.{String, true, some, ◌≡◌, refl, String-Eq, ◌==◌}
use sovrin.Python.Result.{ok, ◌>>=◌}
use sovrin.Secrets.{text, Box, get_symmetrically_encrypted_val, get_symmetrically_decrypted_val}
use sovrin.Secrets.Returned.{get_symmetrically_decrypted_val-encrypted}

abbrev open_box : Box
open_box = record {
  Bytes = String;
  encode = λ s. s;
  decode = λ b. ok b;
  hex = λ b. b;
  from_hex = λ s. ok s;
  is_hex = λ r. true;
  is_empty = λ b. b == "";
  key_of = λ b. ok b;
  fresh = "a1";
  encrypt = λ k m. m;
  decrypt = λ k m. ok m;
  decode-encode = λ s. refl;
  from_hex-hex = λ b. refl;
  is_hex-hex = λ b. refl;
  key_of-key_of = λ b k h. refl;
  key_of-fresh = refl;
  decrypt-encrypt = λ k m. refl;
}

get_symmetrically_decrypted_val-encrypted_example :
    (get_symmetrically_encrypted_val open_box (text "secret") (some (text "beef")) >>= λ p.
    get_symmetrically_decrypted_val open_box (text p.0) (text p.1))
    ≡ ok "secret"
get_symmetrically_decrypted_val-encrypted_example =
    get_symmetrically_decrypted_val-encrypted open_box "secret" (some (text "beef"))
