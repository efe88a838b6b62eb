-- ===== src/Secrets/Returned.antt =====
-- What a closed box gives back.
use sovrin.Prelude.{String, none, some, Option, ◌≡◌, refl, inl, inr, Bool-cases, ◌∙◌}
use sovrin.Python.Result.{Result, ok, err, ◌>>=◌}
use sovrin.Secrets.{
  is_given, Raw, text, Box, key_from, get_symmetrically_encrypted_val,
  get_symmetrically_decrypted_val,
}

module _ (x : Box) where
  opened :
      (v : String) (k : x.Bytes)
      → x.key_of k ≡ ok k
      → get_symmetrically_decrypted_val x (text (x.hex (x.encrypt k (x.encode v)))) (text (x.hex k))
        ≡ ok v
  unfolding get_symmetrically_decrypted_val
  opened v k fits =
      rw (x.is_hex-hex (x.encrypt k (x.encode v)), x.is_hex-hex k)
        (rw (x.from_hex-hex (x.encrypt k (x.encode v)), x.from_hex-hex k)
          (rw fits (rw (x.decrypt-encrypt k (x.encode v)) (x.decode-encode v))))

  from_bytes : (r : Result x.Bytes) (k : x.Bytes) → (r >>= x.key_of) ≡ ok k → x.key_of k ≡ ok k
  from_bytes (ok b) k h = x.key_of-key_of b k h
  from_bytes (err e) k h = cc

  fresh_fits : (k : x.Bytes) → ok x.fresh ≡ ok k → x.key_of k ≡ ok k
  fresh_fits k h = cc (x.key_of-fresh)

  key_from-fits :
      (secret : Option (Raw x.Bytes)) (k : x.Bytes) → key_from x secret ≡ ok k → x.key_of k ≡ ok k
  key_from-fits none k h = fresh_fits k h
  key_from-fits (some s) k h = elim (Bool-cases (is_given x (some s))) [
    | inl e ↦ from_bytes _ k (rw e at h)
    | inr e ↦ fresh_fits k (rw e at h)
  ]

  open_each :
      (v : String) (r : Result x.Bytes)
      → ((k : x.Bytes) → r ≡ ok k → x.key_of k ≡ ok k)
      → (r >>= λ k.
          get_symmetrically_decrypted_val x
            (text (x.hex (x.encrypt k (x.encode v))))
            (text (x.hex k)))
        ≡ (r >>= λ k. ok v)
  open_each v (ok k) fits = opened v k (fits k refl)
  open_each v (err e) fits = refl

  abbrev decrypt_both : Result (String × String) → Result String
  decrypt_both r = r >>= λ p. get_symmetrically_decrypted_val x (text p.0) (text p.1)

  join_binds :
      (v : String) (r : Result x.Bytes)
      → decrypt_both (r >>= λ k. ok (x.hex (x.encrypt k (x.encode v)), x.hex k)) ≡ (
          r >>= λ k.
          get_symmetrically_decrypted_val x
            (text (x.hex (x.encrypt k (x.encode v))))
            (text (x.hex k)))
  join_binds v (ok k) = refl
  join_binds v (err e) = refl

  -- Decrypting the text that a text is encrypted to, with the key that comes beside it, gives the text
  -- back, whether a key is given, in hexadecimal or as bytes, or a new one is made; the only exceptions
  -- are those of a given key that cannot be used.
  pub get_symmetrically_decrypted_val-encrypted :
      (v : String) (secret : Option (Raw x.Bytes))
      → (get_symmetrically_encrypted_val x (text v) secret >>= λ p.
          get_symmetrically_decrypted_val x (text p.0) (text p.1))
        ≡ (key_from x secret >>= λ k. ok v)
  unfolding get_symmetrically_encrypted_val
  get_symmetrically_decrypted_val-encrypted v secret =
      join_binds v (key_from x secret) ∙ open_each v (key_from x secret) (key_from-fits secret)
