-- ===== src/Accounts/PasswordLaws.antt =====
-- What verify_password makes of a hash that hash_password gave.
use flyc.Base.{
  ℕ, ◌≡◌, refl, ap, ◌∙◌, [], ◌∷◌, some, length, Str, codes, str_eq, split, join, split-join, Avoids,
}
use flyc.Accounts.{Crypto}
use flyc.Accounts.Passwords.{
  hash_password, verify_password, verify_parts, phc, same_key, scan_params,
}

-- What base64 without padding and argon2 document.
pub record IsCodec (C : Crypto) : Type 0 where
  pub decode_encode : (x : Str) → C.decode (C.encode x) ≡ some x
  pub encode_avoids : (x : Str) → Avoids b'$' (C.encode x)
  pub key_length : (pw salt : Str) (t m p n : ℕ) → length (C.id_key pw salt t m p n) ≡ n

module _ (C : Crypto) (L : IsCodec C) where
  open C use {id_key, encode, decode}

  split_hash : (salt key : Str) → split b'$' (join b'$' (phc C salt key)) ≡ phc C salt key
  split_hash salt key =
      split-join b'$' []
        (codes "argon2id" ∷ codes "v=19" ∷ codes "m=65536,t=3,p=2" ∷ encode salt ∷ encode key ∷ [])
        (
          tt,
          (
            (refl, (refl, (refl, (refl, (refl, (refl, (refl, (refl, tt)))))))),
            (
              (refl, (refl, (refl, (refl, tt)))),
              (
                (
                  refl,
                  (
                    refl,
                    (
                      refl,
                      (
                        refl,
                        (
                          refl,
                          (
                            refl,
                            (
                              refl,
                              (refl, (refl, (refl, (refl, (refl, (refl, (refl, (refl, tt)))))))),
                            ),
                          ),
                        ),
                      ),
                    ),
                  ),
                ),
                (L.encode_avoids salt, (L.encode_avoids key, tt)),
              ),
            ),
          ),
        )

  params : scan_params (codes "m=65536,t=3,p=2") ≡ some (65536, 3, 2)
  unfolding scan_params
  params = refl

  -- A password is accepted for a hash exactly where argon2 derives the key of the password that
  -- was hashed.
  pub verify_password-hash_password :
      (salt pw other : Str)
      → verify_password C (hash_password C salt pw) other
        ≡ str_eq (id_key other salt 3 65536 2 32) (id_key pw salt 3 65536 2 32)
  unfolding verify_password hash_password str_eq
  verify_password-hash_password salt pw other =
      let key = id_key pw salt 3 65536 2 32 in
      ap (verify_parts C other) (split_hash salt key)
      ∙ ap (λ o. same_key C other o (decode (encode salt)) (decode (encode key))) params
      ∙ ap (λ o. same_key C other (some (65536, 3, 2)) o (decode (encode key)))
          (L.decode_encode salt)
      ∙ ap (λ o. same_key C other (some (65536, 3, 2)) (some salt) o) (L.decode_encode key)
      ∙ ap (λ n. str_eq (id_key other salt 3 65536 2 n) key) (L.key_length pw salt 3 65536 2 32)
