-- ===== src/Pass/RoundTrip.antt =====
-- The token of internal/pass/pass.go between Mint and Verify, with the laws of the libraries that
-- both rest on.
use flyc.Base.{
  ℕ, ◌≡◌, refl, sym, ap, ◌∙◌, ◌<◌, ◌⊎◌, inl, inr, true, ◌||◌, List, [], ◌∷◌, ◌++◌, Option, none,
  some, if◌then◌else◌, length, leb, Str, str_eq, str_eq_iff, split, split_at_separator,
  split_without, Avoids, to_lower, arith, Option-cases,
}
use mathlib.Core.List.{append_assoc}
use mathlib.Core.Option.{some-injective}
use flyc.Room.{unix}
use flyc.Pass.{
  Claims, Payload, Crypto, ok, err, expired, wrong_domain, payload_of, mint, signed, with_signature,
  signing_text, verify, with_key, check_parts, check_signature, decoded_payload, check_payload,
  check_claims,
}

-- The documented behaviour of encoding/base64, encoding/json and crypto/ecdsa that the code relies
-- on: decoding undoes encoding, the alphabet has no '.', a raw signature has 64 bytes and is
-- accepted by the public half of its key. A payload is read back as it was written where its texts
-- are valid UTF-8 and its times fit an int64, as those are that Mint makes from such claims.
pub record IsSound (C : Crypto) : Type 0 where
  pub b64_decodes : (s : Str) → C.b64_decode (C.b64 s) ≡ some s
  pub b64_alphabet : (s : Str) → Avoids b'.' (C.b64 s)
  pub payload_decodes : (p : Payload) → C.parse_payload (C.payload_json p) ≡ some p
  pub signature_length :
      (k : C.PrivateKey) (n : ℕ) (s sig : Str) → C.sign k n s ≡ some sig → length sig ≡ 64
  pub public_of : C.PrivateKey → C.PublicKey
  pub signature_checks :
      (k : C.PrivateKey) (n : ℕ) (s sig : Str)
      → C.sign k n s ≡ some sig
      → C.check (public_of k) s sig ≡ true

split_three :
    (a b c : Str)
    → Avoids b'.' a
    → Avoids b'.' b
    → Avoids b'.' c
    → split b'.' ((a ++ b'.' ∷ b) ++ b'.' ∷ c) ≡ a ∷ b ∷ c ∷ []
split_three a b c h k l =
    ap (split b'.') (append_assoc a (b'.' ∷ b) (b'.' ∷ c))
    ∙ split_at_separator b'.' a (b ++ b'.' ∷ c) h
    ∙ ap (◌∷◌ a) (split_at_separator b'.' b c k ∙ ap (◌∷◌ b) (split_without b'.' c l))

module _ (C : Crypto) (S : IsSound C) where
  token_of :
      (kid : Str) (p : Payload) (nonce : ℕ) (key : C.PrivateKey) (token : Str)
      → signed C kid p nonce (some key) ≡ some token
      → (sig : Str) × (C.sign key nonce (signing_text C kid p) ≡ some sig)
        × ((C.b64 (C.header_json kid) ++ b'.' ∷ C.b64 (C.payload_json p)) ++ b'.' ∷ C.b64 sig
            ≡ token)
  unfolding signed with_signature
  token_of kid p nonce key token e = elim (Option-cases (C.sign key nonce (signing_text C kid p))) [
    | inl failed ↦
        let q : ◌≡◌ {A = Option Str} none (some token) =
          sym (ap (with_signature C (signing_text C kid p)) failed) ∙ e in
        absurd cc
    | inr (sig, made) ↦ (
      sig,
      made,
      some-injective _ _ (sym (ap (with_signature C (signing_text C kid p)) made) ∙ e),
    )
  ]

  checked :
      (kid sig : Str) (p : Payload) (nonce : ℕ) (key : C.PrivateKey) (dom : Str) (later : ℕ)
      → C.sign key nonce (signing_text C kid p) ≡ some sig
      → check_parts C
          (S.public_of key)
          (C.b64 (C.header_json kid) ∷ C.b64 (C.payload_json p) ∷ C.b64 sig ∷ [])
          dom
          later
        ≡ check_claims C p dom later
  unfolding check_parts
  checked kid sig p nonce key dom later made =
      rw (S.b64_decodes sig, S.signature_length key nonce (signing_text C kid p) sig made)
        (unfold signing_text check_parts in
          rw
            (
              S.signature_checks key nonce _ sig made,
              S.b64_decodes (C.payload_json p),
              S.payload_decodes p,
            )
            refl)

  pub verify-mint :
      (private_pem public_pem kid dom random token : Str) (c : Claims) (key : C.PrivateKey)
      (nonce now later : ℕ)
      → C.parse_private private_pem ≡ some key
      → C.parse_public public_pem ≡ some (S.public_of key)
      → mint C private_pem kid c random nonce now ≡ some token
      → let p = payload_of kid c random now in
        verify C public_pem token dom later ≡ (
          if leb p.exp (unix later)
          then err expired
          else if str_eq dom [] || str_eq p.dom (to_lower dom)
          then ok p
          else err wrong_domain)
  unfolding mint verify
  verify-mint private_pem public_pem kid dom random token c key nonce now later a b e =
      let p : Payload = payload_of kid c random now in
      let e' : signed C kid p nonce (some key) ≡ some token = rw a at e in
      let (sig, made, same) = token_of kid p nonce key token e' in
      let parts =
        split_three (C.b64 (C.header_json kid)) (C.b64 (C.payload_json p)) (C.b64 sig)
          (S.b64_alphabet _) (S.b64_alphabet _) (S.b64_alphabet _) in
      rw (b, ← same, parts) (unfold check_claims in checked kid sig p nonce key dom later made)

-- What holds of a payload that Verify returns.
pub record IsGenuine (C : Crypto) (public_pem token dom : Str) (now : ℕ) (p : Payload)
    : Type 0 where
  pub header : Str
  pub body : Str
  pub sig : Str
  pub raw_sig : Str
  pub raw_body : Str
  pub key : C.PublicKey
  pub key_read : C.parse_public public_pem ≡ some key
  pub three_parts : split b'.' token ≡ header ∷ body ∷ sig ∷ []
  pub sig_decoded : C.b64_decode sig ≡ some raw_sig
  pub sig_checked : C.check key (header ++ b'.' ∷ body) raw_sig ≡ true
  pub body_decoded : C.b64_decode body ≡ some raw_body
  pub payload_read : C.parse_payload raw_body ≡ some p
  pub not_expired : unix now < p.exp
  pub for_domain : (dom ≡ []) ⊎ (p.dom ≡ to_lower dom)

module _ (C : Crypto) (dom : Str) (now : ℕ) where
  check_claims_sound :
      (q p : Payload)
      → check_claims C q dom now ≡ ok p
      → (q ≡ p) × (unix now < p.exp) × ((dom ≡ []) ⊎ (p.dom ≡ to_lower dom))
  unfolding check_claims
  check_claims_sound q p e = ground (arith, str_eq_iff dom [], str_eq_iff q.dom (to_lower dom))

  verify_parts_sound :
      (public_pem token header body sig : Str) (key : C.PublicKey) (p : Payload)
      → C.parse_public public_pem ≡ some key
      → split b'.' token ≡ header ∷ body ∷ sig ∷ []
      → check_signature C key header body (C.b64_decode sig) dom now ≡ ok p
      → IsGenuine C public_pem token dom now p
  unfolding check_signature decoded_payload check_payload
  verify_parts_sound public_pem token header body sig key p kr tp e =
      elim (Option-cases (C.b64_decode sig)) [
        | inl bad ↦ absurd (ground arith)
        | inr (raw_sig, sd) ↦ elim (Option-cases (C.b64_decode body)) [
          | inl bad ↦ absurd (ground arith)
          | inr (raw_body, bd) ↦ elim (Option-cases (C.parse_payload raw_body)) [
            | inl bad ↦ absurd (ground arith)
            | inr (q, pr) ↦
                let claims : check_claims C q dom now ≡ ok p = ground arith in
                let (same, time, domain) = check_claims_sound q p claims in
                record {
                  header = header;
                  body = body;
                  sig = sig;
                  raw_sig = raw_sig;
                  raw_body = raw_body;
                  key = key;
                  key_read = kr;
                  three_parts = tp;
                  sig_decoded = sd;
                  sig_checked = ground arith;
                  body_decoded = bd;
                  payload_read = pr ∙ ap some same;
                  not_expired = time;
                  for_domain = domain;
                }
          ]
        ]
      ]

  parts_sound :
      (public_pem token : Str) (key : C.PublicKey) (p : Payload) (parts : List Str)
      → C.parse_public public_pem ≡ some key
      → split b'.' token ≡ parts
      → check_parts C key parts dom now ≡ ok p
      → IsGenuine C public_pem token dom now p
  unfolding check_parts
  parts_sound public_pem token key p (header ∷ body ∷ sig ∷ []) kr tp e =
      verify_parts_sound public_pem token header body sig key p kr tp e
  parts_sound public_pem token key p [] kr tp e = cc
  parts_sound public_pem token key p (a ∷ []) kr tp e = cc
  parts_sound public_pem token key p (a ∷ b ∷ []) kr tp e = cc
  parts_sound public_pem token key p (a ∷ b ∷ c ∷ x ∷ l) kr tp e = cc

  -- A payload that Verify returns was read from a token of three parts whose signature the public
  -- key accepts; it has not run out, and it is for the domain that was asked for, if one was.
  pub verify_sound :
      (public_pem token : Str) (p : Payload)
      → verify C public_pem token dom now ≡ ok p
      → IsGenuine C public_pem token dom now p
  unfolding verify with_key
  verify_sound public_pem token p e = elim (Option-cases (C.parse_public public_pem)) [
    | inl bad ↦ absurd (ground arith)
    | inr (key, kr) ↦ parts_sound public_pem token key p (split b'.' token) kr refl (rw kr at e)
  ]
