-- ===== src/Pass.antt =====
-- internal/pass/pass.go: the signed pass of an admitted visitor. Keys, signatures, base64 and JSON
-- come from Go's library; they are a parameter, with their documented laws in Pass/RoundTrip.
pub mod RoundTrip
use flyc.Base.{
  ℕ, zero, suc, ◌+◌, ◌*◌, ◌/◌, Bool, true, false, ◌||◌, List, [], ◌∷◌, ◌++◌, Option, none, some,
  leb, ◌==◌, if◌then◌else◌, length, Str, codes, str_eq, split, to_lower,
}
use flyc.Room.{second, minute, unix}

pub record Claims : Type 0 where
  pub sub : Str
  pub tenant : Str
  pub dom : Str
  pub room : Str
  pub ttl : ℕ

pub record Payload : Type 0 where
  pub iss : Str
  pub sub : Str
  pub tid : Str
  pub dom : Str
  pub rm : Str
  pub iat : ℕ
  pub exp : ℕ
  pub kid : Str

-- `parse_private` and `parse_public` read PEM; `sign` and `check` are ECDSA over the SHA-256 of a
-- text, with a raw signature of 64 bytes; the number is the randomness of a signature,
-- and a signature may fail.
pub record Crypto : Type 1 where
  pub PrivateKey : Type 0
  pub PublicKey : Type 0
  pub parse_private : Str → Option PrivateKey
  pub parse_public : Str → Option PublicKey
  pub sign : PrivateKey → ℕ → Str → Option Str
  pub check : PublicKey → Str → Str → Bool
  pub b64 : Str → Str
  pub b64_decode : Str → Option Str
  pub header_json : Str → Str
  pub payload_json : Payload → Str
  pub parse_payload : Str → Option Payload

pub data VerifyError : Type 0 where
  bad_key bad_format bad_signature refused_signature bad_payload expired wrong_domain : VerifyError

pub data Verified : Type 0 where
  ok : Payload → Verified
  err : VerifyError → Verified

abbrev or_random : Str → Str → Str
or_random [] random = codes "t_" ++ random
or_random (c ∷ s) random = c ∷ s

abbrev ttl_or_default : ℕ → ℕ
ttl_or_default ttl = if ttl == 0 then 20 * minute else ttl

-- What is signed: the claims are set on the server, with the domain in lower case.
unfoldable pub payload_of : Str → Claims → Str → ℕ → Payload
payload_of kid c random now = record {
  iss = codes "flyc";
  sub = or_random c.sub random;
  tid = c.tenant;
  dom = to_lower c.dom;
  rm = c.room;
  iat = unix now;
  exp = unix now + ttl_or_default c.ttl / second;
  kid = kid;
}

module _ (C : Crypto) where
  open C use {
    PrivateKey, PublicKey, parse_private, parse_public, sign, check, b64, b64_decode, header_json,
    payload_json, parse_payload,
  }

  pub signing_text : Str → Payload → Str
  signing_text kid p = b64 (header_json kid) ++ b'.' ∷ b64 (payload_json p)

  with_signature : Str → Option Str → Option Str
  with_signature text none = none
  with_signature text (some sig) = some (text ++ b'.' ∷ b64 sig)

  signed : Str → Payload → ℕ → Option PrivateKey → Option Str
  unfolding signing_text with_signature
  signed kid p nonce none = none
  signed kid p nonce (some key) =
      with_signature (signing_text kid p) (sign key nonce (signing_text kid p))

  -- `random` and `nonce` are what the random source gives, `now` is the time.
  unfoldable pub mint : Str → Str → Claims → Str → ℕ → ℕ → Option Str
  unfolding signed
  mint private_pem kid c random nonce now =
      signed kid (payload_of kid c random now) nonce (parse_private private_pem)

  check_claims : Payload → Str → ℕ → Verified
  check_claims p dom now =
      if leb p.exp (unix now)
      then err expired
      else if str_eq dom [] || str_eq p.dom (to_lower dom)
      then ok p
      else err wrong_domain

  check_payload : Option Payload → Str → ℕ → Verified
  unfolding check_claims
  check_payload none dom now = err bad_payload
  check_payload (some p) dom now = check_claims p dom now

  decoded_payload : Option Str → Str → ℕ → Verified
  unfolding check_payload
  decoded_payload none dom now = err bad_payload
  decoded_payload (some raw) dom now = check_payload (parse_payload raw) dom now

  check_signature : PublicKey → Str → Str → Option Str → Str → ℕ → Verified
  unfolding decoded_payload
  check_signature key header body none dom now = err bad_signature
  check_signature key header body (some sig) dom now =
      if length sig == 64
      then (if check key (header ++ b'.' ∷ body) sig
          then decoded_payload (b64_decode body) dom now
          else err refused_signature)
      else err bad_signature

  check_parts : PublicKey → List Str → Str → ℕ → Verified
  unfolding check_signature
  check_parts key (header ∷ body ∷ sig ∷ []) dom now =
      check_signature key header body (b64_decode sig) dom now
  check_parts key _ dom now = err bad_format

  with_key : Option PublicKey → Str → Str → ℕ → Verified
  unfolding check_parts
  with_key none token dom now = err bad_key
  with_key (some key) token dom now = check_parts key (split b'.' token) dom now

  pub verify : Str → Str → Str → ℕ → Verified
  unfolding with_key
  verify public_pem token dom now = with_key (parse_public public_pem) token dom now
