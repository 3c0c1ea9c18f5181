-- ===== src/Tests/Codec.antt =====
-- A token format that obeys the laws of the libraries: texts shifted past the dot, payloads as
-- texts that a zero ends, and signatures of 64 bytes.
use flyc.Base.{
  ℕ, zero, suc, ◌+◌, ◌-◌, ◌≡◌, refl, sym, ap, ◌∙◌, [], ◌∷◌, ◌++◌, map, Option, none, some, ltb, leb,
  ◌==◌, if◌then◌else◌, length, Str, cut, cut_at_separator, Avoids, arith,
}
use mathlib.Core.Option.{some-injective}
use flyc.Pass.{Crypto, Payload}
use flyc.Pass.RoundTrip.{IsSound}

abbrev shift : ℕ → ℕ
shift c = if leb b'.' c then c + 1 else c

abbrev unshift : ℕ → ℕ
unshift c = if ltb b'.' c then c - 1 else c

pub unshift-shift : (s : Str) → map unshift (map shift s) ≡ s
unshift-shift [] = refl
unshift-shift (c ∷ s) = ground (arith, unshift-shift s)

pub shift-Avoids : (s : Str) → Avoids b'.' (map shift s)
shift-Avoids [] = tt
shift-Avoids (c ∷ s) = (ground arith, shift-Avoids s)

abbrev put_text : Str → Str → Str
put_text s rest = map (λ c. c + 1) s ++ 0 ∷ rest

raised-Avoids : (s : Str) → Avoids 0 (map (λ c. c + 1) s)
raised-Avoids [] = tt
raised-Avoids (c ∷ s) = (ground arith, raised-Avoids s)

lowered : (s : Str) → map (λ c. c - 1) (map (λ c. c + 1) s) ≡ s
lowered [] = refl
lowered (c ∷ s) = ground (arith, lowered s)

abbrev then_text : {A : Type 0} → Option (Str × Str) → (Str → Str → Option A) → Option A
then_text none f = none
then_text (some (a, b)) f = f (map (λ c. c - 1) a) b

then_text-put :
    {A : Type 0} (s rest : Str) (f : Str → Str → Option A)
    → then_text (cut 0 (put_text s rest)) f ≡ f s rest
then_text-put s rest f =
    ap (λ o. then_text o f) (cut_at_separator 0 (map (λ c. c + 1) s) rest (raised-Avoids s))
    ∙ ap (λ t. f t rest) (lowered s)

abbrev with_times : (Str × Str × Str × Str × Str × Str) → Str → Option Payload
with_times (iss, sub, tid, dom, rm, kid) (iat ∷ exp ∷ []) = some (record {
  iss = iss;
  sub = sub;
  tid = tid;
  dom = dom;
  rm = rm;
  iat = iat;
  exp = exp;
  kid = kid;
})
with_times _ _ = none

abbrev write_payload : Payload → Str
write_payload p = put_text p.iss (
    put_text p.sub
      (put_text p.tid (put_text p.dom (put_text p.rm (put_text p.kid (p.iat ∷ p.exp ∷ []))))))

abbrev read_payload : Str → Option Payload
read_payload text = then_text (cut 0 text) λ iss t1. then_text (cut 0 t1) λ sub t2.
    then_text (cut 0 t2) λ tid t3. then_text (cut 0 t3) λ dom t4.
      then_text (cut 0 t4)
        λ rm t5. then_text (cut 0 t5) λ kid t6. with_times (iss, sub, tid, dom, rm, kid) t6

pub read-write_payload : (p : Payload) → read_payload (write_payload p) ≡ some p
read-write_payload p =
    then_text-put p.iss _ _
    ∙ then_text-put p.sub _ _
    ∙ then_text-put p.tid _ _
    ∙ then_text-put p.dom _ _
    ∙ then_text-put p.rm _ _
    ∙ then_text-put p.kid _ _

abbrev zeros : ℕ → Str
zeros zero = []
zeros (suc n) = 0 ∷ zeros n

-- The keys are the texts themselves; every signature is 64 zeros, and only that is accepted.
abbrev pub toy : Crypto
toy = record {
  PrivateKey = Str;
  PublicKey = Str;
  parse_private = λ pem. some pem;
  parse_public = λ pem. some pem;
  sign = λ key n text. some (zeros 64);
  check = λ key text sig. length sig == 64;
  b64 = map shift;
  b64_decode = λ s. some (map unshift s);
  header_json = λ kid. kid;
  payload_json = write_payload;
  parse_payload = read_payload;
}

abbrev pub toy-IsSound : IsSound toy
toy-IsSound = record {
  b64_decodes = λ s. ap some (unshift-shift s);
  b64_alphabet = shift-Avoids;
  payload_decodes = read-write_payload;
  signature_length = λ k n s sig e. ap length (some-injective sig (zeros 64) (sym e));
  public_of = λ k. k;
  signature_checks =
      λ k n s sig e. ap (λ z. length z == 64) (some-injective sig (zeros 64) (sym e));
}
