-- ===== src/Control/PassCheck.antt =====
-- control/internal/api/tenant.go: the verification of a pass on behalf of a tenant.
use flyc.Base.{
  ℕ, ◌+◌, ◌*◌, ◌^◌, ltb, ◌≡◌, refl, sym, ap, ◌∙◌, inl, inr, Bool, true, false, ◌&&◌, ◌||◌, List, [],
  ◌∷◌, ◌++◌, Option, none, some, if◌then◌else◌, Str, codes, to_lower, has_prefix, arith, Bool-cases,
  Option-cases,
}
use flyc.Pass.RoundTrip.{IsGenuine, verify_sound}
use flyc.Pass.{Crypto, Payload, Verified, ok, err, verify}
use flyc.Control.{Db, Domain}
use flyc.Control.Rooms.{find_domain}
use flyc.Control.Access.{Principal}

-- A signing key, with the time of its retirement where it is not active.
pub record KeyRow : Type 0 where
  pub public_pem : Str
  pub active : Bool
  pub retired_at : Option ℕ

pub data Verdict : Type 0 where
  db_failed invalid_pass other_tenant : Verdict
  valid : Payload → Verdict

abbrev pub day : ℕ
day = 24 * (3600 * 10 ^ 9)

-- `active or retired_at > now() - interval '1 day'`
abbrev retired_lately : Option ℕ → ℕ → Bool
retired_lately none now = false
retired_lately (some t) now = ltb now (t + day)

unfoldable pub usable : ℕ → KeyRow → Bool
usable now k = k.active || retired_lately k.retired_at now

module _ (C : Crypto) where
  abbrev pub accepted_by : Verified → Option Payload → Option Payload
  accepted_by (ok claims) rest = some claims
  accepted_by (err e) rest = rest

  -- The claims of the first usable key that accepts the pass.
  first_claims : Str → Str → ℕ → List KeyRow → Option Payload
  unfolding usable
  first_claims token host now [] = none
  first_claims token host now (k ∷ ks) =
      let rest = first_claims token host now ks in
      if usable now k then accepted_by (verify C k.public_pem token host now) rest else rest

  abbrev has_domain : Option Domain → Bool
  has_domain none = false
  has_domain (some d) = true

  abbrev pub of_claims : Bool → Principal → List Domain → Option Payload → Verdict
  of_claims count_ok p ds none = invalid_pass
  of_claims count_ok p ds (some claims) =
      if (count_ok && has_domain (find_domain p.tenant_id claims.dom ds))
        && has_prefix (p.tenant ++ codes ".") claims.rm
      then valid claims
      else other_tenant

  -- The verdict on a pass for a host, with the keys of the table.
  unfoldable pub verify_pass : Bool → Bool → Principal → Str → Str → ℕ → List KeyRow → Db → Verdict
  unfolding first_claims find_domain has_prefix to_lower
  verify_pass query_ok count_ok p token host now keys db =
      if query_ok
      then of_claims count_ok p db.domains (first_claims token (to_lower host) now keys)
      else db_failed

  first_claims_sound :
      (token host : Str) (now : ℕ) (ks : List KeyRow) (claims : Payload)
      → first_claims token host now ks ≡ some claims
      → (k : KeyRow) × (usable now k ≡ true) × (verify C k.public_pem token host now ≡ ok claims)
  unfolding first_claims
  first_claims_sound token host now [] claims h = absurd cc
  first_claims_sound token host now (k ∷ ks) claims h =
      by_key (usable now k) (verify C k.public_pem token host now) refl refl h
        (first_claims_sound token host now ks claims)
    where
      by_key :
          (u : Bool) (v : Verified)
          → usable now k ≡ u
          → verify C k.public_pem token host now ≡ v
          → (if u
              then accepted_by v (first_claims token host now ks)
              else first_claims token host now ks)
            ≡ some claims
          → (first_claims token host now ks ≡ some claims
              → (k : KeyRow) × (usable now k ≡ true)
                × (verify C k.public_pem token host now ≡ ok claims))
          → (k : KeyRow) × (usable now k ≡ true)
            × (verify C k.public_pem token host now ≡ ok claims)
      by_key false v e f h rest = rest h
      by_key true (err x) e f h rest = rest h
      by_key true (ok c) e f h rest = let q : c ≡ claims = cc in (k, e, f ∙ ap ok q)

  no_valid : (claims : Payload) → ◌≡◌ {A = Verdict} other_tenant (valid claims) → ⊥
  no_valid claims h = cc

  no_verdict : (claims : Payload) → ◌≡◌ {A = Verdict} db_failed (valid claims) → ⊥
  no_verdict claims h = cc

  of_claims_sound :
      (count_ok : Bool) (p : Principal) (ds : List Domain) (o : Option Payload) (claims : Payload)
      → of_claims count_ok p ds o ≡ valid claims
      → (o ≡ some claims)
        × ((d : Domain) × (find_domain p.tenant_id claims.dom ds ≡ some d))
        × (has_prefix (p.tenant ++ codes ".") claims.rm ≡ true)
  of_claims_sound count_ok p ds none claims h = absurd cc
  of_claims_sound count_ok p ds (some c) claims h =
      elim (Option-cases (find_domain p.tenant_id c.dom ds)) [
        | inl missing ↦ absurd (ground arith)
        | inr (d, found) ↦
            elim (Bool-cases ((count_ok && true) && has_prefix (p.tenant ++ codes ".") c.rm)) [
              | inl e ↦
                  let q : ◌≡◌ {A = Verdict} (valid c) (valid claims) = sym (pick found e) ∙ h in
                  let same : c ≡ claims = cc in
                  (
                    ap some same,
                    (d, ap (λ x. find_domain p.tenant_id x.dom ds) (sym same) ∙ found),
                    ap (λ x. has_prefix (p.tenant ++ codes ".") x.rm) (sym same) ∙ ground arith,
                  )
              | inr e ↦ absurd (no_valid claims (sym (pick_not found e) ∙ h))
            ]
      ]
    where
      verdict : Option Domain → Verdict
      verdict o =
          if (count_ok && has_domain o) && has_prefix (p.tenant ++ codes ".") c.rm
          then valid c
          else other_tenant

      pick :
          {d : Domain}
          → find_domain p.tenant_id c.dom ds ≡ some d
          → ((count_ok && true) && has_prefix (p.tenant ++ codes ".") c.rm) ≡ true
          → of_claims count_ok p ds (some c) ≡ valid c
      pick found e = ap verdict found ∙ ap (λ b. if b then valid c else other_tenant) e

      pick_not :
          {d : Domain}
          → find_domain p.tenant_id c.dom ds ≡ some d
          → ((count_ok && true) && has_prefix (p.tenant ++ codes ".") c.rm) ≡ false
          → of_claims count_ok p ds (some c) ≡ other_tenant
      pick_not found e = ap verdict found ∙ ap (λ b. if b then valid c else other_tenant) e

  -- A pass that is told to be valid is genuine under a signing key that is active or was retired within
  -- a day, has not run out, is for the host that was asked for, and names a domain and a room of
  -- the tenant that asks.
  pub verify_pass_sound :
      (query_ok count_ok : Bool) (p : Principal) (token host : Str) (now : ℕ) (keys : List KeyRow)
      (db : Db) (claims : Payload)
      → verify_pass query_ok count_ok p token host now keys db ≡ valid claims
      → ((k : KeyRow) × (usable now k ≡ true)
          × IsGenuine C k.public_pem token (to_lower host) now claims)
        × ((d : Domain) × (find_domain p.tenant_id claims.dom db.domains ≡ some d))
        × (has_prefix (p.tenant ++ codes ".") claims.rm ≡ true)
  unfolding verify_pass
  verify_pass_sound query_ok count_ok p token host now keys db claims h =
      elim (Bool-cases query_ok) [
        | inl e ↦
            let (here, domain, room) =
              of_claims_sound count_ok p db.domains (first_claims token (to_lower host) now keys)
                claims
                (ap
                    (λ b.
                      if b
                      then of_claims count_ok p db.domains
                          (first_claims token (to_lower host) now keys)
                      else db_failed)
                    (sym e)
                  ∙ h) in
            let (k, fit, accepted) =
              first_claims_sound token (to_lower host) now keys claims here in
            (
              (k, fit, verify_sound C (to_lower host) now k.public_pem token claims accepted),
              domain,
              room,
            )
        | inr e ↦ absurd (
            no_verdict claims (
              ap
                (λ b.
                  if b
                  then of_claims count_ok p db.domains (first_claims token (to_lower host) now keys)
                  else db_failed)
                (sym e)
              ∙ h))
      ]
