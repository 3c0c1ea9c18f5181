-- ===== src/Room/Bounds.antt =====
-- Validate of queue/internal/room/room.go.
use flyc.Base.{ℕ, ◌≡◌, refl, ◌≤◌, ◌<◌, [], ◌∷◌, map, none, some, arith, Str}
use flyc.Room.{
  Config, State, opened, queue, closed, other, ConfigError, bad_state, rate_too_high, wave_too_long,
  ttl_too_long, minute, day, validate, validate_state, validate_rate, normalize_domain,
}

pub data IsKnown : State → Type 0 where
  is_opened : IsKnown opened
  is_queue : IsKnown queue
  is_closed : IsKnown closed

-- The limits of a config that Validate has accepted.
pub record IsValid (c : Config) : Type 0 where
  pub known : IsKnown c.state
  pub rate_bounds : (1 ≤ c.rate) × (c.rate ≤ 100_000_000)
  pub wave_bounds : (1 ≤ c.wave_sec) × (c.wave_sec ≤ 600)
  pub ttl_bounds : (minute ≤ c.pass_ttl) × (c.pass_ttl ≤ day)

validate_rate-IsValid :
    (c : Config) → IsKnown c.state → (validate_rate c).1 ≡ none → IsValid (validate_rate c).0
unfolding validate_rate
validate_rate-IsValid c k e = record {
  known = ground (arith, k);
  rate_bounds = ground arith;
  wave_bounds = ground arith;
  ttl_bounds = ground arith;
}

validate_state-IsValid :
    (st : State) (c : Config)
    → c.state ≡ st
    → (validate_state st c).1 ≡ none
    → IsValid (validate_state st c).0
unfolding validate_state
validate_state-IsValid opened c h e = validate_rate-IsValid c (rw h is_opened) e
validate_state-IsValid queue c h e = validate_rate-IsValid c (rw h is_queue) e
validate_state-IsValid closed c h e = validate_rate-IsValid c (rw h is_closed) e
validate_state-IsValid (other []) c h e =
    validate_rate-IsValid (record c { state = queue }) is_queue e
validate_state-IsValid (other (x ∷ s)) c h e = absurd (ground arith)

-- A config that Validate accepts is within its limits.
pub validate-IsValid : (c : Config) → (validate c).1 ≡ none → IsValid (validate c).0
unfolding validate
validate-IsValid c e = validate_state-IsValid c.state c refl e

-- A config within its limits is accepted, and only its domains change.
pub validate-of_IsValid :
    (c : Config)
    → IsValid c
    → validate c ≡ (record c { domains = map normalize_domain c.domains }, none)
unfolding validate
validate-of_IsValid c v = by_state c.state v.known refl
  where
    rest : validate_rate c ≡ (record c { domains = map normalize_domain c.domains }, none)
    rest = unfold validate_rate in ground arith

    by_state :
        (st : State)
        → IsKnown st
        → c.state ≡ st
        → validate_state st c ≡ (record c { domains = map normalize_domain c.domains }, none)
    by_state opened k e = rest
    by_state queue k e = rest
    by_state closed k e = rest
    by_state (other x) k e = elim k [ ]

-- Why Validate refuses: the state is tested first, then the rate, the wave and the pass.
abbrev pub Refused : Config → ConfigError → Type 0
Refused c bad_state = (x : ℕ) × (s : Str) × (c.state ≡ other (x ∷ s))
Refused c rate_too_high = 100_000_000 < c.rate
Refused c wave_too_long = (c.rate ≤ 100_000_000) × (600 < c.wave_sec)
Refused c ttl_too_long = (c.rate ≤ 100_000_000) × (c.wave_sec ≤ 600) × (day < c.pass_ttl)

validate_rate-Refused : (c : Config) (e : ConfigError) → (validate_rate c).1 ≡ some e → Refused c e
unfolding validate_rate
validate_rate-Refused c bad_state h = absurd (ground arith)
validate_rate-Refused c rate_too_high h = ground arith
validate_rate-Refused c wave_too_long h = ground arith
validate_rate-Refused c ttl_too_long h = ground arith

validate_state-Refused :
    (st : State) (c : Config) (e : ConfigError)
    → c.state ≡ st
    → (validate_state st c).1 ≡ some e
    → Refused c e
validate_state-Refused opened c e q h = validate_rate-Refused c e (unfold validate_state in h)
validate_state-Refused queue c e q h = validate_rate-Refused c e (unfold validate_state in h)
validate_state-Refused closed c e q h = validate_rate-Refused c e (unfold validate_state in h)
validate_state-Refused (other []) c e q h =
    state_changed e
      (validate_rate-Refused (record c { state = queue }) e (unfold validate_state in h))
  where
    state_changed : (e : ConfigError) → Refused (record c { state = queue }) e → Refused c e
    state_changed bad_state r = absurd (ground arith)
    state_changed rate_too_high r = r
    state_changed wave_too_long r = r
    state_changed ttl_too_long r = r
validate_state-Refused (other (x ∷ s)) c bad_state q h = (x, s, q)
validate_state-Refused (other (x ∷ s)) c rate_too_high q h = absurd (unfold validate_state in cc)
validate_state-Refused (other (x ∷ s)) c wave_too_long q h = absurd (unfold validate_state in cc)
validate_state-Refused (other (x ∷ s)) c ttl_too_long q h = absurd (unfold validate_state in cc)

-- An error of Validate names a limit that the given config breaks.
pub validate-Refused : (c : Config) (e : ConfigError) → (validate c).1 ≡ some e → Refused c e
unfolding validate
validate-Refused c e h = validate_state-Refused c.state c e refl h
