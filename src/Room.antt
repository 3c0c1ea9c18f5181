-- ===== src/Room.antt =====
-- queue/internal/room/room.go: identifiers and configuration of the waiting rooms.
-- A float64 rate is kept in thousandths, a time.Duration and a time.Time in nanoseconds. An int64
-- that is below zero stands as 0: every test of the code on such a field treats the two alike.
pub mod Names
pub mod Bounds
pub mod Score
pub mod Hash
use flyc.Base.{
  ℕ, zero, suc, ◌+◌, ◌*◌, ◌/◌, ◌%◌, ◌^◌, Bool, true, false, ◌&&◌, ◌||◌, List, [], ◌∷◌, ◌++◌, map,
  Option, none, some, ltb, leb, ◌==◌, if◌then◌else◌, length, Str, codes, str_eq, cut, to_lower,
  trim_space, join, split, format_int, parse_int, format_rate, parse_rate,
}

pub record RoomId : Type 0 where
  pub tenant : Str
  pub room : Str

abbrev pub slug_first : ℕ → Bool
slug_first c = (leb b'a' c && leb c b'z') || (leb b'0' c && leb c b'9')

abbrev pub slug_char : ℕ → Bool
slug_char c = slug_first c || c == b'-'

unfoldable pub slug_rest : Str → Bool
slug_rest [] = true
slug_rest (c ∷ s) = slug_char c && slug_rest s

-- `^[a-z0-9][a-z0-9-]{0,62}$`
unfoldable pub is_slug : Str → Bool
unfolding slug_rest
is_slug [] = false
is_slug (c ∷ s) = slug_first c && (slug_rest s && leb (length s) 62)

abbrev checked_id : Option (Str × Str) → Option RoomId
checked_id none = none
checked_id (some (t, r)) =
    if is_slug t && is_slug r then some (record { tenant = t; room = r }) else none

unfoldable pub parse : Str → Option RoomId
unfolding is_slug cut
parse s = checked_id (cut b'.' s)

unfoldable pub to_string : RoomId → Str
to_string id = id.tenant ++ b'.' ∷ id.room

unfoldable pub key : RoomId → Str → Str
key id suffix = codes "{r:" ++ (id.tenant ++ b':' ∷ (id.room ++ (codes "}:" ++ suffix)))

-- `other` is any text but the three constants, the empty one included.
pub data State : Type 0 where
  opened queue closed : State
  other : Str → State

pub state_text : State → Str
state_text opened = codes "open"
state_text queue = codes "queue"
state_text closed = codes "closed"
state_text (other s) = s

pub state_of : Str → State
unfolding str_eq
state_of s =
    if str_eq s (codes "open")
    then opened
    else if str_eq s (codes "queue")
    then queue
    else if str_eq s (codes "closed")
    then closed
    else other s

abbrev pub second : ℕ
second = 1_000_000_000

abbrev pub minute : ℕ
minute = 60 * second

abbrev pub day : ℕ
day = 24 * 60 * minute

pub record Config : Type 0 where
  pub state : State
  pub rate : ℕ
  pub max_active : ℕ
  pub wave_sec : ℕ
  pub pass_ttl : ℕ
  pub domains : List Str
  pub opens_at : ℕ
  pub title : Str
  pub theme : Str

pub defaults : Config
defaults = record {
  state = queue;
  rate = 10_000;
  max_active = 0;
  wave_sec = 30;
  pass_ttl = 20 * minute;
  domains = [];
  opens_at = 0;
  title = [];
  theme = [];
}

pub data ConfigError : Type 0 where
  bad_state rate_too_high wave_too_long ttl_too_long : ConfigError

unfoldable pub normalize_domain : Str → Str
unfolding to_lower trim_space
normalize_domain d = to_lower (trim_space d)

-- The method changes the config that it is called on, also where it returns an error.
pub validate_ttl : Config → Config × Option ConfigError
validate_ttl c =
    let c' = if ltb c.pass_ttl minute then record c { pass_ttl = 20 * minute } else c in
    if ltb day c'.pass_ttl
    then (c', some ttl_too_long)
    else (record c' { domains = map normalize_domain c'.domains }, none)

pub validate_wave : Config → Config × Option ConfigError
unfolding validate_ttl
validate_wave c =
    let c' = if ltb c.wave_sec 1 then record c { wave_sec = 30 } else c in
    if ltb 600 c'.wave_sec then (c', some wave_too_long) else validate_ttl c'

pub validate_rate : Config → Config × Option ConfigError
unfolding validate_wave
validate_rate c =
    let c' = if c.rate == 0 then record c { rate = 10_000 } else c in
    if ltb 100_000_000 c'.rate then (c', some rate_too_high) else validate_wave c'

pub validate_state : State → Config → Config × Option ConfigError
unfolding validate_rate
validate_state opened c = validate_rate c
validate_state queue c = validate_rate c
validate_state closed c = validate_rate c
validate_state (other []) c = validate_rate (record c { state = queue })
validate_state (other (x ∷ s)) c = (c, some bad_state)

unfoldable pub validate : Config → Config × Option ConfigError
unfolding validate_state
validate c = validate_state c.state c

member_of : Str → List Str → Bool
member_of h [] = false
member_of h (d ∷ ds) = str_eq d h || member_of h ds

unfoldable pub allows_domain : Config → Str → Bool
unfolding member_of
allows_domain c h = member_of (to_lower h) c.domains

-- A Redis HASH: its fields with their texts. A field that is not there reads as the empty text.
abbrev pub Hash : Type 0
Hash = List (Str × Str)

unfoldable pub field : Hash → Str → Str
unfolding str_eq
field [] k = []
field ((j, v) ∷ h) k = if str_eq j k then v else field h k

-- The theme stands as its JSON text; `[]` is the nil map.
abbrev theme_json : Str → Str
theme_json [] = codes "{}"
theme_json (c ∷ s) = c ∷ s

pub to_hash : Config → Hash
unfolding state_text
to_hash c =
    (codes "state", state_text c.state)
    ∷ (codes "rate", format_rate c.rate)
    ∷ (codes "max_active", format_int c.max_active)
    ∷ (codes "wave_s", format_int c.wave_sec)
    ∷ (codes "pass_ttl", format_int (c.pass_ttl / second))
    ∷ (codes "domains", join b',' c.domains)
    ∷ (codes "opens_at", format_int c.opens_at)
    ∷ (codes "title", c.title)
    ∷ (codes "theme", theme_json c.theme)
    ∷ []

-- `if v, err := parse(..); err == nil { field = v }`
abbrev int_or : ℕ × Bool → ℕ → ℕ
int_or (v, true) d = v
int_or (v, false) d = d

abbrev rate_or : Option ℕ → ℕ → ℕ
rate_or none d = d
rate_or (some v) d = v

-- `time.Duration(v) * time.Second` wraps around at 64 bits; a negative duration stands as 0.
abbrev wrapped : ℕ → ℕ
wrapped n = if leb (2 ^ 63) (n % 2 ^ 64) then 0 else n % 2 ^ 64

abbrev duration_or : ℕ × Bool → ℕ → ℕ
duration_or (v, true) d = wrapped (v * second)
duration_or (v, false) d = d

abbrev domains_or : Str → List Str → List Str
domains_or [] d = d
domains_or (c ∷ s) d = split b',' (c ∷ s)

abbrev theme_or : Str → Str → Str
theme_or [] d = d
theme_or (c ∷ s) d = c ∷ s

config_of : Hash → Config
unfolding field defaults state_of
config_of h = record {
  state = state_of (field h (codes "state"));
  rate = rate_or (parse_rate (field h (codes "rate"))) defaults.rate;
  max_active = int_or (parse_int (field h (codes "max_active"))) defaults.max_active;
  wave_sec = int_or (parse_int (field h (codes "wave_s"))) defaults.wave_sec;
  pass_ttl = duration_or (parse_int (field h (codes "pass_ttl"))) defaults.pass_ttl;
  domains = domains_or (field h (codes "domains")) defaults.domains;
  opens_at = int_or (parse_int (field h (codes "opens_at"))) defaults.opens_at;
  title = field h (codes "title");
  theme = theme_or (field h (codes "theme")) defaults.theme;
}

-- The error of the final Validate is dropped, its changes are kept.
unfoldable pub from_hash : Hash → Config × Bool
unfolding config_of
from_hash [] = (defaults, false)
from_hash (p ∷ h) = ((validate (config_of (p ∷ h))).0, true)

abbrev pub unix : ℕ → ℕ
unix now = now / second

unfoldable pub wave : ℕ → ℕ → ℕ
wave now wave_sec = unix now / wave_sec

-- How far a number must be shifted to fit the 53 bits of a float64. Ten rounds serve an int64.
pub float_shift : ℕ → ℕ → ℕ
float_shift zero m = 0
float_shift (suc f) m = let rest = float_shift f (m / 2) in if ltb m (2 ^ 53) then 0 else suc rest

-- To the nearest multiple of a unit, ties to the even multiple.
pub round_even : ℕ → ℕ → ℕ
round_even n unit =
    if ltb (2 * (n % unit)) unit
    then n / unit * unit
    else if ltb unit (2 * (n % unit))
    then (n / unit + 1) * unit
    else (n / unit + n / unit % 2) * unit

-- The conversion float64(n) of an int64 that is not negative.
pub to_float64 : ℕ → ℕ
unfolding float_shift round_even
to_float64 n = round_even n (2 ^ float_shift 10 n)

pub wave_score : ℕ → ℕ → ℕ
wave_score w rank = to_float64 (w * 10_000_000 + rank)
