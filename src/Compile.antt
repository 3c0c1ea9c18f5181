-- ===== src/Compile.antt =====
-- control/internal/compile/compile.go: the desired state of the load balancers and of the queue,
-- from the rows of the database. The rows of a query, in the query's order, are an argument (none
-- where the query or a Scan fails; a key that cannot be read is no row); decryption, SHA-256, JSON
-- and sort.Slice are parameters.
pub mod Names
pub mod Maps
use flyc.Base.{
  ℕ, zero, suc, Bool, true, false, ◌&&◌, List, [], ◌∷◌, ◌++◌, map, Option, none, some, ltb, ◌==◌,
  if◌then◌else◌, Str, codes, str_eq,
}

pub record Server : Type 0 where
  pub name : Str
  pub address : Str
  pub port : ℕ
  pub weight : Option ℕ
  pub maxconn : Option ℕ

pub record BackendSpec : Type 0 where
  pub name : Str
  pub balance : Str
  pub check_path : Str
  pub servers : List Server

pub record MapEntry : Type 0 where
  pub key : Str
  pub value : Str

pub record CertSpec : Type 0 where
  pub fqdn : Str
  pub hash : Str
  pub pem : Str

-- The body that is sent to flyc-queue; the rate is in thousandths, 0 is the opening that is not set.
pub record RoomConfig : Type 0 where
  pub state : Str
  pub rate : ℕ
  pub max_active : ℕ
  pub wave_sec : ℕ
  pub pass_ttl_s : ℕ
  pub title : Str
  pub theme : Str
  pub opens_at : ℕ
  pub domains : List Str

pub record Desired : Type 0 where
  pub backends : List BackendSpec
  pub rooms : List MapEntry
  pub backend : List MapEntry
  pub states : List MapEntry
  pub certs : List CertSpec
  pub pass_pub : Str
  pub pass_prev_pub : Str
  pub hash : Str
  pub queue : List (Str × RoomConfig)

pub record ServerRow : Type 0 where
  pub name : Str
  pub address : Str
  pub port : ℕ
  pub weight : ℕ
  pub maxconn : ℕ

pub record BackendRow : Type 0 where
  pub tenant : Str
  pub name : Str
  pub balance : Str
  pub check_path : Str
  pub servers : Option (List ServerRow)

pub record RoomRow : Type 0 where
  pub tenant : Str
  pub slug : Str
  pub title : Str
  pub state : Str
  pub rate : ℕ
  pub max_active : ℕ
  pub wave_s : ℕ
  pub pass_ttl_s : ℕ
  pub opens_at : Option ℕ
  pub fqdn : Option Str
  -- The tenant's slug and the name of its backend.
  pub target : Option (Str × Str)
  pub theme : Str
  pub mode : Str

pub record Rows : Type 0 where
  pub backends : Option (List BackendRow)
  pub rooms : Option (List RoomRow)
  -- A domain and its encrypted PEM.
  pub certificates : Option (List (Str × Str))
  -- A public key and whether it is the active one.
  pub keys : Option (List (Str × Bool))

-- What hashOf serialises.
pub record Light : Type 0 where
  pub b : List BackendSpec
  pub r : List MapEntry
  pub k : List MapEntry
  pub s : List MapEntry
  pub c : List Str

pub record Tools : Type 0 where
  pub decrypt : Str → Option Str
  pub sha256_hex : Str → Str
  pub light_json : Light → Str
  pub sort_entries : List MapEntry → List MapEntry

-- strings.ReplaceAll of "-" by "_".
pub underscored : Str → Str
underscored [] = []
underscored (c ∷ s) = (if c == b'-' then b'_' else c) ∷ underscored s

pub backend_name : Str → Str → Str
unfolding underscored
backend_name tenant name = codes "bk_" ++ (underscored tenant ++ (codes "__" ++ underscored name))

abbrev server_of : ServerRow → Server
server_of s = record {
  name = s.name;
  address = s.address;
  port = s.port;
  weight = some s.weight;
  maxconn = if ltb 0 s.maxconn then some s.maxconn else none;
}

-- A failed query on the servers of a backend ends the whole compilation.
abbrev with_servers :
    BackendRow → Option (List ServerRow) → Option (List BackendSpec) → Option (List BackendSpec)
with_servers b none rest = none
with_servers b (some rows) none = none
with_servers b (some rows) (some specs) = some (
    record {
      name = backend_name b.tenant b.name;
      balance = b.balance;
      check_path = b.check_path;
      servers = map server_of rows;
    }
    ∷ specs)

unfoldable backend_specs : List BackendRow → Option (List BackendSpec)
backend_specs [] = some []
backend_specs (b ∷ bs) = with_servers b b.servers (backend_specs bs)

abbrev pub room_id : RoomRow → Str
room_id r = r.tenant ++ b'.' ∷ r.slug

abbrev unix_or_zero : Option ℕ → ℕ
unix_or_zero none = 0
unix_or_zero (some t) = t

abbrev domains_of : Option Str → List Str
domains_of none = []
domains_of (some f) = f ∷ []

pub queue_config : RoomRow → RoomConfig
queue_config r = record {
  state = r.state;
  rate = r.rate;
  max_active = r.max_active;
  wave_sec = r.wave_s;
  pass_ttl_s = r.pass_ttl_s;
  title = r.title;
  theme = r.theme;
  opens_at = unix_or_zero r.opens_at;
  domains = domains_of r.fqdn;
}

-- In the mode iframe the load balancer does not see the domain.
pub seen_domain : RoomRow → Option Str
seen_domain r = elim r.fqdn [
  | none ↦ none
  | some f ↦ if str_eq r.mode (codes "dns") then some f else none
]

abbrev added : Option MapEntry → List MapEntry → List MapEntry
added none es = es
added (some e) es = e ∷ es

abbrev room_entry : RoomRow → Option Str → Option MapEntry
room_entry r none = none
room_entry r (some f) = some (record { key = f; value = room_id r })

abbrev state_entry : RoomRow → Option Str → Option MapEntry
state_entry r none = none
state_entry r (some f) = some (record { key = room_id r; value = r.state })

abbrev backend_entry : Option (Str × Str) → Option Str → Option MapEntry
backend_entry target none = none
backend_entry none (some f) = none
backend_entry (some (tenant, name)) (some f) =
    some (record { key = f; value = backend_name tenant name })

pub room_map : List RoomRow → List MapEntry
unfolding seen_domain
room_map [] = []
room_map (r ∷ rs) = added (room_entry r (seen_domain r)) (room_map rs)

pub state_map : List RoomRow → List MapEntry
unfolding seen_domain
state_map [] = []
state_map (r ∷ rs) = added (state_entry r (seen_domain r)) (state_map rs)

backend_map : List RoomRow → List MapEntry
unfolding seen_domain
backend_map [] = []
backend_map (r ∷ rs) = added (backend_entry r.target (seen_domain r)) (backend_map rs)

-- `d.Queue[roomID] = qc`: a later row of the same room replaces the earlier one.
pub queue_put : Str → RoomConfig → List (Str × RoomConfig) → List (Str × RoomConfig)
queue_put k v [] = (k, v) ∷ []
queue_put k v ((j, w) ∷ m) = if str_eq j k then (k, v) ∷ m else (j, w) ∷ queue_put k v m

pub queue_map : List (Str × RoomConfig) → List RoomRow → List (Str × RoomConfig)
unfolding queue_put queue_config
queue_map m [] = m
queue_map m (r ∷ rs) = queue_map (queue_put (room_id r) (queue_config r) m) rs

-- The keys of the passes: the first active one, and the first that is not; an empty text counts as
-- no key.
abbrev is_unset : Str → Bool
is_unset [] = true
is_unset (c ∷ s) = false

pass_keys : Str × Str → List (Str × Bool) → Str × Str
pass_keys (p, q) [] = (p, if is_unset q then p else q)
pass_keys (p, q) ((pem, true) ∷ ks) = pass_keys (if is_unset p then pem else p, q) ks
pass_keys (p, q) ((pem, false) ∷ ks) = pass_keys (p, if is_unset q then pem else q) ks

module _ (T : Tools) where
  -- A certificate that cannot be decrypted is left out.
  abbrev cert_of : Str → Option Str → List CertSpec → List CertSpec
  cert_of fqdn none cs = cs
  cert_of fqdn (some pem) cs = record { fqdn = fqdn; hash = T.sha256_hex pem; pem = pem } ∷ cs

  cert_specs : List (Str × Str) → List CertSpec
  cert_specs [] = []
  cert_specs ((fqdn, enc) ∷ rows) = cert_of fqdn (T.decrypt enc) (cert_specs rows)

  hash_of : Desired → Str
  hash_of d = T.sha256_hex (
      T.light_json (record {
        b = d.backends;
        r = d.rooms;
        k = d.backend;
        s = d.states;
        c =
            map (λ c. c.fqdn ++ b':' ∷ c.hash) d.certs
            ++ (codes "key:" ++ d.pass_pub) ∷ (codes "prev:" ++ d.pass_prev_pub) ∷ [];
      }))

  compiled : List BackendSpec → List RoomRow → List (Str × Str) → List (Str × Bool) → Desired
  unfolding room_map state_map backend_map queue_map pass_keys cert_specs hash_of
  compiled specs rooms certs keys = record d { hash = hash_of d }
    where
      d : Desired
      d = record {
        backends = specs;
        rooms = T.sort_entries (room_map rooms);
        backend = T.sort_entries (backend_map rooms);
        states = T.sort_entries (state_map rooms);
        certs = cert_specs certs;
        pass_pub = (pass_keys ([], []) keys).0;
        pass_prev_pub = (pass_keys ([], []) keys).1;
        hash = [];
        queue = queue_map [] rooms;
      }

  abbrev specs_of : Option (List BackendRow) → Option (List BackendSpec)
  specs_of none = none
  specs_of (some rows) = backend_specs rows

  desired_from :
      Option (List BackendSpec)
      → Option (List RoomRow)
      → Option (List (Str × Str))
      → Option (List (Str × Bool))
      → Option Desired
  unfolding compiled
  desired_from (some specs) (some rooms) (some certs) (some keys) =
      some (compiled specs rooms certs keys)
  desired_from _ _ _ _ = none

  -- Build: any query that fails is the error of the whole.
  unfoldable build : Rows → Option Desired
  unfolding desired_from
  build rows = desired_from (specs_of rows.backends) rows.rooms rows.certificates rows.keys
