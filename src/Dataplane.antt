-- ===== src/Dataplane.antt =====
-- control/internal/dataplane/client.go: the client of the Dataplane API of a load balancer. The HTTP
-- client, the decoding of JSON answers, the escaping of a path and the order in which Go walks
-- through a map are parameters.
pub mod Requests
pub mod Operations
pub mod Files
pub mod Names
pub mod MapSync
pub mod MapLoops
pub mod MapResult
pub mod MapIdle
pub mod FileSync
use flyc.Base.{
  ℕ, ◌+◌, Bool, true, false, ◌&&◌, ◌||◌, not, List, [], ◌∷◌, ◌++◌, Option, none, some, leb, ◌==◌,
  if◌then◌else◌, Str, codes, str_eq, trim_space,
}
use flyc.Compile.{MapEntry}
use flyc.Dataplane.Requests.{
  Body, no_body, text, json_entry, json_value, json_backend, json_server, file_upload, Request,
  Backend, Server, StoredCert, StatsObject, StatsRow, Failure, no_answer, api_error, bad_json,
  Reply, ok, failed, is_status, Http, Json, Client,
}

-- A call: what it gives, and the network behind it.
abbrev pub Call : Type 0 → Type 0 → Type 0
Call N A = N → Reply A × N

abbrev pub continue_with : {N A B : Type 0} → (A → Call N B) → Reply A × N → Reply B × N
continue_with f (failed e, n) = (failed e, n)
continue_with f (ok a, n) = f a n

-- `if err != nil { return err }`
infixl 5 ◌>>=◌
abbrev pub ◌>>=◌ : {N A B : Type 0} → Call N A → (A → Call N B) → Call N B
◌>>=◌ m f n = continue_with f (m n)

abbrev pub pure : {N A : Type 0} → A → Call N A
pure a n = (ok a, n)

-- `err != nil && !IsStatus(err, code)`: an error with one status is let through.
abbrev pub let_through : {N A : Type 0} → ℕ → A → Reply A × N → Reply A × N
let_through code zero (ok a, n) = (ok a, n)
let_through code zero (failed e, n) = (if is_status e code then ok zero else failed e, n)

abbrev pub tolerate : {N : Type 0} → ℕ → Call N Str → Call N Str
tolerate code m n = let_through code [] (m n)

-- Without a body an answer leaves the zero value.
abbrev pub decoded : {A : Type 0} → A → (Str → Option A) → Str → Reply A
decoded zero decode [] = ok zero
decoded zero decode (c ∷ body) = elim (decode (c ∷ body)) [ none ↦ failed bad_json | some a ↦ ok a ]

-- A Go map from the entries: of two with one key the later counts.
pub has_key : Str → List MapEntry → Bool
has_key k [] = false
has_key k (e ∷ es) = str_eq e.key k || has_key k es

pub to_map : List MapEntry → List MapEntry
unfolding has_key
to_map [] = []
to_map (e ∷ es) = let rest = to_map es in if has_key e.key es then rest else e ∷ rest

unfoldable pub value_of : Str → List MapEntry → Option Str
value_of k [] = none
value_of k (e ∷ es) = let rest = value_of k es in if str_eq e.key k then some e.value else rest

unfoldable pub has_duplicate : List MapEntry → Bool
unfolding has_key
has_duplicate [] = false
has_duplicate (e ∷ es) = has_key e.key es || has_duplicate es

replace_dots : Str → Str
replace_dots [] = []
replace_dots (c ∷ s) = (if c == b'.' then b'_' else c) ∷ replace_dots s

-- strings.TrimSuffix with ".pem".
trim_pem : Str → Str
trim_pem [] = []
trim_pem (c ∷ s) = let rest = trim_pem s in if str_eq (c ∷ s) (codes ".pem") then [] else c ∷ rest

unfoldable storage_name : Str → Str
unfolding replace_dots trim_pem
storage_name fqdn = replace_dots (trim_pem fqdn) ++ codes ".pem"

abbrev behind_slash : Str → Option Str → Str
behind_slash s none = s
behind_slash s (some rest) = rest

-- What stands behind the last slash.
last_slash : Str → Option Str
last_slash [] = none
last_slash (c ∷ s) = elim (last_slash s) [
  | some r ↦ some r
  | none ↦ if c == b'/' then some s else none
]

unfoldable crt_list_base : Str → Str
unfolding last_slash
crt_list_base p = behind_slash p (last_slash p)

counted : Str → List StatsRow → ℕ
counted backend [] = 0
counted backend (r ∷ rs) =
    let rest = counted backend rs in
    if str_eq r.type (codes "backend") && str_eq r.name backend then r.scur + rest else rest

-- The sessions of one backend in all the objects of an answer.
unfoldable total_sessions : Str → List StatsObject → ℕ
unfolding counted
total_sessions backend [] = 0
total_sessions backend (o ∷ os) = counted backend o.stats + total_sessions backend os

trim_right_slash : Str → Str
trim_right_slash [] = []
trim_right_slash (c ∷ s) = elim (trim_right_slash s) [
  | [] ↦ if c == b'/' then [] else c ∷ []
  | x ∷ r ↦ c ∷ x ∷ r
]

unfoldable new : Str → Str → Str → Client
unfolding trim_right_slash
new base user pass = record { base = trim_right_slash base; user = user; pass = pass }
