-- ===== src/Dataplane/Requests.antt =====
-- The requests of the client, its answers and its errors, and the parameters it stands on.
use flyc.Base.{ℕ, Bool, false, List, Option, ◌==◌, Str}
use flyc.Compile.{MapEntry}

pub record Backend : Type 0 where
  pub name : Str
  pub mode : Str
  pub algorithm : Option Str
  pub adv_check : Str
  pub httpchk : Option (Str × Str)
  -- check, inter, rise and fall
  pub default_server : Option (Str × ℕ × ℕ × ℕ)
  pub from : Str

pub record Server : Type 0 where
  pub name : Str
  pub address : Str
  pub port : ℕ
  pub weight : Option ℕ
  pub maxconn : Option ℕ
  pub check : Str

pub record StoredCert : Type 0 where
  pub storage_name : Str
  pub file : Str
  pub not_after : Str
  pub subject : Str

pub record StatsRow : Type 0 where
  pub name : Str
  pub type : Str
  pub scur : ℕ

pub record StatsObject : Type 0 where
  pub stats : List StatsRow

-- The body: a text, a value as JSON, or a file in a form.
pub data Body : Type 0 where
  no_body : Body
  text : Str → Body
  json_entry : MapEntry → Body
  json_value : Str → Body
  json_backend : Backend → Body
  json_server : Server → Body
  file_upload : Str → Str → Body

pub record Request : Type 0 where
  pub method : Str
  pub url : Str
  pub query : List (Str × Str)
  pub user : Str
  pub pass : Str
  pub body : Body

pub record Client : Type 0 where
  pub base : Str
  pub user : Str
  pub pass : Str

pub data Failure : Type 0 where
  no_answer bad_json : Failure
  api_error : ℕ → Str → Failure

pub data Reply (A : Type 0) : Type 0 where
  ok : A → Reply A
  failed : Failure → Reply A

unfoldable pub is_status : Failure → ℕ → Bool
is_status (api_error status body) code = status == code
is_status _ code = false

-- One request: the status and the body of the answer, or none where there is none.
pub record Http : Type 1 where
  pub Net : Type 0
  pub send : Request → Net → Option (ℕ × Str) × Net

-- The decoders of JSON, url.PathEscape, and the order of a map's entries.
pub record Json : Type 0 where
  pub info : Str → Option Str
  pub version : Str → Option ℕ
  pub transaction : Str → Option Str
  pub backends : Str → Option (List Backend)
  pub servers : Str → Option (List Server)
  pub entries : Str → Option (List MapEntry)
  pub certs : Str → Option (List StoredCert)
  pub raw : Str → Option Str
  pub stats_object : Str → Option StatsObject
  pub stats_list : Str → Option (List StatsObject)
  pub path_escape : Str → Str
  pub visit : List MapEntry → List MapEntry
