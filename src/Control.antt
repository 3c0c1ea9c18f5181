-- ===== src/Control.antt =====
-- control/internal/api: the handlers of control on its tables. A statement of SQL succeeds or fails
-- as an argument says; a body that is no JSON is none.
pub mod Account
pub mod AccountLaws
pub mod PasswordChange
pub mod Access
pub mod Roles
pub mod AccessLaws
pub mod Rooms
pub mod RoomRoutes
pub mod RoomLaws
pub mod Thresholds
pub mod References
pub mod RoomStored
pub mod PassCheck
use flyc.Base.{ℕ, Bool, List, Option, Str, codes, ℤ}
use flyc.Accounts.{User, Session}
use flyc.Accounts.Sessions.{Tables}

pub record Tenant : Type 0 where
  pub id : Str
  pub slug : Str

pub record Membership : Type 0 where
  pub tenant_id : Str
  pub user_id : Str
  pub role : Str

-- Without a tenant it is a key of the platform.
pub record ApiKey : Type 0 where
  pub id : Str
  pub tenant_id : Option Str
  pub key_hash : Str

pub record Domain : Type 0 where
  pub id : Str
  pub tenant_id : Str
  pub fqdn : Str
  pub mode : Str
  pub tls : Str

pub record BackendRow : Type 0 where
  pub id : Str
  pub tenant_id : Str
  pub name : Str

-- A rate is in thousandths.
pub record RoomRow : Type 0 where
  pub tenant_id : Str
  pub slug : Str
  pub title : Str
  pub domain_id : Option Str
  pub backend_id : Option Str
  pub state : Str
  pub rate : ℤ
  pub max_active : ℤ
  pub wave_s : ℤ
  pub pass_ttl_s : ℤ
  pub opens_at : Option ℕ
  pub theme : List (Str × Str)
  pub auto_on : ℤ
  pub auto_off : ℤ
  pub effective_state : Str

pub record Db : Type 0 where
  pub tables : Tables
  pub tenants : List Tenant
  pub memberships : List Membership
  pub keys : List ApiKey
  pub domains : List Domain
  pub backends : List BackendRow
  pub rooms : List RoomRow

-- The status and the code of an error, or the word of a success.
pub record Answer : Type 0 where
  pub status : ℕ
  pub code : Str

abbrev pub answer : ℕ → Str → Answer
answer status code = record { status = status; code = code }
