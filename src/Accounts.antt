-- ===== src/Accounts.antt =====
-- control/internal/auth: passwords, sessions. The key derivation, base64, hashes and random
-- tokens are parameters; the tables are lists of rows.
pub mod Passwords
pub mod PasswordLaws
pub mod Sessions
pub mod SessionLaws
use flyc.Base.{ℕ, Bool, List, Option, Str}

-- argon2.IDKey: password, salt, time, memory, threads, length.
pub record Crypto : Type 0 where
  pub id_key : Str → Str → ℕ → ℕ → ℕ → ℕ → Str
  pub encode : Str → Str
  pub decode : Str → Option Str
  -- hex of SHA-256
  pub hash_token : Str → Str

pub record User : Type 0 where
  pub id : Str
  pub email : Str
  -- empty for an account of OIDC
  pub password_hash : Str
  pub platform_admin : Bool
  pub totp_enabled : Bool
  pub totp_secret : Option Str
  pub must_change_password : Bool

-- Under the hash of its token.
pub record Session : Type 0 where
  pub id : Str
  pub user_id : Str
  pub expires_at : ℕ
  pub ip : Str
  pub user_agent : Str
