-- ===== src/Accounts/Sessions.antt =====
-- control/internal/auth/session.go: the sessions of the interface, under the hash of their cookie.
-- Times are in nanoseconds; a statement of SQL succeeds or fails as an argument says.
use flyc.Base.{
  ℕ, ◌+◌, ◌-◌, ◌*◌, ◌^◌, Bool, true, false, ◌&&◌, ◌||◌, not, List, [], ◌∷◌, Option, none, some, ltb,
  if◌then◌else◌, take, Str, str_eq,
}
use flyc.Accounts.{Crypto, User, Session}

-- The tables of the accounts.
pub record Tables : Type 0 where
  pub users : List User
  pub sessions : List Session

abbrev pub session_ttl : ℕ
session_ttl = 12 * (3600 * 10 ^ 9)

abbrev session_slide : ℕ
session_slide = 30 * (60 * 10 ^ 9)

-- The cookie of a request, if it has one, and the headers that a session notes.
pub record Visit : Type 0 where
  pub cookie : Option Str
  pub real_ip : Str
  pub remote_addr : Str
  pub user_agent : Str

unfoldable pub user_by_id : Str → List User → Option User
user_by_id id [] = none
user_by_id id (u ∷ us) = let rest = user_by_id id us in if str_eq u.id id then some u else rest

-- `where s.id=$1 and s.expires_at > now()`
unfoldable pub live_session : Str → ℕ → List Session → Option Session
live_session h now [] = none
live_session h now (s ∷ ss) =
    let rest = live_session h now ss in
    if str_eq s.id h && ltb now s.expires_at then some s else rest

delete_session : Str → List Session → List Session
delete_session h [] = []
delete_session h (s ∷ ss) =
    let rest = delete_session h ss in if str_eq s.id h then rest else s ∷ rest

unfoldable pub sessions_without : Str → List Session → List Session
sessions_without user [] = []
sessions_without user (s ∷ ss) =
    let rest = sessions_without user ss in if str_eq s.user_id user then rest else s ∷ rest

pub prolong : Str → ℕ → List Session → List Session
prolong h expires [] = []
prolong h expires (s ∷ ss) =
    (if str_eq s.id h then record s { expires_at = expires } else s) ∷ prolong h expires ss

pub has_session : Str → List Session → Bool
has_session h [] = false
has_session h (s ∷ ss) = let rest = has_session h ss in if str_eq s.id h then true else rest

abbrev visitor_ip : Visit → Str → Str
visitor_ip v [] = v.remote_addr
visitor_ip v (c ∷ ip) = c ∷ ip

abbrev pub is_none : Option User → Bool
is_none none = true
is_none (some u) = false

-- What Current gives: an error of the database, nobody, or a user.
pub data Found : Type 0 where
  broken nobody : Found
  known_as : User → Found

module _ (C : Crypto) where
  abbrev pub new_session : Str → Str → ℕ → Visit → Session
  new_session token user now v = record {
    id = C.hash_token token;
    user_id = user;
    expires_at = now + session_ttl;
    ip = visitor_ip v v.real_ip;
    user_agent = take 200 v.user_agent;
  }

  -- The primary key and the reference to the user are what the insertion may break.
  unfoldable pub create : Bool → Str → Str → ℕ → Visit → Tables → Bool × Tables
  unfolding has_session user_by_id
  create insert_ok token user now v t =
      if not insert_ok
        || (has_session (C.hash_token token) t.sessions || is_none (user_by_id user t.users))
      then (false, t)
      else (true, record t { sessions = new_session token user now v ∷ t.sessions })

  abbrev slid : Bool → Str → ℕ → Session → Tables → Tables
  slid update_ok h now s t =
      if ltb s.expires_at (now + (session_ttl - session_slide)) && update_ok
      then record t { sessions = prolong h (now + session_ttl) t.sessions }
      else t

  abbrev pub found_user : Bool → Str → ℕ → Tables → Session → Option User → Found × Tables
  found_user update_ok h now t s none = (nobody, t)
  found_user update_ok h now t s (some u) = (known_as u, slid update_ok h now s t)

  abbrev pub found_session : Bool → Str → ℕ → Tables → Option Session → Found × Tables
  found_session update_ok h now t none = (nobody, t)
  found_session update_ok h now t (some s) =
      found_user update_ok h now t s (user_by_id s.user_id t.users)

  abbrev pub with_cookie : Bool → Bool → Option Str → ℕ → Tables → Found × Tables
  with_cookie query_ok update_ok none now t = (nobody, t)
  with_cookie query_ok update_ok (some []) now t = (nobody, t)
  with_cookie query_ok update_ok (some (c ∷ token)) now t =
      let h = C.hash_token (c ∷ token) in
      if query_ok
      then found_session update_ok h now t (live_session h now t.sessions)
      else (broken, t)

  -- The user of the cookie's session, which is prolonged where it has less than eleven and a half
  -- hours left.
  unfoldable pub current : Bool → Bool → Visit → ℕ → Tables → Found × Tables
  unfolding live_session user_by_id prolong
  current query_ok update_ok v now t = with_cookie query_ok update_ok v.cookie now t

  unfoldable destroy : Bool → Visit → Tables → Tables
  unfolding delete_session
  destroy delete_ok v t = elim v.cookie [
    | none ↦ t
    | some token ↦
        if delete_ok
        then record t { sessions = delete_session (C.hash_token token) t.sessions }
        else t
  ]

unfoldable pub destroy_all : Bool → Str → Tables → Tables
unfolding sessions_without
destroy_all delete_ok user t =
    if delete_ok then record t { sessions = sessions_without user t.sessions } else t

expired_out : ℕ → List Session → List Session
expired_out now [] = []
expired_out now (s ∷ ss) =
    let rest = expired_out now ss in if ltb s.expires_at now then rest else s ∷ rest

-- Purge, for the sessions.
unfoldable purge : Bool → ℕ → Tables → Tables
unfolding expired_out
purge delete_ok now t = if delete_ok then record t { sessions = expired_out now t.sessions } else t
