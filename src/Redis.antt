-- ===== src/Redis.antt =====
-- The Redis cluster as the store sees it: the client's commands, the replies, and a service that
-- executes them. The service is not in the repository, so it is a parameter; Redis/Laws states the
-- documented effect of the commands, where a property rests on it.
pub mod Laws
pub mod Memory
use flyc.Base.{ℕ, zero, suc, Bool, true, false, List, [], ◌∷◌, Option, none, some, Str}
use flyc.Room.{Hash}

-- What is published on the channel of a room.
pub data EventType : Type 0 where
  admitted config flush : EventType

pub record Event : Type 0 where
  pub type : EventType
  pub admitted_ids : List Str
  pub pending : ℕ
  pub head : ℕ
  pub rate : ℕ

-- Durations are in seconds.
pub data Cmd : Type 0 where
  hset : Str → Hash → Cmd
  hgetall : Str → Cmd
  hincrby : Str → Str → ℕ → Cmd
  expire : Str → ℕ → Cmd
  sadd : Str → Str → Cmd
  smembers : Str → Cmd
  scard : Str → Cmd
  spopn : Str → ℕ → Cmd
  set : Str → Str → Cmd
  setnx : Str → Str → ℕ → Cmd
  get : Str → Cmd
  del : Str → Cmd
  -- The script of Release: del if the key holds this text.
  del_if_eq : Str → Str → Cmd
  zadd : Str → List (ℕ × Str) → Cmd
  zremrangebyscore : Str → ℕ → Cmd
  zcard : Str → Cmd
  zfirst : Str → Cmd
  zpopmin : Str → ℕ → Cmd
  zrank : Str → Str → Cmd
  publish : Str → Event → Cmd
  -- SCAN with a pattern, through every master of the cluster.
  scan : Str → Cmd

-- `nil` is the reply that the client returns as the error redis.Nil.
pub data Reply : Type 0 where
  nil : Reply
  int : ℕ → Reply
  text : Str → Reply
  texts : List Str → Reply
  fields : Hash → Reply
  scored : List (ℕ × Str) → Reply

-- `exec` runs a pipeline, or a single command. `none` is any error but redis.Nil; the database may
-- have changed by then.
pub record Redis : Type 1 where
  pub Db : Type 0
  pub exec : List Cmd → Db → Option (List Reply) × Db

-- The reply at a place of a pipeline.
abbrev pub reply_at : List Reply → ℕ → Reply
reply_at [] i = nil
reply_at (r ∷ rs) zero = r
reply_at (r ∷ rs) (suc i) = reply_at rs i

-- `Val()` of a command: the zero value where the reply is of another kind.
abbrev pub as_int : Reply → ℕ
as_int (int n) = n
as_int _ = 0

abbrev pub as_text : Reply → Option Str
as_text (text s) = some s
as_text _ = none

abbrev pub as_texts : Reply → List Str
as_texts (texts ss) = ss
as_texts _ = []

abbrev pub as_fields : Reply → Hash
as_fields (fields h) = h
as_fields _ = []

abbrev pub as_scored : Reply → List (ℕ × Str)
as_scored (scored zs) = zs
as_scored _ = []

-- ZRANK: nil where the member is absent.
abbrev pub as_rank : Reply → Option ℕ
as_rank (int n) = some n
as_rank _ = none

-- A call that may fail, over the database.
abbrev pub M : Type 0 → Type 0 → Type 0
M D A = D → Option A × D

-- `if err != nil { return err }`
infixl 5 ◌>>=◌ ◌>>◌
abbrev pub ◌>>=◌ : {D A B : Type 0} → M D A → (A → M D B) → M D B
◌>>=◌ m f d = let (r, d') = m d in elim r [ none ↦ (none, d') | some a ↦ f a d' ]

abbrev pub ◌>>◌ : {D A B : Type 0} → M D A → M D B → M D B
◌>>◌ m k = m >>= λ _. k

abbrev pub pure : {D A : Type 0} → A → M D A
pure a d = (some a, d)

-- A call whose error the code looks at, or drops.
abbrev pub attempt : {D A : Type 0} → M D A → M D (Option A)
attempt m d = let (r, d') = m d in (some r, d')
