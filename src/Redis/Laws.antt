-- ===== src/Redis/Laws.antt =====
-- The documented effect of the commands on strings and hashes, and their replies, as hypotheses on
-- a Redis service. They speak of calls that succeed, and of keys that nobody else writes and that
-- do not run out during the call.
use flyc.Base.{
  ℕ, ◌+◌, ◌≡◌, refl, ap, false, ◌&&◌, List, [], ◌∷◌, Option, none, some, if◌then◌else◌, Str, str_eq,
  str_eq_iff, format_int, parse_int, arith, ◌≢◌, Bool-cases, inl, inr, str_eq→eq,
}
use flyc.Room.{Hash, field}
use flyc.Redis.{
  Redis, Cmd, hset, hincrby, setnx, get, hgetall, del, del_if_eq, Reply, nil, int, text, fields, M,
  ◌>>=◌, reply_at,
}

abbrev pub put : Str → Str → Hash → Hash
put k v [] = (k, v) ∷ []
put k v ((j, w) ∷ h) = if str_eq j k then (k, v) ∷ h else (j, w) ∷ put k v h

abbrev pub merge : Hash → Hash → Hash
merge [] h = h
merge ((k, v) ∷ fs) h = merge fs (put k v h)

abbrev pub after_text : Cmd → Str → Option Str → Option Str
after_text (Cmd.set k v) j t = if str_eq k j then some v else t
after_text (setnx k v ttl) j none = if str_eq k j then some v else none
after_text (setnx k v ttl) j (some x) = some x
after_text (del k) j t = if str_eq k j then none else t
after_text (del_if_eq k v) j none = none
after_text (del_if_eq k v) j (some x) = if str_eq k j && str_eq x v then none else some x
after_text _ j t = t

abbrev pub after_hash : Cmd → Str → Hash → Hash
after_hash (hset k fs) j h = if str_eq k j then merge fs h else h
after_hash (hincrby k f n) j h =
    if str_eq k j then put f (format_int ((parse_int (field h f)).0 + n)) h else h
after_hash (del k) j h = if str_eq k j then [] else h
after_hash _ j h = h

abbrev pub text_after : List Cmd → Str → Option Str → Option Str
text_after [] j t = t
text_after (c ∷ cs) j t = text_after cs j (after_text c j t)

abbrev pub hash_after : List Cmd → Str → Hash → Hash
hash_after [] j h = h
hash_after (c ∷ cs) j h = hash_after cs j (after_hash c j h)

abbrev pub setnx_reply : Option Str → Reply
setnx_reply none = int 1
setnx_reply (some x) = int 0

abbrev pub get_reply : Option Str → Reply
get_reply none = nil
get_reply (some x) = text x

pub record IsLawful (R : Redis) : Type 0 where
  pub text_of : R.Db → Str → Option Str
  pub hash_of : R.Db → Str → Hash
  pub exec_text :
      (cs : List Cmd) (rs : List Reply) (d d' : R.Db) (j : Str)
      → R.exec cs d ≡ (some rs, d')
      → text_of d' j ≡ text_after cs j (text_of d j)
  pub exec_hash :
      (cs : List Cmd) (rs : List Reply) (d d' : R.Db) (j : Str)
      → R.exec cs d ≡ (some rs, d')
      → hash_of d' j ≡ hash_after cs j (hash_of d j)
  pub setnx_replies :
      (k v : Str) (ttl : ℕ) (rs : List Reply) (d d' : R.Db)
      → R.exec (setnx k v ttl ∷ []) d ≡ (some rs, d')
      → reply_at rs 0 ≡ setnx_reply (text_of d k)
  pub get_replies :
      (k : Str) (rs : List Reply) (d d' : R.Db)
      → R.exec (get k ∷ []) d ≡ (some rs, d')
      → reply_at rs 0 ≡ get_reply (text_of d k)
  pub hgetall_replies :
      (k : Str) (rs : List Reply) (d d' : R.Db)
      → R.exec (hgetall k ∷ []) d ≡ (some rs, d')
      → reply_at rs 0 ≡ fields (hash_of d k)

pub str_eq-false : (s t : Str) → s ≢ t → str_eq s t ≡ false
str_eq-false s t h = elim (Bool-cases (str_eq s t)) [
  | inl e ↦ absurd (h (str_eq→eq s t e))
  | inr e ↦ e
]

-- A field that was written reads as what was written, every other field as before.
pub field-put :
    (k j v : Str) (h : Hash) → field (put k v h) j ≡ (if str_eq k j then v else field h j)
unfolding field
field-put k j v [] = refl
field-put k j v ((i, w) ∷ h) =
    ground (arith, str_eq_iff k j, str_eq_iff i k, str_eq_iff i j, field-put k j v h)

-- A sequence that succeeds is two calls that do.
pub >>=-eq-some :
    {D A B : Type 0} (m : M D A) (f : A → M D B) (d : D) {b : B} {d'' : D}
    → (m >>= f) d ≡ (some b, d'')
    → (a : A) × (d' : D) × (m d ≡ (some a, d')) × (f a d' ≡ (some b, d''))
>>=-eq-some {D} {A} {B} m f d {b} {d''} e = go (m d) refl e
  where
    go :
        (p : Option A × D)
        → m d ≡ p
        → ◌≡◌ {A = Option B × D} (elim p.0 [ none ↦ (none, p.1) | some a ↦ f a p.1 ]) (some b, d'')
        → (a : A) × (d' : D) × (m d ≡ (some a, d')) × (f a d' ≡ (some b, d''))
    go (none, d') q h = cc
    go (some a, d') q h = (a, d', q, h)

-- A sequence whose first call succeeds goes on with the second.
pub >>=-of_some :
    {D A B : Type 0} (m : M D A) (f : A → M D B) (d : D) {a : A} {d' : D}
    → m d ≡ (some a, d')
    → (m >>= f) d ≡ f a d'
>>=-of_some {D} {A} {B} m f d e =
    ap {B = Option B × D} (λ v. elim v.0 [ none ↦ (none, v.1) | some a ↦ f a v.1 ]) e
