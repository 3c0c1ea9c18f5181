-- ===== src/Api/Requeue.antt =====
-- statusOf of queue/internal/api/api.go.
use flyc.Base.{ℕ, ◌≡◌, Bool, true, List, [], ◌∷◌, some, Str}
use flyc.Redis.{Redis, Reply, int, zadd, zrank, reply_at}

-- What ZADD and ZRANK do to the members of a sorted set, where calls do not fail.
pub record KeepsPlaces (R : Redis) : Type 0 where
  pub has : R.Db → Str → Str → Bool
  pub zadd_adds :
      (k : Str) (score : ℕ) (x : Str) (d : R.Db)
      → (rs : List Reply) × (d' : R.Db) × (R.exec (zadd k ((score, x) ∷ []) ∷ []) d ≡ (some rs, d'))
        × (has d' k x ≡ true)
  pub zrank_reads : (k x j y : Str) (d : R.Db) → has (R.exec (zrank k x ∷ []) d).1 j y ≡ has d j y
  pub zrank_finds :
      (k x : Str) (d d' : R.Db) (rs : List Reply) (r : ℕ)
      → R.exec (zrank k x ∷ []) d ≡ (some rs, d')
      → reply_at rs 0 ≡ int r
      → has d k x ≡ true
