-- ===== src/Store/Ranking.antt =====
-- CloseWave of queue/internal/store/store.go: the ranks of a wave, and the loop that empties it.
use flyc.Base.{
  ℕ, zero, suc, ◌+◌, ◌≡◌, ap, ◌∙◌, ◌≤◌, ◌<◌, List, [], ◌∷◌, ◌++◌, length, length-append, List-cases,
  inl, inr, some, Str, arith,
}
use flyc.Redis.{Redis, Reply, spopn, reply_at, as_texts}
use flyc.Redis.Laws.{>>=-of_some}
use flyc.Store.{pop_all, next_batch}

-- The scores rise along the list from a bound on, and stay below another.
abbrev pub Rising : ℕ → ℕ → List (ℕ × Str) → Type 0
Rising lo hi [] = lo ≤ hi
Rising lo hi ((s, tid) ∷ zs) = (lo ≤ s) × (s < hi) × Rising (s + 1) hi zs

-- What SPOP with a count does to the size of a set, where calls do not fail.
pub record PopsSets (R : Redis) : Type 0 where
  pub size_of : R.Db → Str → ℕ
  pub pop_succeeds :
      (k : Str) (n : ℕ) (d : R.Db)
      → (rs : List Reply) × (d' : R.Db) × (R.exec (spopn k (suc n) ∷ []) d ≡ (some rs, d'))
        × (length (as_texts (reply_at rs 0)) + size_of d' k ≡ size_of d k)
        × (as_texts (reply_at rs 0) ≡ [] → size_of d k ≡ 0)

pop_all-round :
    (R : Redis) (fuel : ℕ) (k : Str) (ids : List Str) (d d1 : R.Db) (rs : List Reply)
    (batch : List Str)
    → R.exec (spopn k 1000 ∷ []) d ≡ (some rs, d1)
    → as_texts (reply_at rs 0) ≡ batch
    → pop_all R (suc fuel) k ids d ≡ next_batch R (pop_all R fuel k) ids batch d1
unfolding pop_all
pop_all-round R fuel k ids d d1 rs batch e b =
    >>=-of_some (R.exec (spopn k 1000 ∷ []))
      (λ (rs : List Reply). next_batch R (pop_all R fuel k) ids (as_texts (reply_at rs 0))) d e
    ∙ ap (λ l. next_batch R (pop_all R fuel k) ids l d1) b

module _ (R : Redis) (P : PopsSets R) where
  -- With more rounds than the set has members the loop ends, and has taken every one of them.
  pub pop_all_total :
      (fuel : ℕ) (k : Str) (ids : List Str) (d : R.Db)
      → P.size_of d k < fuel
      → (out : List Str) × (d' : R.Db) × (pop_all R fuel k ids d ≡ (some out, d'))
        × (length out ≡ length ids + P.size_of d k)
        × (P.size_of d' k ≡ 0)
  pop_all_total zero k ids d h = absurd (omega arith)
  pop_all_total (suc fuel) k ids d h =
      let (rs, d1, e, sizes, done) = P.pop_succeeds k 999 d in
      elim (List-cases (as_texts (reply_at rs 0))) [
        | inl b ↦
            let size : P.size_of d k ≡ 0 = done b in
            let popped : length (as_texts (reply_at rs 0)) ≡ 0 = ap length b in
            (ids, d1, pop_all-round R fuel k ids d d1 rs [] e b, omega arith, omega arith)
        | inr (x, xs, b) ↦
            let popped : length (as_texts (reply_at rs 0)) ≡ suc (length xs) = ap length b in
            let (out, d', q, len, empty) = pop_all_total fuel k (ids ++ x ∷ xs) d1 (omega arith) in
            (
              out,
              d',
              pop_all-round R fuel k ids d d1 rs (x ∷ xs) e b ∙ q,
              omega (arith, length-append ids (x ∷ xs)),
              empty,
            )
      ]
