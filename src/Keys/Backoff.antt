-- ===== src/Keys/Backoff.antt =====
-- Run of queue/internal/keys/keys.go: its waits and its key.
use flyc.Base.{
  ℕ, ◌≡◌, refl, ◌⊎◌, true, List, [], ◌∷◌, Option, none, some, arith, inl, inr, Option-cases,
}
use flyc.Keys.{Client, Answer, Round, run, run_round, after_fetch, fetch, ready, current}

-- The back-off is two seconds doubled at most four times.
abbrev pub IsPaced : ℕ → Type 0
IsPaced b = (b ≡ 2) ⊎ (b ≡ 4) ⊎ (b ≡ 8) ⊎ (b ≡ 16) ⊎ (b ≡ 32)

fetch-ready : (c c' : Client) (a : Option Answer) → fetch c a ≡ some c' → ready c' ≡ true
unfolding fetch ready current
fetch-ready c c' none e = cc
fetch-ready c c' (some a) e = ground arith

run_round-keeps :
    (r : Round) (a : Option Answer)
    → IsPaced r.backoff
    → ready r.client ≡ true
    → IsPaced (run_round r a).backoff × (ready (run_round r a).client ≡ true)
unfolding run_round after_fetch
run_round-keeps r a p k = elim (Option-cases (fetch r.client a)) [
  | inl e ↦ rw e (ground arith, k)
  | inr (c', e) ↦ rw e (inl refl, fetch-ready r.client c' a e)
]

-- Whatever the requests give, a client that has a key goes on to have one, and its back-off stays
-- among two seconds doubled at most four times.
pub run_keeps :
    (r : Round) (answers : List (Option Answer))
    → IsPaced r.backoff
    → ready r.client ≡ true
    → IsPaced (run r answers).backoff × (ready (run r answers).client ≡ true)
unfolding run
run_keeps r [] p k = (p, k)
run_keeps r (a ∷ rest) p k =
    let (p', k') = run_round-keeps r a p k in run_keeps (run_round r a) rest p' k'
