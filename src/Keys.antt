-- ===== src/Keys.antt =====
-- queue/internal/keys/keys.go: the client that fetches the signing key. The answer of a request is
-- a parameter: none where the request fails or its body is no JSON.
pub mod Backoff
use flyc.Base.{
  ℕ, ◌*◌, ◌||◌, Bool, true, false, List, [], ◌∷◌, Option, none, some, ltb, ◌==◌, if◌then◌else◌, Str,
  not,
}

pub record Client : Type 0 where
  pub kid : Str
  pub priv_pem : Str
  pub pub_pem : Str

pub record Answer : Type 0 where
  pub code : ℕ
  pub kid : Str
  pub private_pem : Str
  pub public_pem : Str

pub current : Client → Str × Str
current c = (c.kid, c.priv_pem)

abbrev pub is_blank : Str → Bool
is_blank [] = true
is_blank (c ∷ s) = false

pub ready : Client → Bool
unfolding current
ready c = not (is_blank (current c).0)

-- `none` is an error, which leaves the client as it is.
pub fetch : Client → Option Answer → Option Client
fetch c none = none
fetch c (some a) =
    if not (a.code == 200)
    then none
    else if is_blank a.kid || is_blank a.private_pem
    then none
    else some (record { kid = a.kid; priv_pem = a.private_pem; pub_pem = a.public_pem })

-- The client and the back-off between two rounds of Run, in seconds; and the wait of the round.
pub record Round : Type 0 where
  pub client : Client
  pub backoff : ℕ
  pub wait : ℕ

abbrev longer : ℕ → ℕ
longer backoff = if ltb backoff 30 then backoff * 2 else backoff

after_fetch : Client → ℕ → Option Client → Round
after_fetch c backoff none = record { client = c; backoff = longer backoff; wait = backoff }
after_fetch c backoff (some c') = record { client = c'; backoff = 2; wait = 60 }

pub run_round : Round → Option Answer → Round
unfolding after_fetch fetch
run_round r a = after_fetch r.client r.backoff (fetch r.client a)

pub run : Round → List (Option Answer) → Round
unfolding run_round
run r [] = r
run r (a ∷ rest) = run (run_round r a) rest
