-- ===== src/Hub/Waiting.antt =====
-- BuildStatus of queue/internal/hub/hub.go.
use flyc.Base.{ℕ, ◌+◌, ◌*◌, ◌/◌, ◌≡◌, refl, ◌≤◌, ◌<◌, none, some, arith}
use native.Mathlib.Nat.{le-div_iff_mul-le, mul-div-le}
use flyc.Room.{Config}
use flyc.Hub.{build_status}

div_mono : (a b k : ℕ) → 0 < k → a ≤ b → a / k ≤ b / k
div_mono a b k p h = (le-div_iff_mul-le p).1 (omega (arith, mul-div-le a k))

-- A visitor that is ranked further back is never told an earlier position or a shorter wait, and
-- everybody is told a wait of a second at least.
pub build_status_mono :
    (cfg : Config) (pending r s w v : ℕ)
    → r ≤ s
    → 0 < cfg.rate
    → let a = build_status cfg pending (some r) w in
      let b = build_status cfg pending (some s) v in
      (a.position ≤ b.position) × (a.eta ≤ b.eta) × (1 ≤ a.eta) × (a.ahead + 1 ≡ a.position)
unfolding build_status
build_status_mono cfg pending r s w v h k =
    let shorter = div_mono (r * 1000) (s * 1000) cfg.rate k (omega arith) in
    (omega arith, omega arith, omega arith, refl)

-- A ticket without a rank is told position 0, and to wait for its wave and for all that are ranked.
build_status_unranked :
    (cfg : Config) (pending r w : ℕ)
    → r < pending
    → 0 < cfg.rate
    → let a = build_status cfg pending (some r) w in
      let b = build_status cfg pending none w in
      (b.position ≡ 0) × (b.wave_in ≡ w) × (a.wave_in ≡ 0) × (a.eta + w ≤ b.eta)
unfolding build_status
build_status_unranked cfg pending r w h k =
    let shorter = div_mono (r * 1000) (pending * 1000) cfg.rate k (omega arith) in
    (refl, refl, refl, omega arith)
