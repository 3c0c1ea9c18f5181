-- ===== src/Reconcile/Auto.antt =====
-- The thresholds of RunAuto in control/internal/reconcile/reconcile.go.
use flyc.Base.{ℕ, ◌≡◌, ◌≤◌, ◌<◌, Str, str_eq, str_eq_refl, arith}
use flyc.Reconcile.{next_state, state_queue}

-- Between the two thresholds a room keeps its state.
next_state_holds :
    (eff : Str) (on off total : ℕ) → off ≤ total → total ≤ on → next_state eff on off total ≡ eff
unfolding next_state
next_state_holds eff on off total h k = ground arith

-- With the thresholds that the API accepts, a measurement switches a room once: the same number of
-- sessions does not switch it back.
pub next_state_settles :
    (eff : Str) (on off total : ℕ)
    → off < on
    → next_state (next_state eff on off total) on off total ≡ next_state eff on off total
unfolding next_state str_eq
next_state_settles eff on off total h = ground (arith, str_eq_refl state_queue)
