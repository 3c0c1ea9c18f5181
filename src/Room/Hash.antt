-- ===== src/Room/Hash.antt =====
-- ToHash and FromHash of queue/internal/room/room.go.
use flyc.Base.{◌%◌, ◌≡◌, ◌≤◌, ◌≢◌, ◌⊎◌, [], map, All, Avoids, join, max_int64}
use flyc.Room.{Config, second, normalize_domain}

-- What the texts of a HASH can carry: whole seconds, int64 values, domains without a comma.
pub record IsStorable (c : Config) : Type 0 where
  pub whole_seconds : c.pass_ttl % second ≡ 0
  pub max_active_fits : c.max_active ≤ max_int64
  pub opens_at_fits : c.opens_at ≤ max_int64
  pub domains_split : (c.domains ≡ []) ⊎ (All (Avoids b',') c.domains × (join b',' c.domains ≢ []))
  pub domains_normal : map normalize_domain c.domains ≡ c.domains
