-- ===== src/Tests/RoomRuns.antt =====
-- Runs of the theorems on rooms.
use flyc.Base.{[], ◌+◌, ◌≡◌, refl, ◌<◌, inl, codes, arith}
use flyc.Room.{Config, is_slug, slug_rest, wave_score}
use flyc.Room.Names.{IsValidId, key-injective}
use flyc.Room.Bounds.{IsValid, is_queue}
use flyc.Room.Score.{wave_score_order, wave_score_tie}
use flyc.Tests.Data.{sale, sale_config}

abbrev sale-IsValidId : IsValidId sale
sale-IsValidId = unfold is_slug slug_rest in record { tenant_slug = refl; room_slug = refl }

key-injective_example : (sale ≡ sale) × (codes "cfg" ≡ codes "cfg")
key-injective_example =
    key-injective sale sale (codes "cfg") (codes "cfg") sale-IsValidId sale-IsValidId refl

abbrev sale_config-IsValid : IsValid sale_config
sale_config-IsValid = record {
  known = is_queue;
  rate_bounds = (omega arith, omega arith);
  wave_bounds = (omega arith, omega arith);
  ttl_bounds = (omega arith, omega arith);
}

wave_score_order_example : wave_score 56_666_667 12 < wave_score 56_666_668 3
wave_score_order_example =
    wave_score_order 56_666_667 56_666_668 12 3 (omega arith) (omega arith) (omega arith)
      (omega arith) (inl (omega arith))

-- In waves of one second, in 2023.
wave_score_tie_example : wave_score 1_700_000_000 (0 + 1) ≡ wave_score 1_700_000_000 0
wave_score_tie_example = wave_score_tie 1_700_000_000 0 (omega arith) (omega arith) (omega arith)

-- A configuration without a theme.
abbrev bare_config : Config
bare_config = record sale_config { theme = [] }

abbrev bare_config-IsValid : IsValid bare_config
bare_config-IsValid = record {
  known = is_queue;
  rate_bounds = (omega arith, omega arith);
  wave_bounds = (omega arith, omega arith);
  ttl_bounds = (omega arith, omega arith);
}
