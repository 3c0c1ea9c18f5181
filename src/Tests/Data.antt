-- ===== src/Tests/Data.antt =====
-- The room and the configuration of the runs.
use flyc.Base.{ℕ, ◌*◌, [], ◌∷◌, codes}
use flyc.Room.{RoomId, Config, queue, second, minute}

abbrev pub sale : RoomId
sale = record { tenant = codes "acme"; room = codes "sale" }

abbrev pub sale_config : Config
sale_config = record {
  state = queue;
  rate = 10_000;
  max_active = 100;
  wave_sec = 30;
  pass_ttl = 20 * minute;
  domains = codes "shop.example" ∷ [];
  opens_at = 0;
  title = codes "Sale";
  theme = codes "{}";
}

abbrev pub noon : ℕ
noon = 1_700_000_010 * second
