-- ===== src/Tests/ApiRuns.antt =====
-- Runs of the theorems on the handlers.
use flyc.Base.{
  ◌≡◌, refl, ◌*◌, ◌≢◌, true, [], ◌∷◌, ◌++◌, none, some, codes, arith, parse_int, parse_rate,
}
use flyc.Room.{Config, closed, parse, key, from_hash, validate}
use flyc.Redis.Memory.{Memory, empty, memory}
use flyc.Store.{Ticket, Counted, status_waiting, load_config, get_ticket}
use flyc.Api.{
  Web, Url, Options, Request, Env, sign_ticket, verify_ticket, normalize_return, with_room,
  pass_json, ticket, go_to,
}
use flyc.Api.Cookie.{verify_ticket-sign_ticket}
use flyc.Api.Return.{normalize_return_slashes}
use flyc.Api.Access.{PassShown, IsRefused, StaysHere, pass_json_only_admitted, closed_room_refuses}
use flyc.Tests.Codec.{toy}
use flyc.Tests.Data.{sale, noon}

abbrev site : Url
site = record {
  host = codes "shop";
  hostname = codes "shop";
  escaped_path = codes "//evil.example";
  raw_query = [];
}

-- Every text is read as one URL on the protected domain.
abbrev web : Web
web = record {
  hmac_hex = λ key text. key ++ text;
  b64_std = λ s. none;
  b64_url = λ s. none;
  b64_encode = λ s. s;
  parse_url = λ s. some site;
  query_escape = λ s. s;
  turnstile = λ t ip. true;
}

abbrev options : Options
options = record {
  internal_token = codes "secret";
  cookie_secret = codes "c";
  turnstile_secret = [];
}

verify_ticket-sign_ticket_example :
    verify_ticket web options sale (sign_ticket web options sale (codes "t_a")) ≡ some (codes "t_a")
verify_ticket-sign_ticket_example =
    verify_ticket-sign_ticket web options sale (codes "t_a") (λ e. cc e) (refl, (refl, (refl, tt)))

normalize_return_slashes_example :
    normalize_return web (codes "https://shop//evil.example") (codes "shop")
    ≡ codes "//" ++ codes "evil.example"
normalize_return_slashes_example =
    normalize_return_slashes web b'h' (codes "ttps://shop//evil.example") (codes "shop")
      (codes "evil.example") site refl refl (omega arith) refl (λ e. cc e) refl refl refl

abbrev request : Request
request = record {
  room = codes "acme.sale";
  t = codes "t_a";
  cookie = none;
  authorization = codes "Bearer guess";
  real_ip = [];
  degraded = [];
  h = codes "shop.example";
  r = [];
  turnstile_token = [];
}

abbrev env : Env
env = record { now = noon; random = codes "77"; nonce = 5; kid = codes "k1"; priv = codes "key" }

-- The texts of a room that queues and of an admitted ticket, under every key.
abbrev admitted_there : Memory
admitted_there = record empty {
  hashes_at = λ k.
      (codes "state", codes "queue")
      ∷ (codes "status", codes "admitted")
      ∷ (codes "pass", codes "token")
      ∷ (codes "exp", codes "1700001210")
      ∷ [];
}

pass_json_only_admitted_example : PassShown web memory options env request admitted_there
unfolding pass_json with_room parse load_config from_hash get_ticket parse_int validate parse_rate
pass_json_only_admitted_example =
    pass_json_only_admitted web memory options env request admitted_there refl

-- The texts of a room that is closed, under every key.
abbrev closed_there : Memory
closed_there = record empty { hashes_at = λ k. (codes "state", codes "closed") ∷ [] }

abbrev closed_config : Config
closed_config = record {
  state = closed;
  rate = 10_000;
  max_active = 0;
  wave_sec = 30;
  pass_ttl = 20 * 60_000_000_000;
  domains = [];
  opens_at = 0;
  title = [];
  theme = [];
}

closed_room_refuses_example :
    ((ticket web memory toy options env request closed_there).1
      ≡ (load_config memory sale closed_there).1)
    × IsRefused web memory closed_config (ticket web memory toy options env request closed_there).0
    × ((pass_json web memory options env request closed_there).0.code ≢ 200)
    × StaysHere web memory sale (go_to web memory options env request closed_there).0
unfolding parse load_config from_hash parse_int validate parse_rate
closed_room_refuses_example =
    closed_room_refuses web memory toy options env request sale closed_config closed_there refl refl
      refl

abbrev ranked_ticket : Ticket
ranked_ticket = record {
  id = codes "t_a";
  created = 1_700_000_000;
  wave = 56_666_666;
  status = status_waiting;
  score = 566_666_660_000_000;
  dom = codes "shop.example";
  ret = codes "/";
  pass = [];
  exp = 0;
  admitted = 0;
}

abbrev nothing_left : Counted
nothing_left = record { pending = 0; active = 0; head = 0 }
