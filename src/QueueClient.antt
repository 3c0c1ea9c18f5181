-- ===== src/QueueClient.antt =====
-- control/internal/queueclient/queueclient.go: the configuration of a room sent to the replicas of
-- the queue. The HTTP client is a parameter: none is a request without an answer.
pub mod FirstSuccess
use flyc.Base.{
  ℕ, ◌++◌, Bool, true, false, List, [], ◌∷◌, Option, none, some, ◌==◌, if◌then◌else◌, Str, codes,
  split, cut, has_prefix, trim_space,
}
use flyc.Compile.{RoomConfig}

pub record Call : Type 0 where
  pub method : Str
  pub url : Str
  pub authorization : Str
  pub body : Option RoomConfig

pub record Http : Type 1 where
  pub Net : Type 0
  pub send : Call → Net → Option (ℕ × Str) × Net

pub record Client : Type 0 where
  pub token : Str
  pub hosts : List Str

pub data PutError : Type 0 where
  unreachable : PutError
  refused : Str → ℕ → Str → PutError
  no_host : PutError

unfoldable set_hosts : List Str → Client → Client
set_hosts hosts c = record c { hosts = hosts }

-- One entry of "name=ip:port,name=ip:port"; an empty one is left out.
abbrev address : Str → Option (Str × Str) → Str
address part none = part
address part (some (name, addr)) = addr

abbrev with_scheme : Str → Str
with_scheme part = if has_prefix (codes "http") part then part else codes "http://" ++ part

abbrev parsed_host : Str → List Str → List Str
parsed_host [] rest = rest
parsed_host (c ∷ part) rest = with_scheme (address (c ∷ part) (cut b'=' (c ∷ part))) ∷ rest

parse_parts : List Str → List Str
parse_parts [] = []
parse_parts (p ∷ ps) = parsed_host (trim_space p) (parse_parts ps)

unfoldable parse_hosts : Str → List Str
unfolding parse_parts
parse_hosts s = parse_parts (split b',' s)

module _ (H : Http) where
  open H use {Net, send}

  pub put_call : Client → Str → RoomConfig → Str → Call
  put_call c id cfg h = record {
    method = codes "PUT";
    url = h ++ (codes "/internal/rooms/" ++ id);
    authorization = codes "Bearer " ++ c.token;
    body = some cfg;
  }

  -- The loop of PutRoom with its last error; `none` is success.
  pub put_hosts : Client → Str → RoomConfig → List Str → PutError → Net → Option PutError × Net
  unfolding put_call
  put_hosts c id cfg [] last net = (some last, net)
  put_hosts c id cfg (h ∷ hs) last net =
      let (answer, net') = send (put_call c id cfg h) net in
      let unanswered = put_hosts c id cfg hs unreachable net' in
      elim answer [
        | none ↦ unanswered
        | some (code, text) ↦
            let rest = put_hosts c id cfg hs (refused h code (trim_space text)) net' in
            if code == 200 then (none, net') else rest
      ]

  unfoldable pub put_room : Client → Str → RoomConfig → Net → Option PutError × Net
  unfolding put_hosts
  put_room c id cfg net = put_hosts c id cfg c.hosts no_host net

  -- The loop of Call: the first host that answers.
  call_hosts : Client → Str → Str → List Str → Net → Option (ℕ × Str) × Net
  call_hosts c method path [] net = (none, net)
  call_hosts c method path (h ∷ hs) net =
      let (answer, net') =
        send
          (record {
            method = method;
            url = h ++ path;
            authorization = codes "Bearer " ++ c.token;
            body = none;
          })
          net in
      let rest = call_hosts c method path hs net' in
      elim answer [ none ↦ rest | some a ↦ (some a, net') ]

  unfoldable call : Client → Str → Str → Net → Option (ℕ × Str) × Net
  unfolding call_hosts
  call c method path net = call_hosts c method path c.hosts net
