-- ===== src/Tests/PassRuns.antt =====
-- Runs of the theorems on passes.
use flyc.Base.{
  ◌*◌, ◌≡◌, refl, ap, true, [], ◌∷◌, ◌++◌, has_prefix, Option, none, some, Str, codes, str_eq,
  to_lower,
}
use flyc.Room.{minute}
use flyc.Pass.{Claims, payload_of, mint}
use flyc.Pass.RoundTrip.{verify-mint, verify_sound, IsGenuine}
use flyc.Control.{Db, Domain}
use flyc.Control.Access.{Principal, no_one}
use flyc.Control.Rooms.{find_domain}
use flyc.Control.PassCheck.{KeyRow, usable, accepted_by, of_claims, verify_pass, verify_pass_sound}
use flyc.Tests.Codec.{toy, toy-IsSound}
use flyc.Tests.Data.{noon}

abbrev claims : Claims
claims = record {
  sub = codes "t_a";
  tenant = codes "acme";
  dom = codes "Shop.example";
  room = codes "acme.sale";
  ttl = 20 * minute;
}

abbrev or_nothing : Option Str → Str
or_nothing none = []
or_nothing (some s) = s

abbrev minted : Str
minted = or_nothing (mint toy (codes "key") (codes "k1") claims [] 5 noon)

verify_sound_example :
    IsGenuine toy (codes "key") minted [] noon (payload_of (codes "k1") claims [] noon)
unfolding mint payload_of str_eq
verify_sound_example =
    verify_sound toy [] noon (codes "key") minted (payload_of (codes "k1") claims [] noon) (
      verify-mint toy toy-IsSound (codes "key") (codes "key") (codes "k1") [] [] minted claims
        (codes "key") 5 noon noon refl refl refl)

abbrev acme : Principal
acme = record no_one { tenant_id = codes "t1"; tenant = codes "acme" }

abbrev signing_key : KeyRow
signing_key = record { public_pem = codes "key"; active = true; retired_at = none }

abbrev shop_db : Db
shop_db = record {
  tables = record { users = []; sessions = [] };
  tenants = [];
  memberships = [];
  keys = [];
  domains =
      record {
        id = codes "d1";
        tenant_id = codes "t1";
        fqdn = codes "shop.example";
        mode = codes "dns";
        tls = codes "auto";
      }
      ∷ [];
  backends = [];
  rooms = [];
}

verify_pass_sound_example :
    ((k : KeyRow) × (usable noon k ≡ true)
      × IsGenuine toy k.public_pem minted
          (to_lower (codes "shop.example"))
          noon
          (payload_of (codes "k1") claims [] noon))
    × ((d : Domain) × (find_domain (codes "t1") (codes "shop.example") shop_db.domains ≡ some d))
    × (has_prefix (codes "acme" ++ codes ".") (codes "acme.sale") ≡ true)
unfolding mint payload_of str_eq verify_pass find_domain has_prefix to_lower usable
verify_pass_sound_example =
    verify_pass_sound toy true true acme minted (codes "shop.example") noon (signing_key ∷ [])
      shop_db (payload_of (codes "k1") claims [] noon)
      (ap (λ v. of_claims toy true acme shop_db.domains (accepted_by toy v none))
        (verify-mint toy toy-IsSound (codes "key") (codes "key") (codes "k1") (codes "shop.example")
          [] minted claims (codes "key") 5 noon noon refl refl refl))
