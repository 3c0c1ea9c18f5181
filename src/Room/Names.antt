-- ===== src/Room/Names.antt =====
-- Parse, String and Key of queue/internal/room/room.go.
use flyc.Base.{
  ℕ, ◌≡◌, refl, ap, true, false, [], ◌∷◌, some, Str, cut, cut_at_separator, cut_parts,
  separated-injective, drop, Avoids, arith, Option-cases, inl, inr,
}
use flyc.Room.{RoomId, slug_char, slug_rest, is_slug, parse, to_string, key}

abbrev pub IsSlug : Str → Type 0
IsSlug s = is_slug s ≡ true

pub record IsValidId (id : RoomId) : Type 0 where
  pub tenant_slug : IsSlug id.tenant
  pub room_slug : IsSlug id.room

slug_rest-Avoids : (sep : ℕ) → slug_char sep ≡ false → (s : Str) → slug_rest s ≡ true → Avoids sep s
unfolding slug_rest
slug_rest-Avoids sep h [] e = tt
slug_rest-Avoids sep h (c ∷ s) e = (ground arith, slug_rest-Avoids sep h s (ground arith))

IsSlug-Avoids : (sep : ℕ) → slug_char sep ≡ false → (s : Str) → IsSlug s → Avoids sep s
unfolding is_slug
IsSlug-Avoids sep h [] e = tt
IsSlug-Avoids sep h (c ∷ s) e = (ground arith, slug_rest-Avoids sep h s (ground arith))

-- Every identifier whose two parts are slugs is written as a text that parses back to it.
pub parse-to_string : (id : RoomId) → IsValidId id → parse (to_string id) ≡ some id
unfolding parse to_string
parse-to_string id v =
    rw (cut_at_separator b'.' id.tenant id.room (IsSlug-Avoids b'.' refl id.tenant v.tenant_slug))
      (rw (v.tenant_slug, v.room_slug))

-- Whatever text is accepted is the text of the identifier, whose parts are slugs.
pub parse_sound : (s : Str) (id : RoomId) → parse s ≡ some id → (to_string id ≡ s) × IsValidId id
unfolding parse to_string
parse_sound s id e = elim (Option-cases (cut b'.' s)) [
  | inl h ↦ absurd (ground arith)
  | inr ((t, r), h) ↦ ground (arith, cut_parts b'.' s t r h)
]

-- Two keys of valid rooms are equal only if the rooms and the suffixes are.
pub key-injective :
    (id jd : RoomId) (s t : Str)
    → IsValidId id
    → IsValidId jd
    → key id s ≡ key jd t
    → (id ≡ jd) × (s ≡ t)
unfolding key
key-injective id jd s t v w e =
    let (p, q) =
      separated-injective b':' id.tenant _ jd.tenant _
        (IsSlug-Avoids b':' refl id.tenant v.tenant_slug)
        (IsSlug-Avoids b':' refl jd.tenant w.tenant_slug) (ap (drop 3) e) in
    let (p', q') =
      separated-injective b'}' id.room (b':' ∷ s) jd.room (b':' ∷ t)
        (IsSlug-Avoids b'}' refl id.room v.room_slug) (IsSlug-Avoids b'}' refl jd.room w.room_slug)
        q in
    (λ i. record { tenant = p i; room = p' i }, ap (drop 1) q')
