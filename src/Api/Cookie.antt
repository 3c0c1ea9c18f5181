-- ===== src/Api/Cookie.antt =====
-- The signed cookie of a ticket, in queue/internal/api/api.go.
use flyc.Base.{
  ◌≡◌, refl, ap, ◌∙◌, ◌≢◌, inl, inr, [], ◌∷◌, ◌++◌, Option, some, Str, str_eq, str_eq_refl,
  str_eq→eq, cut, cut_at_separator, cut_parts, Avoids, arith, Bool-cases, Option-cases,
}
use mathlib.Core.Option.{some-injective}
use flyc.Room.{RoomId}
use flyc.Api.{Web, Options, sign_ticket, verify_ticket, checked_mark, ticket_mark}

module _ (W : Web) (o : Options) (id : RoomId) where
  -- A cookie that was signed for a room and a ticket, whose identifier is not empty and has no dot,
  -- is accepted for that room and gives the ticket.
  pub verify_ticket-sign_ticket :
      (tid : Str)
      → tid ≢ []
      → Avoids b'.' tid
      → verify_ticket W o id (sign_ticket W o id tid) ≡ some tid
  unfolding verify_ticket sign_ticket
  verify_ticket-sign_ticket [] ne a = absurd (ne refl)
  verify_ticket-sign_ticket (c ∷ tid) ne a =
      rw (cut_at_separator b'.' (c ∷ tid) _ a) (rw (str_eq_refl _))

  checked_mark_sound :
      (p : Str × Str) (tid : Str)
      → checked_mark W o id (some p) ≡ some tid
      → (p ≡ (tid, ticket_mark W o id tid)) × (tid ≢ [])
  unfolding checked_mark
  checked_mark_sound ([], sig) tid e = cc
  checked_mark_sound (c ∷ t, sig) tid e =
      elim (Bool-cases (str_eq sig (ticket_mark W o id (c ∷ t)))) [
        | inl same ↦
            let tail : sig ≡ ticket_mark W o id (c ∷ t) = str_eq→eq sig _ same in
            let e' : ◌≡◌ {A = Option Str} (some (c ∷ t)) (some tid) = rw same at e in
            let mine : c ∷ t ≡ tid = some-injective (c ∷ t) tid e' in
            (λ i. (mine i, (tail ∙ ap (ticket_mark W o id) mine) i), λ z. ground (arith, mine, z))
        | inr differ ↦ absurd (ground arith)
      ]

  -- An accepted cookie is the very text that the server signs for its ticket in this room.
  pub verify_ticket_sound :
      (v tid : Str) → verify_ticket W o id v ≡ some tid → (v ≡ sign_ticket W o id tid) × (tid ≢ [])
  unfolding verify_ticket sign_ticket
  verify_ticket_sound v tid e = elim (Option-cases (cut b'.' v)) [
    | inl missing ↦ absurd (ground arith)
    | inr (p, found) ↦
        let (q, ne) = checked_mark_sound p tid (rw found at e) in
        let whole : v ≡ p.0 ++ b'.' ∷ p.1 = cut_parts b'.' v p.0 p.1 found in
        (whole ∙ ap (λ (x : Str × Str). x.0 ++ b'.' ∷ x.1) q, ne)
  ]
