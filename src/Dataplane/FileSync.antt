-- ===== src/Dataplane/FileSync.antt =====
-- CrtListSync and GeneralSync on a load balancer that keeps what it was sent:
-- control/internal/dataplane/client.go.
use flyc.Base.{
  ℕ, ◌≡◌, refl, sym, ap, ◌∙◌, inl, inr, Bool, true, false, [], some, ◌==◌, Str, codes, str_eq_refl,
  trim_space, Option-cases,
}
use flyc.Dataplane.Requests.{no_body, Request, Reply, ok, failed, no_answer, Http, Json, Client}
use flyc.Dataplane.Operations.{request}
use flyc.Dataplane.Files.{
  general_path, general_sync, is_same, sent, sent_as, decided, create_general, replace_general,
}

module _ (H : Http) (J : Json) (c : Client) where
  abbrev read_general : Str → Request
  read_general name = request H J c (codes "GET") (general_path H J c name) [] no_body

  -- A file that was sent is read back, and reading changes no file.
  pub record FileService : Type 0 where
    pub created_law :
        (name content : Str) (n : H.Net) (r : Str)
        → (create_general H J c name content n).0 ≡ ok r
        → (H.send (read_general name) (create_general H J c name content n).1).0
          ≡ some (200, content)
    pub replaced_law :
        (name content : Str) (n : H.Net) (r : Str)
        → (replace_general H J c name content n).0 ≡ ok r
        → (H.send (read_general name) (replace_general H J c name content n).1).0
          ≡ some (200, content)
    pub read_law :
        (name : Str) (n : H.Net)
        → (H.send (read_general name) (H.send (read_general name) n).1).0
          ≡ (H.send (read_general name) n).0

  no_reply : (b : Bool) → ◌≡◌ {A = Reply Bool} (failed no_answer) (ok b) → ⊥
  no_reply b h = cc

  -- A reading of the content.
  unchanged :
      (name content : Str) (n : H.Net) (status : ℕ) (received : Str)
      → (H.send (read_general name) n).0 ≡ some (status, received)
      → is_same H J c status received content ≡ true
      → (general_sync H J c name content n).0 ≡ ok false
  unfolding general_sync
  unchanged name content n status received h e =
      let n1 = (H.send (read_general name) n).1 in
      ap (λ o. (decided H J c name content (o, n1)).0) h
      ∙ ap (λ b. (sent_as H J c b (status == 404) name content n1).0) e

  same_content : (content : Str) → is_same H J c 200 content content ≡ true
  same_content content = str_eq_refl (trim_space content)

  sent_ok : (p : Reply Str) (b : Bool) → sent H J c p ≡ ok b → (r : Str) × (p ≡ ok r)
  sent_ok (ok r) b h = (r, refl)
  sent_ok (failed e) b h = absurd cc

  sent_again :
      (S : FileService) (name content : Str) (same missing : Bool) (n : H.Net) (b : Bool)
      → (same ≡ true → (general_sync H J c name content n).0 ≡ ok false)
      → (sent_as H J c same missing name content n).0 ≡ ok b
      → (general_sync H J c name content (sent_as H J c same missing name content n).1).0 ≡ ok false
  sent_again S name content true missing n b again h = again refl
  sent_again S name content false true n b again h =
      let (r, good) = sent_ok (create_general H J c name content n).0 b h in
      unchanged name content (create_general H J c name content n).1 200 content
        (S.created_law name content n r good) (same_content content)
  sent_again S name content false false n b again h =
      let (r, good) = sent_ok (replace_general H J c name content n).0 b h in
      unchanged name content (replace_general H J c name content n).1 200 content
        (S.replaced_law name content n r good) (same_content content)

  -- A general file is written once: behind a GeneralSync that ended well, another one of the
  -- same content writes nothing and reports no change.
  pub general_sync-settles :
      (S : FileService) (name content : Str) (n : H.Net) (b : Bool)
      → (general_sync H J c name content n).0 ≡ ok b
      → (general_sync H J c name content (general_sync H J c name content n).1).0 ≡ ok false
  unfolding general_sync
  general_sync-settles S name content n b h =
      let n1 = (H.send (read_general name) n).1 in
      elim (Option-cases (H.send (read_general name) n).0) [
        | inl none_read ↦
            absurd
              (no_reply b (sym (ap (λ o. (decided H J c name content (o, n1)).0) none_read) ∙ h))
        | inr ((status, received), read) ↦
            let step = ap (λ o. decided H J c name content (o, n1)) read in
            ap (λ m. (general_sync H J c name content m.1).0) step
            ∙ sent_again S name content (is_same H J c status received content) (status == 404) n1 b
                (λ e. unchanged name content n1 status received (S.read_law name n ∙ read) e)
                (sym (ap (λ m. m.0) step) ∙ h)
      ]
