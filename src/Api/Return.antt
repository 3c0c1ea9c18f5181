-- ===== src/Api/Return.antt =====
-- The return path of a ticket, in queue/internal/api/api.go.
use flyc.Base.{
  ℕ, ◌≡◌, refl, ap, ◌≢◌, ◌⊎◌, inl, inr, Bool, true, false, ◌&&◌, not, [], ◌∷◌, ◌++◌, none, some,
  Str, codes, str_eq, str_eq_iff, has_prefix, to_lower, arith, Bool-cases, Option-cases,
}
use flyc.Api.{
  Web, Url, normalize_return, decoded_return, from_url, first_some, is_empty, path_or_root,
  with_query,
}

abbrev pub is_path : Str → Bool
is_path s = has_prefix (codes "/") s

-- The path of a URL with a host is empty or begins with a slash.
abbrev pub HasRootedPaths : Web → Type 0
HasRootedPaths W =
    (raw : Str) (u : Url)
    → W.parse_url raw ≡ some u
    → (u.escaped_path ≡ []) ⊎ (is_path u.escaped_path ≡ true)

not_empty : (s : Str) → s ≢ [] → is_empty s ≡ false
not_empty [] h = absurd (h refl)
not_empty (c ∷ s) h = refl

module _ (W : Web) where
  abbrev allowed : Url → Str → Bool
  allowed u dom = not (is_empty u.host) && str_eq (to_lower u.hostname) (to_lower dom)

  path_or_root_path : (p : Str) → (p ≡ []) ⊎ (is_path p ≡ true) → is_path (path_or_root W p) ≡ true
  path_or_root_path [] h = unfold has_prefix in refl
  path_or_root_path (c ∷ p) (inl e) = cc
  path_or_root_path (c ∷ p) (inr e) = e

  with_query_path : (p q : Str) → is_path p ≡ true → is_path (with_query W p q) ≡ true
  with_query_path p [] h = h
  with_query_path [] (c ∷ q) h = unfold has_prefix in cc
  with_query_path (x ∷ p) (c ∷ q) h = unfold has_prefix in h

  from_url_path :
      (dom : Str) (u : Url)
      → (u.escaped_path ≡ []) ⊎ (is_path u.escaped_path ≡ true)
      → is_path (from_url W dom (some u)) ≡ true
  unfolding from_url has_prefix
  from_url_path dom u h = elim (Bool-cases (allowed u dom)) [
    | inl same ↦ rw same (
        with_query_path (path_or_root W u.escaped_path) u.raw_query
          (path_or_root_path u.escaped_path h))
    | inr other ↦ rw other refl
  ]

  decoded_return_path :
      HasRootedPaths W → (raw dom : Str) → is_path (decoded_return W raw dom) ≡ true
  unfolding decoded_return
  decoded_return_path rooted raw dom =
      elim (Bool-cases (is_path raw && not (has_prefix (codes "//") raw))) [
        | inl plain ↦ rw plain (ground arith)
        | inr absolute ↦ rw absolute (elim (Option-cases (W.parse_url raw)) [
          | inl bad ↦ rw bad (unfold from_url has_prefix in refl)
          | inr (u, good) ↦ rw good (from_url_path dom u (rooted raw u good))
        ])
      ]

  -- What a ticket stores as its return is always a path of the protected site: it begins with a
  -- slash, whatever the visitor sent.
  pub normalize_return_path :
      HasRootedPaths W → (raw dom : Str) → is_path (normalize_return W raw dom) ≡ true
  unfolding normalize_return
  normalize_return_path rooted [] dom = unfold has_prefix in refl
  normalize_return_path rooted (c ∷ raw) dom =
      decoded_return_path rooted
        (first_some W (W.b64_std (c ∷ raw)) (W.b64_url (c ∷ raw)) (c ∷ raw)) dom

  -- The guard against "//" covers a text that is sent as a path, but not the path of a URL on the
  -- protected domain: that path comes through with both slashes, where base64 does not decode the
  -- text and the URL has no query.
  pub normalize_return_slashes :
      (c : ℕ) (raw dom rest : Str) (u : Url)
      → W.b64_std (c ∷ raw) ≡ none
      → W.b64_url (c ∷ raw) ≡ none
      → c ≢ b'/'
      → W.parse_url (c ∷ raw) ≡ some u
      → u.host ≢ []
      → u.hostname ≡ dom
      → u.escaped_path ≡ codes "//" ++ rest
      → u.raw_query ≡ []
      → normalize_return W (c ∷ raw) dom ≡ codes "//" ++ rest
  unfolding normalize_return has_prefix
  normalize_return_slashes c raw dom rest u a b ne p h n path q =
      rw (a, b)
        (ground (
          arith,
          ne,
          p,
          h,
          n,
          path,
          q,
          str_eq_iff (to_lower u.hostname) (to_lower dom),
          ap to_lower n,
          not_empty u.host h,
        ))
