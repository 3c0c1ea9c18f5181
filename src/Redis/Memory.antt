-- ===== src/Redis/Memory.antt =====
-- A Redis service in memory, for the concrete runs: it never fails, and its strings and hashes obey
-- the laws.
use flyc.Base.{
  ℕ, ◌+◌, ◌≡◌, refl, ap, sym, ◌∙◌, List, [], ◌∷◌, ◌++◌, Option, none, some, ltb, leb, length, take,
  drop, if◌then◌else◌, Str, str_eq, str_eq_refl, Bool, true, false, ◌||◌, Bool-cases, inl, inr,
  arith,
}
use flyc.Room.{Hash}
use flyc.Redis.{
  Redis, Cmd, hgetall, sadd, smembers, scard, spopn, setnx, get, del, zadd, zremrangebyscore, zcard,
  zfirst, zpopmin, zrank, publish, Reply, nil, int, texts, fields, scored, reply_at, Event,
}
use flyc.Redis.Laws.{
  IsLawful, after_text, after_hash, text_after, hash_after, setnx_reply, get_reply,
}

pub record Memory : Type 0 where
  pub texts_at : Str → Option Str
  pub hashes_at : Str → Hash
  pub sets_at : Str → List Str
  pub zsets_at : Str → List (ℕ × Str)
  pub published : List Event

abbrev pub empty : Memory
empty = record {
  texts_at = λ k. none;
  hashes_at = λ k. [];
  sets_at = λ k. [];
  zsets_at = λ k. [];
  published = [];
}

abbrev zdrop : Str → List (ℕ × Str) → List (ℕ × Str)
zdrop m [] = []
zdrop m ((s, x) ∷ zs) = let rest = zdrop m zs in if str_eq x m then rest else (s, x) ∷ rest

abbrev zput : ℕ → Str → List (ℕ × Str) → List (ℕ × Str)
zput s m [] = (s, m) ∷ []
zput s m ((t, x) ∷ zs) =
    let rest = zput s m zs in if ltb s t then (s, m) ∷ (t, x) ∷ zs else (t, x) ∷ rest

abbrev zputs : List (ℕ × Str) → List (ℕ × Str) → List (ℕ × Str)
zputs [] zs = zs
zputs ((s, m) ∷ new) zs = zputs new (zput s m (zdrop m zs))

abbrev above : ℕ → List (ℕ × Str) → List (ℕ × Str)
above n [] = []
above n ((s, x) ∷ zs) = let rest = above n zs in if leb s n then rest else (s, x) ∷ rest

abbrev place_of : ℕ → Str → List (ℕ × Str) → Reply
place_of i m [] = nil
place_of i m ((s, x) ∷ zs) = let rest = place_of (i + 1) m zs in if str_eq x m then int i else rest

abbrev after_set : Cmd → Str → List Str → List Str
after_set (sadd k m) j s = if str_eq k j then s ++ m ∷ [] else s
after_set (spopn k n) j s = if str_eq k j then drop n s else s
after_set (del k) j s = if str_eq k j then [] else s
after_set _ j s = s

abbrev after_zset : Cmd → Str → List (ℕ × Str) → List (ℕ × Str)
after_zset (zadd k new) j zs = if str_eq k j then zputs new zs else zs
after_zset (zremrangebyscore k n) j zs = if str_eq k j then above n zs else zs
after_zset (zpopmin k n) j zs = if str_eq k j then drop n zs else zs
after_zset (del k) j zs = if str_eq k j then [] else zs
after_zset _ j zs = zs

abbrev after_events : Cmd → List Event → List Event
after_events (publish k ev) es = ev ∷ es
after_events _ es = es

abbrev step : Cmd → Memory → Memory
step c m = record {
  texts_at = λ j. after_text c j (m.texts_at j);
  hashes_at = λ j. after_hash c j (m.hashes_at j);
  sets_at = λ j. after_set c j (m.sets_at j);
  zsets_at = λ j. after_zset c j (m.zsets_at j);
  published = after_events c m.published;
}

abbrev reply : Cmd → Memory → Reply
reply (hgetall k) m = fields (m.hashes_at k)
reply (smembers k) m = texts (m.sets_at k)
reply (scard k) m = int (length (m.sets_at k))
reply (spopn k n) m = texts (take n (m.sets_at k))
reply (setnx k v ttl) m = setnx_reply (m.texts_at k)
reply (get k) m = get_reply (m.texts_at k)
reply (zcard k) m = int (length (m.zsets_at k))
reply (zfirst k) m = scored (take 1 (m.zsets_at k))
reply (zpopmin k n) m = scored (take n (m.zsets_at k))
reply (zrank k x) m = place_of 0 x (m.zsets_at k)
reply _ m = int 1

abbrev replies : List Cmd → Memory → List Reply
replies [] m = []
replies (c ∷ cs) m = reply c m ∷ replies cs (step c m)

abbrev steps : List Cmd → Memory → Memory
steps [] m = m
steps (c ∷ cs) m = steps cs (step c m)

abbrev pub memory : Redis
memory = record { Db = Memory; exec = λ cs m. (some (replies cs m), steps cs m) }

pub steps_text :
    (cs : List Cmd) (m : Memory) (j : Str)
    → (steps cs m).texts_at j ≡ text_after cs j (m.texts_at j)
steps_text [] m j = refl
steps_text (c ∷ cs) m j = steps_text cs (step c m) j

pub steps_hash :
    (cs : List Cmd) (m : Memory) (j : Str)
    → (steps cs m).hashes_at j ≡ hash_after cs j (m.hashes_at j)
steps_hash [] m j = refl
steps_hash (c ∷ cs) m j = steps_hash cs (step c m) j

abbrev first_reply : Option (List Reply) → Reply
first_reply none = nil
first_reply (some rs) = reply_at rs 0

abbrev pub memory-IsLawful : IsLawful memory
memory-IsLawful = record {
  text_of = λ m. m.texts_at;
  hash_of = λ m. m.hashes_at;
  exec_text = λ cs rs d d' j e. ap (λ p. p.1.texts_at j) (sym e) ∙ steps_text cs d j;
  exec_hash = λ cs rs d d' j e. ap (λ p. p.1.hashes_at j) (sym e) ∙ steps_hash cs d j;
  setnx_replies = λ k v ttl rs d d' e. ap (λ p. first_reply p.0) (sym e);
  get_replies = λ k rs d d' e. ap (λ p. first_reply p.0) (sym e);
  hgetall_replies = λ k rs d d' e. ap (λ p. first_reply p.0) (sym e);
}

-- Whether a text is a member of a sorted set.
abbrev pub held : Str → List (ℕ × Str) → Bool
held x [] = false
held x ((s, y) ∷ zs) = str_eq y x || held x zs

held-zput : (s : ℕ) (x : Str) (zs : List (ℕ × Str)) → held x (zput s x zs) ≡ true
held-zput s x [] = ap (λ b. b || false) (str_eq_refl x)
held-zput s x ((t, y) ∷ zs) = elim (Bool-cases (ltb s t)) [
  | inl e ↦
      ap (λ b. held x (if b then (s, x) ∷ (t, y) ∷ zs else (t, y) ∷ zput s x zs)) e
      ∙ ap (λ b. b || (str_eq y x || held x zs)) (str_eq_refl x)
  | inr e ↦
      let rest = held-zput s x zs in
      ap (λ b. held x (if b then (s, x) ∷ (t, y) ∷ zs else (t, y) ∷ zput s x zs)) e
      ∙ ground (arith, rest)
]

held-place_of :
    (i r : ℕ) (x : Str) (zs : List (ℕ × Str)) → place_of i x zs ≡ int r → held x zs ≡ true
held-place_of i r x [] h = absurd cc
held-place_of i r x ((s, y) ∷ zs) h = elim (Bool-cases (str_eq y x)) [
  | inl e ↦ ap (λ b. b || held x zs) e
  | inr e ↦
      ap (λ b. b || held x zs) e
      ∙ held-place_of (i + 1) r x zs
          (sym (ap (λ b. if◌then◌else◌ {A = Reply} b (int i) (place_of (i + 1) x zs)) e) ∙ h)
]

pub held_after_zadd :
    (k : Str) (s : ℕ) (x : Str) (m : Memory)
    → held x ((steps (zadd k ((s, x) ∷ []) ∷ []) m).zsets_at k) ≡ true
held_after_zadd k s x m =
    ap (λ b. held x (if b then zputs ((s, x) ∷ []) (m.zsets_at k) else m.zsets_at k))
      (str_eq_refl k)
    ∙ held-zput s x (zdrop x (m.zsets_at k))

pub zrank_held :
    (k x : Str) (m : Memory) (r : ℕ)
    → reply_at (replies (zrank k x ∷ []) m) 0 ≡ int r
    → held x (m.zsets_at k) ≡ true
zrank_held k x m r h = held-place_of 0 r x (m.zsets_at k) h
