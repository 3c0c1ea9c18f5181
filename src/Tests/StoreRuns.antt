-- ===== src/Tests/StoreRuns.antt =====
-- Runs of the theorems on the store, on the service in memory.
use flyc.Base.{
  ℕ, suc, ◌+◌, ◌≡◌, refl, sym, ap, ◌∙◌, false, List, [], ◌∷◌, some, Str, codes, arith, length,
  length-append, take, drop, take-append-drop, str_eq, str_eq_refl, parse_int, format_int,
}
use flyc.Room.{field, to_string, key, unix, wave}
use flyc.Redis.{Reply, Cmd}
use flyc.Redis.Memory.{Memory, empty, memory, memory-IsLawful}
use flyc.Store.{
  Ticket, acquire, taken, held_by, pop_all, wave_key, new_id, admit_direct, create_ticket,
  get_ticket, mark_admitted, status_admitted, status_waiting,
}
use flyc.Store.Lease.{lock_key, acquire_excluded}
use flyc.Store.Ranking.{PopsSets, pop_all_total}
use flyc.Store.Tickets.{get_ticket-mark_admitted}
use flyc.Tests.Data.{sale, sale_config, noon}

abbrev three : List Str
three = codes "t_a" ∷ codes "t_b" ∷ codes "t_c" ∷ []

length-take-drop : (n : ℕ) (l : List Str) → length (take n l) + length (drop n l) ≡ length l
length-take-drop n l =
    sym (length-append (take n l) (drop n l)) ∙ ap (length {0}) (take-append-drop n l)

empty_take : (n : ℕ) (l : List Str) → take (suc n) l ≡ [] → length l ≡ 0
empty_take n [] e = refl
empty_take n (x ∷ l) e = cc

abbrev memory-PopsSets : PopsSets memory
memory-PopsSets = record {
  size_of = λ d k. length (d.sets_at k);
  pop_succeeds = λ k n d. (
    Reply.texts (take (suc n) (d.sets_at k)) ∷ [],
    (memory.exec (Cmd.spopn k (suc n) ∷ []) d).1,
    refl,
    rw (str_eq_refl k) (length-take-drop (suc n) (d.sets_at k)),
    empty_take n (d.sets_at k),
  );
}

abbrev with_wave : Memory
with_wave = record empty { sets_at = λ k. three }

pop_all_total_example :
    (out : List Str) × (d' : Memory) × (pop_all memory 4 (wave_key sale 7) [] with_wave
      ≡ (some out, d'))
    × (length out ≡ 0 + 3)
    × (length (d'.sets_at (wave_key sale 7)) ≡ 0)
pop_all_total_example =
    pop_all_total memory memory-PopsSets 4 (wave_key sale 7) [] with_wave (omega arith)

abbrev held : Memory
held = record empty { texts_at = λ k. some (codes "a") }

acquire_excluded_example :
    (false ≡ false)
    × ((acquire memory sale (codes "ab") 5 held).1.texts_at (lock_key sale) ≡ some (codes "a"))
acquire_excluded_example =
    acquire_excluded memory memory-IsLawful sale (codes "a") (codes "ab") 5 held
      (acquire memory sale (codes "ab") 5 held).1 false refl (λ e. cc e)
      (unfold acquire taken held_by str_eq in refl)

abbrev given : Ticket
given = record {
  id = new_id (codes "77");
  created = unix noon;
  wave = 0;
  status = status_admitted;
  score = 0;
  dom = codes "shop.example";
  ret = codes "/";
  pass = codes "token";
  exp = 1_700_001_210;
  admitted = unix noon;
}

abbrev after_given : Memory
after_given =
    (admit_direct memory sale (codes "77") (codes "shop.example") (codes "/") (codes "token")
      1_700_001_210 noon empty).1

abbrev waiting : Ticket
waiting = record {
  id = new_id (codes "78");
  created = unix noon;
  wave = 56_666_667;
  status = status_waiting;
  score = 0;
  dom = codes "shop.example";
  ret = codes "/";
  pass = [];
  exp = 0;
  admitted = 0;
}

abbrev after_waiting : Memory
after_waiting =
    (create_ticket memory sale sale_config (codes "78") (codes "shop.example") (codes "/") noon
      empty).1

abbrev after_marked : Memory
after_marked =
    (mark_admitted memory sale waiting.id (codes "token") 1_700_001_210 1_700_000_011
      after_waiting).1

get_ticket-mark_admitted_example :
    (get_ticket memory sale waiting.id after_marked).0
    ≡ some (
        some (record waiting {
          status = status_admitted;
          pass = codes "token";
          exp = 1_700_001_210;
          admitted = 1_700_000_011;
        }))
unfolding create_ticket get_ticket mark_admitted str_eq key parse_int field format_int wave
    to_string
get_ticket-mark_admitted_example = ap some (
    get_ticket-mark_admitted memory memory-IsLawful sale waiting.id (codes "token") 1_700_001_210
      1_700_000_011 after_waiting after_waiting after_marked after_marked waiting
      (some (record waiting {
        status = status_admitted;
        pass = codes "token";
        exp = 1_700_001_210;
        admitted = 1_700_000_011;
      }))
      refl (omega arith) (omega arith) refl refl)
