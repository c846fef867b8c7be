-- ===== src/Tests/RedisServer.antt =====
-- A server in memory, which meets the laws of deckard.Redis: a stand-in for the tests.
use deckard.Common.{
  ◌-◌, ℕ, zero, suc, ◌+◌, ◌≡◌, refl, ap, Bool, true, false, ◌&&◌, Option, none, some, List, [], ◌∷◌,
  if◌then◌else◌, Str, Str_discrete, is_yes, exists, keep, take, arith, inl, length, ◌≤◌,
}
use deckard.Common.Int.{ℤ, pos, negsuc, leb_ℤ, ltb_ℤ}
use deckard.Score.{Score}
use deckard.Redis.{Redis, RedisLaws, repeated, overridden, present, among_ids}

pub record Server : Type 0 where
  pub scores : Str → Str → Option Score
  pub ids : List Str
  pub texts : Str → Option Str

abbrev pub put : Str → Str → Option Score → Server → Server
put key id new s = record s {
  scores = λ k i.
      if is_yes (Str_discrete key k) && is_yes (Str_discrete id i) then new else s.scores k i;
}

unfoldable pub add_pairs : Str → List (Score × Str) → Server → Server × ℕ
add_pairs key [] s = (s, 0)
add_pairs key ((score, id) ∷ pairs) s =
    let known = if among_ids id s.ids then s.ids else id ∷ s.ids in
    let rest = add_pairs key pairs (record (put key id (some score) s) { ids = known }) in
    (rest.0, elim (s.scores key id) [ none ↦ suc rest.1 | some old ↦ rest.1 ])

unfoldable pub remove_members : Str → List Str → Server → Server × ℕ
remove_members key [] s = (s, 0)
remove_members key (id ∷ ids) s =
    let rest = remove_members key ids (put key id none s) in
    (rest.0, present (s.scores key id) + rest.1)

abbrev pub score_or_zero : Option Score → Score
score_or_zero none = pos 0
score_or_zero (some s) = s

-- Members in the order of their scores, by insertion.
unfoldable pub ranked_in : Str → Str → Server → List Str → List Str
ranked_in key id s [] = id ∷ []
ranked_in key id s (j ∷ js) =
    let later = ranked_in key id s js in
    if ltb_ℤ (score_or_zero (s.scores key j)) (score_or_zero (s.scores key id))
    then j ∷ later
    else id ∷ j ∷ js

unfoldable pub ranked : Str → Server → List Str → List Str
unfolding ranked_in
ranked key s [] = []
ranked key s (id ∷ ids) = ranked_in key id s (ranked key s ids)

abbrev pub within : Option Score → Option Score → Option Score → Bool
within lo hi none = false
within lo hi (some score) =
    elim lo as (λ b. Bool) [ none ↦ true | some b ↦ leb_ℤ b score ]
    && elim hi as (λ b. Bool) [ none ↦ true | some b ↦ leb_ℤ score b ]

abbrev pub limited_to : ℤ → List Str → List Str
limited_to (pos n) ids = take n ids
limited_to (negsuc n) ids = ids

unfoldable pub range : Str → Option Score → Option Score → ℤ → Server → List Str
unfolding ranked keep
range key lo hi count s =
    limited_to count (keep (λ id. within lo hi (s.scores key id)) (ranked key s s.ids))

-- The number of ids up to an index, both included, of n.
abbrev pub index_count : ℤ → ℕ → ℤ
index_count (pos i) n = pos (suc i)
index_count (negsuc i) n = pos (n - i)

abbrev pub server : Redis
server = record {
  State = Server;
  zadd = add_pairs;
  zrem = remove_members;
  zscore = λ key id s. s.scores key id;
  zrange = λ key stop s.
      range key none none (index_count stop (length (range key none none (negsuc 0) s))) s;
  zrange_by_score = range;
  zrev_range_by_score = λ key hi lo count s. range key (some lo) (some hi) count s;
  get_key = λ key s. s.texts key;
  set_key = λ key value s. record s {
    scores = λ k i. if is_yes (Str_discrete key k) then none else s.scores k i;
    texts = λ k. if is_yes (Str_discrete key k) then some value else s.texts k;
  };
  del = λ keys s. record s {
    scores = λ k i. if among_ids k keys then none else s.scores k i;
    texts = λ k. if among_ids k keys then none else s.texts k;
  };
  scan = λ pattern s. [];
  run = λ script s. script s;
}

abbrev pub no_members : Server
no_members = record { scores = λ k i. none; ids = []; texts = λ k. none }

scores-add_pairs :
    (key k : Str) (pairs : List (Score × Str)) (id : Str) (s : Server)
    → (add_pairs key pairs s).0.scores k id
      ≡ (if is_yes (Str_discrete key k) then overridden pairs id (s.scores k id) else s.scores k id)
unfolding add_pairs
scores-add_pairs key k [] id s = ground arith
scores-add_pairs key k ((score, i) ∷ pairs) id s =
    let known = if among_ids i s.ids then s.ids else i ∷ s.ids in
    ground
      (arith, scores-add_pairs key k pairs id (record (put key i (some score) s) { ids = known }))

scores-remove_members :
    (key k : Str) (ids : List Str) (id : Str) (s : Server)
    → (remove_members key ids s).0.scores k id
      ≡ (if is_yes (Str_discrete key k) && among_ids id ids then none else s.scores k id)
unfolding remove_members exists
scores-remove_members key k [] id s = ground arith
scores-remove_members key k (i ∷ ids) id s =
    ground (arith, scores-remove_members key k ids id (put key i none s))

among-take :
    (n : ℕ) (id : Str) (ids : List Str) → among_ids id (take n ids) ≡ true → among_ids id ids ≡ true
unfolding take exists
among-take zero id ids h = cc
among-take (suc n) id [] h = cc
among-take (suc n) id (i ∷ ids) h = ground (arith, h, among-take n id ids)

among-limited_to :
    (count : ℤ) (id : Str) (ids : List Str)
    → among_ids id (limited_to count ids) ≡ true
    → among_ids id ids ≡ true
among-limited_to (pos n) id ids h = among-take n id ids h
among-limited_to (negsuc n) id ids h = h

among-keep :
    (p : Str → Bool) (id : Str) (ids : List Str) → among_ids id (keep p ids) ≡ true → p id ≡ true
unfolding keep exists
among-keep p id [] h = cc
among-keep p id (i ∷ ids) h = elim (Str_discrete i id) [
  | yes e ↦ ground (arith, h, ap p e, among-keep p id ids)
  | no e ↦ ground (arith, h, e, among-keep p id ids)
]

within-range :
    (key : Str) (lo hi : Option Score) (count : ℤ) (id : Str) (s : Server)
    → among_ids id (range key lo hi count s) ≡ true
    → within lo hi (s.scores key id) ≡ true
unfolding range
within-range key lo hi count id s h =
    among-keep (λ id. within lo hi (s.scores key id)) id (ranked key s s.ids)
      (among-limited_to count id (keep (λ id. within lo hi (s.scores key id)) (ranked key s s.ids))
        h)

abbrev Found : Option Score → Option Score → Option Score → Type 0
Found lo hi o =
    (score : Score) × (o ≡ some score)
    × (elim lo as (λ b. Bool) [ none ↦ true | some b ↦ leb_ℤ b score ] ≡ true)
    × (elim hi as (λ b. Bool) [ none ↦ true | some b ↦ leb_ℤ score b ] ≡ true)

both : (a b : Bool) → (a && b) ≡ true → (a ≡ true) × (b ≡ true)
both true b h = (refl, h)
both false b h = cc

within-Found : (lo hi o : Option Score) → within lo hi o ≡ true → Found lo hi o
within-Found lo hi none h = cc
within-Found lo hi (some score) h = let (a, b) = both _ _ h in (score, refl, a, b)

length-take_le : (n : ℕ) (ids : List Str) → length (take n ids) ≤ n
unfolding take
length-take_le zero ids = omega arith
length-take_le (suc n) [] = omega arith
length-take_le (suc n) (i ∷ ids) = omega (arith, length-take_le n ids)

length-range :
    (key : Str) (lo hi : Option Score) (count : ℕ) (s : Server)
    → length (range key lo hi (pos count) s) ≤ count
unfolding range
length-range key lo hi count s =
    length-take_le count (keep (λ id. within lo hi (s.scores key id)) (ranked key s s.ids))

pub server_laws : RedisLaws server
unfolding add_pairs remove_members exists repeated
server_laws = record {
  zscore_zadd = scores-add_pairs;
  zadd_one = λ key score id s. refl;
  zscore_zrem = scores-remove_members;
  zrem_one = λ key id s. omega arith;
  zrange_member = λ key stop id s h.
      let f = within-Found none none (s.scores key id) (within-range key none none _ id s h) in
      (f.0, f.1);
  zrange_by_score_member = λ key lo hi count id s h.
      within-Found lo hi (s.scores key id) (within-range key lo hi count id s h);
  zrev_range_by_score_member = λ key hi lo count id s h.
      within-Found (some lo) (some hi) (s.scores key id)
        (within-range key (some lo) (some hi) count id s h);
  zscore_set_key = λ key value k id s. refl;
  zscore_del = λ keys k id s. refl;
  get_set_key = λ key value k s. refl;
  zrange_length = λ key stop s. length-range key none none (suc stop) s;
  zrange_by_score_length = λ key lo hi count s. length-range key lo hi count s;
  zrev_range_by_score_length = λ key hi lo count s. length-range key (some lo) (some hi) count s;
  run_retried = λ script s. (0, inl refl);
}
