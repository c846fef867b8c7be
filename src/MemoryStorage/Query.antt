-- ===== src/MemoryStorage/Query.antt =====
-- The reads of internal/queue/storage/memory_storage.go: filters, `Find`, `Count` and the lists of queues.
use deckard.Common.{
  ℕ, suc, Bool, true, false, not, ◌&&◌, ◌||◌, Option, none, some, List, [], ◌∷◌, if◌then◌else◌, Str,
  Str_discrete, is_yes, map, exists, take, codes,
}
use deckard.Common.Int.{ℤ, pos, negsuc, ltb_ℤ, leb_ℤ, eqb_ℤ}
use deckard.Common.Maps.{Map}
use deckard.Outcome.{Result, ok, err, panic, breakpoint_not_int64}
use deckard.Dtime.{Readings, Time}
use deckard.Message.{Message}
use deckard.Strconv.{str_to_int64}
use deckard.Storage.{InternalFilter, FindOptions}
use deckard.MemoryStorage.{MemoryStorage}

-- `time.Time{}`: January 1 of year 1.
abbrev pub zero_time : Time
zero_time = negsuc 62135596799999999999

abbrev pub str_eq : Str → Str → Bool
str_eq s t = is_yes (Str_discrete s t)

abbrev pub is_empty : Str → Bool
is_empty s = str_eq s []

-- A filter that tests an internal id: the text, and the test of the id against its number. Reading the id of
-- a message that has none panics.
unfoldable pub breakpoint_test : (ℤ → ℤ → Bool) → Option ℤ → Str → Result Bool
breakpoint_test test internal_id [] = ok true
breakpoint_test test none (c ∷ s) = panic
breakpoint_test test (some i) (c ∷ s) = elim (str_to_int64 (c ∷ s)) [
  | none ↦ err breakpoint_not_int64
  | some b ↦ ok (test i b)
]

-- Go on with the later tests if this one passes.
abbrev pub and_then : Result Bool → Result Bool → Result Bool
and_then (ok true) later = later
and_then (ok false) later = ok false
and_then (err e) later = err e
and_then panic later = panic

abbrev pub among : Option (List Str) → Str → Bool
among none id = true
among (some []) id = true
among (some (i ∷ ids)) id = exists (λ j. str_eq j id) (i ∷ ids)

abbrev pub not_after : Time → Option Time → Bool
not_after t none = true
not_after t (some u) = leb_ℤ t u

-- Expired messages are left out unless the filter is about expiry dates.
abbrev pub by_expiry : Option FindOptions → Bool
by_expiry none = false
by_expiry (some opt) = elim opt.internal_filter [
  | none ↦ false
  | some f ↦ elim f.expiry_date [ none ↦ false | some t ↦ true ]
]

abbrev pub natural : ℤ → ℕ
natural (pos n) = n
natural (negsuc n) = 0

-- Each text once.
unfoldable pub distinct : List Str → List Str
distinct [] = []
distinct (s ∷ ss) =
    let rest = distinct ss in if exists (λ t. str_eq s t) rest then rest else s ∷ rest

pub data SortKey : Type 0 where
  expiry_date score internal_id unknown : SortKey

unfoldable pub sort_key : Str → SortKey
sort_key key =
    if str_eq key (codes "expiry_date")
    then expiry_date
    else if str_eq key (codes "score")
    then score
    else if str_eq key (codes "_id")
    then internal_id
    else unknown

module _ {P : Type 0} where
  unfoldable pub matches_internal_filter : Message P → Option InternalFilter → Result Bool
  unfolding exists
  matches_internal_filter message none = ok true
  matches_internal_filter message (some f) =
      if not (is_empty f.queue) && not (str_eq message.queue f.queue)
      then ok false
      else if not (is_empty f.queue_prefix) && not (str_eq message.queue_prefix f.queue_prefix)
      then ok false
      else if not (among f.ids message.id)
      then ok false
      else and_then
          (breakpoint_test (λ i b. ltb_ℤ b i) message.internal_id f.internal_id_breakpoint_gt)
          (and_then
            (breakpoint_test (λ i b. leb_ℤ i b) message.internal_id f.internal_id_breakpoint_lte)
            (ok (not_after message.expiry_date f.expiry_date)))

  unfoldable pub message_matches_filter : Message P → Option FindOptions → Result Bool
  unfolding matches_internal_filter
  message_matches_filter message none = ok true
  message_matches_filter message (some opt) = matches_internal_filter message opt.internal_filter

  -- `isExpired`, which reads the clock twice.
  unfoldable pub is_expired : Time × Time → Message P → Bool
  is_expired now message =
      not message.timeless && (ltb_ℤ message.expiry_date now.0 || eqb_ℤ message.expiry_date now.1)

  -- The internal id of a stored message, which always has one.
  abbrev pub stored_id : Message P → ℤ
  stored_id message = elim message.internal_id [ none ↦ pos 0 | some i ↦ i ]

  -- What one sort key says of two messages, down if the direction is -1: an expiry date where both are zero says
  -- nothing, nor does a key that is not known.
  unfoldable pub less_by : SortKey → Bool → Message P → Message P → Option Bool
  less_by expiry_date down a b =
      if not (eqb_ℤ a.expiry_date zero_time) || not (eqb_ℤ b.expiry_date zero_time)
      then some
          (if down then ltb_ℤ b.expiry_date a.expiry_date else ltb_ℤ a.expiry_date b.expiry_date)
      else none
  less_by score down a b = some (if down then ltb_ℤ b.score a.score else ltb_ℤ a.score b.score)
  less_by internal_id down a b =
      some (if down then ltb_ℤ (stored_id b) (stored_id a) else ltb_ℤ (stored_id a) (stored_id b))
  less_by unknown down a b = none

  -- The first key that says something decides, and at last the internal id.
  unfoldable pub less : List (Str × ℤ) → Message P → Message P → Bool
  unfolding less_by sort_key
  less [] a b = ltb_ℤ (stored_id a) (stored_id b)
  less ((key, value) ∷ keys) a b =
      let later = less keys a b in
      elim (less_by (sort_key key) (eqb_ℤ value (negsuc 0)) a b) [ none ↦ later | some l ↦ l ]

  -- A stable sort.
  unfoldable pub insert_sorted : List (Str × ℤ) → Message P → List (Message P) → List (Message P)
  unfolding less
  insert_sorted keys x [] = x ∷ []
  insert_sorted keys x (y ∷ ys) = if less keys y x then y ∷ insert_sorted keys x ys else x ∷ y ∷ ys

  unfoldable pub sort_stable : List (Str × ℤ) → List (Message P) → List (Message P)
  unfolding insert_sorted
  sort_stable keys [] = []
  sort_stable keys (x ∷ xs) = insert_sorted keys x (sort_stable keys xs)

  abbrev pub cons_result : Message P → Result (List (Message P)) → Result (List (Message P))
  cons_result m (ok ms) = ok (m ∷ ms)
  cons_result m (err e) = err e
  cons_result m panic = panic

  -- The loop of `Find` over the documents, with the two readings of the clock for each.
  unfoldable pub select :
      Readings → Option FindOptions → Map (Message P) → Result (List (Message P))
  select now opt [] = ok []
  select now opt ((key, m) ∷ docs) =
      let rest = select (λ i. now (suc i)) opt docs in
      if not (by_expiry opt) && is_expired (now 0) m
      then rest
      else elim (message_matches_filter m opt) [
        | ok matches ↦ if matches then cons_result m rest else rest
        | err e ↦ err e
        | panic ↦ panic
      ]

  abbrev pub sorted_by : Option FindOptions → List (Message P) → List (Message P)
  sorted_by none ms = ms
  sorted_by (some opt) ms = elim opt.sort [ none ↦ ms | some keys ↦ sort_stable keys ms ]

  -- A limit of 0 or less is none.
  abbrev pub limited : Option FindOptions → List (Message P) → List (Message P)
  limited none ms = ms
  limited (some opt) ms = if ltb_ℤ (pos 0) opt.limit then take (natural opt.limit) ms else ms

  unfoldable pub find : Readings → MemoryStorage P → Option FindOptions → Result (List (Message P))
  unfolding select sort_stable
  find now storage opt = elim (select now opt storage.docs) [
    | ok ms ↦ ok (limited opt (sorted_by opt ms))
    | err e ↦ err e
    | panic ↦ panic
  ]

  unfoldable pub count_docs : Option FindOptions → Map (Message P) → ℕ → Result ℕ
  count_docs opt [] n = ok n
  count_docs opt ((key, m) ∷ docs) n =
      let yes_rest = count_docs opt docs (suc n) in
      let no_rest = count_docs opt docs n in
      elim (message_matches_filter m opt) [
        | ok matches ↦ if matches then yes_rest else no_rest
        | err e ↦ err e
        | panic ↦ panic
      ]

  unfoldable pub count_storage : MemoryStorage P → Option FindOptions → Result ℕ
  unfolding count_docs
  count_storage storage opt = count_docs opt storage.docs 0

  unfoldable pub list_queue_names : MemoryStorage P → Result (List Str)
  unfolding distinct
  list_queue_names storage = ok (distinct (map (λ e. e.1.queue) storage.docs))

  unfoldable pub list_queue_prefixes : MemoryStorage P → Result (List Str)
  unfolding distinct
  list_queue_prefixes storage = ok (distinct (map (λ e. e.1.queue_prefix) storage.docs))
