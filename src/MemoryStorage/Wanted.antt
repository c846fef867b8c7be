-- ===== src/MemoryStorage/Wanted.antt =====
-- Which documents a search of internal/queue/storage/storage.go asks for, and in which order, said apart from the code's tests.
use deckard.Common.{
  suc, Bool, true, false, not, ◌&&◌, ◌||◌, Option, none, some, List, [], ◌∷◌, if◌then◌else◌, ◌≡◌,
  ◌∙◌, Str, Bool-cases, inl, inr, refl, arith, codes, exists,
}
use deckard.Common.Int.{ℤ, negsuc, ltb_ℤ, leb_ℤ, eqb_ℤ}
use deckard.Outcome.{Result, ok, err, panic}
use deckard.Dtime.{Time, Readings}
use deckard.Message.{Message}
use deckard.Strconv.{str_to_int64}
use deckard.Storage.{InternalFilter}
use deckard.MemoryStorage.Query.{
  zero_time, str_eq, is_empty, stored_id, breakpoint_test, and_then, among, not_after, SortKey,
  expiry_date, score, internal_id, unknown, is_expired, matches_internal_filter, sort_key, less_by,
  less,
}

-- The id is greater than the number of the text, or at most it; an empty text asks for nothing.
pub above : Str → Option ℤ → Bool
above [] id = true
above (c ∷ s) none = false
above (c ∷ s) (some i) = elim (str_to_int64 (c ∷ s)) [ none ↦ false | some b ↦ ltb_ℤ b i ]

pub up_to : Str → Option ℤ → Bool
up_to [] id = true
up_to (c ∷ s) none = false
up_to (c ∷ s) (some i) = elim (str_to_int64 (c ∷ s)) [ none ↦ false | some b ↦ leb_ℤ i b ]

-- One of the ids, if there are any.
pub one_of : Option (List Str) → Str → Bool
one_of none id = true
one_of (some []) id = true
one_of (some (i ∷ ids)) id = str_eq i id || exists (λ j. str_eq j id) ids

-- Ascending, and for the direction -1 descending.
pub in_direction : ℤ → ℤ → ℤ → Bool
in_direction direction a b = if eqb_ℤ direction (negsuc 0) then leb_ℤ b a else leb_ℤ a b

module _ {P : Type 0} where
  -- Not over: at the first reading of the clock the date is not past, and it is not the second one.
  pub alive : Time × Time → Message P → Bool
  alive now m = m.timeless || (leb_ℤ now.0 m.expiry_date && not (eqb_ℤ m.expiry_date now.1))

  -- A date in the filter asks for the messages that are over by then.
  pub in_time : Option Time → Time × Time → Message P → Bool
  in_time none now m = alive now m
  in_time (some t) now m = leb_ℤ m.expiry_date t

  pub wanted_by : Option InternalFilter → Time × Time → Message P → Bool
  wanted_by none now m = alive now m
  wanted_by (some f) now m =
      (is_empty f.queue || str_eq m.queue f.queue)
      && (is_empty f.queue_prefix || str_eq m.queue_prefix f.queue_prefix)
      && one_of f.ids m.id
      && above f.internal_id_breakpoint_gt m.internal_id
      && up_to f.internal_id_breakpoint_lte m.internal_id
      && in_time f.expiry_date now m

  -- Of the messages, the wanted ones.
  unfoldable pub all_wanted : Readings → Option InternalFilter → List (Message P) → List (Message P)
  all_wanted now f [] = []
  all_wanted now f (m ∷ ms) =
      let rest = all_wanted (λ i. now (suc i)) f ms in
      if wanted_by f (now 0) m then m ∷ rest else rest

  -- The second message may follow the first: the first key of the order that is known decides, but for an expiry date
  -- that neither has, and without one the internal ids.
  pub follows : List (Str × ℤ) → Message P → Message P → Bool
  follows [] x y = leb_ℤ (stored_id x) (stored_id y)
  follows ((key, direction) ∷ keys) x y =
      let later = follows keys x y in
      if str_eq key (codes "score")
      then in_direction direction x.score y.score
      else if str_eq key (codes "_id")
      then in_direction direction (stored_id x) (stored_id y)
      else if str_eq key (codes "expiry_date")
          && not (eqb_ℤ x.expiry_date zero_time && eqb_ℤ y.expiry_date zero_time)
      then in_direction direction x.expiry_date y.expiry_date
      else later

  unfoldable pub Sorted : List (Str × ℤ) → List (Message P) → Type 0
  Sorted keys [] = Unit
  Sorted keys (x ∷ []) = Unit
  Sorted keys (x ∷ y ∷ ys) = (follows keys x y ≡ true) × Sorted keys (y ∷ ys)

-- The filter has an expiry date.
abbrev pub dated : Option InternalFilter → Bool
dated none = false
dated (some f) = elim f.expiry_date [ none ↦ false | some t ↦ true ]

-- The filter's answer, where it has one.
abbrev pub matched : Result Bool → Bool
matched r = elim r as (λ r. Bool) [ ok b ↦ b | err e ↦ false | panic ↦ false ]

matched-and_then : (r s : Result Bool) → matched (and_then r s) ≡ (matched r && matched s)
matched-and_then (ok true) s = refl
matched-and_then (ok false) s = refl
matched-and_then (err e) s = refl
matched-and_then panic s = refl

matched-above :
    (t : Str) (i : Option ℤ) → matched (breakpoint_test (λ j b. ltb_ℤ b j) i t) ≡ above t i
unfolding breakpoint_test above
matched-above [] i = refl
matched-above (c ∷ t) none = refl
matched-above (c ∷ t) (some i) = ground arith

matched-up_to :
    (t : Str) (i : Option ℤ) → matched (breakpoint_test (λ j b. leb_ℤ j b) i t) ≡ up_to t i
unfolding breakpoint_test up_to
matched-up_to [] i = refl
matched-up_to (c ∷ t) none = refl
matched-up_to (c ∷ t) (some i) = ground arith

among-one_of : (ids : Option (List Str)) (id : Str) → among ids id ≡ one_of ids id
unfolding exists one_of
among-one_of none id = refl
among-one_of (some []) id = refl
among-one_of (some (i ∷ ids)) id = ground arith

in_direction-ltb :
    (direction a b : ℤ)
    → (if eqb_ℤ direction (negsuc 0) then ltb_ℤ a b else ltb_ℤ b a) ≡ false
    → in_direction direction a b ≡ true
unfolding in_direction
in_direction-ltb direction a b h = ground arith

module _ {P : Type 0} where
  not_expired-alive : (now : Time × Time) (m : Message P) → not (is_expired now m) ≡ alive now m
  unfolding is_expired alive
  not_expired-alive now m = ground arith

  -- What one key asks, with what the later ones do.
  follows_by : SortKey → ℤ → Message P → Message P → Bool → Bool
  follows_by score direction x y later = in_direction direction x.score y.score
  follows_by internal_id direction x y later = in_direction direction (stored_id x) (stored_id y)
  follows_by expiry_date direction x y later =
      if eqb_ℤ x.expiry_date zero_time && eqb_ℤ y.expiry_date zero_time
      then later
      else in_direction direction x.expiry_date y.expiry_date
  follows_by unknown direction x y later = later

  follows-follows_by :
      (key : Str) (direction : ℤ) (keys : List (Str × ℤ)) (x y : Message P)
      → follows ((key, direction) ∷ keys) x y
        ≡ follows_by (sort_key key) direction x y (follows keys x y)
  unfolding follows follows_by sort_key
  follows-follows_by key direction keys x y = ground arith

  key-follows_by :
      (k : SortKey) (direction : ℤ) (x y : Message P) (before after : Bool)
      → (elim (less_by k (eqb_ℤ direction (negsuc 0)) y x) as (λ o. Bool) [
        | none ↦ before
        | some l ↦ l
      ])
        ≡ false
      → (before ≡ false → after ≡ true)
      → follows_by k direction x y after ≡ true
  unfolding less_by follows_by
  key-follows_by score direction x y before after h g = in_direction-ltb direction x.score y.score h
  key-follows_by internal_id direction x y before after h g =
      in_direction-ltb direction (stored_id x) (stored_id y) h
  key-follows_by expiry_date direction x y before after h g =
      elim (Bool-cases (eqb_ℤ x.expiry_date zero_time && eqb_ℤ y.expiry_date zero_time)) [
        | inl e ↦ ground (arith, g)
        | inr e ↦
            let l : (if eqb_ℤ direction (negsuc 0)
                  then ltb_ℤ x.expiry_date y.expiry_date
                  else ltb_ℤ y.expiry_date x.expiry_date)
                ≡ false =
              ground arith in
            rw e (in_direction-ltb direction x.expiry_date y.expiry_date l)
      ]
  key-follows_by unknown direction x y before after h g = g h

  pub less-follows :
      (keys : List (Str × ℤ)) (x y : Message P) → less keys y x ≡ false → follows keys x y ≡ true
  unfolding less follows
  less-follows [] x y h = ground arith
  less-follows ((key, direction) ∷ keys) x y h =
      follows-follows_by key direction keys x y
      ∙ key-follows_by (sort_key key) direction x y (less keys y x) (follows keys x y) h
          (less-follows keys x y)

  -- The code's test of a document, with the clock read if the filter has no date.
  pub filter-wanted_by :
      (now : Time × Time) (f : Option InternalFilter) (m : Message P)
      → (not (not (dated f) && is_expired now m) && matched (matches_internal_filter m f))
        ≡ wanted_by f now m
  unfolding matches_internal_filter wanted_by in_time
  filter-wanted_by now none m = ground (arith, not_expired-alive now m)
  filter-wanted_by now (some f) m = ground (
    arith,
    not_expired-alive now m,
    among-one_of f.ids m.id,
    matched-above f.internal_id_breakpoint_gt m.internal_id,
    matched-up_to f.internal_id_breakpoint_lte m.internal_id,
    matched-and_then (breakpoint_test (λ i b. ltb_ℤ b i) m.internal_id f.internal_id_breakpoint_gt)
        (and_then (breakpoint_test (λ i b. leb_ℤ i b) m.internal_id f.internal_id_breakpoint_lte)
          (ok (not_after m.expiry_date f.expiry_date))),
    matched-and_then (breakpoint_test (λ i b. leb_ℤ i b) m.internal_id f.internal_id_breakpoint_lte)
        (ok (not_after m.expiry_date f.expiry_date)),
  )
