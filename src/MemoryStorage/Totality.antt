-- ===== src/MemoryStorage/Totality.antt =====
-- On a well-formed storage a search fails only for a breakpoint that is no number.
use deckard.Common.{
  Bool, true, false, not, Bool-cases, inl, inr, refl, ℕ, suc, ◌≡◌, ◌⊎◌, Option, none, some, List,
  [], ◌∷◌, if◌then◌else◌, ◌&&◌, Str, All,
}
use deckard.Common.Int.{ℤ, pos, leb_ℤ, ltb_ℤ}
use deckard.Common.Maps.{Map}
use deckard.Outcome.{Result, ok, err, panic}
use deckard.Dtime.{Readings}
use deckard.Message.{Message}
use deckard.Storage.{InternalFilter, FindOptions}
use deckard.MemoryStorage.{MemoryStorage}
use deckard.Strconv.{str_to_int64}
use deckard.MemoryStorage.Stored.{IsStored, Stored}
use deckard.MemoryStorage.Query.{
  breakpoint_test, matches_internal_filter, message_matches_filter, and_then, is_expired, by_expiry,
  select, cons_result, sorted_by, limited, find, count_docs, count_storage, among, not_after,
  is_empty, str_eq,
}

-- A breakpoint that is empty or reads as a number.
abbrev pub Reads : Str → Type 0
Reads t = (t ≡ []) ⊎ ((b : ℤ) × (str_to_int64 t ≡ some b))

abbrev pub ReadsFilter : Option InternalFilter → Type 0
ReadsFilter none = Unit
ReadsFilter (some f) = Reads f.internal_id_breakpoint_gt × Reads f.internal_id_breakpoint_lte

abbrev pub ReadsAll : Option FindOptions → Type 0
ReadsAll none = Unit
ReadsAll (some o) = ReadsFilter o.internal_filter

-- The result is a value.
abbrev pub Returns {ℓ} : {A : Type ℓ} → Result A → Type ℓ
Returns {A} r = (a : A) × (r ≡ ok a)

breakpoint_test-cons :
    (test : ℤ → ℤ → Bool) (i : ℤ) (c : ℕ) (t : Str) (b : ℤ)
    → str_to_int64 (c ∷ t) ≡ some b
    → breakpoint_test test (some i) (c ∷ t) ≡ ok (test i b)
unfolding breakpoint_test
breakpoint_test-cons test i c t b e = rw (e, breakpoint_test)

breakpoint_test-Returns :
    (test : ℤ → ℤ → Bool) (i : ℤ) (t : Str) → Reads t → Returns (breakpoint_test test (some i) t)
unfolding breakpoint_test
breakpoint_test-Returns test i [] r = (true, refl)
breakpoint_test-Returns test i (c ∷ t) (inl e) = cc
breakpoint_test-Returns test i (c ∷ t) (inr (b, e)) =
    (test i b, breakpoint_test-cons test i c t b e)

and_then-Returns : (r s : Result Bool) → Returns r → Returns s → Returns (and_then r s)
and_then-Returns (ok true) s h k = k
and_then-Returns (ok false) s h k = (false, refl)
and_then-Returns (err e) s h k = cc
and_then-Returns panic s h k = cc

if-Returns : (b : Bool) (r s : Result Bool) → Returns r → Returns s → Returns (if b then r else s)
if-Returns true r s h k = h
if-Returns false r s h k = k

module _ {P : Type 0} where
  matches-Returns :
      (m : Message P) (i : ℤ) (f : InternalFilter)
      → m.internal_id ≡ some i
      → Reads f.internal_id_breakpoint_gt
      → Reads f.internal_id_breakpoint_lte
      → Returns (matches_internal_filter m (some f))
  unfolding matches_internal_filter
  matches-Returns m i f e g l =
      if-Returns (not (is_empty f.queue) && not (str_eq m.queue f.queue)) _ _ (false, refl)
        (if-Returns (not (is_empty f.queue_prefix) && not (str_eq m.queue_prefix f.queue_prefix)) _
          _ (false, refl)
          (if-Returns (not (among f.ids m.id)) _ _ (false, refl)
            (and_then-Returns
              (breakpoint_test (λ j b. ltb_ℤ b j) m.internal_id f.internal_id_breakpoint_gt) _
              (rw e (breakpoint_test-Returns (λ j b. ltb_ℤ b j) i f.internal_id_breakpoint_gt g))
              (and_then-Returns
                (breakpoint_test (λ j b. leb_ℤ j b) m.internal_id f.internal_id_breakpoint_lte)
                (ok (not_after m.expiry_date f.expiry_date))
                (rw e (breakpoint_test-Returns (λ j b. leb_ℤ j b) i f.internal_id_breakpoint_lte l))
                (not_after m.expiry_date f.expiry_date, refl)))))

  matches-none : (m : Message P) → Returns (matches_internal_filter m none)
  unfolding matches_internal_filter
  matches-none m = (true, refl)

  message_matches-Returns :
      (m : Message P) (i : ℤ) (o : Option FindOptions)
      → m.internal_id ≡ some i
      → ReadsAll o
      → Returns (message_matches_filter m o)
  unfolding message_matches_filter
  message_matches-Returns m i none e r = (true, refl)
  message_matches-Returns m i (some o) e r = on_filter o.internal_filter r
    where
      on_filter :
          (f : Option InternalFilter) → ReadsFilter f → Returns (matches_internal_filter m f)
      on_filter none r = matches-none m
      on_filter (some f) r = matches-Returns m i f e r.0 r.1

  round-Returns :
      (skip : Bool) (r : Result Bool) (rest : Result (List (Message P))) (m : Message P)
      → Returns r
      → Returns rest
      → Returns (
          if skip then rest else elim r as (λ r. Result (List (Message P))) [
            | ok matches ↦ if matches then cons_result m rest else rest
            | err e ↦ err e
            | panic ↦ panic
          ])
  round-Returns true r rest m h k = k
  round-Returns false (ok true) (ok xs) m h k = (m ∷ xs, refl)
  round-Returns false (ok true) (err e) m h k = cc
  round-Returns false (ok true) panic m h k = cc
  round-Returns false (ok false) rest m h k = k
  round-Returns false (err e) rest m h k = cc
  round-Returns false panic rest m h k = cc

  select-Returns :
      (now : Readings) (n : ℕ) (o : Option FindOptions) (docs : Map (Message P))
      → All (IsStored n) docs
      → ReadsAll o
      → Returns (select now o docs)
  unfolding select
  select-Returns now n o [] a r = ([], refl)
  select-Returns now n o ((k, m) ∷ docs) a r =
      round-Returns (not (by_expiry o) && is_expired (now 0) m) (message_matches_filter m o)
        (select (λ i. now (suc i)) o docs) m (message_matches-Returns m (pos a.0.1.0) o a.0.1.1 r)
        (select-Returns (λ i. now (suc i)) n o docs a.1 r)

  count-Returns :
      (n : ℕ) (o : Option FindOptions) (docs : Map (Message P)) (c : ℕ)
      → All (IsStored n) docs
      → ReadsAll o
      → Returns (count_docs o docs c)
  unfolding count_docs
  count-Returns n o [] c a r = (c, refl)
  count-Returns n o ((k, m) ∷ docs) c a r =
      let (b, e) = message_matches-Returns m (pos a.0.1.0) o a.0.1.1 r in
      let f = count-Returns n o docs (suc c) a.1 r in
      let g = count-Returns n o docs c a.1 r in
      elim (Bool-cases b) [
        | inl t ↦ (f.0, rw (e, count_docs, t) f.1)
        | inr t ↦ (g.0, rw (e, count_docs, t) g.1)
      ]

  -- On a well-formed storage `Find` and `Count` return a result, and neither an error nor a panic, if each breakpoint of the
  -- filter is empty or the text of an int64.
  pub find-count-Returns :
      (now : Readings) (s : MemoryStorage P) (n : ℕ) (o : Option FindOptions)
      → Stored s n
      → ReadsAll o
      → Returns (find now s o) × Returns (count_storage s o)
  unfolding find count_storage
  find-count-Returns now s n o h r =
      let (ms, e) = select-Returns now n o s.docs h.1 r in
      ((limited o (sorted_by o ms), rw (e, find)), count-Returns n o s.docs 0 h.1 r)
