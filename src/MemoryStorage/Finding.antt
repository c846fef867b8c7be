-- ===== src/MemoryStorage/Finding.antt =====
-- What `Find` and `Count` return, against the documents.
use deckard.Common.{
  suc, Bool, true, false, not, Bool-cases, Option-cases, inl, inr, refl, ◌≡◌, Option, none, some,
  List, [], ◌∷◌, if◌then◌else◌, ◌&&◌, Str, arith, map, take,
}
use deckard.Common.Int.{ℤ, pos, negsuc, ltb_ℤ, eqb_ℤ}
use deckard.Common.Maps.{Map}
use deckard.Outcome.{Result, ok, err, panic}
use deckard.Dtime.{Time, Readings}
use deckard.Message.{Message}
use deckard.Storage.{FindOptions}
use deckard.MemoryStorage.{MemoryStorage}
use deckard.MemoryStorage.Wanted.{
  matched, wanted_by, all_wanted, less-follows, Sorted, filter-wanted_by,
}
use mathlib.Core.List.{Perm}
use mathlib.Core.List.Perm
use deckard.MemoryStorage.Query.{
  SortKey, expiry_date, score, internal_id, unknown, sort_key, less_by, less, insert_sorted,
  sort_stable, by_expiry, is_expired, message_matches_filter, select, sorted_by, limited, find,
  cons_result, natural,
}

module _ {P : Type 0} where
  insert_sorted-perm :
      (keys : List (Str × ℤ)) (x : Message P) (ys : List (Message P))
      → Perm (insert_sorted keys x ys) (x ∷ ys)
  unfolding insert_sorted
  insert_sorted-perm keys x [] = Perm.refl (x ∷ [])
  insert_sorted-perm keys x (y ∷ ys) = elim (Bool-cases (less keys y x)) [
    | inl e ↦ rw e (Perm.trans (Perm.cons y (insert_sorted-perm keys x ys)) (Perm.swap x y ys))
    | inr e ↦ rw e (Perm.refl (x ∷ y ∷ ys))
  ]

  sort_stable-perm : (keys : List (Str × ℤ)) (xs : List (Message P)) → Perm (sort_stable keys xs) xs
  unfolding sort_stable
  sort_stable-perm keys [] = Perm.refl []
  sort_stable-perm keys (x ∷ xs) =
      Perm.trans (insert_sorted-perm keys x (sort_stable keys xs))
        (Perm.cons x (sort_stable-perm keys xs))

  -- No message comes before one that the order puts before it.
  abbrev pub NotBefore : List (Str × ℤ) → Message P → List (Message P) → Type 0
  NotBefore keys x [] = Unit
  NotBefore keys x (y ∷ ys) = less keys y x ≡ false

  abbrev pub InKeyOrder : List (Str × ℤ) → List (Message P) → Type 0
  InKeyOrder keys [] = Unit
  InKeyOrder keys (x ∷ xs) = NotBefore keys x xs × InKeyOrder keys xs

  less_by-asymm :
      (k : SortKey) (down : Bool) (a b : Message P)
      → (less_by k down a b ≡ none → less_by k down b a ≡ none)
        × (less_by k down a b ≡ some true → less_by k down b a ≡ some false)
  unfolding less_by
  less_by-asymm expiry_date down a b = ground arith
  less_by-asymm score down a b = ground arith
  less_by-asymm internal_id down a b = ground arith
  less_by-asymm unknown down a b = ground arith

  -- The order never puts two messages before one another.
  less-asymm :
      (keys : List (Str × ℤ)) (a b : Message P) → less keys a b ≡ true → less keys b a ≡ false
  unfolding less
  less-asymm [] a b h = ground arith
  less-asymm ((key, value) ∷ keys) a b h =
      let k = sort_key key in
      let d = eqb_ℤ value (negsuc 0) in
      elim (Option-cases (less_by k d a b)) [
        | inl e ↦
            let f : less keys a b ≡ true = rw (e, less) at h in
            rw ((less_by-asymm k d a b).0 e, less) (less-asymm keys a b f)
        | inr (l, e) ↦
            let f : l ≡ true = rw (e, less) at h in rw ((less_by-asymm k d a b).1 (rw (e, f)), less)
      ]

  insert_sorted-InKeyOrder :
      (keys : List (Str × ℤ)) (x : Message P) (ys : List (Message P))
      → InKeyOrder keys ys
      → InKeyOrder keys (insert_sorted keys x ys)
  unfolding insert_sorted
  insert_sorted-InKeyOrder keys x [] h = (tt, tt)
  insert_sorted-InKeyOrder keys x (y ∷ []) h = ground (arith, less-asymm keys y x)
  insert_sorted-InKeyOrder keys x (y ∷ z ∷ ys) h =
      ground (arith, less-asymm keys y x, insert_sorted-InKeyOrder keys x (z ∷ ys) h.1)

  sort_stable-InKeyOrder :
      (keys : List (Str × ℤ)) (xs : List (Message P)) → InKeyOrder keys (sort_stable keys xs)
  unfolding sort_stable
  sort_stable-InKeyOrder keys [] = tt
  sort_stable-InKeyOrder keys (x ∷ xs) =
      insert_sorted-InKeyOrder keys x (sort_stable keys xs) (sort_stable-InKeyOrder keys xs)

  -- The code's test of one document, and what is asked for.
  test-wanted_by :
      (now : Time × Time) (o : FindOptions) (m : Message P)
      → (not (not (by_expiry (some o)) && is_expired now m)
          && matched (message_matches_filter m (some o)))
        ≡ wanted_by o.internal_filter now m
  unfolding message_matches_filter
  test-wanted_by now o m = filter-wanted_by now o.internal_filter m

  -- One round of the loop, whatever the tests and the later rounds give.
  round-keep :
      (skip : Bool) (r : Result Bool) (rest : Result (List (Message P))) (m : Message P)
      (ms ks : List (Message P))
      → (if skip then rest else elim r as (λ r. Result (List (Message P))) [
        | ok matches ↦ if matches then cons_result m rest else rest
        | err e ↦ err e
        | panic ↦ panic
      ])
        ≡ ok ms
      → ((xs : List (Message P)) → rest ≡ ok xs → xs ≡ ks)
      → ms ≡ (if not skip && matched r then m ∷ ks else ks)
  round-keep true r rest m ms ks h f = f ms h
  round-keep false (ok true) (ok xs) m ms ks h f = ground (arith, f xs refl)
  round-keep false (ok true) (err e) m ms ks h f = cc
  round-keep false (ok true) panic m ms ks h f = cc
  round-keep false (ok false) rest m ms ks h f = f ms h
  round-keep false (err e) rest m ms ks h f = cc
  round-keep false panic rest m ms ks h f = cc

  select-all_wanted :
      (now : Readings) (o : FindOptions) (docs : Map (Message P)) (ms : List (Message P))
      → select now (some o) docs ≡ ok ms
      → ms ≡ all_wanted now o.internal_filter (map (λ e. e.1) docs)
  unfolding select all_wanted
  select-all_wanted now o [] ms h = ground arith
  select-all_wanted now o ((k, m) ∷ docs) ms h = rw (← test-wanted_by (now 0) o m) (
      round-keep (not (by_expiry (some o)) && is_expired (now 0) m)
        (message_matches_filter m (some o)) (select (λ i. now (suc i)) (some o) docs) m ms _ h
        (λ xs e. select-all_wanted (λ i. now (suc i)) o docs xs e))

  InKeyOrder-Sorted :
      (keys : List (Str × ℤ)) (xs : List (Message P)) → InKeyOrder keys xs → Sorted keys xs
  unfolding Sorted
  InKeyOrder-Sorted keys [] h = tt
  InKeyOrder-Sorted keys (x ∷ []) h = tt
  InKeyOrder-Sorted keys (x ∷ y ∷ ys) h =
      (less-follows keys x y h.0, InKeyOrder-Sorted keys (y ∷ ys) h.1)

  -- What the search gives without its limit.
  abbrev pub InOrder : Option (List (Str × ℤ)) → List (Message P) → Type 0
  InOrder none ms = Unit
  InOrder (some keys) ms = Sorted keys ms

  -- If `Find` returns, then it returns the wanted documents, each followed by one that may follow it if an order is asked for, and
  -- of these the first ones up to the limit. Wanted are those of the queue, the prefix, the ids and the breakpoints of the filter that
  -- are not over when the clock is read for them, or, if the filter has an expiry date, those that expire at it or before.
  pub find-all_wanted :
      (now : Readings) (s : MemoryStorage P) (opt : FindOptions) (ms : List (Message P))
      → find now s (some opt) ≡ ok ms
      → (all : List (Message P)) × Perm all
          (all_wanted now opt.internal_filter (map (λ e. e.1) s.docs))
        × InOrder opt.sort all
        × (ms ≡ (if ltb_ℤ (pos 0) opt.limit then take (natural opt.limit) all else all))
  unfolding find
  find-all_wanted now s opt ms h = found (select now (some opt) s.docs) opt.sort refl refl h
    where
      found :
          (r : Result (List (Message P))) (sort : Option (List (Str × ℤ)))
          → select now (some opt) s.docs ≡ r
          → opt.sort ≡ sort
          → (elim r as (λ r. Result (List (Message P))) [
            | ok ms ↦ ok (limited (some opt) (sorted_by (some opt) ms))
            | err e ↦ err e
            | panic ↦ panic
          ])
            ≡ ok ms
          → (all : List (Message P)) × Perm all
              (all_wanted now opt.internal_filter (map (λ e. e.1) s.docs))
            × InOrder opt.sort all
            × (ms ≡ (if ltb_ℤ (pos 0) opt.limit then take (natural opt.limit) all else all))
      found (ok xs) none e q h =
          (xs, rw (select-all_wanted now opt s.docs xs e) (Perm.refl _), rw q tt, ground arith)
      found (ok xs) (some keys) e q h = (
        sort_stable keys xs,
        Perm.trans (sort_stable-perm keys xs)
            (rw (select-all_wanted now opt s.docs xs e) (Perm.refl _)),
        rw q (InKeyOrder-Sorted keys (sort_stable keys xs) (sort_stable-InKeyOrder keys xs)),
        ground arith,
      )
      found (err x) sort e q h = cc
      found panic sort e q h = cc
