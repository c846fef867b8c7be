-- ===== src/RedisCache/Operations.antt =====
-- The operations of the Redis cache, whether the client reports an error or not.
use deckard.Common.{
  ◌≤◌, ◌<◌, ◌∙◌, arith, length, ℕ, zero, suc, ◌≡◌, refl, sym, subst, Bool, true, false, Option,
  none, some, [], if◌then◌else◌, Str, ite, Str_discrete, inl, inr, Bool-cases,
}
use deckard.Common.Int.{◌-ℤ◌, ℤ, pos, leb_ℤ, add64}
use deckard.Outcome.{Error, Result, ok, err, panic}
use deckard.Dtime.{Time, time_to_ms}
use deckard.Score.{Score, of_int64}
use deckard.Message.{Message}
use deckard.MemoryCache.{LockType}
use deckard.Redis.{Redis, RedisLaws, done, repeated}
use deckard.RedisCache.{
  wrapped, is_one, for_valid, make_available_redis, lock_message_redis, unlock_messages_redis,
  pull_messages_redis, timeout_messages_redis,
}
use deckard.RedisCache.Keys.{is_valid_queue_name}
use deckard.RedisCache.Naming.{Slot, active, processing, locked, locked_score, key}
use deckard.RedisCache.Places.{Valid, at, places, OnePlace}
use deckard.RedisCache.Moving.{
  Members, active_processing, processing_active, places-move_element, places-lock_element,
  places-move_all,
}
use deckard.RedisCache.Entering.{places-unlock_all}
use deckard.RedisCache.Scripts.{
  move_element, lock_element, move_filtered_elements, unlock_elements, first_elements,
  pull_elements, unpack_limit,
}

module _ (r : Redis) (laws : RedisLaws r) (prefix : Str) where
  -- What holds of the state before a script and stays after each run.
  repeated-keeps :
      {A : Type 0} (Q : r.State → Type 0) (script : r.State → r.State × Result A) (m : ℕ)
      (s : r.State)
      → Q s
      → ((t : r.State) → Q t → Q (script t).0)
      → Q (repeated m script s)
  unfolding repeated
  repeated-keeps Q script zero s h k = h
  repeated-keeps Q script (suc m) s h k = repeated-keeps Q script m (script s).0 (k s h) k

  pub run-keeps :
      {A : Type 0} (Q : r.State → Type 0) (script : r.State → r.State × Result A) (s : r.State)
      → Q s
      → ((t : r.State) → Q t → Q (script t).0)
      → Q (r.run script s).0
  run-keeps Q script s h k =
      let (m, e) = laws.run_retried script s in
      let g = repeated-keeps Q script m s h k in
      elim e [ inl f ↦ rw f (k (repeated m script s) g) | inr (x, f) ↦ rw f g ]

  wrapped-state :
      {A : Type 0} (wrap : Error → Error) (x : r.State × Result A) → (wrapped wrap x).0 ≡ x.0
  wrapped-state wrap (s, ok a) = refl
  wrapped-state wrap (s, err e) = refl
  wrapped-state wrap (s, panic) = refl

  is_one-state : (x : r.State × Result ℕ) → (is_one x).0 ≡ x.0
  is_one-state (s, ok zero) = refl
  is_one-state (s, ok (suc zero)) = refl
  is_one-state (s, ok (suc (suc n))) = refl
  is_one-state (s, err e) = refl
  is_one-state (s, panic) = refl

  pub for_valid-keeps :
      {A : Type 0} (Q : r.State → Type 0) (q : Str) (s : r.State) (rest : r.State × Result A)
      → Q s
      → (Valid q → Q rest.0)
      → Q (for_valid r prefix q s rest).0
  for_valid-keeps Q q s rest h k = elim (Bool-cases (is_valid_queue_name q)) [
    | inl e ↦ rw e (k e)
    | inr e ↦ rw e h
  ]

  guard-keeps :
      {A B : Type 0} (Q : r.State → Type 0) (d : Dec B) (s : r.State) (e : Error)
      (rest : r.State × Result A)
      → Q s
      → Q rest.0
      → Q (ite d (s, err e) rest).0
  guard-keeps Q (yes b) s e rest h k = h
  guard-keeps Q (no b) s e rest h k = k

  pub if-keeps :
      {A : Type 0} (Q : r.State → Type 0) (b : Bool) (s : r.State) (e : Error)
      (rest : r.State × Result A)
      → Q s
      → Q rest.0
      → Q (if b then (s, err e) else rest).0
  if-keeps Q true s e rest h k = h
  if-keeps Q false s e rest h k = k

  range-Members :
      (now : Score) (s : r.State) (q : Str) (b : Slot)
      → Members r laws prefix s q b
          (r.zrev_range_by_score (key prefix q b) now (pos 0) (pos 1000) s)
  unfolding at
  range-Members now s q b id e =
      let m = laws.zrev_range_by_score_member (key prefix q b) now (pos 0) (pos 1000) id s e in
      (m.0, m.1)

  first-Members :
      (n : ℤ) (lo hi : Option Score) (s : r.State) (q : Str)
      → Members r laws prefix s q active (first_elements r (key prefix q active) n lo hi s)
  unfolding at first_elements
  first-Members n none none s q id e = laws.zrange_member (key prefix q active) _ id s e
  first-Members n (some lo) hi s q id e =
      let m = laws.zrange_by_score_member (key prefix q active) (some lo) hi n id s e in (m.0, m.1)
  first-Members n none (some hi) s q id e =
      let m = laws.zrange_by_score_member (key prefix q active) none (some hi) n id s e in
      (m.0, m.1)

  -- No copy of any id is lost or made.
  abbrev pub Same : r.State → r.State → Type 0
  Same s t = (k id : Str) → Valid k → places r laws prefix t k id ≡ places r laws prefix s k id

  same : (s : r.State) → Same s s
  same s k id w = refl

  -- A script each of whose runs keeps the copies.
  run-Same :
      {A : Type 0} (script : r.State → r.State × Result A) (s : r.State)
      → OnePlace r laws prefix s
      → ((t : r.State) → OnePlace r laws prefix t → Same t (script t).0)
      → Same s (r.run script s).0
  run-Same script s h step =
      (run-keeps (λ t. OnePlace r laws prefix t × Same s t) script s (h, same s)
        (λ t g. (
          λ k id w. omega (arith, g.0 k id w, step t g.0 k id w),
          λ k id w. step t g.0 k id w ∙ g.1 k id w,
        ))).1

  pub wrapped-Same :
      {A : Type 0} (wrap : Error → Error) (script : r.State → r.State × Result A) (s : r.State)
      → OnePlace r laws prefix s
      → ((t : r.State) → OnePlace r laws prefix t → Same t (script t).0)
      → Same s (wrapped wrap (r.run script s)).0
  wrapped-Same wrap script s h step =
      subst (Same s) (sym (wrapped-state wrap (r.run script s))) (run-Same script s h step)

  is_one-Same :
      (wrap : Error → Error) (script : r.State → r.State × ℕ) (s : r.State)
      → OnePlace r laws prefix s
      → ((t : r.State) → OnePlace r laws prefix t → Same t (script t).0)
      → Same s (is_one (wrapped wrap (r.run (λ t. done (script t)) s))).0
  is_one-Same wrap script s h step =
      subst (Same s) (sym (is_one-state (wrapped wrap (r.run (λ t. done (script t)) s))))
        (wrapped-Same wrap (λ t. done (script t)) s h step)

  first-length :
      (n : ℕ) (lo hi : Option Score) (s : r.State) (q : Str)
      → 1 ≤ n
      → length (first_elements r (key prefix q active) (pos n) lo hi s) ≤ n
  unfolding first_elements ◌-ℤ◌
  first-length zero lo hi s q h = absurd (omega arith)
  first-length (suc n) none none s q h =
      let last : pos (suc n) -ℤ pos 1 ≡ pos n = ground arith in
      rw (last, first_elements) (laws.zrange_length (key prefix q active) n s)
  first-length (suc n) (some lo) hi s q h =
      laws.zrange_by_score_length (key prefix q active) (some lo) hi (suc n) s
  first-length (suc n) none (some hi) s q h =
      laws.zrange_by_score_length (key prefix q active) none (some hi) (suc n) s

  pub make_available_redis-Same :
      {P : Type 0} (s : r.State) (m : Message P)
      → OnePlace r laws prefix s
      → Same s (make_available_redis r prefix s m).0
  unfolding make_available_redis key
  make_available_redis-Same s m h = guard-keeps (Same s) (Str_discrete m.queue []) s _ _ (same s) (
      for_valid-keeps (Same s) m.queue s _ (same s) (λ v.
        is_one-Same _
          (move_element r (key prefix m.queue active) (key prefix m.queue processing) m.score m.id)
          s h
          (λ t g k id w.
            places-move_element r laws prefix active processing m.queue k m.id id m.score t
              (active_processing r laws prefix) v w (g k id w))))

  pub lock_message_redis-Same :
      {P : Type 0} (now : Time) (s : r.State) (m : Message P) (t : LockType)
      → OnePlace r laws prefix s
      → Same s (lock_message_redis r prefix now s m t).0
  unfolding lock_message_redis key
  lock_message_redis-Same now s m t h =
      guard-keeps (Same s) (Str_discrete m.queue []) s _ _ (same s) (
        for_valid-keeps (Same s) m.queue s _ (same s) (λ v.
          if-keeps (Same s) (leb_ℤ m.lock_ms (pos 0)) s _ _ (same s) (
            is_one-Same _
              (lock_element r (key prefix m.queue processing) (key prefix m.queue (locked t))
                (key prefix m.queue (locked_score t)) (of_int64 (add64 (time_to_ms now) m.lock_ms))
                m.id m.score)
              s h
              (λ u g k id w.
                places-lock_element r laws prefix t m.queue k m.id id _ m.score u v w (g k id w)))))

  pub unlock_messages_redis-Same :
      (scored_at now : Time) (s : r.State) (q : Str) (t : LockType)
      → OnePlace r laws prefix s
      → Same s (unlock_messages_redis r prefix scored_at now s q t).0
  unfolding unlock_messages_redis key unlock_elements
  unlock_messages_redis-Same scored_at now s q t h = for_valid-keeps (Same s) q s _ (same s) (λ v.
      wrapped-Same _ _ s h (λ u g k id w.
        places-unlock_all r laws prefix t q k id _ _ u v w (range-Members _ u q (locked t))
          (g k id w)))

  pub timeout_messages_redis-Same :
      (now : Time) (s : r.State) (q : Str)
      → OnePlace r laws prefix s
      → Same s (timeout_messages_redis r prefix now s q).0
  unfolding timeout_messages_redis key move_filtered_elements
  timeout_messages_redis-Same now s q h = for_valid-keeps (Same s) q s _ (same s) (λ v.
      wrapped-Same _ _ s h (λ u g k id w.
        places-move_all r laws prefix active processing q k id _ _ u
          (active_processing r laws prefix) v w (range-Members _ u q processing)
          (omega (
            arith,
            laws.zrev_range_by_score_length (key prefix q processing) (of_int64 (time_to_ms now))
                (pos 0) 1000 u,
          ))
          (g k id w)))

  pub pull_messages_redis-Same :
      (now : Time) (s : r.State) (q : Str) (n : ℕ) (lo hi : Option Score) (deadline : ℤ)
      → 1 ≤ n
      → n < unpack_limit
      → OnePlace r laws prefix s
      → Same s (pull_messages_redis r prefix now s q (pos n) lo hi deadline).0
  unfolding pull_messages_redis key pull_elements
  pull_messages_redis-Same now s q n lo hi deadline some_asked few h =
      for_valid-keeps (Same s) q s _ (same s) (λ v. wrapped-Same _ _ s h (λ u g k id w.
        places-move_all r laws prefix processing active q k id _ _ u
          (processing_active r laws prefix) v w (first-Members (pos n) lo hi u q)
          (omega (arith, few, first-length n lo hi u q some_asked)) (g k id w)))
