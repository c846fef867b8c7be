-- ===== src/MemoryCache/Inserting.antt =====
-- What an insertion does to the copies of an id, and which ids it reports.
use deckard.Common.{
  ◌-◌, ◌==◌, Bool, true, false, not, refl, ◌+◌, ◌≤◌, ◌≡◌, ◌≢◌, List, [], ◌∷◌, if◌then◌else◌, ◌||◌,
  ◌&&◌, Str, Str_discrete, is_yes, arith, keep, exists,
}
use deckard.Common.Maps.{Map, insert}
use deckard.Message.{Message}
use deckard.Entries.{Pool, create_entry, insert_entry}
use deckard.Entries.Counts.{holds-copies}
use deckard.MemoryCache.{MemoryCache, index, is_present_on_any_pool}
use deckard.MemoryCache.Copies.{entries, copies_at, total, OneCopy, copies_at-enter}
use deckard.Common.{ℕ_discrete}
use deckard.MemoryCache.Insert.{insert_messages, insertions, insert_cache}

exists-keep :
    {A : Type 0} (t p : A → Bool) (xs : List A) → exists t xs ≡ false → exists t (keep p xs) ≡ false
unfolding exists keep
exists-keep t p [] h = refl
exists-keep t p (x ∷ xs) h = ground (arith, exists-keep t p xs)

present-total :
    (c : MemoryCache) (queue id : Str)
    → is_present_on_any_pool c queue id ≡ (if total c queue id == 0 then false else true)
unfolding is_present_on_any_pool total copies_at
present-total c queue id = ground (
  arith,
  holds-copies id (entries c.queues queue),
  holds-copies id (entries c.processing_queues queue),
  holds-copies id (entries c.lock_ack_queues queue),
  holds-copies id (entries c.lock_nack_queues queue),
)

module _ {P : Type 0} where
  -- Some message has the queue and the id.
  unfoldable pub names : List (Message P) → Str → Str → Bool
  names [] q id = false
  names (m ∷ ms) q id =
      is_yes (Str_discrete m.queue q) && is_yes (Str_discrete m.id id) || names ms q id

  insert_messages-copies :
      (ms : List (Message P)) (qs : Map Pool) (q id : Str)
      → copies_at qs q id ≤ 1
      → copies_at (insert_messages ms qs) q id ≡ (if names ms q id then 1 else copies_at qs q id)
  unfolding insert_messages names create_entry
  insert_messages-copies [] qs q id h = refl
  insert_messages-copies (m ∷ ms) qs q id h =
      let enter = copies_at-enter m.queue (create_entry m) qs q id in
      let qs' = insert m.queue (insert_entry (create_entry m) (index qs m.queue)).0 qs in
      ground (arith, enter, insert_messages-copies ms qs' q id)

  names-keep :
      (p : Message P → Bool) (ms : List (Message P)) (q id : Str)
      → ((m : Message P) → m.id ≡ id → p m ≡ false)
      → names (keep p ms) q id ≡ false
  unfolding names keep
  names-keep p [] q id h = refl
  names-keep p (m ∷ ms) q id h = ground (arith, h m, names-keep p ms q id h)

  names-keep-true :
      (p : Message P → Bool) (ms : List (Message P)) (q id : Str)
      → ((m : Message P) → m.id ≡ id → p m ≡ true)
      → names (keep p ms) q id ≡ names ms q id
  unfolding names keep
  names-keep-true p [] q id h = refl
  names-keep-true p (m ∷ ms) q id h = ground (arith, h m, names-keep-true p ms q id h)

  names-other :
      (ms : List (Message P)) (queue q id : Str)
      → exists (λ m. not (is_yes (Str_discrete m.queue queue))) ms ≡ false
      → queue ≢ q
      → names ms q id ≡ false
  unfolding names exists
  names-other [] queue q id h d = refl
  names-other (m ∷ ms) queue q id h d = ground (arith, names-other ms queue q id)

  moved :
      (c : MemoryCache) (queue : Str) (ms : List (Message P)) (q id : Str)
      → OneCopy c
      → exists (λ m. not (is_yes (Str_discrete m.queue queue))) ms ≡ false
      → total (insert_cache c queue ms).0 q id ≡ (
          if names (insertions c queue ms) q id
          then total c q id - copies_at c.queues q id + 1
          else total c q id)
  unfolding insert_cache total
  moved c queue ms q id h all =
      rw all (ground (arith, h q id, insert_messages-copies (insertions c queue ms) c.queues q id))

  absent :
      (c : MemoryCache) (queue : Str) (ms : List (Message P)) (id : Str)
      → total c queue id ≡ 0
      → names (insertions c queue ms) queue id ≡ names ms queue id
  unfolding insertions
  absent c queue ms id z =
      names-keep-true (λ m. not (is_present_on_any_pool c queue m.id)) ms queue id
        (λ m e. rw e (ground (arith, present-total c queue id)))

  present :
      (c : MemoryCache) (queue : Str) (ms : List (Message P)) (id : Str)
      → total c queue id ≢ 0
      → names (insertions c queue ms) queue id ≡ false
  unfolding insertions
  present c queue ms id z =
      names-keep (λ m. not (is_present_on_any_pool c queue m.id)) ms queue id
        (λ m e. rw e (ground (arith, present-total c queue id)))

  -- After `Insert` of messages of one queue every id of a message stands exactly once in the pools of that queue,
  -- and every other id of that or another queue as often as before.
  pub total-insert_cache :
      (c : MemoryCache) (queue : Str) (ms : List (Message P)) (q id : Str)
      → OneCopy c
      → exists (λ m. not (is_yes (Str_discrete m.queue queue))) ms ≡ false
      → total (insert_cache c queue ms).0 q id ≡ (if names ms q id then 1 else total c q id)
  unfolding insertions
  total-insert_cache c queue ms q id h all = elim (Str_discrete queue q) [
    | yes e ↦ elim (ℕ_discrete (total c queue id) 0) [
      | yes z ↦
          rw (← e) (
            unfold total in ground (arith, moved c queue ms queue id h all, absent c queue ms id z))
      | no z ↦
          rw (← e)
            (ground (arith, h queue id, moved c queue ms queue id h all, present c queue ms id z))
    ]
    | no e ↦ ground (
      arith,
      all,
      moved c queue ms q id h,
      names-other ms queue q id all e,
      names-other (insertions c queue ms) queue q id (exists-keep _ _ ms all) e,
    )
  ]
