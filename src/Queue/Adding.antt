-- ===== src/Queue/Adding.antt =====
-- `AddMessagesToCache` over the memory cache.
use deckard.Common.{
  ℕ, ◌+◌, ◌≡◌, refl, sym, ap, subst, ◌∙◌, Bool, false, not, ◌||◌, none, some, List, [], ◌∷◌, ◌++◌,
  if◌then◌else◌, Str, Str_discrete, is_yes, arith, map, exists, length, length-append,
}
use mathlib.Core.List.{Perm}
use deckard.Common.Perms.{exists-append, exists-perm_eq, length-map}
use deckard.Common.Maps.{Map, lookup, insert}
use deckard.Outcome.{Result, ok}
use deckard.Message.{Message}
use deckard.MemoryCache.{MemoryCache}
use deckard.MemoryCache.Copies.{total, OneCopy}
use deckard.MemoryCache.Insert.{insert_cache, insertions}
use deckard.MemoryCache.Inserting.{names, total-insert_cache}
use deckard.Interfaces.{Cache, Storage}
use deckard.Queue.{
  Queue, audit_entry, signal_insert_cache, members_by_queue, add_groups,
  add_messages_to_cache_with_audit_reason, store, with_cache,
}
use deckard.Queue.Memory.{memory_cache}

or-false : (b : Bool) → (b || false) ≡ b
or-false b = ground arith

module _ {P : Type 0} where
  -- A message of another queue.
  abbrev strays : Str × List (Message P) → Bool
  strays g = exists (λ m. not (is_yes (Str_discrete m.queue g.0))) g.1

  abbrev group_names : Str → Str → Str × List (Message P) → Bool
  group_names q id g = names g.1 q id

  names-append :
      (ms ks : List (Message P)) (q id : Str)
      → names (ms ++ ks) q id ≡ (names ms q id || names ks q id)
  unfolding names
  names-append [] ks q id = refl
  names-append (m ∷ ms) ks q id = ground (arith, names-append ms ks q id)

  -- What a queue has of messages so far.
  abbrev members : Str → Map (List (Message P)) → List (Message P)
  members q groups = elim (lookup q groups) as (λ o. List (Message P)) [ none ↦ [] | some ms ↦ ms ]

  insert-strays :
      (m : Message P) (groups : Map (List (Message P)))
      → exists strays groups ≡ false
      → exists strays (insert m.queue (members m.queue groups ++ m ∷ []) groups) ≡ false
  unfolding insert lookup exists
  insert-strays m [] h = ground arith
  insert-strays m ((q, ms) ∷ groups) h = ground (
    arith,
    insert-strays m groups,
    exists-append (λ m. not (is_yes (Str_discrete m.queue q))) ms (m ∷ []),
  )

  insert-names :
      (m : Message P) (groups : Map (List (Message P))) (q id : Str)
      → exists (group_names q id) (insert m.queue (members m.queue groups ++ m ∷ []) groups)
        ≡ (names (m ∷ []) q id || exists (group_names q id) groups)
  unfolding insert lookup exists names
  insert-names m [] q id = ground arith
  insert-names m ((k, ms) ∷ groups) q id =
      ground (arith, insert-names m groups q id, names-append ms (m ∷ []) q id)

  members_by_queue-strays :
      (ms : List (Message P)) (groups : Map (List (Message P)))
      → exists strays groups ≡ false
      → exists strays (members_by_queue ms groups) ≡ false
  unfolding members_by_queue
  members_by_queue-strays [] groups h = h
  members_by_queue-strays (m ∷ ms) groups h =
      members_by_queue-strays ms (insert m.queue (members m.queue groups ++ m ∷ []) groups)
        (insert-strays m groups h)

  members_by_queue-names :
      (ms : List (Message P)) (groups : Map (List (Message P))) (q id : Str)
      → exists (group_names q id) (members_by_queue ms groups)
        ≡ (names ms q id || exists (group_names q id) groups)
  unfolding members_by_queue names
  members_by_queue-names [] groups q id = refl
  members_by_queue-names (m ∷ ms) groups q id = ground (
    arith,
    members_by_queue-names ms (insert m.queue (members m.queue groups ++ m ∷ []) groups) q id,
    insert-names m groups q id,
  )

  insert_cache-ids :
      (c : MemoryCache) (queue : Str) (ms : List (Message P))
      → exists (λ m. not (is_yes (Str_discrete m.queue queue))) ms ≡ false
      → (insert_cache c queue ms).1 ≡ ok (map (λ m. m.id) (insertions c queue ms))
  unfolding insert_cache
  insert_cache-ids c queue ms h = rw h refl

add_groups-ok :
    {P : Type 0} (cache : Cache P) (storage : Storage P) (reason k : Str) (ms : List (Message P))
    (groups : Map (List (Message P))) (pool : Queue cache.State storage.State) (count : ℕ)
    (ids : List Str)
    → (cache.insert_cache pool.cache k ms).1 ≡ ok ids
    → add_groups cache storage reason ((k, ms) ∷ groups) pool count
      ≡ add_groups cache storage reason groups
          (store
            (map (audit_entry signal_insert_cache reason k) ids)
            (with_cache (cache.insert_cache pool.cache k ms).0 pool))
          (count + length ids)
unfolding add_groups
add_groups-ok cache storage reason k ms groups pool count ids e = rw (e, add_groups) refl

module _ {P : Type 0} (match_glob : Str → Str → Bool) (storage : Storage P) where
  -- A count, one audit entry for each insertion, and an id once where some message names it.
  abbrev pub Added :
      Queue MemoryCache storage.State
      → ℕ
      → Queue MemoryCache storage.State × Result ℕ
      → (Str → Str → Bool)
      → Type 0
  Added pool count r named =
      (n : ℕ) × (r.1 ≡ ok (count + n))
      × (length r.0.audited ≡ length pool.audited + n)
      × (r.0.storage ≡ pool.storage)
      × ((q id : Str) → total r.0.cache q id ≡ (if named q id then 1 else total pool.cache q id))

  add_groups-Added :
      (reason : Str) (groups : Map (List (Message P))) (pool : Queue MemoryCache storage.State)
      (count : ℕ)
      → OneCopy pool.cache
      → exists strays groups ≡ false
      → Added pool count
          (add_groups (memory_cache P match_glob) storage reason groups pool count)
          (λ q id. exists (group_names q id) groups)
  unfolding add_groups exists
  add_groups-Added reason [] pool count h s = (0, ground arith, omega arith, refl, λ q id. refl)
  add_groups-Added reason ((k, ms) ∷ groups) pool count h s =
      let stray : exists (λ m. not (is_yes (Str_discrete m.queue k))) ms ≡ false =
        ground (arith, s) in
      let others : exists strays groups ≡ false = ground (arith, s) in
      let c = (insert_cache pool.cache k ms).0 in
      let ids = map (λ m. m.id) (insertions pool.cache k ms) in
      let entries = map (audit_entry signal_insert_cache reason k) ids in
      let now_in = λ (q : Str) (id : Str). total-insert_cache pool.cache k ms q id h stray in
      let grown = store entries (with_cache c pool) in
      let rest =
        add_groups-Added reason groups grown (count + length ids)
          (λ q id. ground (arith, h q id, now_in q id)) others in
      let seen : length grown.audited ≡ length pool.audited + length ids =
        length-append pool.audited entries
        ∙ ap (λ n. length pool.audited + n)
            (length-map (audit_entry signal_insert_cache reason k) ids) in
      subst (λ r. Added pool count r (λ q id. names ms q id || exists (group_names q id) groups))
        (sym (
          add_groups-ok (memory_cache P match_glob) storage reason k ms groups pool count ids
            (insert_cache-ids pool.cache k ms stray)))
        (
          length ids + rest.0,
          rest.1 ∙ ap ok (omega arith),
          omega (arith, rest.2, seen),
          rest.3,
          λ q id. ground (arith, rest.4 q id, now_in q id),
        )

  -- Whatever the order of the groups and whichever queues the messages name, `AddMessagesToCache` over a memory cache with no id
  -- twice in a queue never fails: afterwards each message's id stands exactly once in the pools of its queue, every other id
  -- as often as before, and the result is the number of audit entries stored. The storage is not touched.
  pub add_messages_to_cache-Added :
      (order : Map (List (Message P)) → Map (List (Message P))) (reason : Str)
      (pool : Queue MemoryCache storage.State) (ms : List (Message P))
      → ((groups : Map (List (Message P))) → Perm (order groups) groups)
      → OneCopy pool.cache
      → Added pool 0
          (add_messages_to_cache_with_audit_reason
            (memory_cache P match_glob)
            storage
            order
            reason
            pool
            ms)
          (names ms)
  unfolding add_messages_to_cache_with_audit_reason exists
  add_messages_to_cache-Added order reason pool ms permutes h =
      let groups = members_by_queue ms [] in
      let none_stray : exists strays (order groups) ≡ false =
        exists-perm_eq strays (permutes groups) ∙ members_by_queue-strays ms [] refl in
      let named : (q id : Str) → exists (group_names q id) (order groups) ≡ names ms q id = λ q id.
        exists-perm_eq (group_names q id) (permutes groups)
        ∙ members_by_queue-names ms [] q id
        ∙ or-false (names ms q id) in
      let r = add_groups-Added reason (order groups) pool 0 h none_stray in
      (r.0, r.1, r.2, r.3, λ q id. ground (arith, r.4 q id, named q id))
