-- ===== src/MemoryStorage/Removal.antt =====
-- What a removal leaves in the storage, and what it counts.
use deckard.Common.{
  ◌==◌, Bool, false, not, refl, ap, ℕ, ◌+◌, ◌≤◌, ◌≡◌, some, List, [], ◌∷◌, ite, if◌then◌else◌, ◌&&◌,
  Str, Str_discrete, is_yes, arith, length, keep, exists,
}
use deckard.Common.Int.{pos, ltb_ℤ, eqb_ℤ}
use deckard.Common.Maps.{Map, lookup-insert}
use deckard.Outcome.{ok}
use deckard.Message.{Message}
use deckard.Storage.{QueueConfiguration}
use deckard.MemoryStorage.{
  MemoryStorage, times, remove_docs, remove_storage, edit_queue_configuration,
  get_queue_configuration,
}

-- The ids that are met are those among the ids, each as often as it stands there.
times-exists :
    (id : Str) (ids : List Str)
    → (times id ids == 0) ≡ not (exists (λ i. is_yes (Str_discrete id i)) ids)
unfolding times exists
times-exists id [] = refl
times-exists id (i ∷ ids) = ground (arith, times-exists id ids)

pub Distinct : List Str → Type 0
Distinct [] = Unit
Distinct (i ∷ ids) = (exists (λ j. is_yes (Str_discrete i j)) ids ≡ false) × Distinct ids

times-le : (id : Str) (ids : List Str) → Distinct ids → times id ids ≤ 1
unfolding times Distinct exists
times-le id [] d = omega arith
times-le id (i ∷ ids) d = elim (Str_discrete id i) [
  | yes e ↦
      ground (
        arith,
        times-exists i ids,
        times-exists id ids,
        ap (λ k. times k ids) e,
        times-le id ids d.1,
      )
  | no e ↦ ground (arith, times-le id ids d.1)
]

module _ {P : Type 0} where
  -- The document belongs to the queue and has one of the ids.
  pub is_removed : Str → List Str → Str × Message P → Bool
  is_removed queue ids e =
      is_yes (Str_discrete e.1.queue queue) && exists (λ i. is_yes (Str_discrete e.1.id i)) ids

  remove_docs-keep :
      (queue : Str) (ids : List Str) (docs : Map (Message P))
      → (remove_docs queue ids docs).0 ≡ keep (λ e. not (is_removed queue ids e)) docs
  unfolding remove_docs is_removed keep
  remove_docs-keep queue ids [] = refl
  remove_docs-keep queue ids ((k, m) ∷ docs) =
      ground (arith, remove_docs-keep queue ids docs, times-exists m.id ids)

  remove_docs-count :
      (queue : Str) (ids : List Str) (docs : Map (Message P))
      → Distinct ids
      → length (remove_docs queue ids docs).0 + (remove_docs queue ids docs).1 ≡ length docs
  unfolding remove_docs
  remove_docs-count queue ids [] d = refl
  remove_docs-count queue ids ((k, m) ∷ docs) d =
      ground (arith, remove_docs-count queue ids docs d, times-le m.id ids d)

  -- `Remove` leaves exactly the documents of other queues and of other ids, in place, and if no id is given twice its
  -- result is the number of documents that went.
  pub remove_storage-keep :
      (s : MemoryStorage P) (queue : Str) (ids : List Str)
      → ((remove_storage s queue ids).0.docs ≡ keep (λ e. not (is_removed queue ids e)) s.docs)
        × (Distinct ids
            → (n : ℕ) × ((remove_storage s queue ids).1 ≡ ok n)
              × (length (remove_storage s queue ids).0.docs + n ≡ length s.docs))
  unfolding remove_storage
  remove_storage-keep s queue ids =
      (remove_docs-keep queue ids s.docs, λ d. (_, refl, remove_docs-count queue ids s.docs d))

  -- An edit of a queue's configuration is what is read afterwards, a negative maximum as 0; a maximum of 0 changes nothing.
  -- Other queues keep theirs.
  pub get-edit_queue_configuration :
      (s : MemoryStorage P) (c : QueueConfiguration) (queue : Str)
      → get_queue_configuration (edit_queue_configuration s c).0 queue ≡ (
          if eqb_ℤ c.max_elements (pos 0)
          then get_queue_configuration s queue
          else ite
              (Str_discrete c.queue queue)
              (ok (
                some (record c {
                  max_elements = if ltb_ℤ c.max_elements (pos 0) then pos 0 else c.max_elements;
                })))
              (get_queue_configuration s queue))
  unfolding get_queue_configuration edit_queue_configuration
  get-edit_queue_configuration s c queue = ground (
    arith,
    lookup-insert c.queue queue
        (if ltb_ℤ c.max_elements (pos 0) then record c { max_elements = pos 0 } else c)
        s.configurations,
  )
