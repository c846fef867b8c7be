-- ===== src/MemoryStorage/Keys.antt =====
-- Documents of different messages can share a key.
use deckard.Common.{refl, ◌≡◌, none, ite, Str_discrete, some, [], ◌∷◌, ◌++◌, Str, arith}
use deckard.Common.Maps.{lookup, insert, lookup-insert}
use deckard.Outcome.{ok}
use deckard.Dtime.{Time}
use deckard.Message.{Message, colon}
use deckard.MemoryStorage.{MemoryStorage, get_key, refreshed, numbered, insert_storage}
use deckard.Common.Int.{pos, add64}
use mathlib.Core.List.{append_assoc}
use deckard.MemoryStorage.Stored.{Valid, insert_one-new, insert_one-old, insert_messages-cons}

module _ {P : Type 0} (now : Time) (s : MemoryStorage P) (a b : Message P) where
  key-collision :
      (x y z : Str)
      → a.queue ≡ x ++ colon ∷ y
      → a.id ≡ z
      → b.queue ≡ x
      → b.id ≡ y ++ colon ∷ z
      → get_key a ≡ get_key b
  unfolding get_key
  key-collision x y z aq ai bq bi = rw (aq, ai, bq, bi) (append_assoc x (colon ∷ y) (colon ∷ z))

  -- A queue name or an id with a colon can give messages of two queues one key. Inserted one after the other, where no document has
  -- the key, the second is reported as an update: one document stands under the key, of the queue and the id of the first with the
  -- payload of the second, and every other key has the document that it had.
  pub insert_storage-collision :
      (x y z k : Str)
      → a.queue ≡ x ++ colon ∷ y
      → a.id ≡ z
      → b.queue ≡ x
      → b.id ≡ y ++ colon ∷ z
      → Valid a
      → Valid b
      → lookup (get_key a) s.docs ≡ none
      → let stored = (insert_storage now s (a ∷ [])).0 in
        let (after, result) = insert_storage now stored (b ∷ []) in
        (result ≡ ok (0, 1))
        × ((doc : Message P) × (lookup k after.docs
              ≡ ite (Str_discrete (get_key a) k) (some doc) (lookup k s.docs))
            × (doc.queue ≡ a.queue)
            × (doc.id ≡ a.id)
            × (doc.payload ≡ b.payload))
  unfolding insert_storage refreshed numbered
  insert_storage-collision x y z k aq ai bq bi v w e =
      let same = key-collision x y z aq ai bq bi in
      let next = add64 s.internal_counter (pos 1) in
      let first = numbered now next a in
      let docs = insert (get_key a) first s.docs in
      let t = record s { internal_counter = next; docs = docs } in
      let f : lookup (get_key b) t.docs ≡ some first =
        rw (← same) (ground (arith, lookup-insert (get_key a) (get_key a) first s.docs)) in
      rw
        (
          insert_messages-cons now a [] s 0 0 v,
          insert_one-new now s a e,
          insert_messages-cons now b [] t 0 0 w,
          insert_one-old now t b first f,
        )
        (
          refl,
          (
            refreshed b first,
            rw (← same) (
                ground (
                  arith,
                  lookup-insert (get_key a) k (refreshed b first) docs,
                  lookup-insert (get_key a) k first s.docs,
                )),
            refl,
            refl,
            refl,
          ),
        )
