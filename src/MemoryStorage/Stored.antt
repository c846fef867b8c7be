-- ===== src/MemoryStorage/Stored.antt =====
-- The documents of a storage: their keys, their internal ids and their number.
use deckard.Common.{
  Bool, true, false, Option-cases, inl, inr, refl, ap, ℕ, ◌+◌, ◌≤◌, ◌<◌, ◌^◌, ◌≡◌, ◌≢◌, sym, none,
  some, List, [], ◌∷◌, if_pos, if_neg, if◌then◌else◌, Str, Str_discrete, arith, length, All, subst,
}
use deckard.Common.Int.{pos, add64}
use deckard.Common.Maps.{Map, lookup, insert}
use deckard.Outcome.{Result, ok}
use deckard.Dtime.{Time}
use deckard.Message.{Message}
use deckard.MemoryStorage.{
  MemoryStorage, get_key, refreshed, numbered, insert_one, insert_messages, insert_storage,
}

module _ {P : Type 0} where
  -- A document stands under the key of its message, and has one of the internal ids given so far.
  abbrev pub IsStored : ℕ → Str × Message P → Type 0
  IsStored n e =
      (e.0 ≡ get_key e.1) × ((i : ℕ) × (e.1.internal_id ≡ some (pos i)) × (0 < i) × (i ≤ n))

  abbrev pub Stored : MemoryStorage P → ℕ → Type 0
  Stored s n = (s.internal_counter ≡ pos n) × All (IsStored n) s.docs

  All-mono :
      (m n : ℕ) (docs : Map (Message P)) → m ≤ n → All (IsStored m) docs → All (IsStored n) docs
  All-mono m n [] h a = tt
  All-mono m n (e ∷ docs) h a =
      ((a.0.0, (a.0.1.0, a.0.1.1, a.0.1.2, omega arith)), All-mono m n docs h a.1)

  lookup-IsStored :
      (n : ℕ) (docs : Map (Message P)) (k : Str) (m : Message P)
      → All (IsStored n) docs
      → lookup k docs ≡ some m
      → IsStored n (k, m)
  unfolding lookup
  lookup-IsStored n [] k m a h = cc
  lookup-IsStored n ((j, d) ∷ docs) k m a h = elim (Str_discrete j k) [
    | yes e ↦
        let f : d ≡ m = ground arith in
        subst (λ x. IsStored n (k, x)) f (subst (λ x. IsStored n (x, d)) e a.0)
    | no e ↦ lookup-IsStored n docs k m a.1 (ground arith)
  ]

  insert-IsStored :
      (n : ℕ) (docs : Map (Message P)) (k : Str) (m : Message P)
      → All (IsStored n) docs
      → IsStored n (k, m)
      → All (IsStored n) (insert k m docs)
  unfolding insert
  insert-IsStored n [] k m a h = (h, tt)
  insert-IsStored n ((j, d) ∷ docs) k m a h = elim (Str_discrete j k) [
    | yes e ↦ rw (if_pos (Str_discrete j k) e) (subst (λ x. IsStored n (x, m)) (sym e) h, a.1)
    | no e ↦ rw (if_neg (Str_discrete j k) e) (a.0, insert-IsStored n docs k m a.1 h)
  ]

  length-insert :
      (docs : Map (Message P)) (k : Str) (m : Message P)
      → length (insert k m docs)
        ≡ length docs + (elim (lookup k docs) as (λ x. ℕ) [ none ↦ 1 | some d ↦ 0 ])
  unfolding insert lookup
  length-insert [] k m = omega arith
  length-insert ((j, d) ∷ docs) k m = ground (arith, length-insert docs k m)

  abbrev pub Valid : Message P → Type 0
  Valid m = (m.queue ≢ []) × (m.id ≢ [])

  insert-Stored :
      (k : Str) (m : Message P) (s : MemoryStorage P) (n : ℕ)
      → Stored s n
      → IsStored n (k, m)
      → Stored (record s { docs = insert k m s.docs }) n
  insert-Stored k m s n h i = (h.0, insert-IsStored n s.docs k m h.1 i)

  -- What one round does to a stored state: the numbers given, and the documents.
  abbrev Round : MemoryStorage P → ℕ → MemoryStorage P × Bool → Type 0
  Round s n r =
      Stored r.0 (n + (if r.1 then 1 else 0))
      × (length r.0.docs ≡ length s.docs + (if r.1 then 1 else 0))

  pub insert_one-new :
      (now : Time) (s : MemoryStorage P) (m : Message P)
      → lookup (get_key m) s.docs ≡ none
      → insert_one now s m ≡ (
        record s {
          internal_counter = add64 s.internal_counter (pos 1);
          docs = insert (get_key m) (numbered now (add64 s.internal_counter (pos 1)) m) s.docs;
        },
        true,
      )
  unfolding insert_one
  insert_one-new now s m e = rw (e, insert_one)

  pub insert_one-old :
      (now : Time) (s : MemoryStorage P) (m doc : Message P)
      → lookup (get_key m) s.docs ≡ some doc
      → insert_one now s m
        ≡ (record s { docs = insert (get_key m) (refreshed m doc) s.docs }, false)
  unfolding insert_one
  insert_one-old now s m doc e = rw (e, insert_one)

  insert_one-Round :
      (now : Time) (s : MemoryStorage P) (m : Message P) (n : ℕ)
      → n + 1 < 2 ^ 63
      → Stored s n
      → Round s n (insert_one now s m)
  insert_one-Round now s m n b h = elim (Option-cases (lookup (get_key m) s.docs)) [
    | inl e ↦
        let next : add64 s.internal_counter (pos 1) ≡ pos (n + 1) =
          rw h.0 (unfold add64 in ground arith) in
        rw (insert_one-new now s m e) (
          (
            next,
            insert-IsStored (n + 1) s.docs (get_key m)
                (numbered now (add64 s.internal_counter (pos 1)) m)
                (All-mono n (n + 1) s.docs (omega arith) h.1)
                (unfold get_key numbered in
                  (refl, (n + 1, ap some next, omega arith, omega arith))),
          ),
          omega (
            arith,
            length-insert s.docs (get_key m) (numbered now (add64 s.internal_counter (pos 1)) m),
            ap (λ o. elim o as (λ x. ℕ) [ none ↦ 1 | some d ↦ 0 ]) e,
          ),
        )
    | inr (doc, e) ↦
        let old = lookup-IsStored n s.docs (get_key m) doc h.1 e in
        let z : n ≡ n + 0 = omega arith in
        rw (insert_one-old now s m doc e) (
          subst (Stored (record s { docs = insert (get_key m) (refreshed m doc) s.docs })) z (
              insert-Stored (get_key m) (refreshed m doc) s n h
                (unfold get_key refreshed in (old.0, old.1))),
          omega (
            arith,
            length-insert s.docs (get_key m) (refreshed m doc),
            ap (λ o. elim o as (λ x. ℕ) [ none ↦ 1 | some d ↦ 0 ]) e,
          ),
        )
  ]

  pub insert_messages-cons :
      (now : Time) (m : Message P) (ms : List (Message P)) (s : MemoryStorage P) (i j : ℕ)
      → Valid m
      → let r = insert_one now s m in
        insert_messages now s (m ∷ ms) i j
        ≡ insert_messages now r.0 ms (if r.1 then i + 1 else i) (if r.1 then j else j + 1)
  unfolding insert_messages
  insert_messages-cons now m ms s i j v =
      rw (if_neg (Str_discrete m.queue []) v.0, if_neg (Str_discrete m.id []) v.1)

  -- The loop from the counts i and j: what it reports and leaves, for p new messages in all.
  record Inserted (ms : List (Message P)) (s : MemoryStorage P) (n i j : ℕ)
      (r : MemoryStorage P × Result (ℕ × ℕ)) : Type 0 where
    new : ℕ
    old : ℕ
    given : ℕ
    reported : r.1 ≡ ok (new, old)
    all : new + old ≡ i + j + length ms
    numbers : given + i ≡ n + new
    stored : Stored r.0 given
    documents : length r.0.docs + i ≡ length s.docs + new

  insert_messages-Inserted :
      (now : Time) (ms : List (Message P)) (s : MemoryStorage P) (n i j : ℕ)
      → All Valid ms
      → n + length ms < 2 ^ 63
      → Stored s n
      → Inserted ms s n i j (insert_messages now s ms i j)
  unfolding insert_messages
  insert_messages-Inserted now [] s n i j v b h = record {
    new = i;
    old = j;
    given = n;
    reported = refl;
    all = omega arith;
    numbers = omega arith;
    stored = h;
    documents = omega arith;
  }
  insert_messages-Inserted now (m ∷ ms) s n i j v b h =
      let one = insert_one now s m in
      let r = insert_one-Round now s m n (omega arith) h in
      let bound : (if one.1 then 1 else 0) ≤ 1 = ground arith in
      let rest =
        insert_messages-Inserted now ms one.0 (n + (if one.1 then 1 else 0))
          (if one.1 then i + 1 else i) (if one.1 then j else j + 1) v.1 (omega arith) r.0 in
      rw (insert_messages-cons now m ms s i j v.0) (record {
        new = rest.new;
        old = rest.old;
        given = rest.given;
        reported = rest.reported;
        all = ground (arith, rest.all);
        numbers = ground (arith, rest.numbers);
        stored = rest.stored;
        documents = ground (arith, rest.documents, r.1);
      })

  -- An insertion of valid messages into a well-formed storage succeeds: it reports how many of them are new and how many
  -- update a document, together all of them, the storage has as many more documents as are new, and each document
  -- stands under the key of its message and has one of the internal ids given so far, if these stay below 2^63.
  pub insert_storage-Stored :
      (now : Time) (ms : List (Message P)) (s : MemoryStorage P) (n : ℕ)
      → All Valid ms
      → n + length ms < 2 ^ 63
      → Stored s n
      → (new : ℕ) × (old : ℕ) × ((insert_storage now s ms).1 ≡ ok (new, old))
        × (new + old ≡ length ms)
        × Stored (insert_storage now s ms).0 (n + new)
        × (length (insert_storage now s ms).0.docs ≡ length s.docs + new)
  unfolding insert_storage
  insert_storage-Stored now ms s n v b h =
      let r = insert_messages-Inserted now ms s n 0 0 v b h in
      let e : r.given ≡ n + r.new = omega (arith, r.numbers) in
      (
        r.new,
        r.old,
        r.reported,
        omega (arith, r.all),
        subst (Stored (insert_messages now s ms 0 0).0) e r.stored,
        omega (arith, r.documents),
      )
