-- ===== src/Entries/Counts.antt =====
-- How often an id stands in a list of entries.
use deckard.Common.{
  ◌==◌, ℕ, suc, ◌-◌, ◌≡◌, true, false, none, some, List, [], ◌∷◌, ite, if◌then◌else◌, Str,
  Str_discrete, arith,
}
use deckard.Entries.{Entry, Pool, values, holds, unlink, place, remove_entry, insert_entry}

unfoldable pub copies : Str → List Entry → ℕ
copies id [] = 0
copies id (e ∷ es) = ite (Str_discrete e.id id) (suc (copies id es)) (copies id es)

pub copies-unlink :
    (id k : Str) (es : List Entry)
    → copies id (unlink k es) ≡ ite (Str_discrete k id) (copies id es - 1) (copies id es)
unfolding copies unlink
copies-unlink id k [] = ground arith
copies-unlink id k (e ∷ es) = ground (arith, copies-unlink id k es)

pub copies-place :
    (id : Str) (x : Entry) (es : List Entry)
    → copies id (place x es) ≡ ite (Str_discrete x.id id) (suc (copies id es)) (copies id es)
unfolding copies place
copies-place id x [] = ground arith
copies-place id x (e ∷ es) = ground (arith, copies-place id x es)

pub holds-copies :
    (id : Str) (es : List Entry) → holds id es ≡ (if copies id es == 0 then false else true)
unfolding copies holds
holds-copies id [] = ground arith
holds-copies id (e ∷ es) = ground (arith, holds-copies id es)

-- After `insertEntry` the id of the entry stands once where it stood at most once, every other id
-- stands as often as before, and the result tells whether the id is new.
pub copies-insert_entry :
    (id : Str) (x : Entry) (p : Pool)
    → (copies id (values (insert_entry x p).0)
        ≡ ite (Str_discrete x.id id) (suc (copies id (values p) - 1)) (copies id (values p)))
      × ((insert_entry x p).1 ≡ (if copies x.id (values p) == 0 then true else false))
unfolding insert_entry remove_entry
copies-insert_entry id x p = ground (
  arith,
  copies-place id x (unlink x.id (values p)),
  copies-unlink id x.id (values p),
  holds-copies x.id (values p),
)

-- `removeEntry` takes one entry with the id away, if there is one, and tells whether there was.
pub copies-remove_entry :
    (id : Str) (x : Entry) (p : Pool)
    → (copies id (values (remove_entry x p).0)
        ≡ ite (Str_discrete x.id id) (copies id (values p) - 1) (copies id (values p)))
      × ((remove_entry x p).1 ≡ (if copies x.id (values p) == 0 then false else true))
unfolding remove_entry copies
copies-remove_entry id x none = ground arith
copies-remove_entry id x (some es) = ground (arith, copies-unlink id x.id es, holds-copies x.id es)
