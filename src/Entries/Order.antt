-- ===== src/Entries/Order.antt =====
-- Lists of entries stay in the order of their scores.
use deckard.Common.{none, some, List, [], ◌∷◌, Str, arith}
use deckard.Common.Int.{◌≤ℤ◌}
use deckard.Score.{Score}
use deckard.Entries.{Entry, Pool, values, unlink, place, remove_entry, insert_entry}

-- No score of the list is below the bound.
abbrev pub AtLeast : Score → List Entry → Type 0
AtLeast b [] = Unit
AtLeast b (e ∷ es) = (b ≤ℤ e.score) × AtLeast b es

abbrev pub IsSorted : List Entry → Type 0
IsSorted [] = Unit
IsSorted (e ∷ es) = AtLeast e.score es × IsSorted es

pub AtLeast-unlink :
    (b : Score) (id : Str) (es : List Entry) → AtLeast b es → AtLeast b (unlink id es)
unfolding unlink
AtLeast-unlink b id [] h = tt
AtLeast-unlink b id (e ∷ es) h = ground (arith, AtLeast-unlink b id es)

pub AtLeast-place :
    (b : Score) (x : Entry) (es : List Entry) → b ≤ℤ x.score → AtLeast b es → AtLeast b (place x es)
unfolding place
AtLeast-place b x [] h k = (h, tt)
AtLeast-place b x (e ∷ es) h k = ground (arith, AtLeast-place b x es)

AtLeast-mono : (a b : Score) (es : List Entry) → a ≤ℤ b → AtLeast b es → AtLeast a es
AtLeast-mono a b [] h k = tt
AtLeast-mono a b (e ∷ es) h k = (omega arith, AtLeast-mono a b es h k.1)

pub unlink-IsSorted : (id : Str) (es : List Entry) → IsSorted es → IsSorted (unlink id es)
unfolding unlink
unlink-IsSorted id [] h = tt
unlink-IsSorted id (e ∷ es) h = ground (arith, unlink-IsSorted id es, AtLeast-unlink e.score id es)

pub place-IsSorted : (x : Entry) (es : List Entry) → IsSorted es → IsSorted (place x es)
unfolding place
place-IsSorted x [] h = (tt, tt)
place-IsSorted x (e ∷ es) h =
    ground (arith, place-IsSorted x es, AtLeast-place e.score x es, AtLeast-mono x.score e.score es)

-- `insertEntry` and `removeEntry` keep a list in the order of its scores.
pub insert_entry-IsSorted :
    (x : Entry) (p : Pool) → IsSorted (values p) → IsSorted (values (insert_entry x p).0)
unfolding insert_entry
insert_entry-IsSorted x p h = place-IsSorted x _ (unlink-IsSorted x.id (values p) h)

pub remove_entry-IsSorted :
    (x : Entry) (p : Pool) → IsSorted (values p) → IsSorted (values (remove_entry x p).0)
unfolding remove_entry
remove_entry-IsSorted x none h = tt
remove_entry-IsSorted x (some es) h = unlink-IsSorted x.id es h
