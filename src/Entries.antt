-- ===== src/Entries.antt =====
-- internal/queue/cache/memory_cache.go: the entries of a pool's list, and the loops over them. A `*list.List`
-- is an `Option` of the list of its values, front first, `none` where it is nil; an element that is
-- unlinked while a loop stands on it ends that loop, since its `Next` is nil then.
pub mod Order
pub mod Counts
use deckard.Common.{
  ℕ, ◌+◌, ◌≡◌, Bool, true, false, not, Option, none, some, List, [], ◌∷◌, ite, if◌then◌else◌, Str,
  Str_discrete,
}
use deckard.Common.Int.{ℤ, pos, leb_ℤ}
use deckard.Score.{Score}
use deckard.Message.{Message}

-- `MemoryMessageEntry`
pub record Entry : Type 0 where
  pub score : Score
  pub id : Str
  pub lock_until : Score

abbrev pub Pool : Type 0
Pool = Option (List Entry)

-- The values of a list; a nil list is read as an empty one.
abbrev pub values : Pool → List Entry
values none = []
values (some es) = es

unfoldable pub create_entry : {P : Type 0} → Message P → Entry
create_entry message = record { score = message.score; id = message.id; lock_until = pos 0 }

-- The loop that looks for an id.
unfoldable pub holds : Str → List Entry → Bool
holds id [] = false
holds id (value ∷ rest) = ite (Str_discrete value.id id) true (holds id rest)

-- The loop that unlinks the first entry with an id.
unfoldable pub unlink : Str → List Entry → List Entry
unlink id [] = []
unlink id (value ∷ rest) = ite (Str_discrete value.id id) rest (value ∷ unlink id rest)

-- The loop that inserts before the first entry with no smaller score, or at the back.
unfoldable pub place : Entry → List Entry → List Entry
place data_entry [] = data_entry ∷ []
place data_entry (value ∷ rest) =
    if leb_ℤ data_entry.score value.score
    then data_entry ∷ value ∷ rest
    else value ∷ place data_entry rest

unfoldable pub remove_entry : Entry → Pool → Pool × Bool
unfolding holds unlink
remove_entry data_entry none = (none, false)
remove_entry data_entry (some es) = (some (unlink data_entry.id es), holds data_entry.id es)

unfoldable pub insert_entry : Entry → Pool → Pool × Bool
unfolding remove_entry place
insert_entry data_entry list_data =
    let removal = remove_entry data_entry (some (values list_data)) in
    (some (place data_entry (values removal.0)), not removal.1)
