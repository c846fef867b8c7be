-- ===== src/Tests/StorageRuns.antt =====
-- The memory storage.
use deckard.Common.{
  ℕ, ◌+◌, ◌≡◌, refl, false, none, some, List, [], ◌∷◌, ◌++◌, Str, Str_discrete, codes, arith,
  if◌then◌else◌, ite, take, keep, map, length, not, inr,
}
use deckard.Common.Int.{ℤ, pos, negsuc, ltb_ℤ, eqb_ℤ}
use deckard.Common.Maps.{lookup, insert}
use deckard.Outcome.{ok}
use mathlib.Core.List.{Perm}
use deckard.Common.Int.{add64, ◌+ℤ◌}
use deckard.Message.{Message, colon}
use deckard.Storage.{FindOptions, QueueConfiguration}
use deckard.MemoryStorage.{
  MemoryStorage, get_key, insert_storage, ack_storage, nack_storage, remove_storage,
  edit_queue_configuration, get_queue_configuration,
}
use deckard.MemoryStorage.Stored.{Stored, insert_storage-Stored}
use deckard.MemoryStorage.Diagnostics.{
  Processed, ack, nack, history, history_lem, number, latest, is_ack, acks_of, nacks_of,
  consecutive_acks_of, consecutive_nacks_of, Kept, ack-nack_storage,
}
use deckard.MemoryStorage.Removal.{
  is_removed, Distinct, remove_storage-keep, get-edit_queue_configuration,
}
use deckard.MemoryStorage.Query.{
  find, count_storage, breakpoint_test, is_expired, message_matches_filter,
}
use deckard.MemoryStorage.Wanted.{all_wanted}
use deckard.MemoryStorage.Finding.{InOrder, find-all_wanted}
use deckard.Dtime.{Readings}
use deckard.Strconv.{str_to_int64}
use deckard.MemoryStorage.Totality.{Returns, find-count-Returns}
use deckard.MemoryStorage.Keys.{insert_storage-collision}

abbrev message : Str → Str → ℤ → Message ℕ
message queue id score = record {
  id = id;
  description = [];
  queue = queue;
  expiry_date = pos 2000000000000000000;
  timeless = false;
  metadata = [];
  payload = 0;
  string_payload = [];
  lock_ms = pos 0;
  internal_id = none;
  score = score;
  last_usage = none;
  breakpoint = [];
  last_score_subtract = pos 0;
  total_score_subtract = pos 0;
  usage_count = pos 0;
  queue_prefix = queue;
  queue_suffix = [];
  diagnostics = none;
}

abbrev q : Str
q = codes "orders"

abbrev empty : MemoryStorage ℕ
empty = record { docs = []; configurations = []; internal_counter = pos 0 }

abbrev two : List (Message ℕ)
two = message q (codes "b") (pos 7) ∷ message q (codes "a") (pos 3) ∷ []

abbrev now : ℤ
now = pos 1700000000000000000

abbrev clock : Readings
clock i = (now, now)

-- With both messages stored.
abbrev filled : MemoryStorage ℕ
filled = (insert_storage now empty two).0

insert_run : (insert_storage now empty two).1 ≡ ok (2, 0)
unfolding insert_storage lookup insert Str_discrete
insert_run = refl

insert_storage-Stored_example :
    (new : ℕ) × (old : ℕ) × ((insert_storage now empty two).1 ≡ ok (new, old))
    × (new + old ≡ length two)
    × Stored (insert_storage now empty two).0 (0 + new)
    × (length (insert_storage now empty two).0.docs ≡ length empty.docs + new)
insert_storage-Stored_example =
    insert_storage-Stored now two empty 0 ((λ e. cc, λ e. cc), ((λ e. cc, λ e. cc), tt))
      (omega arith) (refl, tt)

abbrev by_score : FindOptions
by_score = record {
  sort = some ((codes "score", pos 1) ∷ []);
  limit = pos 1;
  internal_filter = some (record {
    internal_id_breakpoint_gt = [];
    internal_id_breakpoint_lte = [];
    ids = none;
    queue = q;
    queue_prefix = [];
    expiry_date = none;
  });
  retry = false;
}

filled-Stored : Stored filled 2
unfolding insert_storage lookup insert Str_discrete get_key add64
filled-Stored = (
  refl,
  ((refl, (1, refl, omega arith, omega arith)), ((refl, (2, refl, omega arith, omega arith)), tt)),
)

-- From the internal id 1 on, up to 9.
abbrev from_one : FindOptions
from_one = record by_score {
  internal_filter = some (record {
    internal_id_breakpoint_gt = codes "1";
    internal_id_breakpoint_lte = codes "9";
    ids = none;
    queue = q;
    queue_prefix = [];
    expiry_date = none;
  });
}

find-count-Returns_example :
    Returns (find clock filled (some from_one)) × Returns (count_storage filled (some from_one))
unfolding str_to_int64
find-count-Returns_example =
    find-count-Returns clock filled 2 (some from_one) filled-Stored
      (inr (pos 1, refl), inr (pos 9, refl))

abbrev three : List Processed
three = ack ∷ ack ∷ nack ∷ []

history_lem_example :
    (acks_of (history three) ≡ pos (number is_ack three))
    × (nacks_of (history three) ≡ pos (number (λ r. not (is_ack r)) three))
    × (consecutive_acks_of (history three) ≡ pos (latest is_ack three))
    × (consecutive_nacks_of (history three) ≡ pos (latest (λ r. not (is_ack r)) three))
history_lem_example = history_lem three (omega arith)

abbrev doc : Message ℕ
doc = message q (codes "a") (pos 3)

abbrev one : MemoryStorage ℕ
one = record empty { docs = (q ++ colon ∷ codes "a", doc) ∷ []; internal_counter = pos 1 }

find-all_wanted_example :
    (all : List (Message ℕ)) × Perm all
      (all_wanted clock by_score.internal_filter (map (λ e. e.1) one.docs))
    × InOrder by_score.sort all
    × ((doc ∷ []) ≡ (if ltb_ℤ (pos 0) (pos 1) then take 1 all else all))
unfolding find is_expired message_matches_filter breakpoint_test take Str_discrete
find-all_wanted_example = find-all_wanted clock one by_score (doc ∷ []) refl

ack-nack_storage_example :
    (a : Message ℕ) × (b : Message ℕ) × (lookup (get_key doc) (ack_storage ◌+ℤ◌ one doc).0.docs
      ≡ ite (Str_discrete (get_key doc) (get_key doc)) (some a) (lookup (get_key doc) one.docs))
    × (a.diagnostics ≡ history (ack ∷ []))
    × (a.score ≡ doc.score)
    × Kept ◌+ℤ◌ one doc doc [] a
    × (lookup (get_key doc) (nack_storage one doc).0.docs
        ≡ ite (Str_discrete (get_key doc) (get_key doc)) (some b) (lookup (get_key doc) one.docs))
    × (b.diagnostics ≡ history (nack ∷ []))
    × (b.score ≡ doc.score)
    × Kept ◌+ℤ◌ one doc doc [] b
unfolding lookup get_key Str_discrete history
ack-nack_storage_example = ack-nack_storage ◌+ℤ◌ one doc doc [] (get_key doc) refl refl

remove_storage-keep_example :
    ((remove_storage one q (codes "a" ∷ [])).0.docs
      ≡ keep (λ e. not (is_removed q (codes "a" ∷ []) e)) one.docs)
    × (Distinct (codes "a" ∷ [])
        → (n : ℕ) × ((remove_storage one q (codes "a" ∷ [])).1 ≡ ok n)
          × (length (remove_storage one q (codes "a" ∷ [])).0.docs + n ≡ length one.docs))
remove_storage-keep_example = remove_storage-keep one q (codes "a" ∷ [])

abbrev limit : QueueConfiguration
limit = record { queue = q; max_elements = negsuc 0 }

get-edit_queue_configuration_example :
    get_queue_configuration (edit_queue_configuration one limit).0 q ≡ (
      if eqb_ℤ (negsuc 0) (pos 0)
      then get_queue_configuration one q
      else ite
          (Str_discrete q q)
          (ok (some (record limit { max_elements = pos 0 })))
          (get_queue_configuration one q))
get-edit_queue_configuration_example = get-edit_queue_configuration one limit q

-- The queue "orders:eu" with the id "a", and the queue "orders" with the id "eu:a".
abbrev first : Message ℕ
first = message (codes "orders:eu") (codes "a") (pos 3)

abbrev second : Message ℕ
second = message q (codes "eu:a") (pos 3)

insert_storage-collision_example :
    let stored = (insert_storage now empty (first ∷ [])).0 in
    let (after, result) = insert_storage now stored (second ∷ []) in
    (result ≡ ok (0, 1))
    × ((doc : Message ℕ) × (lookup (get_key second) after.docs
          ≡ ite
              (Str_discrete (get_key first) (get_key second))
              (some doc)
              (lookup (get_key second) empty.docs))
        × (doc.queue ≡ first.queue)
        × (doc.id ≡ first.id)
        × (doc.payload ≡ second.payload))
unfolding lookup
insert_storage-collision_example =
    insert_storage-collision now empty first second q (codes "eu") (codes "a") (get_key second) refl
      refl refl refl (λ e. cc, λ e. cc) (λ e. cc, λ e. cc) refl
