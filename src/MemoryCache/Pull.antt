-- ===== src/MemoryCache/Pull.antt =====
-- `PullMessages` of internal/queue/cache/memory_cache.go.
use deckard.Common.{◌==◌, ℕ, zero, suc, Option, some, List, [], ◌∷◌, if◌then◌else◌, Str, length}
use deckard.Common.Int.{ℤ, pos, negsuc, ltb_ℤ, eqb_ℤ, add64}
use deckard.Common.Maps.{Map, insert}
use deckard.Outcome.{Result, ok, panic}
use deckard.Dtime.{Time, unix}
use deckard.Score.{Score, of_int64, out_of_range}
use deckard.Entries.{Entry, Pool, values, insert_entry}
use deckard.MemoryCache.{MemoryCache, index}

-- Five minutes.
abbrev pub default_timeout_ms : ℤ
default_timeout_ms = pos 300000

unfoldable pub min_int64 : ℤ → ℤ → ℤ
min_int64 x y = if ltb_ℤ x y then x else y

-- What the loop leaves: the list, the processing pools, the pulled ids and `filteredOut`.
pub record Pulled : Type 0 where
  pub rest : List Entry
  pub processing : Map Pool
  pub ids : List Str
  pub filtered_out : List Entry

-- The entry that a pulled message has in the processing pool.
unfoldable pub processing_entry : Time → ℤ → Entry → Entry
processing_entry now ack_deadline_ms entry = record {
  score = of_int64 (add64 (unix now) ack_deadline_ms);
  id = entry.id;
  lock_until = pos 0;
}

module _ (clock : ℕ → Time) (queue : Str) (min_score max_score : Option Score)
    (ack_deadline_ms : ℤ) where
  -- The loop from round i on, with n rounds to go. The front is the first entry with its id, so
  -- `removeEntry` takes off the front; a round takes one entry, so `i < total` fails with the list empty.
  unfoldable pub pull_loop : ℕ → ℕ → List Entry → Map Pool → Pulled
  unfolding insert_entry out_of_range processing_entry
  pull_loop i zero es processing = record {
    rest = es;
    processing = processing;
    ids = [];
    filtered_out = [];
  }
  pull_loop i (suc n) [] processing = record {
    rest = [];
    processing = processing;
    ids = [];
    filtered_out = [];
  }
  pull_loop i (suc n) (entry ∷ es) processing =
      let filtered = pull_loop (suc i) n es processing in
      let entered =
        (insert_entry (processing_entry (clock i) ack_deadline_ms entry)
          (index processing queue)).0 in
      let pulled = pull_loop (suc i) n es (insert queue entered processing) in
      if out_of_range min_score max_score entry.score
      then record filtered { filtered_out = entry ∷ filtered.filtered_out }
      else record pulled { ids = entry.id ∷ pulled.ids }

-- `insertEntry` of each entry.
unfoldable pub insert_all : List Entry → Pool → Pool
unfolding insert_entry
insert_all [] p = p
insert_all (e ∷ es) p = insert_all es (insert_entry e p).0

-- The rounds that `i < n` allows.
abbrev pub rounds : ℤ → ℕ
rounds (pos n) = n
rounds (negsuc n) = 0

-- `make` panics at a negative capacity.
unfoldable pub pull_messages :
    (ℕ → Time)
    → MemoryCache
    → Str
    → ℤ
    → Option Score
    → Option Score
    → ℤ
    → MemoryCache × Result (List Str)
unfolding min_int64 pull_loop insert_all
pull_messages clock cache queue n min_score max_score ack_deadline_ms =
    let es = values (index cache.queues queue) in
    let deadline = if eqb_ℤ ack_deadline_ms (pos 0) then default_timeout_ms else ack_deadline_ms in
    let r =
      pull_loop clock queue min_score max_score deadline 0 (rounds n) es cache.processing_queues in
    let after = record cache {
      queues = insert queue (insert_all r.filtered_out (some r.rest)) cache.queues;
      processing_queues = r.processing;
    } in
    if length es == 0
    then (cache, ok [])
    else if ltb_ℤ (min_int64 n (pos (length es))) (pos 0)
    then (cache, panic)
    else (after, ok r.ids)
