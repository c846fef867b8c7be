-- ===== src/MemoryStorage.antt =====
-- internal/queue/storage/memory_storage.go: the state, and the operations that change it. A stored message is a
-- value here: the source shares it with the caller by pointer. Each operation reads the clock once.
pub mod Query
pub mod Stored
pub mod Diagnostics
pub mod Removal
pub mod Wanted
pub mod Finding
pub mod Totality
pub mod Keys
use deckard.Common.{
  ℕ, zero, suc, ◌+◌, ◌≡◌, Bool, true, false, not, ◌&&◌, Option, none, some, List, [], ◌∷◌, ◌++◌,
  ite, if◌then◌else◌, Str, Str_discrete, is_yes, length, map, exists, keep,
}
use deckard.Common.Int.{ℤ, pos, add64, ltb_ℤ, eqb_ℤ}
use deckard.Common.Maps.{Map, lookup, insert}
use deckard.Outcome.{Result, ok, err, message_invalid_queue, message_invalid_id}
use deckard.Dtime.{Time}
use deckard.Score.{Score}
use deckard.Message.{Message, MessageDiagnostics, colon}
use deckard.Strconv.{format_int64}
use deckard.Storage.{QueueConfiguration}

pub record MemoryStorage (P : Type 0) : Type 0 where
  pub docs : Map (Message P)
  pub configurations : Map QueueConfiguration
  pub internal_counter : ℤ

-- A nil pointer reads as 0, and is set to it.
abbrev pub counter : Option ℤ → ℤ
counter none = pos 0
counter (some n) = n

unfoldable pub set_diagnostics_struct : Option MessageDiagnostics → MessageDiagnostics
set_diagnostics_struct none = record {
  acks = some (pos 0);
  nacks = some (pos 0);
  consecutive_acks = some (pos 0);
  consecutive_nacks = some (pos 0);
}
set_diagnostics_struct (some d) = record {
  acks = some (counter d.acks);
  nacks = some (counter d.nacks);
  consecutive_acks = some (counter d.consecutive_acks);
  consecutive_nacks = some (counter d.consecutive_nacks);
}

unfoldable pub ack_diagnostics : Option MessageDiagnostics → MessageDiagnostics
unfolding set_diagnostics_struct
ack_diagnostics diagnostics =
    let d = set_diagnostics_struct diagnostics in
    record d {
      acks = some (add64 (counter d.acks) (pos 1));
      consecutive_acks = some (add64 (counter d.consecutive_acks) (pos 1));
      consecutive_nacks = some (pos 0);
    }

unfoldable pub nack_diagnostics : Option MessageDiagnostics → MessageDiagnostics
unfolding set_diagnostics_struct
nack_diagnostics diagnostics =
    let d = set_diagnostics_struct diagnostics in
    record d {
      nacks = some (add64 (counter d.nacks) (pos 1));
      consecutive_nacks = some (add64 (counter d.consecutive_nacks) (pos 1));
      consecutive_acks = some (pos 0);
    }

-- How often an id stands among the ids.
unfoldable pub times : Str → List Str → ℕ
times id [] = 0
times id (i ∷ ids) = (if is_yes (Str_discrete id i) then 1 else 0) + times id ids

module _ {P : Type 0} where
  unfoldable pub get_key : Message P → Str
  get_key message = message.queue ++ colon ∷ message.id

  -- The fields that an insertion of a present message replaces.
  unfoldable pub refreshed : Message P → Message P → Message P
  refreshed message doc = record doc {
    description = message.description;
    expiry_date = message.expiry_date;
    metadata = message.metadata;
    payload = message.payload;
    string_payload = message.string_payload;
  }

  unfoldable pub numbered : Time → ℤ → Message P → Message P
  numbered now counter message = record message {
    internal_id = some counter;
    last_usage = some now;
  }

  -- One round of the loop over valid messages: the state, and whether the message is new.
  unfoldable pub insert_one : Time → MemoryStorage P → Message P → MemoryStorage P × Bool
  unfolding get_key refreshed numbered
  insert_one now storage message = elim (lookup (get_key message) storage.docs) [
    | some doc ↦ (
      record storage { docs = insert (get_key message) (refreshed message doc) storage.docs },
      false,
    )
    | none ↦
        let next = add64 storage.internal_counter (pos 1) in
        (
          record storage {
            internal_counter = next;
            docs = insert (get_key message) (numbered now next message) storage.docs;
          },
          true,
        )
  ]

  -- The loop. An invalid message ends it with an error, and what was stored before stays.
  unfoldable pub insert_messages :
      Time → MemoryStorage P → List (Message P) → ℕ → ℕ → MemoryStorage P × Result (ℕ × ℕ)
  unfolding insert_one
  insert_messages now storage [] inserted modified = (storage, ok (inserted, modified))
  insert_messages now storage (m ∷ ms) inserted modified =
      let (after, is_new) = insert_one now storage m in
      let rest =
        insert_messages now after ms (if is_new then inserted + 1 else inserted)
          (if is_new then modified else modified + 1) in
      ite (Str_discrete m.queue []) (storage, err message_invalid_queue)
        (ite (Str_discrete m.id []) (storage, err message_invalid_id) rest)

  unfoldable pub insert_storage :
      Time → MemoryStorage P → List (Message P) → MemoryStorage P × Result (ℕ × ℕ)
  unfolding insert_messages
  insert_storage now storage messages = insert_messages now storage messages 0 0

  -- `add_float` is the sum of two float64 values.
  unfoldable pub acked : (Score → Score → Score) → Message P → Message P → Message P
  unfolding ack_diagnostics
  acked add_float msg value = record value {
    total_score_subtract = add_float value.total_score_subtract msg.last_score_subtract;
    usage_count = add64 value.usage_count (pos 1);
    last_usage = msg.last_usage;
    last_score_subtract = msg.last_score_subtract;
    score = msg.score;
    lock_ms = msg.lock_ms;
    breakpoint = msg.breakpoint;
    diagnostics = some (ack_diagnostics value.diagnostics);
  }

  unfoldable pub ack_storage :
      (Score → Score → Score) → MemoryStorage P → Message P → MemoryStorage P × Result ℕ
  unfolding get_key acked
  ack_storage add_float storage msg = elim (lookup (get_key msg) storage.docs) [
    | none ↦ (storage, ok 0)
    | some value ↦ (
      record storage { docs = insert (get_key msg) (acked add_float msg value) storage.docs },
      ok 1,
    )
  ]

  unfoldable pub nacked : Message P → Message P → Message P
  unfolding nack_diagnostics
  nacked msg value = record value {
    score = msg.score;
    lock_ms = msg.lock_ms;
    diagnostics = some (nack_diagnostics value.diagnostics);
  }

  unfoldable pub nack_storage : MemoryStorage P → Message P → MemoryStorage P × Result ℕ
  unfolding get_key nacked
  nack_storage storage msg = elim (lookup (get_key msg) storage.docs) [
    | none ↦ (storage, ok 0)
    | some value ↦
        (record storage { docs = insert (get_key msg) (nacked msg value) storage.docs }, ok 1)
  ]

  -- The loops of `Remove`: a document whose id is met is deleted, and counted each time it is met.
  unfoldable pub remove_docs : Str → List Str → Map (Message P) → Map (Message P) × ℕ
  unfolding times
  remove_docs queue ids [] = ([], 0)
  remove_docs queue ids ((key, message) ∷ docs) =
      let rest = remove_docs queue ids docs in
      let met = times message.id ids in
      if not (is_yes (Str_discrete message.queue queue))
      then ((key, message) ∷ rest.0, rest.1)
      else if eqb_ℤ (pos met) (pos 0)
      then ((key, message) ∷ rest.0, rest.1)
      else (rest.0, met + rest.1)

  unfoldable pub remove_storage : MemoryStorage P → Str → List Str → MemoryStorage P × Result ℕ
  unfolding remove_docs
  remove_storage storage queue ids =
      let r = remove_docs queue ids storage.docs in (record storage { docs = r.0 }, ok r.1)

  unfoldable pub flush_storage : MemoryStorage P → MemoryStorage P × Result ℕ
  flush_storage storage = (
    record storage { docs = []; configurations = [] },
    ok (length storage.docs + length storage.configurations),
  )

  unfoldable pub get_string_internal_id : Message P → Str
  unfolding format_int64
  get_string_internal_id message = elim message.internal_id [ none ↦ [] | some i ↦ format_int64 i ]

  unfoldable pub edit_queue_configuration :
      MemoryStorage P → QueueConfiguration → MemoryStorage P × Result (Unit {0})
  edit_queue_configuration storage configuration =
      let stored =
        if ltb_ℤ configuration.max_elements (pos 0)
        then record configuration { max_elements = pos 0 }
        else configuration in
      if eqb_ℤ configuration.max_elements (pos 0) then (storage, ok tt) else (
        record storage {
          configurations = insert configuration.queue stored storage.configurations;
        },
        ok tt,
      )

  unfoldable pub get_queue_configuration :
      MemoryStorage P → Str → Result (Option QueueConfiguration)
  get_queue_configuration storage queue = ok (lookup queue storage.configurations)

  unfoldable pub list_queue_configurations : MemoryStorage P → Result (List QueueConfiguration)
  list_queue_configurations storage = ok (map (λ e. e.1) storage.configurations)
