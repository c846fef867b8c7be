-- ===== src/Audit.antt =====
-- internal/audit/audit.go: the auditor's channel and its sender. The sender's `select` takes any case that is ready, so each
-- case is a function; a batch that is handed to Elasticsearch is a value, and whether the request fails is only logged.
pub mod Sending
use deckard.Common.{
  ℕ, zero, suc, ◌==◌, Bool, true, false, Option, none, some, List, [], ◌∷◌, ◌++◌, if◌then◌else◌,
  Str, length, ltb,
}
use deckard.Outcome.{Result, ok, panic}
use deckard.Dtime.{Time}
use deckard.Message.{get_queue_parts}
use deckard.Queue.{AuditEntry}

abbrev pub max_entries_size : ℕ
max_entries_size = 200

-- The capacity of the channel.
abbrev pub channel_size : ℕ
channel_size = 10000

-- An entry with what `Store` sets.
pub record StampedEntry : Type 0 where
  pub entry : AuditEntry
  pub timestamp : Time
  pub queue_prefix : Str
  pub queue_suffix : Str

-- `sent` are the batches handed over so far.
pub record Auditor : Type 0 where
  pub enabled : Bool
  pub entries : List StampedEntry
  pub closed : Bool
  pub entries_to_send : List StampedEntry
  pub sent : List (List StampedEntry)

unfoldable pub new_auditor : Bool → Auditor
new_auditor enabled = record {
  enabled = enabled;
  entries = [];
  closed = false;
  entries_to_send = [];
  sent = [];
}

unfoldable pub stamped : Time → AuditEntry → StampedEntry
unfolding get_queue_parts
stamped now entry = record {
  entry = entry;
  timestamp = now;
  queue_prefix = (get_queue_parts entry.queue).0;
  queue_suffix = (get_queue_parts entry.queue).1;
}

-- A send on a closed channel panics; on a full one it waits, and there is no result yet.
unfoldable pub store_entry : Time → AuditEntry → Auditor → Option (Result Auditor)
unfolding stamped
store_entry now entry a =
    if a.enabled
    then (if a.closed
        then some panic
        else if ltb (length a.entries) channel_size
        then some (ok (record a { entries = a.entries ++ stamped now entry ∷ [] }))
        else none)
    else some (ok a)

unfoldable pub send : List StampedEntry → List (List StampedEntry) → List (List StampedEntry)
send [] sent = sent
send (e ∷ es) sent = sent ++ (e ∷ es) ∷ []

-- The case of an entry in the channel; with none it is not ready.
unfoldable pub receive_entry : Auditor → Option Auditor
unfolding send
receive_entry a = elim a.entries [
  | [] ↦ none
  | e ∷ rest ↦
      let entries_to_send = a.entries_to_send ++ e ∷ [] in
      if length entries_to_send == max_entries_size
      then some
          (record a { entries = rest; entries_to_send = []; sent = send entries_to_send a.sent })
      else some (record a { entries = rest; entries_to_send = entries_to_send })
]

-- The case of a time without an entry.
unfoldable pub send_waiting : Auditor → Auditor
unfolding send
send_waiting a = record a { entries_to_send = []; sent = send a.entries_to_send a.sent }

-- The case of a shutdown: the sender returns.
unfoldable pub stop_sender : Auditor → Auditor
unfolding send
stop_sender a = record a {
  closed = true;
  entries_to_send = [];
  sent = send a.entries_to_send a.sent;
}
