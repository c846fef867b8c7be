-- ===== src/Tests/AuditRuns.antt =====
-- The auditor.
use deckard.Common.{◌≡◌, refl, true, false, List, [], ◌∷◌, codes}
use deckard.Common.Int.{pos}
use deckard.Queue.{AuditEntry, audit_entry, signal_ack}
use deckard.Audit.{
  Auditor, StampedEntry, new_auditor, stamped, store_entry, receive_entry, stop_sender,
}
use deckard.Audit.Sending.{Runs, starts, stores, receives, stops, Sent, Runs-Sent}

abbrev entry : AuditEntry
entry = audit_entry signal_ack [] (codes "orders") (codes "a")

abbrev first : StampedEntry
first = stamped (pos 1) entry

abbrev second : StampedEntry
second = stamped (pos 2) entry

-- Two entries stored, one received, and a shutdown: the second stays in the channel.
abbrev holding : List StampedEntry → List StampedEntry → Auditor
holding entries to_send = record {
  enabled = true;
  entries = entries;
  closed = false;
  entries_to_send = to_send;
  sent = [];
}

shut-Runs : Runs (first ∷ second ∷ []) (stop_sender (holding (second ∷ []) (first ∷ [])))
unfolding store_entry receive_entry new_auditor
shut-Runs =
    stops
      (receives {b = holding (second ∷ []) (first ∷ [])}
        (stores {b = holding (first ∷ second ∷ []) []}
          (stores {b = holding (first ∷ []) []} starts (pos 1) entry refl) (pos 2) entry refl)
        refl refl)
      refl

stop_run :
    stop_sender (holding (second ∷ []) (first ∷ []))
    ≡ record (holding (second ∷ []) []) { closed = true; sent = (first ∷ []) ∷ [] }
unfolding stop_sender
stop_run = refl

Runs-Sent_example : Sent (first ∷ second ∷ []) (stop_sender (holding (second ∷ []) (first ∷ [])))
Runs-Sent_example = Runs-Sent shut-Runs
