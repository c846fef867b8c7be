-- ===== src/Audit/Sending.antt =====
-- Every order of stores and of the sender's cases.
use deckard.Common.{
  ◌≤◌, ◌<◌, ◌==◌, ◌≡◌, refl, sym, ap, subst, ◌∙◌, Bool, true, false, some, List, [], ◌∷◌, ◌++◌,
  if◌then◌else◌, All, arith, length, length-append, append_assoc, All-append, Bool-cases, inl, inr,
  ◌⊎◌,
}
use deckard.Outcome.{ok}
use deckard.Dtime.{Time}
use deckard.Queue.{AuditEntry}
use deckard.Audit.{
  Auditor, StampedEntry, new_auditor, stamped, store_entry, send, receive_entry, send_waiting,
  stop_sender, max_entries_size, channel_size,
}

-- The entries of the batches, in order.
pub joined : List (List StampedEntry) → List StampedEntry
joined [] = []
joined (b ∷ bs) = b ++ joined bs

-- The states that an enabled auditor reaches, with the entries it has stored so far.
pub data Runs : List StampedEntry → Auditor → Type 0 where
  starts : Runs [] (new_auditor true)
  stores :
      {given : List StampedEntry} {a b : Auditor}
      → Runs given a
      → (now : Time) (e : AuditEntry) → store_entry now e a ≡ some (ok b)
      → Runs (given ++ stamped now e ∷ []) b
  receives :
      {given : List StampedEntry} {a b : Auditor}
      → Runs given a
      → a.closed ≡ false
      → receive_entry a ≡ some b
      → Runs given b
  waits :
      {given : List StampedEntry} {a : Auditor}
      → Runs given a
      → a.closed ≡ false
      → Runs given (send_waiting a)
  stops :
      {given : List StampedEntry} {a : Auditor}
      → Runs given a
      → a.closed ≡ false
      → Runs given (stop_sender a)

abbrev pub IsBatch : List StampedEntry → Type 0
IsBatch b = (0 < length b) × (length b ≤ max_entries_size)

pub record Sent (given : List StampedEntry) (a : Auditor) : Type 0 where
  pub in_order : joined a.sent ++ (a.entries_to_send ++ a.entries) ≡ given
  pub batches : All IsBatch a.sent
  pub waiting : length a.entries_to_send < max_entries_size
  pub channel : length a.entries ≤ channel_size
  pub on : a.enabled ≡ true
  -- After a shutdown nothing waits with the sender, and what is in the channel stays there.
  pub stopped : (if a.closed then length a.entries_to_send else 0) ≡ 0

joined-append : (bs cs : List (List StampedEntry)) → joined (bs ++ cs) ≡ joined bs ++ joined cs
unfolding joined
joined-append [] cs = refl
joined-append (b ∷ bs) cs =
    ap (λ x. b ++ x) (joined-append bs cs) ∙ sym (append_assoc b (joined bs) (joined cs))

append_nil : (es : List StampedEntry) → es ++ [] ≡ es
append_nil [] = refl
append_nil (e ∷ es) = ap (λ x. e ∷ x) (append_nil es)

joined-send :
    (b : List StampedEntry) (sent : List (List StampedEntry))
    → joined (send b sent) ≡ joined sent ++ b
unfolding send joined
joined-send [] sent = sym (append_nil (joined sent))
joined-send (e ∷ es) sent =
    joined-append sent ((e ∷ es) ∷ []) ∙ ap (λ x. joined sent ++ x) (append_nil (e ∷ es))

batches-send :
    (b : List StampedEntry) (sent : List (List StampedEntry))
    → length b ≤ max_entries_size
    → All IsBatch sent
    → All IsBatch (send b sent)
unfolding send
batches-send [] sent h k = k
batches-send (e ∷ es) sent h k = All-append IsBatch sent ((e ∷ es) ∷ []) k ((omega arith, h), tt)

List-cases :
    (es : List StampedEntry)
    → (es ≡ []) ⊎ ((x : StampedEntry) × (rest : List StampedEntry) × (es ≡ x ∷ rest))
List-cases [] = inl refl
List-cases (x ∷ rest) = inr (x, rest, refl)

store_entry-Sent :
    (given : List StampedEntry) (a b : Auditor) (now : Time) (e : AuditEntry)
    → store_entry now e a ≡ some (ok b)
    → Sent given a
    → Sent (given ++ stamped now e ∷ []) b
unfolding store_entry
store_entry-Sent given a b now e h s =
    let new = stamped now e ∷ [] in
    let c : Auditor = record a { entries = a.entries ++ new } in
    let room : length a.entries < channel_size = ground (arith, h, s.on) in
    let same : c ≡ b = ground (arith, h, s.on) in
    subst (Sent (given ++ new)) same (record {
      in_order =
          ap (λ x. joined a.sent ++ x) (sym (append_assoc a.entries_to_send a.entries new))
          ∙ sym (append_assoc (joined a.sent) (a.entries_to_send ++ a.entries) new)
          ∙ ap (λ x. x ++ new) s.in_order;
      batches = s.batches;
      waiting = s.waiting;
      channel = omega (arith, room, length-append a.entries new);
      on = s.on;
      stopped = s.stopped;
    })

-- The sender's cases: the batch that is waiting, with or without one more entry, is handed over.
sent-Sent :
    (given : List StampedEntry) (a : Auditor) (b rest : List StampedEntry) (closed : Bool)
    → Sent given a
    → joined a.sent ++ (b ++ rest) ≡ given
    → length b ≤ max_entries_size
    → length rest ≤ channel_size
    → Sent given
        (record a { entries = rest; closed = closed; entries_to_send = []; sent = send b a.sent })
sent-Sent given a b rest closed s e h k = record {
  in_order = ap (λ x. x ++ rest) (joined-send b a.sent) ∙ append_assoc (joined a.sent) b rest ∙ e;
  batches = batches-send b a.sent h s.batches;
  waiting = omega arith;
  channel = k;
  on = s.on;
  stopped = ground arith;
}

receive_entry-Sent :
    (given : List StampedEntry) (a b : Auditor)
    → a.closed ≡ false
    → receive_entry a ≡ some b
    → Sent given a
    → Sent given b
unfolding receive_entry
receive_entry-Sent given a b going h s = elim (List-cases a.entries) [
  | inl e ↦ absurd (ground (arith, h, e))
  | inr (x, rest, e) ↦
      let more = a.entries_to_send ++ x ∷ [] in
      let order : joined a.sent ++ (more ++ rest) ≡ given =
        ap (λ y. joined a.sent ++ y) (append_assoc a.entries_to_send (x ∷ []) rest)
        ∙ ap (λ y. joined a.sent ++ (a.entries_to_send ++ y)) (sym e)
        ∙ s.in_order in
      let size = length-append a.entries_to_send (x ∷ []) in
      let room : length rest ≤ channel_size = omega (arith, s.channel, ap (λ y. length y) e) in
      elim (Bool-cases (length more == max_entries_size)) [
        | inl full ↦
            let same : record a { entries = rest; entries_to_send = []; sent = send more a.sent }
                ≡ b =
              ground (arith, h, e, full) in
            subst (Sent given) same
              (sent-Sent given a more rest a.closed s order (omega (arith, size, s.waiting)) room)
        | inr space ↦
            let same : record a { entries = rest; entries_to_send = more } ≡ b =
              ground (arith, h, e, space) in
            subst (Sent given) same (record {
              in_order = order;
              batches = s.batches;
              waiting = ground (arith, space, size, s.waiting);
              channel = room;
              on = s.on;
              stopped = ground (arith, going);
            })
      ]
]

-- In every order of stores, sends and the shutdown, the entries stored are, in order and each once, those of the batches handed over,
-- those that the sender holds and those in the channel; no batch is empty or larger than 200. After the shutdown the sender holds none, and the
-- entries that are then in the channel have not been handed over.
pub Runs-Sent : {given : List StampedEntry} {a : Auditor} → Runs given a → Sent given a
unfolding new_auditor joined send_waiting stop_sender
Runs-Sent starts = record {
  in_order = refl;
  batches = tt;
  waiting = omega arith;
  channel = omega arith;
  on = refl;
  stopped = refl;
}
Runs-Sent (stores {given} {a} {b} r now e h) = store_entry-Sent given a b now e h (Runs-Sent r)
Runs-Sent (receives {given} {a} {b} r going h) = receive_entry-Sent given a b going h (Runs-Sent r)
Runs-Sent (waits {given} {a} r going) =
    let s = Runs-Sent r in
    sent-Sent given a a.entries_to_send a.entries a.closed s s.in_order (omega (arith, s.waiting))
      s.channel
Runs-Sent (stops {given} {a} r going) =
    let s = Runs-Sent r in
    sent-Sent given a a.entries_to_send a.entries true s s.in_order (omega (arith, s.waiting))
      s.channel
