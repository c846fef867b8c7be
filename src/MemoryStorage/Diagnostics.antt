-- ===== src/MemoryStorage/Diagnostics.antt =====
-- The counters of acknowledgements.
use deckard.Common.{
  Bool, true, false, not, refl, ℕ, suc, ◌+◌, ◌≤◌, ◌<◌, ◌^◌, ◌≡◌, Option, none, some, List, [], ◌∷◌,
  ite, if◌then◌else◌, Str, Str_discrete, arith, length,
}
use deckard.Common.Int.{ℤ, pos, add64}
use deckard.Common.Maps.{lookup, lookup-insert}
use deckard.Score.{Score}
use deckard.Message.{Message, MessageDiagnostics}
use deckard.MemoryStorage.{
  MemoryStorage, counter, ack_diagnostics, nack_diagnostics, get_key, acked, ack_storage, nacked,
  nack_storage,
}

pub data Processed : Type 0 where
  ack nack : Processed

-- The diagnostics of a message after it was processed, the latest result first.
unfoldable pub history : List Processed → Option MessageDiagnostics
unfolding ack_diagnostics nack_diagnostics
history [] = none
history (ack ∷ rs) = some (ack_diagnostics (history rs))
history (nack ∷ rs) = some (nack_diagnostics (history rs))

pub is_ack : Processed → Bool
is_ack ack = true
is_ack nack = false

-- How many results pass the test, and how many of the latest ones do in a row.
pub number : (Processed → Bool) → List Processed → ℕ
number test [] = 0
number test (r ∷ rs) = (if test r then 1 else 0) + number test rs

pub latest : (Processed → Bool) → List Processed → ℕ
latest test [] = 0
latest test (r ∷ rs) = if test r then suc (latest test rs) else 0

abbrev pub acks_of : Option MessageDiagnostics → ℤ
acks_of d = elim d [ none ↦ pos 0 | some x ↦ counter x.acks ]

abbrev pub nacks_of : Option MessageDiagnostics → ℤ
nacks_of d = elim d [ none ↦ pos 0 | some x ↦ counter x.nacks ]

abbrev pub consecutive_acks_of : Option MessageDiagnostics → ℤ
consecutive_acks_of d = elim d [ none ↦ pos 0 | some x ↦ counter x.consecutive_acks ]

abbrev pub consecutive_nacks_of : Option MessageDiagnostics → ℤ
consecutive_nacks_of d = elim d [ none ↦ pos 0 | some x ↦ counter x.consecutive_nacks ]

add-one : (n : ℕ) → n + 1 < 2 ^ 63 → add64 (pos n) (pos 1) ≡ pos (n + 1)
unfolding add64
add-one n h = ground arith

latest-le :
    (test : Processed → Bool) (rs : List Processed)
    → (latest test rs ≤ length rs) × (number test rs ≤ length rs)
unfolding latest number
latest-le test [] = omega arith
latest-le test (r ∷ rs) = ground (arith, latest-le test rs)

abbrev Counts : Option MessageDiagnostics → ℕ → ℕ → ℕ → ℕ → Type 0
Counts d a n ca cn =
    (acks_of d ≡ pos a)
    × (nacks_of d ≡ pos n)
    × (consecutive_acks_of d ≡ pos ca)
    × (consecutive_nacks_of d ≡ pos cn)

ack-Counts :
    (d : Option MessageDiagnostics) (a n ca cn : ℕ)
    → a + 1 < 2 ^ 63
    → ca + 1 < 2 ^ 63
    → Counts d a n ca cn
    → Counts (some (ack_diagnostics d)) (a + 1) n (ca + 1) 0
unfolding ack_diagnostics
ack-Counts none a n ca cn p q c = ground (arith, add-one a p, add-one ca q)
ack-Counts (some d) a n ca cn p q c = ground (arith, add-one a p, add-one ca q)

nack-Counts :
    (d : Option MessageDiagnostics) (a n ca cn : ℕ)
    → n + 1 < 2 ^ 63
    → cn + 1 < 2 ^ 63
    → Counts d a n ca cn
    → Counts (some (nack_diagnostics d)) a (n + 1) 0 (cn + 1)
unfolding nack_diagnostics
nack-Counts none a n ca cn p q c = ground (arith, add-one n p, add-one cn q)
nack-Counts (some d) a n ca cn p q c = ground (arith, add-one n p, add-one cn q)

-- After any history of acknowledgements, shorter than 2^63, the four counters tell how many there were of each kind
-- and how many of the latest in a row.
pub history_lem :
    (rs : List Processed)
    → length rs < 2 ^ 63
    → (acks_of (history rs) ≡ pos (number is_ack rs))
      × (nacks_of (history rs) ≡ pos (number (λ r. not (is_ack r)) rs))
      × (consecutive_acks_of (history rs) ≡ pos (latest is_ack rs))
      × (consecutive_nacks_of (history rs) ≡ pos (latest (λ r. not (is_ack r)) rs))
unfolding history number latest is_ack
history_lem [] h = (refl, refl, refl, refl)
history_lem (ack ∷ rs) h =
    let (u, v) = latest-le is_ack rs in
    ground (
      arith,
      ack-Counts (history rs) (number is_ack rs) (number (λ r. not (is_ack r)) rs)
          (latest is_ack rs) (latest (λ r. not (is_ack r)) rs) (omega arith) (omega arith)
          (history_lem rs (omega arith)),
    )
history_lem (nack ∷ rs) h =
    let (u, v) = latest-le (λ r. not (is_ack r)) rs in
    ground (
      arith,
      nack-Counts (history rs) (number is_ack rs) (number (λ r. not (is_ack r)) rs)
          (latest is_ack rs) (latest (λ r. not (is_ack r)) rs) (omega arith) (omega arith)
          (history_lem rs (omega arith)),
    )

module _ {P : Type 0} (add_float : Score → Score → Score) (s : MemoryStorage P) (msg d : Message P)
    (rs : List Processed) where
  -- The parts of the document that a result does not change.
  abbrev pub Kept : Message P → Type 0
  Kept a = (a.queue ≡ d.queue) × (a.id ≡ d.id) × (a.payload ≡ d.payload)

  -- `Ack` and `Nack` of a stored message change the document under its key: one more success, or failure, in the history of its
  -- diagnostics, and the score given; its queue, its id and its payload stay, and the documents under other keys stay whole.
  pub ack-nack_storage :
      (k : Str)
      → lookup (get_key msg) s.docs ≡ some d
      → d.diagnostics ≡ history rs
      → (a : Message P) × (b : Message P) × (lookup k (ack_storage add_float s msg).0.docs
          ≡ ite (Str_discrete (get_key msg) k) (some a) (lookup k s.docs))
        × (a.diagnostics ≡ history (ack ∷ rs))
        × (a.score ≡ msg.score)
        × Kept a
        × (lookup k (nack_storage s msg).0.docs
            ≡ ite (Str_discrete (get_key msg) k) (some b) (lookup k s.docs))
        × (b.diagnostics ≡ history (nack ∷ rs))
        × (b.score ≡ msg.score)
        × Kept b
  unfolding ack_storage nack_storage history acked nacked
  ack-nack_storage k e f = (
    acked add_float msg d,
    nacked msg d,
    ground (arith, lookup-insert (get_key msg) k (acked add_float msg d) s.docs),
    ground arith,
    refl,
    (refl, refl, refl),
    ground (arith, lookup-insert (get_key msg) k (nacked msg d) s.docs),
    ground arith,
    refl,
    (refl, refl, refl),
  )
