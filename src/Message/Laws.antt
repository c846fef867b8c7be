-- ===== src/Message/Laws.antt =====
-- The two parts of a queue's name.
use deckard.Common.{◌≡◌, true, false, [], ◌∷◌, ◌++◌, if◌then◌else◌, Str, arith}
use deckard.Message.{contains_separator, split_separator, get_queue_parts, colon}

split-append :
    (s : Str)
    → contains_separator s ≡ true
    → (split_separator s).0 ++ colon ∷ colon ∷ (split_separator s).1 ≡ s
unfolding contains_separator split_separator
split-append [] h = cc
split-append (c ∷ []) h = cc
split-append (c ∷ d ∷ s) h = ground (arith, split-append (d ∷ s))

split-prefix :
    (s : Str) → contains_separator s ≡ true → contains_separator (split_separator s).0 ≡ false
unfolding contains_separator split_separator
split-prefix [] h = cc
split-prefix (c ∷ []) h = cc
split-prefix (c ∷ d ∷ []) h = ground arith
split-prefix (c ∷ d ∷ e ∷ s) h = ground (arith, split-prefix (d ∷ e ∷ s))

-- A name with the separator is its prefix, the separator and its suffix, and the prefix holds no
-- separator; any other name is its own prefix, with an empty suffix.
pub get_queue_parts_lem :
    (queue : Str)
    → let (prefix, suffix) = get_queue_parts queue in
      (contains_separator prefix ≡ false)
      × (queue ≡ (if contains_separator queue then prefix ++ colon ∷ colon ∷ suffix else prefix))
      × (contains_separator queue ≡ false → suffix ≡ [])
unfolding get_queue_parts
get_queue_parts_lem queue = ground (arith, split-append queue, split-prefix queue)
