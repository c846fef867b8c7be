-- ===== src/Tests/SmallRuns.antt =====
-- Times, scores, texts and queue names.
use deckard.Common.{◌≡◌, refl, false, some, [], ◌∷◌, ◌++◌, codes, arith, if◌then◌else◌}
use deckard.Common.Int.{pos, negsuc, ◌≤ℤ◌}
use deckard.Dtime.{time_to_ms}
use deckard.Score.{max_score, min_score, get_add_score}
use deckard.Score.Laws.{get_add_score_bounds}
use deckard.Message.{get_queue_parts, contains_separator, colon}
use deckard.Message.Laws.{get_queue_parts_lem}
use deckard.Strconv.{str_to_int64, format_int64}
use deckard.Strconv.Laws.{str_to_int64-format_int64}

get_add_score_bounds_example :
    (min_score ≤ℤ get_add_score (pos 1700000000000000000) (pos 0))
    × (get_add_score (pos 1700000000000000000) (pos 0) ≤ℤ max_score)
unfolding time_to_ms
get_add_score_bounds_example =
    get_add_score_bounds (pos 1700000000000000000) 1700000000000 (pos 0) refl (omega arith)

get_queue_parts_lem_example :
    let (prefix, suffix) = get_queue_parts (codes "orders::eu") in
    (contains_separator prefix ≡ false)
    × (codes "orders::eu" ≡ (
        if contains_separator (codes "orders::eu")
        then prefix ++ colon ∷ colon ∷ suffix
        else prefix))
    × (contains_separator (codes "orders::eu") ≡ false → suffix ≡ [])
get_queue_parts_lem_example = get_queue_parts_lem (codes "orders::eu")

parts_run : get_queue_parts (codes "a::b::c") ≡ (codes "a", codes "b::c")
unfolding get_queue_parts
parts_run = refl

str_to_int64-format_int64_example : str_to_int64 (format_int64 (negsuc 41)) ≡ some (negsuc 41)
str_to_int64-format_int64_example = str_to_int64-format_int64 (negsuc 41) (omega arith)
