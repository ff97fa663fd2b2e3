-- ===== src/MetricsService/Names.antt =====
-- dedupNames of internal/services/metrics/metrics.go.
pub mod Order
use golectra.Base.{String, List, [], ◌∷◌, ◌==◌, ◌||◌, if◌then◌else◌, str_ltb}

-- slices.Sort on strings: equal strings cannot be told apart, so every sort has this result.
unfoldable pub insert_sorted : String → List String → List String
insert_sorted n [] = n ∷ []
insert_sorted n (m ∷ ms) = if str_ltb m n then m ∷ insert_sorted n ms else n ∷ m ∷ ms

unfoldable pub sort : List String → List String
unfolding insert_sorted
sort [] = []
sort (n ∷ ns) = insert_sorted n (sort ns)

-- The loop over the sorted names, with the variable `last`.
unfoldable pub dedup_loop : String → List String → List String
dedup_loop last [] = []
dedup_loop last (name ∷ names) =
    let kept = name ∷ dedup_loop name names in
    let skipped = dedup_loop last names in if name == "" || name == last then skipped else kept

unfoldable pub dedup_names : List String → List String
unfolding sort dedup_loop
dedup_names names = dedup_loop "" (sort names)
