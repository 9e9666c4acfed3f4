-- ===== src/Telemetry/Summaries/Counting.antt =====
-- What the aggregator holds: for each grouping key the first evaluation and how many there were.
use prefab_cloud_go.Prelude.{
  ℕ, zero, suc, ◌^◌, ◌≤◌, ◌<◌, if◌then◌else◌, length, ℤ, pos, GoString, str_eq, str_eq_iff, ◌≡◌,
  refl, ◌↔◌, Option, none, some, List, [], ◌∷◌, arith,
}
use prefab_cloud_go.Prelude.Dict
use prefab_cloud_go.Prelude.Dict.{get-put}
use prefab_cloud_go.Proto.{ConfigValue}
use prefab_cloud_go.Resolver.{ConfigMatch}
use prefab_cloud_go.Telemetry.Summaries.{
  EvaluationSummaryAggregator, new_evaluation_summary_aggregator, grouping_key, increment, or_zero,
  with_key, record_evaluation,
}

-- How many of the evaluations have the key.
pub occurrences : (ConfigValue → GoString) → GoString → List (ℤ × ConfigMatch) → ℕ
occurrences text key [] = 0
occurrences text key ((now, m) ∷ earlier) =
    let rest = occurrences text key earlier in
    if str_eq (grouping_key text m) key then suc rest else rest

-- The oldest of the evaluations, the latest first, that has the key.
pub oldest : (ConfigValue → GoString) → GoString → List (ℤ × ConfigMatch) → Option ConfigMatch
oldest text key [] = none
oldest text key ((now, m) ∷ earlier) = elim (oldest text key earlier) [
  | some first ↦ some first
  | none ↦ if str_eq (grouping_key text m) key then some m else none
]

-- The aggregator behind these evaluations, the latest first, each at its time.
unfoldable pub all_recorded :
    (ConfigValue → GoString) → List (ℤ × ConfigMatch) → EvaluationSummaryAggregator
all_recorded text [] = new_evaluation_summary_aggregator
all_recorded text ((now, m) ∷ earlier) = record_evaluation text now (all_recorded text earlier) m

abbrev pub counted : ℕ → Option ℤ
counted zero = none
counted (suc n) = some (pos (suc n))

pub occurrences-le :
    (text : ConfigValue → GoString) (key : GoString) (evaluations : List (ℤ × ConfigMatch))
    → occurrences text key evaluations ≤ length evaluations
unfolding occurrences
occurrences-le text key [] = omega arith
occurrences-le text key ((now, m) ∷ earlier) = ground (arith, occurrences-le text key earlier)

pub oldest-none :
    (text : ConfigValue → GoString) (key : GoString) (evaluations : List (ℤ × ConfigMatch))
    → (oldest text key evaluations ≡ none) ↔ (occurrences text key evaluations ≡ 0)
unfolding occurrences oldest
oldest-none text key [] = ground arith
oldest-none text key ((now, m) ∷ earlier) = ground (arith, oldest-none text key earlier)

-- With fewer than 2^63 evaluations since the start, the aggregator holds for each grouping key the
-- oldest evaluation that has it and the number of those that have it, and nothing where none has.
pub all_recorded-counts :
    (text : ConfigValue → GoString) (evaluations : List (ℤ × ConfigMatch)) (key : GoString)
    → length evaluations < 2 ^ 63
    → (Dict.get key (all_recorded text evaluations).evaluations ≡ oldest text key evaluations)
      × (Dict.get key (all_recorded text evaluations).counts
          ≡ counted (occurrences text key evaluations))
unfolding all_recorded occurrences oldest record_evaluation with_key or_zero increment
all_recorded-counts text [] key h = (unfold Dict.get in refl, unfold Dict.get in refl)
all_recorded-counts text ((now, m) ∷ earlier) key h =
    let gk = grouping_key text m in
    ground (
      arith,
      all_recorded-counts text earlier key,
      all_recorded-counts text earlier gk,
      oldest-none text key earlier,
      oldest-none text gk earlier,
      occurrences-le text gk earlier,
      get-put gk key m (all_recorded text earlier).evaluations,
      get-put gk key (increment (or_zero (Dict.get gk (all_recorded text earlier).counts)))
          (all_recorded text earlier).counts,
      get-put gk key (pos 1) (all_recorded text earlier).counts,
      str_eq_iff gk key,
    )
