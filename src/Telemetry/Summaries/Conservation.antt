-- ===== src/Telemetry/Summaries/Conservation.antt =====
-- Every evaluation that was recorded is counted once in what is reported.
use prefab_cloud_go.Prelude.{
  ℕ, zero, suc, ◌+◌, ◌-◌, ◌^◌, ◌<◌, length, ℤ, pos, pos_part, GoString, str_eq_iff, str_eq_refl,
  ◌≡◌, refl, sym, ap, ◌∙◌, ◌↔◌, Option, none, some, List, [], ◌∷◌, arith,
}
use prefab_cloud_go.Prelude.Dict
use prefab_cloud_go.Prelude.Dict.{Dict, IsMap, get-put, put-IsMap}
use prefab_cloud_go.Proto.{ConfigValue}
use prefab_cloud_go.Resolver.{ConfigMatch}
use prefab_cloud_go.Telemetry.Summaries.{
  EvaluationSummaryAggregator, grouping_key, increment, or_zero, with_key, record_evaluation,
}
use prefab_cloud_go.Telemetry.Summaries.Counting.{
  all_recorded, all_recorded-counts, oldest-none, occurrences, occurrences-le, counted,
}
use prefab_cloud_go.Telemetry.Summaries.Reporting.{get_data}
use prefab_cloud_go.Telemetry.Summaries.Totals.{
  total_counts, total_of_event, total_of_event-get_data,
}

-- A new key, and a count that changes.
total_counts-absent :
    (key : GoString) (v : ℤ) (evaluations : Dict ConfigMatch) (counts : Dict ℤ)
    → Dict.get key evaluations ≡ none
    → total_counts evaluations (Dict.put key v counts) ≡ total_counts evaluations counts
unfolding total_counts Dict.get
total_counts-absent key v [] counts h = refl
total_counts-absent key v ((k, m) ∷ evaluations) counts h = ground (
  arith,
  total_counts-absent key v evaluations counts,
  get-put key k v counts,
  str_eq_iff key k,
  str_eq_iff k key,
)

total_counts-new :
    (key : GoString) (m : ConfigMatch) (evaluations : Dict ConfigMatch) (counts : Dict ℤ)
    → Dict.get key evaluations ≡ none
    → total_counts (Dict.put key m evaluations) counts
      ≡ total_counts evaluations counts + pos_part (or_zero (Dict.get key counts))
unfolding total_counts Dict.get Dict.put
total_counts-new key m [] counts h = omega arith
total_counts-new key m ((k, n) ∷ evaluations) counts h =
    ground (arith, total_counts-new key m evaluations counts, str_eq_iff k key)

total_counts-again :
    (key : GoString) (v : ℤ) (evaluations : Dict ConfigMatch) (counts : Dict ℤ) (m : ConfigMatch)
    → IsMap evaluations
    → Dict.get key evaluations ≡ some m
    → total_counts evaluations (Dict.put key v counts) + pos_part (or_zero (Dict.get key counts))
      ≡ total_counts evaluations counts + pos_part v
unfolding total_counts Dict.get or_zero
total_counts-again key v [] counts m h e = absurd (cc e)
total_counts-again key v ((k, n) ∷ evaluations) counts m h e = ground (
  arith,
  total_counts-again key v evaluations counts m,
  total_counts-absent key v evaluations counts,
  get-put key k v counts,
  str_eq_iff key k,
  str_eq_iff k key,
  h.0,
)

with_key-IsMap :
    (key : GoString) (m : ConfigMatch) (o : Option ConfigMatch) (esa : EvaluationSummaryAggregator)
    → IsMap esa.evaluations
    → IsMap (with_key key m o esa).evaluations
unfolding with_key
with_key-IsMap key m none esa h = put-IsMap key m esa.evaluations h
with_key-IsMap key m (some seen) esa h = h

all_recorded-IsMap :
    (text : ConfigValue → GoString) (evaluations : List (ℤ × ConfigMatch))
    → IsMap (all_recorded text evaluations).evaluations
unfolding all_recorded record_evaluation
all_recorded-IsMap text [] = tt
all_recorded-IsMap text ((now, m) ∷ earlier) =
    with_key-IsMap (grouping_key text m) m _ _ (all_recorded-IsMap text earlier)

-- One evaluation more, of a key that was seen n times.
total-with_key :
    (key : GoString) (m : ConfigMatch) (n : ℕ) (o : Option ConfigMatch)
    (esa : EvaluationSummaryAggregator)
    → IsMap esa.evaluations
    → Dict.get key esa.evaluations ≡ o
    → Dict.get key esa.counts ≡ counted n
    → (o ≡ none) ↔ (n ≡ 0)
    → n < 2 ^ 63 - 1
    → total_counts (with_key key m o esa).evaluations (with_key key m o esa).counts
      ≡ suc (total_counts esa.evaluations esa.counts)
unfolding with_key or_zero increment
total-with_key key m n none esa h e c i l =
    let one : Dict ℤ = Dict.put key (pos 1) esa.counts in
    let held : pos_part (or_zero (Dict.get key one)) ≡ 1 =
      ground (arith, get-put key key (pos 1) esa.counts, str_eq_refl key) in
    omega (
      arith,
      total_counts-new key m esa.evaluations one e,
      total_counts-absent key (pos 1) esa.evaluations esa.counts e,
      held,
    )
total-with_key key m zero (some seen) esa h e c i l = absurd (cc (i.1 refl))
total-with_key key m (suc n) (some seen) esa h e c i l =
    let old : or_zero (Dict.get key esa.counts) ≡ pos (suc n) = ap or_zero c in
    let new : increment (pos (suc n)) ≡ pos (suc (suc n)) = ground (arith, l) in
    ap (λ v. total_counts esa.evaluations (Dict.put key v esa.counts)) (ap increment old ∙ new)
    ∙ omega (
      arith,
      total_counts-again key (pos (suc (suc n))) esa.evaluations esa.counts seen h e,
      ap pos_part old,
    )

total-recorded :
    (text : ConfigValue → GoString) (evaluations : List (ℤ × ConfigMatch))
    → length evaluations < 2 ^ 63
    → total_counts
        (all_recorded text evaluations).evaluations
        (all_recorded text evaluations).counts
      ≡ length evaluations
unfolding all_recorded record_evaluation total_counts
total-recorded text [] h = refl
total-recorded text ((now, m) ∷ earlier) h =
    let gk : GoString = grouping_key text m in
    let (first, count) = all_recorded-counts text earlier gk (omega (arith, h)) in
    let seen = oldest-none text gk earlier in
    total-with_key gk m (occurrences text gk earlier)
      (Dict.get gk (all_recorded text earlier).evaluations) _ (all_recorded-IsMap text earlier) refl
      count (λ e. seen.0 (sym first ∙ e), λ e. first ∙ seen.1 e)
      (omega (arith, occurrences-le text gk earlier, h))
    ∙ ap suc (total-recorded text earlier (omega (arith, h)))

-- Of fewer than 2^63 evaluations since the last submission, each is counted once in what is reported: the counts
-- of all counters of the event add up to their number.
pub get_data-total :
    (text : ConfigValue → GoString) (now : ℤ) (evaluations : List (ℤ × ConfigMatch))
    → length evaluations < 2 ^ 63
    → total_of_event (get_data now (all_recorded text evaluations)) ≡ length evaluations
get_data-total text now evaluations h =
    total_of_event-get_data now (all_recorded text evaluations) ∙ total-recorded text evaluations h
