-- ===== src/Evaluator/FirstMatch.antt =====
-- Which conditional value a config gives: the first of its row whose criteria all hold.
use prefab_cloud_go.Prelude.{
  ℕ, suc, ◌+◌, All, Outcome, ret, panics, unfinished, ◌>>=◌, >>=-eq-ret, ◌≡◌, refl, sym, ap, ◌∙◌,
  ◌↔◌, ◌⊎◌, inl, inr, Bool, true, false, some, List, [], ◌∷◌, arith,
}
use prefab_cloud_go.Proto.{ConfigValue, ConfigRow, ConditionalValue, Criterion}
use prefab_cloud_go.Interfaces.{ContextValueGetter}
use prefab_cloud_go.Evaluator.{
  ConditionMatch, no_match, ConfigRuleEvaluator, EvaluateSegment, evaluate_criterion, all_criteria,
  evaluate_conditional_value, evaluate_values, evaluate_row,
}

module _ (cve : ConfigRuleEvaluator) (evaluate : EvaluateSegment)
    (context : ContextValueGetter) where
  -- A criterion of the list is evaluated to false, and all before it to true.
  pub data Rejects : List Criterion → Type 0 where
    here :
        {c : Criterion} {cs : List Criterion}
        → evaluate_criterion cve evaluate context c ≡ ret false
        → Rejects (c ∷ cs)
    later :
        {c : Criterion} {cs : List Criterion}
        → evaluate_criterion cve evaluate context c ≡ ret true
        → Rejects cs
        → Rejects (c ∷ cs)

  -- All criteria are evaluated to true.
  abbrev pub Accepts : List Criterion → Type 0
  Accepts = All (λ c. evaluate_criterion cve evaluate context c ≡ ret true)

  -- The value at the index is accepted, and those before it are rejected.
  pub data FirstAt : ℕ → ConfigValue → List ConditionalValue → Type 0 where
    found :
        {cv : ConditionalValue} {cvs : List ConditionalValue} {v : ConfigValue}
        → Accepts cv.criteria
        → v ≡ cv.value
        → FirstAt 0 v (cv ∷ cvs)
    next :
        {n : ℕ} {v : ConfigValue} {cv : ConditionalValue} {cvs : List ConditionalValue}
        → Rejects cv.criteria
        → FirstAt n v cvs
        → FirstAt (suc n) v (cv ∷ cvs)

  all_criteria-Rejects :
      (cs : List Criterion) → (all_criteria cve evaluate context cs ≡ ret false) → Rejects cs
  unfolding all_criteria
  all_criteria-Rejects [] h = absurd (cc h)
  all_criteria-Rejects (c ∷ cs) h =
      go _ (>>=-eq-ret (evaluate_criterion cve evaluate context c) _ h) (all_criteria-Rejects cs)
    where
      go :
          (k : Bool → Outcome Bool)
          → (b : Bool) × (evaluate_criterion cve evaluate context c ≡ ret b) × (k b ≡ ret false)
          → (k true ≡ ret false → Rejects cs)
          → Rejects (c ∷ cs)
      go k (true, e, f) ih = later e (ih f)
      go k (false, e, f) ih = here e

  all_criteria-Accepts :
      (cs : List Criterion) → (all_criteria cve evaluate context cs ≡ ret true) → Accepts cs
  unfolding all_criteria
  all_criteria-Accepts [] h = tt
  all_criteria-Accepts (c ∷ cs) h = ground (arith, all_criteria-Accepts cs)

  Rejects-all_criteria :
      {cs : List Criterion} → Rejects cs → all_criteria cve evaluate context cs ≡ ret false
  unfolding all_criteria
  Rejects-all_criteria (here e) = rw e
  Rejects-all_criteria (later e r) = rw e (Rejects-all_criteria r)

  Accepts-all_criteria :
      (cs : List Criterion) → Accepts cs → all_criteria cve evaluate context cs ≡ ret true
  unfolding all_criteria
  Accepts-all_criteria [] h = refl
  Accepts-all_criteria (c ∷ cs) h = rw (h.0) (Accepts-all_criteria cs h.1)

  -- The match with the value at an index of a row.
  abbrev pub matched : ConfigValue → ℕ → ℕ → ConditionMatch
  matched v row_index i = record {
    match = v;
    row_index = some row_index;
    conditional_value_index = some i;
    is_match = true;
  }

  FirstAt-evaluate_values :
      (row_index i : ℕ) {n : ℕ} {v : ConfigValue} {cvs : List ConditionalValue}
      → FirstAt n v cvs
      → evaluate_values cve evaluate context row_index i cvs ≡ ret (matched v row_index (i + n))
  unfolding evaluate_values evaluate_conditional_value
  FirstAt-evaluate_values row_index i (found {cv} h e) =
      rw (Accepts-all_criteria cv.criteria h) (ground arith)
  FirstAt-evaluate_values row_index i (next {cv} r f) =
      rw (Rejects-all_criteria r) (FirstAt-evaluate_values row_index (suc i) f ∙ ground arith)

  rejected-All :
      (row_index i : ℕ) (cvs : List ConditionalValue)
      → All (λ cv. Rejects cv.criteria) cvs
      → evaluate_values cve evaluate context row_index i cvs ≡ ret no_match
  unfolding evaluate_values evaluate_conditional_value
  rejected-All row_index i [] h = refl
  rejected-All row_index i (cv ∷ cvs) h =
      rw (Rejects-all_criteria (h.0)) (rejected-All row_index (suc i) cvs h.1)

  -- What a loop that returned says of the values: one is the first to be accepted, or all are
  -- rejected.
  abbrev Finds : ℕ → ℕ → List ConditionalValue → ConditionMatch → Type 0
  Finds row_index i cvs m =
      ((n : ℕ) × (v : ConfigValue) × FirstAt n v cvs × (m ≡ matched v row_index (i + n)))
      ⊎ (All (λ cv. Rejects cv.criteria) cvs × (m ≡ no_match))

  Finds-next :
      (row_index i : ℕ) {m : ConditionMatch} {cv : ConditionalValue} {cvs : List ConditionalValue}
      → Rejects cv.criteria
      → Finds row_index (suc i) cvs m
      → Finds row_index i (cv ∷ cvs) m
  Finds-next row_index i r (inl (n, v, f, e)) = inl (suc n, v, next r f, e ∙ ground arith)
  Finds-next row_index i r (inr (a, e)) = inr ((r, a), e)

  -- One round of the loop, by the result of the criteria.
  evaluate_values-step :
      (row_index i : ℕ) (cv : ConditionalValue) (cvs : List ConditionalValue) (o : Outcome Bool)
      → all_criteria cve evaluate context cv.criteria ≡ o
      → evaluate_values cve evaluate context row_index i (cv ∷ cvs) ≡ (
          o >>= λ ok. elim ok [
            | true ↦ ret (matched cv.value row_index i)
            | false ↦ evaluate_values cve evaluate context row_index (suc i) cvs
          ])
  unfolding evaluate_values evaluate_conditional_value
  evaluate_values-step row_index i cv cvs (ret true) h = rw h
  evaluate_values-step row_index i cv cvs (ret false) h = rw h
  evaluate_values-step row_index i cv cvs panics h = rw h
  evaluate_values-step row_index i cv cvs unfinished h = rw h

  round_Finds :
      (row_index i : ℕ) {m : ConditionMatch} (cv : ConditionalValue) (cvs : List ConditionalValue)
      (o : Outcome Bool)
      → all_criteria cve evaluate context cv.criteria ≡ o
      → evaluate_values cve evaluate context row_index i (cv ∷ cvs) ≡ ret m
      → (evaluate_values cve evaluate context row_index (suc i) cvs ≡ ret m
          → Finds row_index (suc i) cvs m)
      → Finds row_index i (cv ∷ cvs) m
  round_Finds row_index i cv cvs (ret true) e h ih =
      let s = evaluate_values-step row_index i cv cvs (ret true) e in
      inl (0, cv.value, found (all_criteria-Accepts cv.criteria e) refl, ground arith)
  round_Finds row_index i cv cvs (ret false) e h ih =
      Finds-next row_index i (all_criteria-Rejects cv.criteria e)
        (ih (sym (evaluate_values-step row_index i cv cvs (ret false) e) ∙ h))
  round_Finds row_index i cv cvs panics e h ih =
      absurd (cc (evaluate_values-step row_index i cv cvs panics e, h))
  round_Finds row_index i cv cvs unfinished e h ih =
      absurd (cc (evaluate_values-step row_index i cv cvs unfinished e, h))

  evaluate_values-Finds :
      (row_index i : ℕ) (cvs : List ConditionalValue) {m : ConditionMatch}
      → evaluate_values cve evaluate context row_index i cvs ≡ ret m
      → Finds row_index i cvs m
  evaluate_values-Finds row_index i [] h = inr (tt, unfold evaluate_values in cc h)
  evaluate_values-Finds row_index i (cv ∷ cvs) h =
      round_Finds row_index i cv cvs _ refl h (evaluate_values-Finds row_index (suc i) cvs)

  FirstAt-matched :
      (row_index : ℕ) {n : ℕ} {v : ConfigValue} (cvs : List ConditionalValue)
      → Finds row_index 0 cvs (matched v row_index n)
      → FirstAt n v cvs
  FirstAt-matched row_index {n} {v} cvs (inl (k, w, f, e)) =
      let index : n ≡ k = ground arith in
      let value : v ≡ w = ap (λ (m : ConditionMatch). m.match) e in rw (index, value) f
  FirstAt-matched row_index cvs (inr (a, e)) = absurd (cc e)

  rejected_of_no_match :
      (row_index : ℕ) (cvs : List ConditionalValue)
      → Finds row_index 0 cvs no_match
      → All (λ cv. Rejects cv.criteria) cvs
  rejected_of_no_match row_index cvs (inl (k, w, f, e)) = absurd (cc e)
  rejected_of_no_match row_index cvs (inr (a, e)) = a

  -- A row gives the value at an index exactly if its criteria all hold and each value before it has
  -- a criterion that fails, those before that one holding; it gives no match exactly if every value
  -- has such a criterion.
  pub evaluate_row_iff :
      (row : ConfigRow) (row_index n : ℕ) (v : ConfigValue)
      → ((evaluate_row cve evaluate context row row_index ≡ ret (matched v row_index n))
          ↔ FirstAt n v row.values)
        × ((evaluate_row cve evaluate context row row_index ≡ ret no_match)
            ↔ All (λ cv. Rejects cv.criteria) row.values)
  unfolding evaluate_row
  evaluate_row_iff row row_index n v = (
    (
      λ h. FirstAt-matched row_index row.values (evaluate_values-Finds row_index 0 row.values h),
      λ f. FirstAt-evaluate_values row_index 0 f ∙ ground arith,
    ),
    (
      λ h.
          rejected_of_no_match row_index row.values
            (evaluate_values-Finds row_index 0 row.values h),
      λ a. rejected-All row_index 0 row.values a,
    ),
  )
