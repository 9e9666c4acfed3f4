-- ===== src/Evaluator/Termination.antt =====
-- Segments within segments: where they are acyclic, evaluation ends, and enough fuel gives one and
-- the same result.
use prefab_cloud_go.Prelude.{
  ℕ, zero, suc, ◌<◌, All, GoString, unfinished, ◌≡◌, ◌≢◌, some, List, [], ◌∷◌, arith,
}
use prefab_cloud_go.Proto.{Config, Criterion}
use prefab_cloud_go.Interfaces.{ContextValueGetter}
use prefab_cloud_go.Evaluator.{ConfigRuleEvaluator, EvaluateSegment, evaluate_config}
use prefab_cloud_go.Evaluator.Runs.{Extends, segment_name, Agrees}
use prefab_cloud_go.Evaluator.Rows.{config-Extends}

-- Every segment that a criterion of the config names, and that is stored, has a rank below n.
abbrev pub SegmentsBelow : ConfigRuleEvaluator → (GoString → ℕ) → ℕ → Config → Type 0
SegmentsBelow cve rank n config =
    All
      (λ row.
        All
          (λ cv.
            All
              (λ criterion.
                (name : GoString) (target : Config)
                → segment_name cve.host criterion ≡ some name
                → cve.config_store.get_config name ≡ some target
                → rank name < n)
              cv.criteria)
          row.values)
      config.rows

-- The segments of each stored config rank below it: no segment leads back to itself.
abbrev pub IsRanked : ConfigRuleEvaluator → (GoString → ℕ) → Type 0
IsRanked cve rank =
    (name : GoString) (target : Config)
    → cve.config_store.get_config name ≡ some target
    → SegmentsBelow cve rank (rank name) target

All-map {ℓ κ μ} :
    {A : Type ℓ} (P : A → Type κ) (Q : A → Type μ) (xs : List A)
    → ((x : A) → P x → Q x)
    → All P xs
    → All Q xs
All-map P Q [] f h = tt
All-map P Q (x ∷ xs) f h = (f x (h.0), All-map P Q xs f (h.1))

abbrev BelowAt : ConfigRuleEvaluator → (GoString → ℕ) → ℕ → Criterion → Type 0
BelowAt cve rank n criterion =
    (name : GoString) (target : Config)
    → segment_name cve.host criterion ≡ some name
    → cve.config_store.get_config name ≡ some target
    → rank name < n

module _ (cve : ConfigRuleEvaluator) (rank : GoString → ℕ)
    (evaluate evaluate' : EvaluateSegment) where
  below-Agrees :
      (n : ℕ) (config : Config)
      → ((name : GoString) (target : Config)
          → cve.config_store.get_config name ≡ some target
          → rank name < n
          → Extends (evaluate target) (evaluate' target))
      → SegmentsBelow cve rank n config
      → All
          (λ row. All (λ cv. All (Agrees cve evaluate evaluate') cv.criteria) row.values)
          config.rows
  below-Agrees n config f =
      All-map (λ row. All (λ cv. All (BelowAt cve rank n) cv.criteria) row.values)
        (λ row. All (λ cv. All (Agrees cve evaluate evaluate') cv.criteria) row.values) config.rows
        λ row.
          All-map (λ cv. All (BelowAt cve rank n) cv.criteria)
            (λ cv. All (Agrees cve evaluate evaluate') cv.criteria) row.values
            λ cv.
              All-map (BelowAt cve rank n) (Agrees cve evaluate evaluate') cv.criteria
                λ criterion h name target s e. f name target e (h name target s e)

module _ (cve : ConfigRuleEvaluator) (context : ContextValueGetter) (rank : GoString → ℕ)
    (ranked : IsRanked cve rank) where
  evaluate_config-Extends :
      (fuel fuel' n : ℕ) (config : Config)
      → n < fuel
      → n < fuel'
      → SegmentsBelow cve rank n config
      → Extends (evaluate_config cve context fuel config) (evaluate_config cve context fuel' config)
  unfolding evaluate_config
  evaluate_config-Extends zero fuel' n config h h' below = absurd (omega arith)
  evaluate_config-Extends (suc fuel) zero n config h h' below = absurd (omega arith)
  evaluate_config-Extends (suc fuel) (suc fuel') n config h h' below =
      let ih = evaluate_config-Extends fuel fuel' in
      config-Extends cve (evaluate_config cve context fuel) (evaluate_config cve context fuel')
        context config
        (below-Agrees cve rank _ _ n config
          (λ name target e lt.
            ih (rank name) target (omega arith) (omega arith) (ranked name target e))
          below)

-- Where no stored segment leads back to itself and the segments of the config rank below n, n + 1
-- levels of fuel are enough: the evaluation ends, in a match or a panic, and with any two such
-- amounts in the same.
pub evaluate_config_ends :
    (cve : ConfigRuleEvaluator) (context : ContextValueGetter) (rank : GoString → ℕ)
    → IsRanked cve rank
    → (fuel fuel' n : ℕ) (config : Config) → n < fuel
    → n < fuel'
    → SegmentsBelow cve rank n config
    → (evaluate_config cve context fuel config ≢ unfinished)
      × (evaluate_config cve context fuel' config ≡ evaluate_config cve context fuel config)
evaluate_config_ends cve context rank ranked fuel fuel' n config h h' below =
    evaluate_config-Extends cve context rank ranked fuel fuel' n config h h' below
