-- ===== src/Evaluator/Runs.antt =====
-- The evaluation of a criterion when the evaluation of its segment is run for longer.
use prefab_cloud_go.Prelude.{
  if◌then◌else◌, Bool-cases, GoString, Outcome, ret, panics, unfinished, ◌>>=◌, ◌≡◌, refl, ◌≢◌, inl,
  inr, Bool, true, false, not, ◌&&◌, Option, none, some, arith,
}
use prefab_cloud_go.Proto.{Config, Criterion, Operator, IntRange}
use prefab_cloud_go.GoValue.{Any, Host}
use prefab_cloud_go.ConfigValues.{Extracted, extract_value}
use prefab_cloud_go.Criteria.{evaluate_operator, one_of_criterion}
use prefab_cloud_go.Criteria.Texts.{context_value_to_string_slice}
use prefab_cloud_go.Evaluator.{
  ConfigRuleEvaluator, EvaluateSegment, segment_result, on_segment, in_named_segment, in_segment,
}

-- `o'` is a longer run of `o`: the same unless `o` did not end.
abbrev pub Extends {ℓ} : {A : Type ℓ} → Outcome A → Outcome A → Type ℓ
Extends o o' = (o ≢ unfinished) × (o' ≡ o)

pub Extends-bind :
    {A B : Type 0} {m m' : Outcome A} (f f' : A → Outcome B)
    → Extends m m'
    → ((a : A) → m ≡ ret a → Extends (f a) (f' a))
    → Extends (m >>= f) (m' >>= f')
Extends-bind {A} {B} {m} {m'} f f' (ne, e) h = rw e (go m ne h)
  where
    go :
        (m : Outcome A)
        → m ≢ unfinished
        → ((a : A) → m ≡ ret a → Extends (f a) (f' a))
        → Extends (m >>= f) (m >>= f')
    go (ret a) ne h = h a refl
    go panics ne h = (λ e. cc e, refl)
    go unfinished ne h = absurd (ne refl)

pub Extends-ret : {A : Type 0} (a : A) → Extends (ret a) (ret a)
Extends-ret a = (λ e. cc e, refl)

pub is_segment_operator : Operator → Bool
is_segment_operator Operator.in_seg = true
is_segment_operator Operator.not_in_seg = true
is_segment_operator _ = false

abbrev as_string : Any → Option GoString
as_string (Any.string s) = some s
as_string _ = none

-- The segment that a criterion names, if it is a segment criterion.
unfoldable pub segment_name : Host → Criterion → Option GoString
unfolding is_segment_operator
segment_name host criterion =
    let m = extract_value host criterion.value_to_match in
    if is_segment_operator criterion.operator && not m.failed then as_string m.value else none

one_of-ne-unfinished :
    (host : Host) (wanted : Bool) (m : Extracted) (c : Option Any)
    → one_of_criterion host wanted m c ≢ unfinished
unfolding one_of_criterion context_value_to_string_slice
one_of-ne-unfinished host wanted m none e = cc e
one_of-ne-unfinished host wanted m (some v) e = ground arith

pub operator-Extends :
    (host : Host) (s s' : Bool → Outcome Bool) (op : Operator) (range : Option IntRange)
    (m : Extracted) (c : Option Any)
    → (is_segment_operator op ≡ true → (wanted : Bool) → Extends (s wanted) (s' wanted))
    → Extends (evaluate_operator host s op range m c) (evaluate_operator host s' op range m c)
unfolding evaluate_operator is_segment_operator
operator-Extends host s s' Operator.in_seg range m c h = h refl true
operator-Extends host s s' Operator.not_in_seg range m c h = h refl false
operator-Extends host s s' Operator.prop_is_one_of range m c h =
    (one_of-ne-unfinished host true m c, refl)
operator-Extends host s s' Operator.prop_is_not_one_of range m c h =
    (one_of-ne-unfinished host false m c, refl)
operator-Extends host s s' _ range m c h = (λ e. cc e, refl)

module _ (cve : ConfigRuleEvaluator) (evaluate evaluate' : EvaluateSegment) where
  -- The segments of a criterion end in `evaluate`, and give the same in `evaluate'`.
  abbrev pub Agrees : Criterion → Type 0
  Agrees criterion =
      (name : GoString) (target : Config)
      → segment_name cve.host criterion ≡ some name
      → cve.config_store.get_config name ≡ some target
      → Extends (evaluate target) (evaluate' target)

  on_segment-Extends :
      (wanted : Bool) (o : Option Config)
      → ((target : Config) → o ≡ some target → Extends (evaluate target) (evaluate' target))
      → Extends (on_segment evaluate wanted o) (on_segment evaluate' wanted o)
  unfolding on_segment
  on_segment-Extends wanted none h = (λ e. cc e, refl)
  on_segment-Extends wanted (some target) h =
      Extends-bind _ _ (h target refl) (λ m _. Extends-ret (segment_result wanted m))

  in_named_segment-Extends :
      (wanted : Bool) (v : Any)
      → ((name : GoString) (target : Config)
          → as_string v ≡ some name
          → cve.config_store.get_config name ≡ some target
          → Extends (evaluate target) (evaluate' target))
      → Extends
          (in_named_segment cve.config_store evaluate v wanted)
          (in_named_segment cve.config_store evaluate' v wanted)
  unfolding in_named_segment
  in_named_segment-Extends wanted (Any.string name) h =
      on_segment-Extends wanted (cve.config_store.get_config name)
        (λ target e. h name target refl e)
  in_named_segment-Extends wanted _ h = (λ e. cc e, refl)

  pub in_segment-Extends :
      (wanted : Bool) (m : Extracted)
      → ((name : GoString) (target : Config)
          → m.failed ≡ false
          → as_string m.value ≡ some name
          → cve.config_store.get_config name ≡ some target
          → Extends (evaluate target) (evaluate' target))
      → Extends
          (in_segment cve.config_store evaluate m wanted)
          (in_segment cve.config_store evaluate' m wanted)
  unfolding in_segment
  in_segment-Extends wanted m h = elim (Bool-cases m.failed) [
    | inl f ↦ rw f (λ e. cc e, refl)
    | inr f ↦ rw f (in_named_segment-Extends wanted m.value (λ name target. h name target f))
  ]
