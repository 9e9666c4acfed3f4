-- ===== src/Resolver/Confidential.antt =====
-- A confidential value stays confidential, whatever it is replaced by.
use prefab_cloud_go.Prelude.{
  Bool-cases, GoString, str_eq, ret, >>=-eq-ret, ◌≡◌, refl, ◌⊎◌, inl, inr, Bool, true, false, ◌&&◌,
  Option, none, some, [], arith,
}
use mathlib.Core.Path.{subst}
use prefab_cloud_go.Errors.{Error, Result, ok, err}
use prefab_cloud_go.Proto.{
  ConfigValue, nil_value, config_value, ConfigValueType, WeightedValues, Provided, Config,
  ValueType, get_type, get_confidential, get_decrypt_with,
}
use prefab_cloud_go.GoValue.{Any}
use prefab_cloud_go.ConfigValues.{create}
use prefab_cloud_go.Interfaces.{ContextValueGetter}
use prefab_cloud_go.Evaluator.{ConditionMatch}
use prefab_cloud_go.Resolver.{
  ConfigMatch, ConfigResolver, multi_context, config_match_of, handle_provided, coerce_value,
  handle_decryption, Step, keep, fail, replace, coerced_step, env_step, provided_step,
  weighted_step, set_confidential, decrypted_step, string_step, resolve_step, finish,
  resolve_value_for_config,
}

-- What holds of a step that is no error: the original is the one that the step began with, and the
-- match is still the original where it is not replaced, and confidential where it is decrypted.
record IsTracked (original : ConfigValue) (s : Step) : Type 0 where
  same : s.config_match.original_match ≡ original
  kept : s.error ≡ none → s.replaced ≡ false → s.config_match.match ≡ original
  decrypted :
      s.error ≡ none
      → s.replaced ≡ true
      → str_eq (get_decrypt_with original) [] ≡ false
      → get_confidential s.config_match.match ≡ true

set_confidential-get : (v w : ConfigValue) → set_confidential v ≡ ret w → get_confidential w ≡ true
unfolding set_confidential get_confidential
set_confidential-get nil_value w h = cc h
set_confidential-get (config_value t c d) w h = ground arith

finish-no_error : (s : Step) {m : ConfigMatch} → finish s ≡ ret (m, none) → s.error ≡ none
unfolding finish
finish-no_error s h = ground arith

-- The condition behind the switch.
abbrev copies : Step → Bool
copies s =
    s.replaced
    && str_eq (get_decrypt_with s.config_match.original_match) []
    && get_confidential s.config_match.original_match

finish-copies :
    (s : Step) {m : ConfigMatch}
    → s.error ≡ none
    → copies s ≡ true
    → finish s ≡ ret (m, none)
    → get_confidential m.match ≡ true
unfolding finish
finish-copies s {m} e c h =
    let (v, f, g) =
      >>=-eq-ret (set_confidential s.config_match.match)
        (λ v. ret (record s.config_match { match = v }, none)) (rw (e, c) at h) in
    set_confidential-get s.config_match.match m.match (ground arith)

finish-keeps :
    (s : Step) {m : ConfigMatch}
    → s.error ≡ none
    → copies s ≡ false
    → finish s ≡ ret (m, none)
    → m.match ≡ s.config_match.match
unfolding finish
finish-keeps s {m} e c h = let f = rw (e, c) at h in ground arith

finish-confidential :
    (original : ConfigValue) (s : Step) {m : ConfigMatch}
    → IsTracked original s
    → get_confidential original ≡ true
    → finish s ≡ ret (m, none)
    → get_confidential m.match ≡ true
finish-confidential original s {m} t c h =
    let e = finish-no_error s h in
    elim (Bool-cases (copies s)) [
      | inl b ↦ finish-copies s e b h
      | inr b ↦ rw (finish-keeps s e b h) (ground (arith, t.same, t.kept, t.decrypted))
    ]

-- The steps, each from a match that holds the original.
record Holds (original : ConfigValue) (m : ConfigMatch) : Type 0 where
  original_is : m.original_match ≡ original
  match_is : m.match ≡ original

module _ (original : ConfigValue) {m : ConfigMatch} (holds : Holds original m) where
  keep-IsTracked : IsTracked original (keep m)
  keep-IsTracked = record {
    same = holds.original_is;
    kept = λ _ _. holds.match_is;
    decrypted = λ _ e. absurd (cc e);
  }

  fail-IsTracked : (e : Error) → IsTracked original (fail m e)
  fail-IsTracked e = record {
    same = holds.original_is;
    kept = λ h. absurd (cc h);
    decrypted = λ h. absurd (cc h);
  }

  replace-IsTracked :
      (v : ConfigValue)
      → str_eq (get_decrypt_with original) [] ≡ true
      → IsTracked original (replace m v)
  replace-IsTracked v plain = record {
    same = holds.original_is;
    kept = λ _ h. absurd (cc h);
    decrypted = λ _ _ h. absurd (cc (h, plain));
  }

ret-injective : {A : Type 0} {a b : A} → ret a ≡ ret b → a ≡ b
ret-injective h = ground arith

module _ (c : ConfigResolver) (original : ConfigValue) {m : ConfigMatch}
    (holds : Holds original m) where
  weighted-IsTracked :
      (context : ContextValueGetter) (values : WeightedValues) (hash_by : Option GoString)
      {s : Step}
      → str_eq (get_decrypt_with original) [] ≡ true
      → weighted_step c m context values hash_by ≡ ret s
      → IsTracked original s
  unfolding weighted_step
  weighted-IsTracked context values hash_by {s} plain h =
      let (r, e, f) = >>=-eq-ret (c.resolve_weighted values hash_by m.config_key context) _ h in
      subst (IsTracked original) (ret-injective f) (
        replace-IsTracked original
          (record { original_is = holds.original_is; match_is = holds.match_is }) r.0 plain)

  coerced-IsTracked :
      (v : Option Any) {s : Step}
      → str_eq (get_decrypt_with original) [] ≡ true
      → coerced_step c m v ≡ ret s
      → IsTracked original s
  unfolding coerced_step
  coerced-IsTracked none plain h =
      subst (IsTracked original) (ret-injective h) (fail-IsTracked original holds _)
  coerced-IsTracked (some v) plain h =
      let (made, e, f) = >>=-eq-ret (create c.host v) _ h in
      subst (IsTracked original) (ret-injective f) (replace-IsTracked original holds made.0 plain)

  env-IsTracked :
      (type : ValueType) (v : Option GoString) {s : Step}
      → str_eq (get_decrypt_with original) [] ≡ true
      → env_step c m type v ≡ ret s
      → IsTracked original s
  unfolding env_step
  env-IsTracked type none plain h =
      subst (IsTracked original) (ret-injective h) (fail-IsTracked original holds _)
  env-IsTracked type (some v) plain h = coerced-IsTracked (coerce_value c.host v type) plain h

  provided-IsTracked :
      (type : ValueType) (p : Option Provided) {s : Step}
      → str_eq (get_decrypt_with original) [] ≡ true
      → provided_step c m type p ≡ ret s
      → IsTracked original s
  unfolding provided_step
  provided-IsTracked type none plain h =
      subst (IsTracked original) (ret-injective h) (keep-IsTracked original holds)
  provided-IsTracked type (some p) plain h = env-IsTracked type (handle_provided c p) plain h

  decrypted-IsTracked :
      (r : Result GoString) {s : Step} → decrypted_step c m r ≡ ret s → IsTracked original s
  unfolding decrypted_step
  decrypted-IsTracked (err e) h =
      subst (IsTracked original) (ret-injective h) (fail-IsTracked original holds e)
  decrypted-IsTracked (ok text) {s} h =
      let (made, e, f) = >>=-eq-ret (create c.host (Any.string text)) _ h in
      let (v, e', f') = >>=-eq-ret (set_confidential made.0) (λ v. ret (replace m v)) f in
      subst (IsTracked original) (ret-injective f') (record {
        same = holds.original_is;
        kept = λ _ b. absurd (cc b);
        decrypted = λ _ _ _. set_confidential-get made.0 v e';
      })

  string-IsTracked :
      (context : ContextValueGetter) {s : Step}
      → string_step c m context ≡ ret s
      → IsTracked original s
  unfolding string_step
  string-IsTracked context {s} h = elim (Bool-cases (str_eq (get_decrypt_with m.match) [])) [
    | inl e ↦ subst (IsTracked original) (ret-injective (rw e at h)) (keep-IsTracked original holds)
    | inr e ↦
        let (r, f, g) =
          >>=-eq-ret (handle_decryption c m.match context) (decrypted_step c m) (rw e at h) in
        decrypted-IsTracked r g
  ]

  resolve_step-IsTracked :
      (context : ContextValueGetter) (type : ValueType) (t : ConfigValueType) {s : Step}
      → (str_eq (get_decrypt_with original) [] ≡ true)
        ⊎ ((text : GoString) × (t ≡ ConfigValueType.string text))
      → resolve_step c m context type t ≡ ret s
      → IsTracked original s
  unfolding resolve_step
  resolve_step-IsTracked context type (ConfigValueType.weighted_values values hash_by) (inl p) h =
      weighted-IsTracked context values hash_by p h
  resolve_step-IsTracked context type (ConfigValueType.weighted_values values hash_by) (inr p) h =
      absurd (cc (p.1))
  resolve_step-IsTracked context type (ConfigValueType.provided v) (inl p) h =
      provided-IsTracked type v p h
  resolve_step-IsTracked context type (ConfigValueType.provided v) (inr p) h = absurd (cc (p.1))
  resolve_step-IsTracked context type (ConfigValueType.string text) p h = string-IsTracked context h
  resolve_step-IsTracked context type _ p h =
      subst (IsTracked original) (ret-injective h) (keep-IsTracked original holds)

-- A resolution that returns without an error from a confidential conditional value returns a
-- confidential value, be it the value itself, a weighted value, an environment variable's or a
-- decrypted one, given that only strings are marked for decryption.
pub resolve-confidential :
    (c : ConfigResolver) (config : Config) (passed : ContextValueGetter) (key : GoString)
    (rule_match : ConditionMatch) {m : ConfigMatch}
    → c.evaluate config (multi_context passed c.context_getter) ≡ ret rule_match
    → get_confidential rule_match.match ≡ true
    → (str_eq (get_decrypt_with rule_match.match) [] ≡ true)
      ⊎ ((text : GoString) × (get_type rule_match.match ≡ ConfigValueType.string text))
    → resolve_value_for_config c config passed key ≡ ret (m, none)
    → get_confidential m.match ≡ true
unfolding resolve_value_for_config
resolve-confidential c config passed key rule_match e confidential secret h =
    let context = multi_context passed c.context_getter in
    let (s, f, g) =
      >>=-eq-ret
        (resolve_step c (config_match_of rule_match key config) context config.value_type
          (get_type rule_match.match))
        finish (rw e at h) in
    finish-confidential rule_match.match s
      (resolve_step-IsTracked c rule_match.match {m = config_match_of rule_match key config}
        (unfold config_match_of in record { original_is = refl; match_is = refl }) context
        config.value_type (get_type rule_match.match) secret f)
      confidential g
