-- ===== src/Resolver/Outcomes.antt =====
-- The results of the resolver on its branches.
use prefab_cloud_go.Prelude.{
  Bool-cases, Option-cases, if◌then◌else◌, ◌↔◌, GoString, str_eq, Outcome, ret, ◌>>=◌, ◌≡◌, refl,
  ◌∙◌, ◌⊎◌, inl, inr, Bool, true, false, ◌&&◌, Option, none, some, [],
}
use prefab_cloud_go.Errors.{Error}
use prefab_cloud_go.Proto.{
  ConfigValue, config_value, ConfigValueType, Provided, Config, ValueType, get_type,
  get_confidential, get_decrypt_with, get_source, ProvidedSource,
}
use prefab_cloud_go.Resolver.Coercion.{Coerces, coerce_value-Coerces, Coerces-coerce_value}
use prefab_cloud_go.Interfaces.{ContextValueGetter}
use prefab_cloud_go.Evaluator.{ConditionMatch}
use prefab_cloud_go.Resolver.{
  ConfigMatch, ConfigResolver, multi_context, config_match_of, handle_provided, coerce_value,
  replace, env_step, provided_step, resolve_step, finish, look_up, resolve_value_for_config,
}

-- The mark of a confidential original that was not encrypted is copied.
abbrev pub copies : ConfigMatch → Bool
copies m = str_eq (get_decrypt_with m.original_match) [] && get_confidential m.original_match

finish_marked :
    (m : ConfigMatch) (t : ConfigValueType) (c : Option Bool) (d : Option GoString)
    → copies m ≡ true
    → finish (replace m (config_value t c d))
      ≡ ret (record m { match = config_value t (some true) d }, none)
unfolding finish
finish_marked m t c d e = rw e

finish_plain :
    (m : ConfigMatch) (cv : ConfigValue)
    → copies m ≡ false
    → finish (replace m cv) ≡ ret (record m { match = cv }, none)
unfolding finish
finish_plain m cv e = rw e

-- The mark of the value that replaces the match.
abbrev pub mark : ConfigMatch → Option Bool
mark m = if copies m then some true else none

-- The variable of the environment that a value names, and its text.
abbrev pub Reads : ConfigResolver → Provided → GoString → Type 0
Reads c p text =
    (get_source p ≡ ProvidedSource.env_var)
    × ((name : GoString) × (p.lookup ≡ some name) × (c.lookup_env name ≡ some text))

-- The resolution of a value that is provided: to the variable's value, or one of the two errors.
abbrev pub ToVariable :
    ConfigResolver
    → Provided
    → ConfigMatch
    → ValueType
    → Outcome (ConfigMatch × Option Error)
    → Type 0
ToVariable c p m type o =
    (text : GoString) × (t : ConfigValueType) × Reads c p text
    × Coerces c.host text type t
    × (o ≡ ret (record m { match = config_value t (mark m) none }, none))

abbrev pub EnvResult :
    ConfigResolver
    → Provided
    → ConfigMatch
    → ValueType
    → Outcome (ConfigMatch × Option Error)
    → Type 0
EnvResult c p m type o =
    ToVariable c p m type o
    ⊎ (((text : GoString) × Reads c p text
          × ((t : ConfigValueType) → ¬ (Coerces c.host text type t))
          × (o ≡ ret (m, some Error.type_coercion_failed)))
        ⊎ (((text : GoString) → ¬ (Reads c p text)) × (o ≡ ret (m, some Error.env_var_not_exist))))

look_up_iff :
    (c : ConfigResolver) (lookup : Option GoString) (text : GoString)
    → (look_up c lookup ≡ some text)
      ↔ ((name : GoString) × (lookup ≡ some name) × (c.lookup_env name ≡ some text))
unfolding look_up
look_up_iff c none text = (λ h. absurd (cc h), λ (name, e, _). absurd (cc e))
look_up_iff c (some name) text = (λ h. (name, refl, h), λ (name', e, h). cc (e, h))

of_source_iff :
    (c : ConfigResolver) (source : ProvidedSource) (lookup : Option GoString) (text : GoString)
    → (elim source [ ProvidedSource.env_var ↦ look_up c lookup | _ ↦ none ] ≡ some text) ↔ (
        (source ≡ ProvidedSource.env_var)
        × ((name : GoString) × (lookup ≡ some name) × (c.lookup_env name ≡ some text)))
of_source_iff c ProvidedSource.env_var lookup text =
    let found = look_up_iff c lookup text in (λ h. (refl, found.0 h), λ h. found.1 h.1)
of_source_iff c _ lookup text = (λ h. absurd (cc h), λ h. absurd (cc h.0))

handle_provided_iff :
    (c : ConfigResolver) (p : Provided) (text : GoString)
    → (handle_provided c p ≡ some text) ↔ Reads c p text
unfolding handle_provided
handle_provided_iff c p text = of_source_iff c (get_source p) p.lookup text

-- A confidential original marks what replaces it.
finish-mark :
    (m : ConfigMatch) (t : ConfigValueType)
    → finish (replace m (config_value t none none))
      ≡ ret (record m { match = config_value t (mark m) none }, none)
finish-mark m t = elim (Bool-cases (copies m)) [
  | inl e ↦ finish_marked m t none none e ∙ rw e refl
  | inr e ↦ finish_plain m (config_value t none none) e ∙ rw e refl
]

env_step-EnvResult :
    (c : ConfigResolver) (p : Provided) (m : ConfigMatch) (type : ValueType)
    → EnvResult c p m type (env_step c m type (handle_provided c p) >>= finish)
unfolding env_step
env_step-EnvResult c p m type = elim (Option-cases (handle_provided c p)) [
  | inl e ↦ inr (
      inr (
        λ text reads. cc ((handle_provided_iff c p text).1 reads, e),
        rw e (unfold finish in refl),
      ))
  | inr (text, e) ↦
      let reads = (handle_provided_iff c p text).0 e in
      elim (Option-cases (coerce_value c.host text type)) [
        | inl fails ↦ inr (
            inl (
              text,
              reads,
              λ t coerces. Coerces-coerce_value coerces fails,
              rw (e, fails) (unfold finish in refl),
            ))
        | inr (v, works) ↦
            let (t, coerces, made) = coerce_value-Coerces c.host text type v works in
            inl (text, t, reads, coerces, rw (e, works, made) (finish-mark m t))
      ]
]

-- A value that is provided by an environment variable resolves to what the text of that variable stands for
-- under the type of the config (the text itself where the config declares no type), marked confidential
-- where the original is and is not encrypted; it fails with the coercion error where the text stands for
-- nothing of the type, and with the error for a missing variable where no variable is named or set.
pub resolve_provided :
    (c : ConfigResolver) (config : Config) (passed : ContextValueGetter) (key : GoString)
    (rule_match : ConditionMatch) (p : Provided)
    → c.evaluate config (multi_context passed c.context_getter) ≡ ret rule_match
    → get_type rule_match.match ≡ ConfigValueType.provided (some p)
    → EnvResult c p
        (config_match_of rule_match key config)
        config.value_type
        (resolve_value_for_config c config passed key)
unfolding resolve_value_for_config resolve_step provided_step
resolve_provided c config passed key rule_match p e t =
    rw (e, t) (env_step-EnvResult c p (config_match_of rule_match key config) config.value_type)
