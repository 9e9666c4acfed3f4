-- ===== src/Resolver/Coercion.antt =====
-- What `coerceValue` makes of the text of an environment variable.
use prefab_cloud_go.Prelude.{
  ℤ, GoString, codes, str_eq, str_eq_iff, any_of, ret, ◌≡◌, refl, ap, ◌∙◌, ◌≢◌, ◌⊎◌, inl, inr, ◌↔◌,
  Bool, true, false, Option, none, some, List, [], All, ◌∷◌, arith,
}
use mathlib.Core.Path.{subst}
use prefab_cloud_go.Prelude.Decimal.{atoi}
use prefab_cloud_go.Prelude.Decimal.Reading.{IntText, atoi-IntText, IntText-atoi}
use prefab_cloud_go.Proto.{config_value, ConfigValueType, ValueType, Float64}
use prefab_cloud_go.GoValue.{Any, IntKind, Host}
use prefab_cloud_go.ConfigValues.{create}
use prefab_cloud_go.Resolver.{coerce_value, parse_bool, as_any}

abbrev pub IsOneOf : GoString → List GoString → Type 0
IsOneOf s [] = ⊥
IsOneOf s (text ∷ texts) = (s ≡ text) ⊎ IsOneOf s texts

abbrev pub true_texts : List GoString
true_texts = codes "1" ∷ codes "t" ∷ codes "T" ∷ codes "TRUE" ∷ codes "true" ∷ codes "True" ∷ []

abbrev pub false_texts : List GoString
false_texts = codes "0" ∷ codes "f" ∷ codes "F" ∷ codes "FALSE" ∷ codes "false" ∷ codes "False" ∷ []

unsome : {A : Type 0} {a b : A} → some a ≡ some b → a ≡ b
unsome h = ground arith

-- The value that a text stands for in a config of a type; a config without a type takes it as a string.
pub data Coerces (host : Host) : GoString → ValueType → ConfigValueType → Type 0 where
  to_string : {s : GoString} → Coerces host s ValueType.string_type (ConfigValueType.string s)
  to_default :
      {s : GoString} → Coerces host s ValueType.not_set_value_type (ConfigValueType.string s)
  to_int :
      {s : GoString} {n : ℤ}
      → IntText s n
      → Coerces host s ValueType.int_type (ConfigValueType.int n)
  to_double :
      {s : GoString} {x : Float64}
      → host.parse_float s ≡ some x
      → Coerces host s ValueType.double_type (ConfigValueType.double x)
  to_true :
      {s : GoString}
      → IsOneOf s true_texts
      → Coerces host s ValueType.bool_type (ConfigValueType.bool true)
  to_false :
      {s : GoString}
      → IsOneOf s false_texts
      → Coerces host s ValueType.bool_type (ConfigValueType.bool false)

any_of_iff :
    (s : GoString) (texts : List GoString) → (any_of (str_eq s) texts ≡ true) ↔ IsOneOf s texts
unfolding any_of
any_of_iff s [] = (λ h. absurd (cc h), λ h. absurd h)
any_of_iff s (text ∷ texts) = ground (arith, str_eq_iff s text, any_of_iff s texts)

of_All :
    (test : GoString → Bool) (b : Bool) (s : GoString) (texts : List GoString)
    → All (λ text. test text ≡ b) texts
    → IsOneOf s texts
    → test s ≡ b
of_All test b s [] each h = absurd h
of_All test b s (text ∷ texts) (here, later) (inl same) = ap test same ∙ here
of_All test b s (text ∷ texts) (here, later) (inr rest) = of_All test b s texts later rest

-- No text stands for both.
apart : (s : GoString) → IsOneOf s false_texts → any_of (str_eq s) true_texts ≡ false
unfolding any_of str_eq
apart s h =
    of_All (λ text. any_of (str_eq text) true_texts) false s false_texts
      (refl, (refl, (refl, (refl, (refl, (refl, tt)))))) h

parse_bool_iff :
    (s : GoString) (b : Bool)
    → (parse_bool s ≡ some b)
      ↔ ((IsOneOf s true_texts × (b ≡ true)) ⊎ (IsOneOf s false_texts × (b ≡ false)))
unfolding parse_bool
parse_bool_iff s b = ground (arith, any_of_iff s true_texts, any_of_iff s false_texts, apart s)

as_any-some :
    {A : Type 0} (f : A → Any) (o : Option A) (v : Any)
    → as_any f o ≡ some v
    → (a : A) × (o ≡ some a) × (f a ≡ v)
unfolding as_any
as_any-some f none v h = absurd (cc h)
as_any-some f (some a) v h = (a, refl, ground (arith, h))

as_any-ne-none : {A : Type 0} (f : A → Any) (o : Option A) {a : A} → o ≡ some a → as_any f o ≢ none
unfolding as_any
as_any-ne-none f none e h = absurd (cc e)
as_any-ne-none f (some a) e h = cc h

-- The value that `Create` makes of a coerced text.
abbrev Makes : Host → GoString → ValueType → Any → Type 0
Makes host s type v =
    (t : ConfigValueType) × Coerces host s type t
    × (create host v ≡ ret (config_value t none none, true))

of_bool :
    (host : Host) (s : GoString) (b : Bool)
    → parse_bool s ≡ some b
    → Makes host s ValueType.bool_type (Any.bool b)
unfolding create
of_bool host s b h = elim ((parse_bool_iff s b).0 h) [
  | inl (one_of, same) ↦ (
    ConfigValueType.bool true,
    Coerces.to_true one_of,
    ap (λ x. ret (config_value (ConfigValueType.bool x) none none, true)) same,
  )
  | inr (one_of, same) ↦ (
    ConfigValueType.bool false,
    Coerces.to_false one_of,
    ap (λ x. ret (config_value (ConfigValueType.bool x) none none, true)) same,
  )
]

-- What the coercion returns is of this relation, and it fails only where nothing is.
pub coerce_value-Coerces :
    (host : Host) (s : GoString) (type : ValueType) (v : Any)
    → coerce_value host s type ≡ some v
    → Makes host s type v
unfolding coerce_value create
coerce_value-Coerces host s ValueType.string_type v h =
    subst (Makes host s ValueType.string_type) (unsome h) (_, Coerces.to_string, refl)
coerce_value-Coerces host s ValueType.not_set_value_type v h =
    subst (Makes host s ValueType.not_set_value_type) (unsome h) (_, Coerces.to_default, refl)
coerce_value-Coerces host s ValueType.int_type v h =
    let (n, e, same) = as_any-some (Any.int IntKind.plain) (atoi s) v h in
    subst (Makes host s ValueType.int_type) same (_, Coerces.to_int (atoi-IntText s n e), refl)
coerce_value-Coerces host s ValueType.double_type v h =
    let (x, e, same) = as_any-some Any.float64 (host.parse_float s) v h in
    subst (Makes host s ValueType.double_type) same (_, Coerces.to_double e, refl)
coerce_value-Coerces host s ValueType.bool_type v h =
    let (b, e, same) = as_any-some Any.bool (parse_bool s) v h in
    subst (Makes host s ValueType.bool_type) same (of_bool host s b e)
coerce_value-Coerces host s _ v h = absurd (cc h)

pub Coerces-coerce_value :
    {host : Host} {s : GoString} {type : ValueType} {t : ConfigValueType}
    → Coerces host s type t
    → coerce_value host s type ≢ none
unfolding coerce_value
Coerces-coerce_value Coerces.to_string h = cc h
Coerces-coerce_value Coerces.to_default h = cc h
Coerces-coerce_value (Coerces.to_int number) h = as_any-ne-none _ _ (IntText-atoi number) h
Coerces-coerce_value (Coerces.to_double e) h = as_any-ne-none _ _ e h
Coerces-coerce_value {s} (Coerces.to_true one_of) h =
    as_any-ne-none _ _ ((parse_bool_iff s true).1 (inl (one_of, refl))) h
Coerces-coerce_value {s} (Coerces.to_false one_of) h =
    as_any-ne-none _ _ ((parse_bool_iff s false).1 (inr (one_of, refl))) h
