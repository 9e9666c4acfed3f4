-- ===== src/Telemetry/Examples/Keeping.antt =====
-- One example is kept for each grouped key: the first.
use prefab_cloud_go.Prelude.{
  Bool-cases, ℤ, GoString, str_eq, str_eq_iff, str_eq_refl, ret, ◌>>=◌, >>=-eq-ret, ◌∙◌, List, ap,
  ◌≡◌, refl, ◌≢◌, ◌⊎◌, inl, inr, true, false, Option, none, some, [], arith,
}
use prefab_cloud_go.Prelude.Dict
use prefab_cloud_go.Prelude.Dict.{get-put}
use mathlib.Core.Path.{subst}
use prefab_cloud_go.Proto.{Context}
use prefab_cloud_go.GoValue.{Host}
use prefab_cloud_go.Contexts.{ContextSet, grouped_key, to_proto}
use prefab_cloud_go.Telemetry.Examples.{
  ExampleContext, ExampleContextAggregator, record_context, add_example, with_grouped_key,
}

-- What holds of the examples behind a record of a context with this grouped key.
pub record Kept (key : GoString) (before behind : ExampleContextAggregator) : Type 0 where
  pub old :
      (k : GoString) (e : ExampleContext) → Dict.get k before ≡ some e → Dict.get k behind ≡ some e
  pub others : (k : GoString) → str_eq key k ≡ false → Dict.get k behind ≡ Dict.get k before
  pub present : str_eq key [] ≡ false → Dict.get key behind ≢ none

put-Kept :
    (key : GoString) (eca : ExampleContextAggregator) (e : ExampleContext)
    → Dict.get key eca ≡ none
    → Kept key eca (Dict.put key e eca)
put-Kept key eca e absent = record {
  old = λ k x h. ground (arith, get-put key k e eca, str_eq_iff key k);
  others = λ k h. ground (arith, get-put key k e eca);
  present = λ h. ground (arith, get-put key key e eca, str_eq_refl key);
}

same-Kept :
    (key : GoString) {before behind : ExampleContextAggregator}
    → (str_eq key [] ≡ true) ⊎ ((e : ExampleContext) × (Dict.get key before ≡ some e))
    → before ≡ behind
    → Kept key before behind
same-Kept key {before} {behind} why same =
    subst (Kept key before) same
      (record { old = λ k e h. h; others = λ k h. refl; present = λ h. ground (arith, why) })

add_example-Kept :
    (host : Host) (now : ℤ) (before : ExampleContextAggregator) (key : GoString) (set : ContextSet)
    (o : Option ExampleContext) {behind : ExampleContextAggregator}
    → Dict.get key before ≡ o
    → add_example host now before key set o ≡ ret behind
    → Kept key before behind
unfolding add_example
add_example-Kept host now before key set (some e) g h = same-Kept key (inr (e, g)) (cc h)
add_example-Kept host now before key set none {behind} g h =
    let (contexts, made, same) = >>=-eq-ret (to_proto host set.data_) _ h in
    let example : ExampleContext = record { timestamp = now; contexts = contexts } in
    let stored : Dict.put key example before ≡ behind = cc same in
    subst (Kept key before) stored (put-Kept key before example g)

-- A context that is recorded leaves every example that is there as it is, changes nothing under any
-- other key than its grouped key, and unless that key is empty, there is an example for it afterwards.
pub record_context-Kept :
    (host : Host) (now : ℤ) (before : ExampleContextAggregator) (set : ContextSet) (key : GoString)
    {behind : ExampleContextAggregator}
    → grouped_key set ≡ ret key
    → record_context host now before set ≡ ret behind
    → Kept key before behind
unfolding record_context with_grouped_key
record_context-Kept host now before set key {behind} g h =
    let recorded : with_grouped_key host now before set key ≡ ret behind = rw (g) at h in
    elim (Bool-cases (str_eq key [])) [
      | inl e ↦ same-Kept key (inl e) (cc (rw e at recorded))
      | inr e ↦
          add_example-Kept host now before key set (Dict.get key before) refl (rw e at recorded)
    ]

add_example-total :
    (host : Host) (now : ℤ) (before : ExampleContextAggregator) (key : GoString) (set : ContextSet)
    (o : Option ExampleContext)
    → (contexts : List Context) × (to_proto host set.data_ ≡ ret contexts)
    → (behind : ExampleContextAggregator) × (add_example host now before key set o ≡ ret behind)
unfolding add_example
add_example-total host now before key set (some e) h = (before, refl)
add_example-total host now before key set none (contexts, made) = (
  Dict.put key (record { timestamp = now; contexts = contexts }) before,
  ap (λ m. m >>= λ c. ret (Dict.put key (record { timestamp = now; contexts = c }) before)) made,
)

-- A context that has a grouped key and becomes messages is recorded.
pub record_context-total :
    (host : Host) (now : ℤ) (before : ExampleContextAggregator) (set : ContextSet)
    → (key : GoString) × (grouped_key set ≡ ret key)
    → (contexts : List Context) × (to_proto host set.data_ ≡ ret contexts)
    → (behind : ExampleContextAggregator) × (record_context host now before set ≡ ret behind)
unfolding record_context with_grouped_key
record_context-total host now before set (key, g) h =
    let (stored, e) = add_example-total host now before key set (Dict.get key before) h in
    elim (Bool-cases (str_eq key [])) [
      | inl y ↦ (before, ap (λ m. m >>= with_grouped_key host now before set) g ∙ rw (y) refl)
      | inr n ↦ (stored, ap (λ m. m >>= with_grouped_key host now before set) g ∙ rw (n) e)
    ]
