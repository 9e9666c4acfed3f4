-- ===== src/Weighted/Choice.antt =====
-- Which weighted value is chosen: the first whose running sum of weights reaches the threshold.
use prefab_cloud_go.Prelude.{
  ℕ, zero, suc, ◌+◌, ◌^◌, ◌≤◌, ◌<◌, Bool-cases, ℤ, pos, GoString, ret, panics, ◌≡◌, refl, ap, ◌∙◌,
  ◌≢◌, ◌↔◌, inl, inr, Bool, true, false, Option, none, some, arith,
}
use prefab_cloud_go.Proto.{ConfigValue, WeightedValues, no_more, weighted, Float64}
use mathlib.Core.Path.{subst}
use native.Mathlib.Nat.{add-zero}
use prefab_cloud_go.GoValue.{Host}
use prefab_cloud_go.Interfaces.{ContextValueGetter}
use prefab_cloud_go.Weighted.{
  add_int32, get_user_fraction, sum_weights, pick, or_first, threshold_of, resolve,
}

-- The weights are not negative, and with `run` in front they add up to `total`.
pub data AddsUp (total : ℕ) : ℕ → WeightedValues → Type 0 where
  none_left : {run : ℕ} → run ≡ total → AddsUp total run no_more
  one_more :
      {run w : ℕ} {v : ConfigValue} {rest : WeightedValues}
      → AddsUp total (run + w) rest
      → AddsUp total run (weighted (pos w) v rest)

AddsUp-le : {total run : ℕ} {values : WeightedValues} → AddsUp total run values → run ≤ total
AddsUp-le (none_left e) = omega arith
AddsUp-le (one_more a) = omega (arith, AddsUp-le a)

-- Sums below 2^31 do not wrap.
add_int32-pos : (a b : ℕ) → a + b < 2 ^ 31 → add_int32 (pos a) (pos b) ≡ pos (a + b)
unfolding add_int32
add_int32-pos a b h = ground arith

sum_weights-AddsUp :
    {total run : ℕ} {values : WeightedValues}
    → total < 2 ^ 31
    → AddsUp total run values
    → sum_weights (pos run) values ≡ pos total
unfolding sum_weights
sum_weights-AddsUp h (none_left e) = rw e
sum_weights-AddsUp h (one_more {run} {w} {v} {rest} a) =
    rw (add_int32-pos run w (omega (arith, AddsUp-le a))) (sum_weights-AddsUp h a)

-- The weight at an index.
abbrev pub weight_at : ℕ → WeightedValues → Option ℤ
weight_at n no_more = none
weight_at zero (weighted w v rest) = some w
weight_at (suc n) (weighted w v rest) = weight_at n rest

module _ (host : Host) (threshold : Float64) where
  abbrev reaches : ℕ → Bool
  reaches n = host.float_le threshold (host.float_of_int (pos n))

  -- The value `u` at the index `n` is the first whose running sum reaches the threshold.
  pub data Picks : ℕ → WeightedValues → ℕ → ConfigValue → Type 0 where
    here :
        {run w : ℕ} {v : ConfigValue} {rest : WeightedValues}
        → reaches (run + w) ≡ true
        → Picks run (weighted (pos w) v rest) 0 v
    later :
        {run w n : ℕ} {v u : ConfigValue} {rest : WeightedValues}
        → reaches (run + w) ≡ false
        → Picks (run + w) rest n u
        → Picks run (weighted (pos w) v rest) (suc n) u

  pick-Picks :
      {total run : ℕ} {values : WeightedValues} (i : ℕ)
      → total < 2 ^ 31
      → AddsUp total run values
      → (values ≡ no_more → reaches run ≡ false)
      → reaches total ≡ true
      → (n : ℕ) × (u : ConfigValue) × (pick host threshold (pos run) i values ≡ some (u, i + n))
        × Picks run values n u
  unfolding pick
  pick-Picks i h (none_left e) f t = absurd (cc (e, f refl, t))
  pick-Picks i h (one_more {run} {w} {v} {rest} a) f t =
      rw (add_int32-pos run w (omega (arith, AddsUp-le a))) (elim (Bool-cases (reaches (run + w))) [
        | inl e ↦ (0, v, rw e (ground arith), here e)
        | inr e ↦
            let (n, u, p, q) = pick-Picks (suc i) h a (λ _. e) t in
            (suc n, u, rw e (p ∙ ground arith), later e q)
      ])

  Picks-weight :
      {run n : ℕ} {values : WeightedValues} {u : ConfigValue}
      → reaches run ≡ false
      → Picks run values n u
      → (w : ℕ) × (weight_at n values ≡ some (pos w)) × (0 < w)
  Picks-weight f (here {run} {w = zero} e) = absurd (cc (f, e, add-zero run))
  Picks-weight f (here {w = suc w} e) = (suc w, refl, omega arith)
  Picks-weight f (later e p) = Picks-weight e p

  Picks-later_weight :
      {run n : ℕ} {values : WeightedValues} {u : ConfigValue}
      → Picks run values (suc n) u
      → (w : ℕ) × (weight_at (suc n) values ≡ some (pos w)) × (0 < w)
  Picks-later_weight (later e p) = Picks-weight e p

threshold_of-AddsUp :
    (host : Host) (fraction : Float64) {total : ℕ} {values : WeightedValues}
    → total < 2 ^ 31
    → AddsUp total 0 values
    → threshold_of host fraction values ≡ host.float_mul fraction (host.float_of_int (pos total))
unfolding threshold_of
threshold_of-AddsUp host fraction h adds =
    ap (λ s. host.float_mul fraction (host.float_of_int s)) (sum_weights-AddsUp h adds)

resolve-pick :
    (host : Host) (draw : Float64) (values : WeightedValues) (hash_by : Option GoString)
    (name : GoString) (context : ContextValueGetter) {threshold : Float64} {r : ConfigValue × ℕ}
    → threshold_of host (get_user_fraction host draw hash_by name context) values ≡ threshold
    → pick host threshold (pos 0) 0 values ≡ some r
    → resolve host draw values hash_by name context ≡ ret r
unfolding resolve or_first
resolve-pick host draw values hash_by name context e p = rw (e, p, or_first)

-- With weights that are not negative and add up to less than 2^31, at least one value, and a
-- fraction whose product with the total is at most the total, `Resolve` returns the first value
-- whose running sum reaches the threshold, with its index: it never falls back to the first value.
pub resolve-Picks :
    (host : Host) (draw : Float64) (values : WeightedValues) (hash_by : Option GoString)
    (name : GoString) (context : ContextValueGetter) (total : ℕ)
    → total < 2 ^ 31
    → AddsUp total 0 values
    → values ≢ no_more
    → host.float_le
        (host.float_mul
          (get_user_fraction host draw hash_by name context)
          (host.float_of_int (pos total)))
        (host.float_of_int (pos total))
      ≡ true
    → (n : ℕ) × (u : ConfigValue) × (resolve host draw values hash_by name context ≡ ret (u, n))
      × Picks host
          (host.float_mul
            (get_user_fraction host draw hash_by name context)
            (host.float_of_int (pos total)))
          0
          values
          n
          u
resolve-Picks host draw values hash_by name context total h adds some_value le =
    let fraction = get_user_fraction host draw hash_by name context in
    let (n, u, p, q) =
      pick-Picks host (host.float_mul fraction (host.float_of_int (pos total))) 0 h adds
        (λ e. absurd (some_value e)) le in
    (
      n,
      u,
      resolve-pick host draw values hash_by name context (threshold_of-AddsUp host fraction h adds)
          (p ∙ ground arith),
      q,
    )

-- `Resolve` panics exactly if there are no weighted values.
pub resolve_panics_iff :
    (host : Host) (draw : Float64) (values : WeightedValues) (hash_by : Option GoString)
    (name : GoString) (context : ContextValueGetter)
    → (resolve host draw values hash_by name context ≡ panics) ↔ (values ≡ no_more)
unfolding resolve or_first
resolve_panics_iff host draw no_more hash_by name context = (λ _. refl, λ _. unfold pick in refl)
resolve_panics_iff host draw (weighted w v rest) hash_by name context =
    (λ h. ground arith, λ h. cc h)

-- With weights that are not negative and add up to less than 2^31, and a fraction whose product with
-- the total is at most the total, a value behind the first that `Resolve` returns has a weight above
-- zero.
pub resolve_weight_lem :
    (host : Host) (draw : Float64) (values : WeightedValues) (hash_by : Option GoString)
    (name : GoString) (context : ContextValueGetter) (total n : ℕ) {u : ConfigValue}
    → total < 2 ^ 31
    → AddsUp total 0 values
    → host.float_le
        (host.float_mul
          (get_user_fraction host draw hash_by name context)
          (host.float_of_int (pos total)))
        (host.float_of_int (pos total))
      ≡ true
    → resolve host draw values hash_by name context ≡ ret (u, suc n)
    → (w : ℕ) × (weight_at (suc n) values ≡ some (pos w)) × (0 < w)
resolve_weight_lem host draw values hash_by name context total n h adds le r =
    let some_value : values ≢ no_more =
      λ e. absurd (cc (r, (resolve_panics_iff host draw values hash_by name context).1 e)) in
    let picked = resolve-Picks host draw values hash_by name context total h adds some_value le in
    let same : picked.0 ≡ suc n = cc (r, picked.2) in
    let threshold =
      host.float_mul (get_user_fraction host draw hash_by name context)
        (host.float_of_int (pos total)) in
    Picks-later_weight host threshold
      (subst (λ m. Picks host threshold 0 values m picked.1) same picked.3)
