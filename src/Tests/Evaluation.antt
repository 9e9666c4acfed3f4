-- ===== src/Tests/Evaluation.antt =====
-- The theorems on evaluation, weighted values, the resolver and the client at one input each.
use prefab_cloud_go.Prelude.{
  ℕ, Bool-cases, All, pos, GoString, codes, str_eq, ret, panics, unfinished, ◌≡◌, refl, ◌≢◌, ◌↔◌,
  inl, inr, true, none, some, List, [], ◌∷◌, arith,
}
use mathlib.Core.Path.{subst}
use prefab_cloud_go.Proto.{
  ConfigValue, config_value, ConfigValueType, Float64, Criterion, Operator, ValueType,
  get_confidential, get_type, get_decrypt_with, WeightedValues, weighted, no_more,
}
use prefab_cloud_go.ConfigValues.{extract_value}
use prefab_cloud_go.Criteria.Complement.{IsPair, not_outcome}
use prefab_cloud_go.Evaluator.{
  ConditionMatch, no_match, evaluate_criterion, evaluate_row, evaluate_config,
}
use prefab_cloud_go.Evaluator.FirstMatch.{evaluate_row_iff, FirstAt, Rejects, matched}
use prefab_cloud_go.Evaluator.Segments.{evaluate_criterion-IsPair}
use prefab_cloud_go.Evaluator.Runs.{segment_name}
use prefab_cloud_go.Evaluator.Termination.{evaluate_config_ends, IsRanked, SegmentsBelow}
use prefab_cloud_go.Weighted
use prefab_cloud_go.Weighted.{get_user_fraction}
use prefab_cloud_go.Weighted.Choice.{AddsUp, Picks, resolve-Picks, resolve_panics_iff}
use prefab_cloud_go.Resolver.{
  ConfigMatch, config_match_of, resolve_value_for_config, resolve_step, finish,
}
use prefab_cloud_go.Resolver.Confidential.{resolve-confidential}
use prefab_cloud_go.Resolver.Outcomes.{resolve_provided, EnvResult}
use prefab_cloud_go.Encryption.{Cipher, decrypt_value}
use prefab_cloud_go.Encryption.RoundTrip.{
  AreBytes, hex_encode, sealed_text, decrypt_value-sealed_text,
}
use prefab_cloud_go.Errors.{ok}
use prefab_cloud_go.Tests.Data.{
  whole_number_host, evaluator, core_user, in_team, flag_row, flag, staff, resolver_to, match_to,
  halves, secret_value, provided_by_port, int_value, string_value,
}

abbrev on_team : Criterion
on_team = record in_team { operator = Operator.prop_is_not_one_of }

evaluate_criterion-IsPair_example :
    evaluate_criterion evaluator (λ config. ret no_match) core_user on_team
    ≡ not_outcome (evaluate_criterion evaluator (λ config. ret no_match) core_user in_team)
evaluate_criterion-IsPair_example =
    evaluate_criterion-IsPair evaluator (λ config. ret no_match) core_user in_team IsPair.one_of

evaluate_row_iff_example :
    ((evaluate_row evaluator (λ config. ret no_match) core_user flag_row 0
        ≡ ret (matched evaluator (λ config. ret no_match) core_user (int_value (pos 0)) 0 1))
      ↔ FirstAt evaluator (λ config. ret no_match) core_user 1 (int_value (pos 0)) flag_row.values)
    × ((evaluate_row evaluator (λ config. ret no_match) core_user flag_row 0 ≡ ret no_match)
        ↔ All
            (λ cv. Rejects evaluator (λ config. ret no_match) core_user cv.criteria)
            flag_row.values)
evaluate_row_iff_example =
    evaluate_row_iff evaluator (λ config. ret no_match) core_user flag_row 0 1 (int_value (pos 0))

abbrev no_rank : GoString → ℕ
no_rank name = 0

no_segment : {A : Type 0} (name : GoString) → segment_name whole_number_host in_team ≡ some name → A
unfolding segment_name extract_value
no_segment name e = absurd (cc e)

staff-SegmentsBelow : SegmentsBelow evaluator no_rank 0 staff
staff-SegmentsBelow = (((λ name target e f. no_segment name e, tt), tt), tt)

staff-IsRanked : IsRanked evaluator no_rank
staff-IsRanked name target e = elim (Bool-cases (str_eq name (codes "staff"))) [
  | inl h ↦
      subst (SegmentsBelow evaluator no_rank 0) {x = staff} {y = target} (cc (rw h at e))
        staff-SegmentsBelow
  | inr h ↦ absurd (cc (rw h at e))
]

flag-SegmentsBelow : SegmentsBelow evaluator no_rank 1 flag
flag-SegmentsBelow = (((λ name target e f. omega arith, tt), (tt, tt)), tt)

evaluate_config_ends_example :
    (evaluate_config evaluator core_user 2 flag ≢ unfinished)
    × (evaluate_config evaluator core_user 9 flag ≡ evaluate_config evaluator core_user 2 flag)
evaluate_config_ends_example =
    evaluate_config_ends evaluator core_user no_rank staff-IsRanked 2 9 1 flag (omega arith)
      (omega arith) flag-SegmentsBelow

halves-AddsUp : AddsUp 2 0 halves
halves-AddsUp = AddsUp.one_more (AddsUp.one_more (AddsUp.none_left (omega arith)))

resolve-Picks_example :
    (n : ℕ) × (u : ConfigValue) × (Weighted.resolve whole_number_host
        (Float64.float_bits 1)
        halves
        none
        (codes "flag")
        core_user
      ≡ ret (u, n))
    × Picks whole_number_host
        (whole_number_host.float_mul
          (get_user_fraction whole_number_host (Float64.float_bits 1) none (codes "flag") core_user)
          (whole_number_host.float_of_int (pos 2)))
        0
        halves
        n
        u
resolve-Picks_example =
    resolve-Picks whole_number_host (Float64.float_bits 1) halves none (codes "flag") core_user 2
      (omega arith) halves-AddsUp (λ e. absurd (cc e)) (unfold get_user_fraction in refl)

abbrev none_then_halves : WeightedValues
none_then_halves = weighted (pos 0) (string_value (codes "a")) halves

resolve_panics_iff_example :
    (Weighted.resolve whole_number_host (Float64.float_bits 1) no_more none (codes "flag") core_user
      ≡ panics)
    ↔ (WeightedValues.no_more ≡ no_more)
resolve_panics_iff_example =
    resolve_panics_iff whole_number_host (Float64.float_bits 1) no_more none (codes "flag")
      core_user

abbrev secret_match : ConfigMatch
unfolding config_match_of
secret_match = config_match_of (match_to secret_value) (codes "flag") flag

resolve-confidential_example : get_confidential secret_match.match ≡ true
resolve-confidential_example =
    resolve-confidential (resolver_to (match_to secret_value)) flag core_user (codes "flag")
      (match_to secret_value) {m = secret_match} refl (unfold get_confidential in refl)
      (inl (unfold get_decrypt_with str_eq in refl))
      (unfold resolve_value_for_config resolve_step finish get_type get_decrypt_with str_eq
          config_match_of in
        refl)

abbrev provided_match : ConditionMatch
provided_match =
    match_to (config_value (ConfigValueType.provided (some provided_by_port)) none none)

resolve_provided_example :
    EnvResult
      (resolver_to provided_match)
      provided_by_port
      (config_match_of provided_match (codes "flag") flag)
      ValueType.int_type
      (resolve_value_for_config (resolver_to provided_match) flag core_user (codes "flag"))
resolve_provided_example =
    resolve_provided (resolver_to provided_match) flag core_user (codes "flag") provided_match
      provided_by_port refl (unfold get_type in refl)

abbrev opening_cipher : Cipher
opening_cipher = record { open_gcm = λ key iv sealed. some (codes "open") }

abbrev sixteen_bytes : List ℕ
sixteen_bytes = 1 ∷ 2 ∷ 3 ∷ 4 ∷ 5 ∷ 6 ∷ 7 ∷ 8 ∷ 9 ∷ 10 ∷ 11 ∷ 12 ∷ 13 ∷ 14 ∷ 200 ∷ 255 ∷ []

sixteen-AreBytes : AreBytes sixteen_bytes
sixteen-AreBytes = ground arith

decrypt_value-sealed_text_example :
    decrypt_value opening_cipher
      (hex_encode sixteen_bytes)
      (sealed_text (42 ∷ []) (7 ∷ []) sixteen_bytes)
    ≡ ret (ok (codes "open"))
decrypt_value-sealed_text_example =
    decrypt_value-sealed_text opening_cipher sixteen_bytes (42 ∷ []) (7 ∷ []) sixteen_bytes
      (codes "open") (inl refl) (omega arith) (omega arith) sixteen-AreBytes (omega arith, tt)
      (omega arith, tt) sixteen-AreBytes refl
