-- ===== src/AnyHelpers/StringLists.antt =====
-- When a slice counts as a list of strings.
use prefab_cloud_go.Prelude.{
  ℕ, zero, suc, Bool-cases, GoString, codes, str_eq, ret, panics, ◌≡◌, refl, ap, ◌≢◌, ◌↔◌, inl, inr,
  true, some, List, [], ◌∷◌, arith,
}
use prefab_cloud_go.GoValue.{Any, AnyList, type_of, same_type, GoType, IntKind}
use prefab_cloud_go.AnyHelpers.{all_of_type, strings_of, detect_and_return_string_list_if_present}

-- The `[]interface{}` that holds these strings.
abbrev pub of_strings : List GoString → AnyList
of_strings [] = AnyList.end
of_strings (s ∷ l) = AnyList.item (Any.string s) (of_strings l)

all_of_type-of_strings :
    (l : List GoString) → all_of_type (GoType.builtin (codes "string")) (of_strings l) ≡ true
unfolding all_of_type same_type type_of str_eq
all_of_type-of_strings [] = refl
all_of_type-of_strings (s ∷ l) = all_of_type-of_strings l

strings_of-of_strings : (l : List GoString) → strings_of (of_strings l) ≡ l
unfolding strings_of
strings_of-of_strings [] = refl
strings_of-of_strings (s ∷ l) = ap (◌∷◌ s) (strings_of-of_strings l)

-- A non-empty slice of strings is found and returned as it is.
pub detect-of_strings :
    (s : GoString) (l : List GoString)
    → detect_and_return_string_list_if_present (Any.slice (of_strings (s ∷ l))) ≡ ret (some (s ∷ l))
unfolding detect_and_return_string_list_if_present
detect-of_strings s l =
    rw (all_of_type-of_strings l) (ap (λ r. ret (some (s ∷ r))) (strings_of-of_strings l))

-- Only a string has the type string.
type_of_string :
    (v : Any)
    → same_type (type_of v) (GoType.builtin (codes "string")) ≡ true
    → (s : GoString) × (v ≡ Any.string s)
unfolding same_type type_of str_eq
type_of_string (Any.string s) h = (s, refl)
type_of_string (Any.int IntKind.plain n) h = cc
type_of_string (Any.int _ n) h = cc
type_of_string (Any.uint IntKind.plain n) h = cc
type_of_string (Any.uint _ n) h = cc
type_of_string _ h = cc

all_of_type_strings :
    (l : AnyList)
    → all_of_type (GoType.builtin (codes "string")) l ≡ true
    → l ≡ of_strings (strings_of l)
unfolding all_of_type strings_of
all_of_type_strings AnyList.end h = refl
all_of_type_strings (AnyList.item v rest) h =
    let (s, e) = type_of_string v (ground arith) in
    rw e (ap (AnyList.item (Any.string s)) (all_of_type_strings rest (ground arith)))

detect_item_sound :
    (v : Any) (rest : AnyList) {ss : List GoString}
    → detect_and_return_string_list_if_present (Any.slice (AnyList.item v rest)) ≡ ret (some ss)
    → AnyList.item v rest ≡ of_strings ss
unfolding detect_and_return_string_list_if_present
detect_item_sound (Any.string s) rest h =
    elim (Bool-cases (all_of_type (GoType.builtin (codes "string")) rest)) [
      | inl e ↦ rw (all_of_type_strings rest e) (ground arith)
      | inr e ↦ absurd (cc (rw e at h))
    ]
detect_item_sound (Any.uint IntKind.bits8 n) rest h = ground arith
detect_item_sound (Any.uint _ n) rest h = ground arith
detect_item_sound _ rest h = ground arith

detect_sound :
    (l : AnyList) {ss : List GoString}
    → detect_and_return_string_list_if_present (Any.slice l) ≡ ret (some ss)
    → (l ≡ of_strings ss) × (ss ≢ [])
unfolding detect_and_return_string_list_if_present
detect_sound AnyList.end h = absurd (cc)
detect_sound (AnyList.item v rest) {ss} h =
    let e = detect_item_sound v rest h in (e, λ (n : ss ≡ []). cc (e, n))

detect_complete :
    (l : AnyList) (ss : List GoString)
    → (l ≡ of_strings ss) × (ss ≢ [])
    → detect_and_return_string_list_if_present (Any.slice l) ≡ ret (some ss)
detect_complete l [] h = absurd (h.1 refl)
detect_complete l (s ∷ r) h = rw (h.0) (detect-of_strings s r)

-- A slice of interfaces counts as a list of strings exactly if it is not empty and holds these
-- strings and nothing else.
pub detect_slice_iff :
    (l : AnyList) (ss : List GoString)
    → (detect_and_return_string_list_if_present (Any.slice l) ≡ ret (some ss))
      ↔ ((l ≡ of_strings ss) × (ss ≢ []))
detect_slice_iff l ss = (detect_sound l, detect_complete l ss)

-- A slice of `n + 1` nils.
abbrev pub nils : ℕ → AnyList
nils zero = AnyList.item Any.nil AnyList.end
nils (suc n) = AnyList.item Any.nil (nils n)

all_of_type-nils : (n : ℕ) → all_of_type GoType.no_type (nils n) ≡ true
unfolding all_of_type same_type type_of
all_of_type-nils zero = refl
all_of_type-nils (suc n) = all_of_type-nils n

-- A slice that holds only nil is a run-time panic, however long it is.
pub detect-nils : (n : ℕ) → detect_and_return_string_list_if_present (Any.slice (nils n)) ≡ panics
unfolding detect_and_return_string_list_if_present
detect-nils zero = refl
detect-nils (suc n) = rw (all_of_type-nils n)
