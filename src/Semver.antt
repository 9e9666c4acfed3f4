-- ===== src/Semver.antt =====
-- pkg/internal/semver/semver.go. The pattern is matched by a recogniser for its grammar: no part of
-- it but the build metadata can hold a `+`, and no part before the prerelease a `-`, so a match is
-- unique.
pub mod Order
use prefab_cloud_go.Prelude.{
  ℕ, zero, suc, ◌+◌, ◌-◌, ◌*◌, ◌/◌, ◌%◌, ◌^◌, ◌≤◌, ◌<◌, ltb, leb, ◌==◌, bool_eq, if◌then◌else◌,
  ltb→lt, lt→ltb, leb→le, ==_iff, Bool-cases, Option-cases, length, get_elem?, length-append, All,
  any_of, ℤ, pos, negsuc, pos_part, neg_part, ◌≤ℤ◌, ◌<ℤ◌, ltb_ℤ, leb_ℤ, eq_ℤ, eq_ℤ_iff, GoString,
  codes, str_eq, str_eq_iff, str_eq_refl, str_lt, has_prefix, has_suffix, contains, join, split,
  cons_first, upper_byte, lower_byte, has_prefix_iff, Outcome, ret, panics, unfinished, ◌>>=◌,
  >>=-eq-ret, ◌≡◌, refl, sym, ap, ◌∙◌, ◌≢◌, ◌↔◌, ◌⊎◌, inl, inr, Bool, true, false, not, ◌&&◌, ◌||◌,
  Option, none, some, List, [], ◌∷◌, ◌++◌, arith,
}
use prefab_cloud_go.Prelude.Cuts.{cut}
use prefab_cloud_go.Prelude.Decimal.{atoi, show_int, is_digit}

pub record SemanticVersion : Type 0 where
  pub major : ℤ
  pub minor : ℤ
  pub patch : ℤ
  pub prerelease : GoString
  pub build_metadata : GoString

abbrev is_some {ℓ} : {A : Type ℓ} → Option A → Bool
is_some (some a) = true
is_some none = false

unfoldable pub is_numeric : GoString → Bool
is_numeric s = is_some (atoi s)

-- -1, 0 or 1.
abbrev pub less : ℤ
less = negsuc 0

abbrev pub equal : ℤ
equal = pos 0

abbrev pub greater : ℤ
greater = pos 1

-- The ladder of `comparePreReleaseIdentifiers`, with the results of `strconv.Atoi`.
compare_by : Option ℤ → Option ℤ → GoString → GoString → ℤ
compare_by (some num1) (some num2) id1 id2 =
    if ltb_ℤ num1 num2 then less else if ltb_ℤ num2 num1 then greater else equal
compare_by (some num1) none id1 id2 = less
compare_by none (some num2) id1 id2 = greater
compare_by none none id1 id2 =
    if str_lt id1 id2 then less else if str_lt id2 id1 then greater else equal

unfoldable pub compare_pre_release_identifiers : GoString → GoString → ℤ
unfolding compare_by
compare_pre_release_identifiers id1 id2 = compare_by (atoi id1) (atoi id2) id1 id2

-- The loop over the shorter length, and the comparison of the lengths behind it.
unfoldable pub compare_identifiers : List GoString → List GoString → ℤ
compare_identifiers [] [] = equal
compare_identifiers [] (id2 ∷ ids2) = less
compare_identifiers (id1 ∷ ids1) [] = greater
compare_identifiers (id1 ∷ ids1) (id2 ∷ ids2) =
    let cmp = compare_pre_release_identifiers id1 id2 in
    let rest = compare_identifiers ids1 ids2 in if eq_ℤ cmp equal then rest else cmp

unfoldable pub compare_pre_release : GoString → GoString → ℤ
compare_pre_release [] [] = equal
compare_pre_release [] (c ∷ pre2) = greater
compare_pre_release (c ∷ pre1) [] = less
compare_pre_release (c ∷ pre1) (d ∷ pre2) =
    compare_identifiers (split b'.' (c ∷ pre1)) (split b'.' (d ∷ pre2))

all_bytes : (ℕ → Bool) → GoString → Bool
all_bytes p [] = true
all_bytes p (c ∷ s) = p c && all_bytes p s

-- `0|[1-9]\d*`.
is_numeral : GoString → Bool
is_numeral [] = false
is_numeral (c ∷ s) =
    ((c == b'0') && str_eq s []) || (leb b'1' c && leb c b'9' && all_bytes is_digit s)

-- `[0-9a-zA-Z-]`.
abbrev is_word : ℕ → Bool
is_word c = is_digit c || (leb b'a' c && leb c b'z') || (leb b'A' c && leb c b'Z') || (c == b'-')

-- `[0-9a-zA-Z-]+`.
is_build_identifier : GoString → Bool
is_build_identifier [] = false
is_build_identifier (c ∷ s) = all_bytes is_word (c ∷ s)

-- `0|[1-9]\d*|\d*[a-zA-Z-][0-9a-zA-Z-]*`.
is_pre_release_identifier : GoString → Bool
is_pre_release_identifier s = is_numeral s || (is_build_identifier s && not (all_bytes is_digit s))

all_parts : (GoString → Bool) → List GoString → Bool
all_parts p [] = true
all_parts p (s ∷ l) = p s && all_parts p l

unfoldable pub is_pre_release : GoString → Bool
unfolding is_pre_release_identifier is_numeral is_build_identifier all_bytes all_parts
is_pre_release s = all_parts is_pre_release_identifier (split b'.' s)

unfoldable pub is_build_metadata : GoString → Bool
unfolding is_build_identifier all_bytes all_parts
is_build_metadata s = all_parts is_build_identifier (split b'.' s)

-- The numbers of the core, `major.minor.patch`.
core_numbers : List GoString → Option (ℤ × ℤ × ℤ)
core_numbers (a ∷ b ∷ c ∷ []) =
    if is_numeral a && is_numeral b && is_numeral c
    then elim (atoi a) [
      | none ↦ none
      | some x ↦ elim (atoi b) [
        | none ↦ none
        | some y ↦ elim (atoi c) [ none ↦ none | some z ↦ some (x, y, z) ]
      ]
    ]
    else none
core_numbers _ = none

version_of : Option (ℤ × ℤ × ℤ) → GoString → GoString → Option SemanticVersion
version_of none pre build = none
version_of (some (x, y, z)) pre build =
    some (record { major = x; minor = y; patch = z; prerelease = pre; build_metadata = build })

-- The text in front of the build metadata, cut at its first `-`.
parse_front : GoString → Option (GoString × GoString) → GoString → Option SemanticVersion
parse_front front none build = version_of (core_numbers (split b'.' front)) [] build
parse_front front (some (core, pre)) build =
    if is_pre_release pre then version_of (core_numbers (split b'.' core)) pre build else none

parse_cut : GoString → Option (GoString × GoString) → Option SemanticVersion
parse_cut version none = parse_front version (cut b'-' version) []
parse_cut version (some (front, build)) =
    if is_build_metadata build then parse_front front (cut b'-' front) build else none

-- `none` is the error, and the nil of `ParseQuietly`.
unfoldable pub parse : GoString → Option SemanticVersion
unfolding parse_cut parse_front version_of core_numbers is_numeral all_bytes
parse [] = none
parse (c ∷ s) = parse_cut (c ∷ s) (cut b'+' (c ∷ s))

-- `Compare`.
unfoldable pub compare : SemanticVersion → SemanticVersion → ℤ
compare s other =
    if not (eq_ℤ s.major other.major)
    then (if ltb_ℤ other.major s.major then greater else less)
    else if not (eq_ℤ s.minor other.minor)
    then (if ltb_ℤ other.minor s.minor then greater else less)
    else if not (eq_ℤ s.patch other.patch)
    then (if ltb_ℤ other.patch s.patch then greater else less)
    else compare_pre_release s.prerelease other.prerelease

suffix_of : ℕ → GoString → GoString
suffix_of mark [] = []
suffix_of mark (c ∷ s) = mark ∷ c ∷ s

-- `String`.
unfoldable pub to_string : SemanticVersion → GoString
unfolding suffix_of
to_string s =
    (show_int s.major ++ (b'.' ∷ (show_int s.minor ++ (b'.' ∷ show_int s.patch))))
    ++ (suffix_of b'-' s.prerelease ++ suffix_of b'+' s.build_metadata)

-- `Equal`.
unfoldable pub equal_versions : SemanticVersion → SemanticVersion → Bool
equal_versions s other =
    eq_ℤ s.major other.major
    && eq_ℤ s.minor other.minor
    && eq_ℤ s.patch other.patch
    && str_eq s.prerelease other.prerelease
