-- ===== src/Semver/Order.antt =====
-- The order on versions: `Compare` is antisymmetric and transitive.
use prefab_cloud_go.Prelude.{
  ℕ, zero, suc, ◌^◌, ◌<◌, ◌==◌, if◌then◌else◌, ℤ, pos, negsuc, ltb_ℤ, eq_ℤ, GoString, str_eq_iff,
  str_lt, split, ◌≡◌, refl, true, not, Option, none, some, List, [], ◌∷◌, arith,
}
use prefab_cloud_go.Prelude.TextOrder.{str_lt_irrefl, str_lt_asymm, str_lt_total, str_lt_trans}
use prefab_cloud_go.Prelude.Decimal.{atoi, read_nat}
use prefab_cloud_go.Semver.{
  SemanticVersion, less, equal, greater, is_numeric, compare_by, compare_pre_release_identifiers,
  compare_identifiers, compare_pre_release, compare, equal_versions,
}

-- The result with the two sides exchanged.
abbrev pub opposite : ℤ → ℤ
opposite (pos zero) = equal
opposite (pos (suc n)) = less
opposite (negsuc n) = greater

compare_by-opposite :
    (a b : Option ℤ) (s t : GoString) → compare_by a b s t ≡ opposite (compare_by b a t s)
unfolding compare_by
compare_by-opposite (some a) (some b) s t = ground arith
compare_by-opposite (some a) none s t = refl
compare_by-opposite none (some b) s t = refl
compare_by-opposite none none s t = ground (arith, str_lt_asymm s t)

identifiers_opposite :
    (xs ys : List GoString) → compare_identifiers xs ys ≡ opposite (compare_identifiers ys xs)
unfolding compare_identifiers compare_pre_release_identifiers
identifiers_opposite [] [] = refl
identifiers_opposite [] (y ∷ ys) = refl
identifiers_opposite (x ∷ xs) [] = refl
identifiers_opposite (x ∷ xs) (y ∷ ys) =
    ground (arith, identifiers_opposite xs ys, compare_by-opposite (atoi x) (atoi y) x y)

pre_release_opposite :
    (a b : GoString) → compare_pre_release a b ≡ opposite (compare_pre_release b a)
unfolding compare_pre_release
pre_release_opposite [] [] = refl
pre_release_opposite [] (d ∷ b) = refl
pre_release_opposite (c ∷ a) [] = refl
pre_release_opposite (c ∷ a) (d ∷ b) =
    identifiers_opposite (split b'.' (c ∷ a)) (split b'.' (d ∷ b))

-- Exchanging the versions turns the result round.
pub compare-opposite : (a b : SemanticVersion) → compare a b ≡ opposite (compare b a)
unfolding compare
compare-opposite a b = ground (arith, pre_release_opposite a.prerelease b.prerelease)

-- The result for a and c that the results for a, b and for b, c determine.
abbrev chain : ℤ → ℤ → Option ℤ
chain (pos zero) y = some y
chain (negsuc n) (pos zero) = some (negsuc n)
chain (negsuc n) (negsuc m) = if n == m then some (negsuc n) else none
chain (negsuc n) (pos (suc m)) = none
chain (pos (suc n)) (pos zero) = some (pos (suc n))
chain (pos (suc n)) (pos (suc m)) = if n == m then some (pos (suc n)) else none
chain (pos (suc n)) (negsuc m) = none

abbrev cmp_text : GoString → GoString → ℤ
cmp_text s t = if str_lt s t then less else if str_lt t s then greater else equal

abbrev cmp_int : ℤ → ℤ → ℤ
cmp_int a b = if ltb_ℤ a b then less else if ltb_ℤ b a then greater else equal

chain_int : (a b c : ℤ) {r : ℤ} → chain (cmp_int a b) (cmp_int b c) ≡ some r → cmp_int a c ≡ r
chain_int a b c h = ground arith

chain_text :
    (a b c : GoString) {r : ℤ} → chain (cmp_text a b) (cmp_text b c) ≡ some r → cmp_text a c ≡ r
chain_text a b c h = ground (
  arith,
  str_lt_asymm a b,
  str_lt_asymm b c,
  str_lt_asymm a c,
  str_lt_total a b,
  str_lt_total b c,
  str_lt_total a c,
  str_lt_trans a b c,
  str_lt_trans c b a,
  str_lt_irrefl a,
  str_lt_irrefl b,
)

chain_by :
    (a b c : Option ℤ) (s t u : GoString) {r : ℤ}
    → chain (compare_by a b s t) (compare_by b c t u) ≡ some r
    → compare_by a c s u ≡ r
unfolding compare_by
chain_by (some a) (some b) (some c) s t u h = chain_int a b c h
chain_by none none none s t u h = chain_text s t u h
chain_by _ _ _ s t u h = ground arith

abbrev or_next : ℤ → ℤ → ℤ
or_next cmp rest = if eq_ℤ cmp equal then rest else cmp

chain-or_next :
    (x y z p q t : ℤ)
    → ((u : ℤ) → chain x y ≡ some u → z ≡ u)
    → ((u : ℤ) → chain p q ≡ some u → t ≡ u)
    → (r : ℤ) → chain (or_next x p) (or_next y q) ≡ some r
    → or_next z t ≡ r
chain-or_next x y z p q t hx ih r h = ground (arith, ih r, hx x, hx y, hx r)

chain_identifiers :
    (xs ys zs : List GoString) {r : ℤ}
    → chain (compare_identifiers xs ys) (compare_identifiers ys zs) ≡ some r
    → compare_identifiers xs zs ≡ r
unfolding compare_identifiers compare_pre_release_identifiers
chain_identifiers (x ∷ xs) (y ∷ ys) (z ∷ zs) h =
    chain-or_next (compare_by (atoi x) (atoi y) x y) (compare_by (atoi y) (atoi z) y z) _ _ _ _
      (λ u e. chain_by (atoi x) (atoi y) (atoi z) x y z e) (λ u e. chain_identifiers xs ys zs e) _ h
chain_identifiers _ _ _ h = ground arith

chain_pre_release :
    (a b c : GoString) {r : ℤ}
    → chain (compare_pre_release a b) (compare_pre_release b c) ≡ some r
    → compare_pre_release a c ≡ r
unfolding compare_pre_release
chain_pre_release (x ∷ a) (y ∷ b) (z ∷ c) h =
    chain_identifiers (split b'.' (x ∷ a)) (split b'.' (y ∷ b)) (split b'.' (z ∷ c)) h
chain_pre_release _ _ _ h = ground arith

abbrev then_by : ℤ → ℤ → ℤ → ℤ
then_by x y rest = if not (eq_ℤ x y) then (if ltb_ℤ y x then greater else less) else rest

chain-then_by :
    (x y z p q t : ℤ)
    → ((u : ℤ) → chain p q ≡ some u → t ≡ u)
    → (r : ℤ) → chain (then_by x y p) (then_by y z q) ≡ some r
    → then_by x z t ≡ r
chain-then_by x y z p q t ih r h = ground (arith, ih r)

-- The results for a, b and for b, c settle that for a, c wherever they agree or one is `equal`:
-- the comparison is transitive, and versions that compare as equal are interchangeable.
pub compare-chain :
    (a b c : SemanticVersion) {r : ℤ} → chain (compare a b) (compare b c) ≡ some r → compare a c ≡ r
unfolding compare
compare-chain a b c {r} h =
    let patch =
      chain-then_by a.patch b.patch c.patch (compare_pre_release a.prerelease b.prerelease)
        (compare_pre_release b.prerelease c.prerelease)
        (compare_pre_release a.prerelease c.prerelease)
        (λ u e. chain_pre_release a.prerelease b.prerelease c.prerelease e) in
    let minor = chain-then_by a.minor b.minor c.minor _ _ _ patch in
    chain-then_by a.major b.major c.major _ _ _ minor r h

str_identifiers_refl : (xs : List GoString) → compare_identifiers xs xs ≡ equal
unfolding compare_identifiers compare_pre_release_identifiers compare_by
str_identifiers_refl [] = refl
str_identifiers_refl (x ∷ xs) = ground (arith, str_identifiers_refl xs, str_lt_irrefl x)

pre_release_refl : (a : GoString) → compare_pre_release a a ≡ equal
unfolding compare_pre_release
pre_release_refl [] = refl
pre_release_refl (c ∷ a) = str_identifiers_refl (split b'.' (c ∷ a))

-- Versions that `Equal` accepts compare as equal.
pub compare_of_equal_versions :
    (a b : SemanticVersion) → equal_versions a b ≡ true → compare a b ≡ equal
unfolding compare equal_versions
compare_of_equal_versions a b h =
    ground (arith, str_eq_iff a.prerelease b.prerelease, pre_release_refl a.prerelease)

atoi_of_digits : (t : GoString) (m : ℕ) → read_nat t ≡ some m → m < 2 ^ 63 → atoi t ≡ some (pos m)
unfolding atoi read_nat
atoi_of_digits [] m h k = cc
atoi_of_digits (c ∷ t) m h k = ground arith

-- An identifier of a hyphen and digits is taken for a negative number, and so stands below every
-- identifier of digits alone.
pub minus_below_digits :
    (s t : GoString) (n m : ℕ)
    → read_nat s ≡ some n
    → read_nat t ≡ some m
    → 0 < n
    → n < 2 ^ 63
    → m < 2 ^ 63
    → (is_numeric (b'-' ∷ s) ≡ true) × (compare_pre_release_identifiers (b'-' ∷ s) t ≡ less)
unfolding is_numeric compare_pre_release_identifiers compare_by
minus_below_digits s t zero m h k pos_n hn hm = absurd (omega arith)
minus_below_digits s t (suc n) m h k pos_n hn hm =
    let e : atoi (b'-' ∷ s) ≡ some (negsuc n) = unfold atoi in ground arith in
    rw (e, atoi_of_digits t m k hm) (refl, ground arith)
