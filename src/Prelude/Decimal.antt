-- ===== src/Prelude/Decimal.antt =====
-- Decimal numerals: `strconv.Atoi`, and the `%d` of package fmt.
pub mod Reading
use prefab_cloud_go.Prelude.Tests.{ltb, leb, ◌==◌, if◌then◌else◌, Bool-cases}
use prefab_cloud_go.Prelude.Text.{GoString}
use prefab_cloud_go.Prelude.Int.{ℤ, pos, negsuc}
use Prim.Native.Nat.{ℕ, zero, suc, ◌+◌, ◌-◌, ◌*◌, ◌/◌, ◌%◌, ◌^◌, ◌<◌}
use native.Mathlib.Omega.{arith}
use mathlib.Core.Path.{◌≡◌, refl, ◌∙◌}
use mathlib.Core.Logic.{◌≢◌, inl, inr}
use mathlib.Core.Bool.{Bool, ◌&&◌}
use mathlib.Core.Option.{Option, none, some}
use mathlib.Core.List.{[], ◌∷◌, ◌++◌, concat-ne-nil}

abbrev pub is_digit : ℕ → Bool
is_digit c = leb b'0' c && leb c b'9'

-- The number that the digits stand for, read onto `acc`; `none` at another byte.
unfoldable pub read_digits : ℕ → GoString → Option ℕ
read_digits acc [] = some acc
read_digits acc (c ∷ s) =
    let rest = read_digits (acc * 10 + (c - b'0')) s in if is_digit c then rest else none

-- At least one digit.
unfoldable pub read_nat : GoString → Option ℕ
unfolding read_digits
read_nat [] = none
read_nat (c ∷ s) = read_digits 0 (c ∷ s)

-- -n, as an integer.
abbrev pub negate : ℕ → ℤ
negate zero = pos 0
negate (suc n) = negsuc n

in_range : Option ℕ → (ℕ → Bool) → (ℕ → ℤ) → Option ℤ
in_range none fits signed = none
in_range (some n) fits signed = if fits n then some (signed n) else none

-- `strconv.Atoi` on a platform with 64-bit int: an optional sign, then digits; `none` on a syntax
-- error and out of range.
unfoldable pub atoi : GoString → Option ℤ
unfolding read_nat in_range
atoi [] = none
atoi (c ∷ s) =
    if c == b'-'
    then in_range (read_nat s) (λ n. leb n (2 ^ 63)) negate
    else in_range (read_nat (if c == b'+' then s else c ∷ s)) (λ n. ltb n (2 ^ 63)) pos

-- The digits of a number on `fuel` divisions by ten.
show_fuel : ℕ → ℕ → GoString
show_fuel zero n = []
show_fuel (suc fuel) n =
    let more = show_fuel fuel (n / 10) in
    let last = (n % 10 + b'0') ∷ [] in if ltb n 10 then last else more ++ last

-- `%d` of a number that is not negative.
unfoldable pub show_nat : ℕ → GoString
unfolding show_fuel
show_nat n = show_fuel (suc n) n

unfoldable pub show_int : ℤ → GoString
unfolding show_nat
show_int (pos n) = show_nat n
show_int (negsuc n) = b'-' ∷ show_nat (suc n)

pub read_digits-append :
    (acc : ℕ) (s t : GoString) {n : ℕ}
    → read_digits acc s ≡ some n
    → read_digits acc (s ++ t) ≡ read_digits n t
unfolding read_digits
read_digits-append acc [] t h = ground arith
read_digits-append acc (c ∷ s) t h = elim (Bool-cases (is_digit c)) [
  | inl d ↦ rw d (read_digits-append (acc * 10 + (c - b'0')) s t (rw d at h))
  | inr d ↦ absurd (cc (rw d at h))
]

show_fuel-ne-nil : (f n : ℕ) → show_fuel (suc f) n ≢ []
unfolding show_fuel
show_fuel-ne-nil f n = elim (Bool-cases (ltb n 10)) [
  | inl d ↦ rw d (λ e. cc e)
  | inr d ↦ rw d (concat-ne-nil (n % 10 + b'0') (show_fuel f (n / 10)))
]

read_digits-show_fuel : (f n : ℕ) → n < f → read_digits 0 (show_fuel f n) ≡ some n
unfolding show_fuel
read_digits-show_fuel zero n h = absurd (omega arith)
read_digits-show_fuel (suc f) n h = elim (Bool-cases (ltb n 10)) [
  | inl d ↦ rw d (unfold read_digits in ground arith)
  | inr d ↦
      let ih = read_digits-show_fuel f (n / 10) (ground arith) in
      rw d (read_digits-append 0 (show_fuel f (n / 10)) _ ih ∙ (unfold read_digits in ground arith))
]

read_nat-read_digits : (s : GoString) → s ≢ [] → read_nat s ≡ read_digits 0 s
unfolding read_nat
read_nat-read_digits [] h = absurd (h refl)
read_nat-read_digits (c ∷ s) h = refl

-- What `%d` prints is read back.
pub read_nat-show_nat : (n : ℕ) → read_nat (show_nat n) ≡ some n
unfolding show_nat
read_nat-show_nat n =
    read_nat-read_digits _ (show_fuel-ne-nil n n) ∙ read_digits-show_fuel (suc n) n (omega arith)
