-- ===== src/Prelude/Decimal/Reading.antt =====
-- The texts that `strconv.Atoi` accepts, described without a parser.
use prefab_cloud_go.Prelude.Tests.{ltb, leb, ltb→lt, lt→ltb, leb→le, ◌==◌, ==_iff, Bool-cases}
use prefab_cloud_go.Prelude.Text.{GoString}
use prefab_cloud_go.Prelude.Int.{ℤ, pos}
use prefab_cloud_go.Prelude.Lists.{All}
use prefab_cloud_go.Prelude.Decimal.{read_digits, read_nat, in_range, negate, atoi}
use Prim.Native.Nat.{ℕ, ◌+◌, ◌-◌, ◌*◌, ◌^◌, ◌<◌, ◌≤◌}
use native.Mathlib.Omega.{arith}
use mathlib.Core.Path.{◌≡◌, refl, sym, subst, ◌∙◌}
use mathlib.Core.Logic.{◌≢◌, ◌↔◌, inl, inr}
use mathlib.Core.Bool.{Bool, true, false}
use mathlib.Core.Option.{Option, none, some}
use mathlib.Core.List.{[], ◌∷◌}

abbrev pub IsDigit : ℕ → Type 0
IsDigit c = (b'0' ≤ c) × (c ≤ b'9')

-- The value of the digits behind those that make `acc`.
abbrev pub digits_value : ℕ → GoString → ℕ
digits_value acc [] = acc
digits_value acc (c ∷ s) = digits_value (acc * 10 + (c - b'0')) s

abbrev pub IsNumeral : GoString → ℕ → Type 0
IsNumeral s n = (s ≢ []) × All IsDigit s × (digits_value 0 s ≡ n)

-- A numeral with or without a sign, in the range of int64.
pub data IntText : GoString → ℤ → Type 0 where
  unsigned : {s : GoString} {n : ℕ} → IsNumeral s n → n < 2 ^ 63 → IntText s (pos n)
  plus : {s : GoString} {n : ℕ} → IsNumeral s n → n < 2 ^ 63 → IntText (b'+' ∷ s) (pos n)
  minus : {s : GoString} {n : ℕ} → IsNumeral s n → n ≤ 2 ^ 63 → IntText (b'-' ∷ s) (negate n)

read_digits_iff :
    (acc : ℕ) (s : GoString) (n : ℕ)
    → (read_digits acc s ≡ some n) ↔ (All IsDigit s × (digits_value acc s ≡ n))
unfolding read_digits
read_digits_iff acc [] n = ground arith
read_digits_iff acc (c ∷ s) n = ground (arith, read_digits_iff (acc * 10 + (c - b'0')) s n)

read_nat_iff : (s : GoString) (n : ℕ) → (read_nat s ≡ some n) ↔ IsNumeral s n
unfolding read_nat
read_nat_iff [] n = (λ h. absurd (cc h), λ h. absurd (h.0 refl))
read_nat_iff (c ∷ s) n =
    let read = read_digits_iff 0 (c ∷ s) n in
    (
      λ h. let (digits, same) = read.0 h in ((λ e. cc e), digits, same),
      λ h. let (some_digit, digits, same) = h in read.1 (digits, same),
    )

in_range_iff :
    (o : Option ℕ) (fits : ℕ → Bool) (signed : ℕ → ℤ) (z : ℤ)
    → (in_range o fits signed ≡ some z)
      ↔ ((n : ℕ) × (o ≡ some n) × (fits n ≡ true) × (signed n ≡ z))
unfolding in_range
in_range_iff none fits signed z = (λ h. absurd (cc h), λ (n, e, _, _). absurd (cc e))
in_range_iff (some n) fits signed z =
    (λ h. (n, refl, ground (arith, h), ground (arith, h)), λ (n', e, fit, same). ground arith)

unsigned_atoi :
    (c : ℕ) (s : GoString)
    → c ≢ b'-'
    → c ≢ b'+'
    → atoi (c ∷ s) ≡ in_range (read_nat (c ∷ s)) (λ n. ltb n (2 ^ 63)) pos
unfolding atoi
unsigned_atoi c s h k =
    let no_minus : (c == b'-') ≡ false = ground arith in
    let no_plus : (c == b'+') ≡ false = ground arith in rw (no_minus, no_plus) refl

-- The texts that are accepted, and no other.
pub atoi-IntText : (s : GoString) (z : ℤ) → atoi s ≡ some z → IntText s z
unfolding atoi
atoi-IntText [] z h = absurd (cc h)
atoi-IntText (c ∷ s) z h = elim (Bool-cases (c == b'-')) [
  | inl is_minus ↦
      let (n, e, fit, same) =
        (in_range_iff (read_nat s) (λ n. leb n (2 ^ 63)) negate z).0 (rw is_minus at h) in
      subst (λ x. IntText (x ∷ s) z) (sym ((==_iff _ _).0 is_minus))
        (subst (IntText (b'-' ∷ s)) same (IntText.minus ((read_nat_iff s n).0 e) (leb→le n _ fit)))
  | inr no_minus ↦ elim (Bool-cases (c == b'+')) [
    | inl is_plus ↦
        let (n, e, fit, same) =
          (in_range_iff (read_nat s) (λ n. ltb n (2 ^ 63)) pos z).0 (rw (no_minus, is_plus) at h) in
        subst (λ x. IntText (x ∷ s) z) (sym ((==_iff _ _).0 is_plus))
          (subst (IntText (b'+' ∷ s)) same (IntText.plus ((read_nat_iff s n).0 e) (ltb→lt n _ fit)))
    | inr no_plus ↦
        let (n, e, fit, same) =
          (in_range_iff (read_nat (c ∷ s)) (λ n. ltb n (2 ^ 63)) pos z).0
            (rw (no_minus, no_plus) at h) in
        subst (IntText (c ∷ s)) same
          (IntText.unsigned ((read_nat_iff (c ∷ s) n).0 e) (ltb→lt n _ fit))
  ]
]

pub IntText-atoi : {s : GoString} {z : ℤ} → IntText s z → atoi s ≡ some z
unfolding atoi
IntText-atoi (IntText.minus {s} {n} number fit) =
    (in_range_iff (read_nat s) (λ n. leb n (2 ^ 63)) negate (negate n)).1
      (n, (read_nat_iff s n).1 number, ground arith, refl)
IntText-atoi (IntText.plus {s} {n} number fit) =
    (in_range_iff (read_nat s) (λ n. ltb n (2 ^ 63)) pos (pos n)).1
      (n, (read_nat_iff s n).1 number, lt→ltb n _ fit, refl)
IntText-atoi (IntText.unsigned {s = []} {n} (is_text, digits, same) fit) = absurd (is_text refl)
IntText-atoi (IntText.unsigned {s = c ∷ s} {n} number fit) =
    let (filled, (digit, digits), same) = number in
    unsigned_atoi c s (ground arith) (ground arith)
    ∙ (in_range_iff (read_nat (c ∷ s)) (λ n. ltb n (2 ^ 63)) pos (pos n)).1
        (n, (read_nat_iff (c ∷ s) n).1 number, lt→ltb n _ fit, refl)
