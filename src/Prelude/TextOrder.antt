-- ===== src/Prelude/TextOrder.antt =====
-- `str_lt` is a strict total order.
use prefab_cloud_go.Prelude.Text.{GoString, str_lt}
use mathlib.Core.Path.{◌≡◌, refl}
use mathlib.Core.Bool.{true, false}
use mathlib.Core.List.{[], ◌∷◌}
use native.Mathlib.Omega.{arith}

pub str_lt_irrefl : (a : GoString) → str_lt a a ≡ false
unfolding str_lt
str_lt_irrefl [] = refl
str_lt_irrefl (x ∷ a) = ground (arith, str_lt_irrefl a)

pub str_lt_asymm : (a b : GoString) → str_lt a b ≡ true → str_lt b a ≡ false
unfolding str_lt
str_lt_asymm [] [] h = cc
str_lt_asymm [] (y ∷ b) h = refl
str_lt_asymm (x ∷ a) [] h = cc
str_lt_asymm (x ∷ a) (y ∷ b) h = ground (arith, str_lt_asymm a b)

pub str_lt_total : (a b : GoString) → str_lt a b ≡ false → str_lt b a ≡ false → a ≡ b
unfolding str_lt
str_lt_total [] [] h k = refl
str_lt_total [] (y ∷ b) h k = cc
str_lt_total (x ∷ a) [] h k = cc
str_lt_total (x ∷ a) (y ∷ b) h k = ground (arith, str_lt_total a b)

pub str_lt_trans : (a b c : GoString) → str_lt a b ≡ true → str_lt b c ≡ true → str_lt a c ≡ true
unfolding str_lt
str_lt_trans [] [] c h k = k
str_lt_trans (x ∷ a) [] c h k = cc
str_lt_trans [] (y ∷ b) [] h k = cc
str_lt_trans [] (y ∷ b) (z ∷ c) h k = refl
str_lt_trans (x ∷ a) (y ∷ b) [] h k = cc
str_lt_trans (x ∷ a) (y ∷ b) (z ∷ c) h k = ground (arith, str_lt_trans a b c)

-- b ≤ c and c < a.
pub str_lt_of_le : (a b c : GoString) → str_lt c b ≡ false → str_lt c a ≡ true → str_lt b a ≡ true
unfolding str_lt
str_lt_of_le a [] [] h k = k
str_lt_of_le [] [] (z ∷ c) h k = k
str_lt_of_le (x ∷ a) [] (z ∷ c) h k = refl
str_lt_of_le a (y ∷ b) [] h k = absurd (cc h)
str_lt_of_le [] (y ∷ b) (z ∷ c) h k = k
str_lt_of_le (x ∷ a) (y ∷ b) (z ∷ c) h k = ground (arith, str_lt_of_le a b c)
