-- ===== src/Prelude/Cuts.antt =====
-- A text cut at the first occurrence of a byte, and split at all of them.
use prefab_cloud_go.Prelude.Tests.{◌==◌, if◌then◌else◌}
use prefab_cloud_go.Prelude.Lists.{All}
use prefab_cloud_go.Prelude.Text.{GoString, split}
use Prim.Native.Nat.{ℕ}
use mathlib.Core.Path.{◌≡◌, refl}
use mathlib.Core.Bool.{false}
use mathlib.Core.Option.{Option, none, some}
use mathlib.Core.List.{[], ◌∷◌, ◌++◌}
use native.Mathlib.Omega.{arith}

add_front : ℕ → Option (GoString × GoString) → Option (GoString × GoString)
add_front c (some (a, b)) = some (c ∷ a, b)
add_front c none = none

-- The text before the first `sep` and behind it, if there is one.
unfoldable pub cut : ℕ → GoString → Option (GoString × GoString)
unfolding add_front
cut sep [] = none
cut sep (c ∷ s) = let rest = cut sep s in if c == sep then some ([], s) else add_front c rest

-- The byte does not occur.
abbrev pub Without : ℕ → GoString → Type 0
Without sep = All (λ c. (c == sep) ≡ false)

module _ (sep : ℕ) where
  pub cut-Without : (a : GoString) → Without sep a → cut sep a ≡ none
  unfolding cut
  cut-Without [] h = refl
  cut-Without (c ∷ a) h = rw (h.0, cut-Without a h.1)

  pub cut-append : (a b : GoString) → Without sep a → cut sep (a ++ (sep ∷ b)) ≡ some (a, b)
  unfolding cut
  cut-append [] b h = ground arith
  cut-append (c ∷ a) b h = rw (h.0, cut-append a b h.1)

  pub split-Without : (a : GoString) → Without sep a → split sep a ≡ a ∷ []
  unfolding split
  split-Without [] h = refl
  split-Without (c ∷ a) h = rw (h.0, split-Without a h.1)

  pub split-append : (a b : GoString) → Without sep a → split sep (a ++ (sep ∷ b)) ≡ a ∷ split sep b
  unfolding split
  split-append [] b h = ground arith
  split-append (c ∷ a) b h = rw (h.0, split-append a b h.1)

  pub Without-append : (a b : GoString) → Without sep a → Without sep b → Without sep (a ++ b)
  Without-append [] b h k = k
  Without-append (c ∷ a) b h k = (h.0, Without-append a b h.1 k)
