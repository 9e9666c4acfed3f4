-- ===== src/Contexts/Dots.antt =====
-- `splitAtFirstDot` of pkg/internal/contexts/context.go.
use prefab_cloud_go.Prelude.{GoString, ◌≡◌, Option, none, some, [], ◌∷◌, ◌++◌}
use prefab_cloud_go.Prelude.Cuts.{cut, Without, cut-Without, cut-append}

parts_of : GoString → Option (GoString × GoString) → GoString × GoString
parts_of input (some p) = p
parts_of input none = ([], input)

-- `strings.SplitN(input, ".", 2)` cuts at the first dot, if there is one.
unfoldable pub split_at_first_dot : GoString → GoString × GoString
unfolding cut parts_of
split_at_first_dot input = parts_of input (cut b'.' input)

-- A name with no dot in front of the first dot is split off; without a dot the name is empty.
pub split_at_first_dot_lem :
    (a b : GoString)
    → Without b'.' a
    → (split_at_first_dot (a ++ (b'.' ∷ b)) ≡ (a, b)) × (split_at_first_dot a ≡ ([], a))
unfolding split_at_first_dot
split_at_first_dot_lem a b h = (rw (cut-append b'.' a b h), rw (cut-Without b'.' a h))
