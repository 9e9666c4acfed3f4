-- ===== src/Contexts/Lookup.antt =====
-- What a context set answers after it was built up or merged.
use prefab_cloud_go.Prelude.{if◌then◌else◌, GoString, str_eq, ◌≡◌, ap, ◌∙◌, [], ◌∷◌, ◌++◌, arith}
use prefab_cloud_go.Prelude.Dict.{Dict, get, IsMap, or_else, get-put, get-put_all, or_else-get_nil}
use prefab_cloud_go.GoValue.{Any}
use prefab_cloud_go.Prelude.Cuts.{Without}
use prefab_cloud_go.Contexts.Dots.{split_at_first_dot_lem}
use prefab_cloud_go.Contexts.{ContextSet, get_context_value, with_named_context_values, merge}

-- For names without a dot: a property `name.key` is read from the values that were put under the name,
-- and a property of another context as before.
pub get-with_named_context_values :
    (cs : ContextSet) (name other key : GoString) (values : Dict Any)
    → Without b'.' name
    → Without b'.' other
    → get_context_value (with_named_context_values cs name values) (other ++ (b'.' ∷ key))
      ≡ (if str_eq name other then get key values else get_context_value cs (other ++ (b'.' ∷ key)))
unfolding get_context_value with_named_context_values
get-with_named_context_values cs name other key values h h' =
    rw ((split_at_first_dot_lem other key h').0, get-put) (ground arith)

-- In a merge of two sets, in each of which a name stands once, each context is that of the second set,
-- or else that of the first: contexts replace one another whole.
pub get-merge :
    (k : GoString) (a b : ContextSet)
    → IsMap a.data_
    → IsMap b.data_
    → get k (merge (a ∷ b ∷ [])).data_ ≡ or_else (get k b.data_) (get k a.data_)
unfolding merge
get-merge k a b ha hb =
    get-put_all k _ b.data_ hb
    ∙ ap (or_else (get k b.data_)) (get-put_all k [] a.data_ ha ∙ or_else-get_nil k _)
