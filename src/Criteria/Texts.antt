-- ===== src/Criteria/Texts.antt =====
-- Context values as text, and the tests on lists of texts, of pkg/internal/config_rule_evaluator.go.
use prefab_cloud_go.Prelude.{
  any_of, GoString, codes, str_eq, has_prefix, has_suffix, contains, Outcome, ret, panics, Bool,
  true, false, List, [], ◌∷◌,
}
use prefab_cloud_go.Prelude.Decimal.{show_int, show_nat}
use prefab_cloud_go.GoValue.{Any, AnyList, Host}

-- `fmt.Sprintf("%v", contextValue)`, and the empty text for nil.
unfoldable pub context_value_to_string : Host → Any → GoString
context_value_to_string host Any.nil = []
context_value_to_string host (Any.string s) = s
context_value_to_string host (Any.bool true) = codes "true"
context_value_to_string host (Any.bool false) = codes "false"
context_value_to_string host (Any.int k n) = show_int n
context_value_to_string host (Any.uint k n) = show_nat n
context_value_to_string host v = host.format_value v

strings_of_items : Host → AnyList → List GoString
strings_of_items host AnyList.end = []
strings_of_items host (AnyList.item v rest) =
    context_value_to_string host v ∷ strings_of_items host rest

-- A slice that is neither `[]string` nor `[]interface{}` fails the type assertion in the loop.
unfoldable pub context_value_to_string_slice : Host → Any → Outcome (List GoString)
unfolding strings_of_items
context_value_to_string_slice host Any.nil = ret []
context_value_to_string_slice host (Any.string_slice l) = ret l
context_value_to_string_slice host (Any.slice l) = ret (strings_of_items host l)
context_value_to_string_slice host (Any.typed_slice t l) = panics
context_value_to_string_slice host (Any.bytes b) = panics
context_value_to_string_slice host v = ret (context_value_to_string host v ∷ [])

unfoldable pub ends_with_any : List GoString → GoString → Bool
ends_with_any suffixes target = any_of (λ suffix. has_suffix target suffix) suffixes

unfoldable pub starts_with_any : List GoString → GoString → Bool
starts_with_any prefixes target = any_of (λ prefix. has_prefix target prefix) prefixes

unfoldable pub contains_any : List GoString → GoString → Bool
contains_any parts target = any_of (λ part. contains target part) parts

unfoldable pub string_in_slice : GoString → List GoString → Bool
string_in_slice a list = any_of (λ b. str_eq b a) list
