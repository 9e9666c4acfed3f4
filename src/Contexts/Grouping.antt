-- ===== src/Contexts/Grouping.antt =====
-- The key under which an example context is kept: it does not depend on the order of the map.
use prefab_cloud_go.Prelude.{
  if◌then◌else◌, any_of, GoString, codes, join, Outcome, ret, panics, unfinished, ◌>>=◌, ◌≡◌, refl,
  sym, ap, ◌∙◌, ◌≢◌, ◌↔◌, Bool, true, false, not, ◌||◌, Option, none, some, List, [], ◌∷◌, arith,
}
use mathlib.Core.Logic.{∥∥₁_elim}
use mathlib.Core.Path.{ap₂}
use mathlib.Core.List.{Perm, Permᴰ}
use prefab_cloud_go.Prelude.TextOrder.{str_lt_asymm, str_lt_total, str_lt_of_le}
use prefab_cloud_go.Prelude.Dict.{Dict, get}
use prefab_cloud_go.GoValue.{Any}
use prefab_cloud_go.AnyHelpers.{is_string}
use prefab_cloud_go.Contexts.{
  NamedContext, ContextSet, id_of, collect_ids, insert_string, sort_strings, joined_key,
  grouped_key,
}

insert_string_comm :
    (a b : GoString) (l : List GoString)
    → insert_string a (insert_string b l) ≡ insert_string b (insert_string a l)
unfolding insert_string
insert_string_comm a b [] = ground (arith, str_lt_asymm a b, str_lt_total a b)
insert_string_comm a b (c ∷ l) = ground (
  arith,
  insert_string_comm a b l,
  str_lt_asymm a b,
  str_lt_total a b,
  str_lt_of_le a b c,
  str_lt_of_le b a c,
)

-- The ids in order, with whether there is a key among them.
abbrev Ids : Type 0
Ids = Outcome (Bool × List GoString)

abbrev insert_id : Outcome (Bool × GoString) → Ids → Ids
insert_id (ret (b, s)) (ret (any_keys, ids)) = ret (b || any_keys, insert_string s ids)
insert_id (ret p) panics = panics
insert_id (ret p) unfinished = unfinished
insert_id panics ids = panics
insert_id unfinished ids = unfinished

sorted_ids : Dict NamedContext → Ids
sorted_ids [] = ret (false, [])
sorted_ids ((name, nc) ∷ rest) = insert_id (id_of nc) (sorted_ids rest)

abbrev sort_ids : Ids → Ids
sort_ids (ret (b, ids)) = ret (b, sort_strings ids)
sort_ids panics = panics
sort_ids unfinished = unfinished

sort_collected :
    (first : Outcome (Bool × GoString)) (others : Ids)
    → sort_ids (first >>= λ f. others >>= λ o. ret (f.0 || o.0, f.1 ∷ o.1))
      ≡ insert_id first (sort_ids others)
unfolding sort_strings
sort_collected (ret p) (ret q) = refl
sort_collected (ret p) panics = refl
sort_collected (ret p) unfinished = refl
sort_collected panics o = refl
sort_collected unfinished o = refl

sorted_ids-eq : (m : Dict NamedContext) → sorted_ids m ≡ sort_ids (collect_ids m)
unfolding sorted_ids collect_ids
sorted_ids-eq [] = unfold sort_strings in refl
sorted_ids-eq ((name, nc) ∷ rest) =
    ap (insert_id (id_of nc)) (sorted_ids-eq rest)
    ∙ sym (sort_collected (id_of nc) (collect_ids rest))

id_of-ne-unfinished : (nc : NamedContext) → id_of nc ≢ unfinished
unfolding id_of
id_of-ne-unfinished nc h = ground arith

insert_id_comm :
    (x y : Outcome (Bool × GoString)) (ids : Ids)
    → x ≢ unfinished
    → y ≢ unfinished
    → insert_id x (insert_id y ids) ≡ insert_id y (insert_id x ids)
insert_id_comm (ret (b, s)) (ret (c, t)) (ret (d, l)) h k =
    ap₂ (λ e m. ret (e, m)) (ground arith) (insert_string_comm s t l)
insert_id_comm unfinished y ids h k = absurd (h refl)
insert_id_comm x unfinished ids h k = absurd (k refl)
insert_id_comm (ret p) (ret q) panics h k = refl
insert_id_comm (ret p) (ret q) unfinished h k = refl
insert_id_comm (ret p) panics ids h k = ground arith
insert_id_comm panics (ret q) ids h k = ground arith
insert_id_comm panics panics ids h k = refl

sorted_ids_permᴰ : {m n : Dict NamedContext} → Permᴰ m n → sorted_ids m ≡ sorted_ids n
unfolding sorted_ids
sorted_ids_permᴰ Permᴰ.nil = refl
sorted_ids_permᴰ (Permᴰ.cons {a} {b} {l₁} {l₂} e p) =
    ap₂ (λ (c : GoString × NamedContext) i. insert_id (id_of c.1) i) e (sorted_ids_permᴰ p)
sorted_ids_permᴰ (Permᴰ.swap {a} {b} {a'} {b'} {l} e f) =
    insert_id_comm (id_of a.1) (id_of b.1) (sorted_ids l) (id_of-ne-unfinished a.1)
      (id_of-ne-unfinished b.1)
    ∙ ap₂
        (λ (c d : GoString × NamedContext).
          insert_id (id_of c.1) (insert_id (id_of d.1) (sorted_ids l)))
        f e
sorted_ids_permᴰ (Permᴰ.trans p q) = sorted_ids_permᴰ p ∙ sorted_ids_permᴰ q

abbrev key_of : Ids → Outcome GoString
key_of (ret (any_keys, ids)) = ret (if any_keys then join (b'|' ∷ []) ids else [])
key_of panics = panics
key_of unfinished = unfinished

key_of-sort_ids : (ids : Ids) → key_of (sort_ids ids) ≡ (ids >>= λ i. ret (joined_key i))
unfolding joined_key
key_of-sort_ids (ret p) = refl
key_of-sort_ids panics = refl
key_of-sort_ids unfinished = refl

grouped_key-sorted_ids : (cs : ContextSet) → grouped_key cs ≡ key_of (sorted_ids cs.data_)
unfolding grouped_key
grouped_key-sorted_ids cs =
    sym (ap key_of (sorted_ids-eq cs.data_) ∙ key_of-sort_ids (collect_ids cs.data_))

-- Two maps with the same contexts have the same grouped key, in whatever order each is walked.
pub grouped_key-perm : (a b : ContextSet) → Perm a.data_ b.data_ → grouped_key a ≡ grouped_key b
grouped_key-perm a b p =
    grouped_key-sorted_ids a
    ∙ ap key_of (∥∥₁_elim p (hlevel) sorted_ids_permᴰ)
    ∙ sym (grouped_key-sorted_ids b)

-- The context has a value under "key" that is neither nil nor a string.
abbrev pub odd_key : Option Any → Bool
odd_key none = false
odd_key (some Any.nil) = false
odd_key (some v) = not (is_string v)

id_of-panics :
    (nc : NamedContext) → (id_of nc ≡ panics) ↔ (odd_key (get (codes "key") nc.data_) ≡ true)
unfolding id_of is_string
id_of-panics nc = ground arith

abbrev has_odd_key : GoString × NamedContext → Bool
has_odd_key c = odd_key (get (codes "key") c.1.data_)

sorted_ids_panics :
    (m : Dict NamedContext) → (sorted_ids m ≡ panics) ↔ (any_of has_odd_key m ≡ true)
unfolding sorted_ids any_of
sorted_ids_panics [] = (λ h. cc h, λ h. cc h)
sorted_ids_panics ((name, nc) ∷ rest) =
    ground (arith, id_of-panics nc, id_of-ne-unfinished nc, sorted_ids_panics rest)

key_of_panics : (ids : Ids) → (key_of ids ≡ panics) ↔ (ids ≡ panics)
key_of_panics (ret p) = (λ h. cc h, λ h. cc h)
key_of_panics panics = (λ h. refl, λ h. refl)
key_of_panics unfinished = (λ h. cc h, λ h. cc h)

-- The grouped key is a run-time panic exactly if some context has a value under "key" that is
-- neither nil nor a string.
pub grouped_key_panics_iff :
    (cs : ContextSet)
    → (grouped_key cs ≡ panics) ↔ (
        any_of (λ (c : GoString × NamedContext). odd_key (get (codes "key") c.1.data_)) cs.data_
        ≡ true)
grouped_key_panics_iff cs = ground (
  arith,
  grouped_key-sorted_ids cs,
  key_of_panics (sorted_ids cs.data_),
  sorted_ids_panics cs.data_,
)
