-- ===== src/Client/Getters.antt =====
-- What the getters of the client return, in terms of the resolver.
use prefab_cloud_go.Prelude.{
  Bool-cases, GoString, Outcome, ret, panics, unfinished, ◌>>=◌, >>=-eq-ret, ◌≡◌, refl, sym, ap,
  ◌∙◌, ◌≢◌, ◌⊎◌, inl, inr, Bool, true, false, Option, none, some, [], ◌∷◌,
}
use mathlib.Core.Path.{subst}
use prefab_cloud_go.Errors.{Error, Result, ok, err}
use prefab_cloud_go.Proto.{ConfigValue, nil_value, config_value}
use prefab_cloud_go.Contexts.{ContextSet, get_context_value, merge}
use prefab_cloud_go.Resolver.{ConfigMatch, resolve_value, ConfigResolver}
use prefab_cloud_go.Client.{
  Client, Answer, Reader, after_waiting, internal_get_value, resolved, process_value, match_answer,
  read_answer, not_found, get_value, get_value_with_default, or_default,
}

resolved-ok :
    (w : Client × Option Error) (r : Outcome (ConfigMatch × Option Error)) {later : Client}
    {m : ConfigMatch}
    → (elim w.1 as (λ o. Outcome (Client × Result ConfigMatch)) [
      | some e ↦ ret (w.0, err e)
      | none ↦ r >>= λ x. ret (resolved w.0 x)
    ])
      ≡ ret (later, ok m)
    → r ≡ ret (m, none)
unfolding resolved
resolved-ok (c, some e) r h = absurd (cc h)
resolved-ok (c, none) (ret (m, none)) h = cc h
resolved-ok (c, none) (ret (m, some e)) h = absurd (cc h)
resolved-ok (c, none) panics h = absurd (cc h)
resolved-ok (c, none) unfinished h = absurd (cc h)

-- The result of `internalGetValue` is a match that the resolver gives without an error.
internal_get_value-ok :
    (c : Client) (in_time : Bool) (key : GoString) (set : ContextSet) {later : Client}
    {m : ConfigMatch}
    → internal_get_value c in_time key set ≡ ret (later, ok m)
    → resolve_value c.config_resolver key (get_context_value set) ≡ ret (m, none)
unfolding internal_get_value
internal_get_value-ok c in_time key set h = resolved-ok (after_waiting c in_time) _ h

module _ {ℓ} {T : Type ℓ} where
  -- The match of the key for the merged context is a value that the parse function reads as this one.
  pub record Found (resolver : ConfigResolver) (reader : Reader T) (key : GoString)
      (merged : ContextSet) (v : T) : Type ℓ where
    pub match : ConfigMatch
    pub resolves : resolve_value resolver key (get_context_value merged) ≡ ret (match, none)
    pub not_nil : match.match ≢ nil_value
    pub parses : reader.parse match.match ≡ (v, true)
    pub is_value : reader.is_nil v ≡ false

  read_answer-ok :
      (reader : Reader T) (p : T × Bool)
      → (read_answer reader p).ok ≡ true
      → (p ≡ ((read_answer reader p).value, true))
        × (reader.is_nil (read_answer reader p).value ≡ false)
  unfolding read_answer not_found
  read_answer-ok reader (v, true) h = elim (Bool-cases (reader.is_nil v)) [
    | inl e ↦ absurd (cc (rw e at h))
    | inr e ↦ rw e (refl, e)
  ]
  read_answer-ok reader (v, false) h = absurd (cc h)

  match_answer-ok :
      (reader : Reader T) (cv : ConfigValue)
      → (match_answer reader cv).ok ≡ true
      → (cv ≢ nil_value)
        × (reader.parse cv ≡ ((match_answer reader cv).value, true))
        × (reader.is_nil (match_answer reader cv).value ≡ false)
  unfolding match_answer not_found
  match_answer-ok reader nil_value h = absurd (cc h)
  match_answer-ok reader (config_value t c d) h =
      let read = read_answer-ok reader (reader.parse (config_value t c d)) h in
      (λ e. absurd (cc e), read.0, read.1)

  process_value-Found :
      (c : Client) (reader : Reader T) (in_time : Bool) (key : GoString) (set : ContextSet)
      {later : Client} (result : Result ConfigMatch)
      → internal_get_value c in_time key set ≡ ret (later, result)
      → (process_value reader result).ok ≡ true
      → Found c.config_resolver reader key set (process_value reader result).value
  unfolding process_value not_found
  process_value-Found c reader in_time key set (err e) h k = absurd (cc k)
  process_value-Found c reader in_time key set (ok m) h k =
      let read = match_answer-ok reader m.match k in
      record {
        match = m;
        resolves = internal_get_value-ok c in_time key set h;
        not_nil = read.0;
        parses = read.1;
        is_value = read.2;
      }

  -- A getter that returns a value with `ok` returns what its parse function reads from the match of the
  -- key, for the context that the client is bound to overlaid by that of the call.
  pub get_value-Found :
      (c : Client) (bound : ContextSet) (reader : Reader T) (in_time : Bool) (key : GoString)
      (set : ContextSet) {later : Client} (answer : Answer T)
      → get_value c bound reader in_time key set ≡ ret (later, answer)
      → answer.ok ≡ true
      → Found c.config_resolver reader key (merge (bound ∷ set ∷ [])) answer.value
  unfolding get_value
  get_value-Found c bound reader in_time key set answer h k =
      let returned = >>=-eq-ret (internal_get_value _ in_time key (merge (bound ∷ set ∷ []))) _ h in
      let same : process_value reader returned.0.1 ≡ answer = cc returned.2 in
      subst (λ a. Found c.config_resolver reader key (merge (bound ∷ set ∷ [])) a.value) same
        (process_value-Found _ reader in_time key (merge (bound ∷ set ∷ [])) returned.0.1 returned.1
          (ap (λ a. a.ok) same ∙ k))

  or_default-cases {κ} :
      (Q : T → Type κ) (default_value value : T) (is_ok : Bool) (error : Option Error) {v : T}
      {was_found : Bool}
      → (is_ok ≡ true → Q value)
      → or_default default_value (record { value = value; ok = is_ok; error = error })
        ≡ (v, was_found)
      → (was_found ≡ true) × ((v ≡ default_value) ⊎ Q v)
  unfolding or_default
  or_default-cases Q default_value value is_ok (some e) q h =
      (sym (ap (λ p. p.1) h), inl (sym (ap (λ p. p.0) h)))
  or_default-cases Q default_value value false none q h =
      (sym (ap (λ p. p.1) h), inl (sym (ap (λ p. p.0) h)))
  or_default-cases Q default_value value true none q h =
      (sym (ap (λ p. p.1) h), inr (subst Q (ap (λ p. p.0) h) (q refl)))

  -- A getter with a default always says that the value was found, and returns the default or else what
  -- its parse function reads from the match of the key.
  pub get_value_with_default_lem :
      (c : Client) (bound : ContextSet) (reader : Reader T) (in_time : Bool) (key : GoString)
      (set : ContextSet) (default_value : T) {later : Client} {v : T} {was_found : Bool}
      → get_value_with_default c bound reader in_time key set default_value
        ≡ ret (later, (v, was_found))
      → (was_found ≡ true)
        × ((v ≡ default_value) ⊎ Found c.config_resolver reader key (merge (bound ∷ set ∷ [])) v)
  unfolding get_value_with_default or_default
  get_value_with_default_lem c bound reader in_time key set default_value h =
      let returned = >>=-eq-ret (get_value c bound reader in_time key set) _ h in
      let found = get_value-Found c bound reader in_time key set returned.0.1 returned.1 in
      or_default-cases (Found c.config_resolver reader key (merge (bound ∷ set ∷ []))) default_value
        returned.0.1.value returned.0.1.ok returned.0.1.error found (cc returned.2)
