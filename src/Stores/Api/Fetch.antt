-- ===== src/Stores/Api/Fetch.antt =====
-- The retries of `fetchFromServer`.
use prefab_cloud_go.Prelude.{
  ℕ, zero, suc, ◌+◌, ◌*◌, ◌≤◌, ◌<◌, ◌≡◌, sym, ap, ◌∙◌, Option, none, some, arith,
}
use prefab_cloud_go.Proto.{Configs}
use prefab_cloud_go.GoValue.{Host}
use prefab_cloud_go.Stores.Api.{
  ApiConfigStore, max_retries, Fetched, loaded, gave_up, fetch_left, fetch_from_server,
}

-- The seconds slept before the attempt k: 0 + 1 + … + (k - 1).
slept_from : ℕ → ℕ → ℕ
slept_from attempted zero = 0
slept_from attempted (suc k) = attempted + slept_from (suc attempted) k

slept_from_sum : (a k : ℕ) → 2 * slept_from a k + k ≡ k * (2 * a + k)
unfolding slept_from
slept_from_sum a zero = omega arith
slept_from_sum a (suc k) = grind (arith, slept_from_sum (suc a) k)

fetch_left-some :
    (host : Host) (load : ℕ → Option Configs) (cs : ApiConfigStore) (left attempted slept : ℕ)
    {configs : Configs}
    → load attempted ≡ some configs
    → fetch_left host load cs left attempted slept ≡ loaded host cs configs slept
unfolding fetch_left
fetch_left-some host load cs zero a slept e = rw (fetch_left, e)
fetch_left-some host load cs (suc left) a slept e = rw (fetch_left, e)

fetch_left-none :
    (host : Host) (load : ℕ → Option Configs) (cs : ApiConfigStore) (left attempted slept : ℕ)
    → load attempted ≡ none
    → fetch_left host load cs (suc left) attempted slept
      ≡ fetch_left host load cs left (suc attempted) (slept + attempted)
unfolding fetch_left
fetch_left-none host load cs left a slept e = rw (fetch_left, e)

fetch_left-loaded :
    (host : Host) (load : ℕ → Option Configs) (cs : ApiConfigStore) (left k attempted slept : ℕ)
    {configs : Configs}
    → k ≤ left
    → ((j : ℕ) → j < k → load (attempted + j) ≡ none)
    → load (attempted + k) ≡ some configs
    → fetch_left host load cs left attempted slept
      ≡ loaded host cs configs (slept + slept_from attempted k)
unfolding slept_from
fetch_left-loaded host load cs left zero a slept h f e =
    fetch_left-some host load cs left a slept (sym (ap load (omega arith)) ∙ e)
    ∙ ap (loaded host cs _) (omega arith)
fetch_left-loaded host load cs zero (suc k) a slept h f e = absurd (omega arith)
fetch_left-loaded host load cs (suc left) (suc k) a slept h f e =
    fetch_left-none host load cs left a slept (sym (ap load (omega arith)) ∙ f 0 (omega arith))
    ∙ fetch_left-loaded host load cs left k (suc a) (slept + a) (omega arith)
        (λ j l. ap load (omega arith) ∙ f (suc j) (omega arith)) (ap load (omega arith) ∙ e)
    ∙ ap (loaded host cs _) (omega arith)

fetch_left-gave_up :
    (host : Host) (load : ℕ → Option Configs) (cs : ApiConfigStore) (left attempted slept : ℕ)
    → ((j : ℕ) → j ≤ left → load (attempted + j) ≡ none)
    → fetch_left host load cs left attempted slept ≡ gave_up cs (slept + slept_from attempted left)
unfolding slept_from fetch_left
fetch_left-gave_up host load cs zero a slept f =
    let failed : load a ≡ none = ap load (omega arith) ∙ f 0 (omega arith) in
    rw (fetch_left, failed) (ap (gave_up cs) (omega arith))
fetch_left-gave_up host load cs (suc left) a slept f =
    fetch_left-none host load cs left a slept (ap load (omega arith) ∙ f 0 (omega arith))
    ∙ fetch_left-gave_up host load cs left (suc a) (slept + a)
        (λ j l. ap load (omega arith) ∙ f (suc j) (omega arith))
    ∙ ap (gave_up cs) (omega arith)

-- When the first k requests fail and the next one answers, for a k of at most ten, the store takes in
-- that answer, `finishedLoading` and `then` are each called once, no error is returned, and the
-- seconds slept are 0 + 1 + … + (k - 1), which is k (k - 1) / 2.
pub fetch_from_server-loaded :
    (host : Host) (load : ℕ → Option Configs) (cs : ApiConfigStore) (k : ℕ) {configs : Configs}
    → k ≤ max_retries
    → ((j : ℕ) → j < k → load j ≡ none)
    → load k ≡ some configs
    → let seconds = (fetch_from_server host load cs).slept in
      (fetch_from_server host load cs ≡ loaded host cs configs seconds) × (2 * seconds + k ≡ k * k)
unfolding fetch_from_server
fetch_from_server-loaded host load cs k h f e =
    let at_start =
      fetch_left-loaded host load cs max_retries k 0 0 h (λ j l. ap load (omega arith) ∙ f j l)
        (ap load (omega arith) ∙ e) in
    let seconds = ap (λ (fetched : Fetched). fetched.slept) at_start in
    (at_start ∙ ap (loaded host cs _) (sym seconds), grind (arith, seconds, slept_from_sum 0 k))

-- When the first request and its ten retries all fail, the store stays as it was, `then` is called
-- and `finishedLoading` is not, an error is returned, and 45 seconds were slept.
pub fetch_from_server-gave_up :
    (host : Host) (load : ℕ → Option Configs) (cs : ApiConfigStore)
    → ((j : ℕ) → j ≤ max_retries → load j ≡ none)
    → fetch_from_server host load cs ≡ gave_up cs 45
unfolding fetch_from_server slept_from
fetch_from_server-gave_up host load cs f =
    fetch_left-gave_up host load cs max_retries 0 0 (λ j l. ap load (omega arith) ∙ f j l)
