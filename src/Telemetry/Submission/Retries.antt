-- ===== src/Telemetry/Submission/Retries.antt =====
-- The attempts of `retryRequest`.
use prefab_cloud_go.Prelude.{
  ℕ, zero, suc, ◌+◌, ◌-◌, ◌*◌, ◌^◌, ◌≤◌, ◌<◌, ◌≡◌, ap, ◌∙◌, ◌↔◌, Bool, true, false, none, some,
  arith,
}
use prefab_cloud_go.Errors.{Error}
use prefab_cloud_go.Telemetry.Submission.{retry_left, retry_request}

-- The attempts from this one on, so many of them, fail.
abbrev pub AllFail : (ℕ → Bool) → ℕ → ℕ → Type 0
AllFail send attempt zero = Unit
AllFail send attempt (suc n) = (send attempt ≡ false) × AllFail send (suc attempt) n

-- The seconds slept before so many attempts.
slept_for : ℕ → ℕ → ℕ
slept_for backoff zero = 0
slept_for backoff (suc n) = backoff + slept_for (backoff * 2) n

power_suc : (n : ℕ) → 2 * 2 ^ n ≡ 2 ^ suc n
power_suc n = omega arith

mul_step : (b p : ℕ) → b * 2 * p ≡ b * (2 * p)
mul_step b p = grind arith

double_power : (b n : ℕ) → b * 2 * 2 ^ n ≡ b * 2 ^ suc n
double_power b n = mul_step b (2 ^ n) ∙ ap (λ q. b * q) (power_suc n)

slept_for_power : (backoff n : ℕ) → slept_for backoff n + backoff ≡ backoff * 2 ^ n
unfolding slept_for
slept_for_power backoff zero = omega arith
slept_for_power backoff (suc n) =
    omega (arith, slept_for_power (backoff * 2) n, double_power backoff n)

attempt_now : (n : ℕ) → n + 0 ≡ n
attempt_now n = omega arith

retry_left-answered :
    (send : ℕ → Bool) (failed left attempt backoff slept : ℕ)
    → failed ≤ left
    → AllFail send attempt failed
    → send (attempt + failed) ≡ true
    → retry_left send left attempt backoff slept ≡ (none, slept + slept_for backoff failed)
unfolding retry_left slept_for
retry_left-answered send zero zero attempt backoff slept h k e =
    ground (arith, attempt_now attempt, e)
retry_left-answered send zero (suc left) attempt backoff slept h k e =
    ground (arith, attempt_now attempt, e)
retry_left-answered send (suc failed) zero attempt backoff slept h k e = absurd (omega (arith, h))
retry_left-answered send (suc failed) (suc left) attempt backoff slept h k e =
    let later =
      retry_left-answered send failed left (suc attempt) (backoff * 2) (slept + backoff)
        (omega (arith, h)) k.1 (ap send (omega arith) ∙ e) in
    ground (arith, k.0, later)

-- A request whose first attempts fail, at most four, and whose next one is answered with the status 200 is no
-- error, and the seconds that were slept double from 1 with each failure.
pub retry_request-answered :
    (send : ℕ → Bool) (failed : ℕ)
    → failed < 5
    → AllFail send 1 failed
    → send (1 + failed) ≡ true
    → retry_request send ≡ (none, 2 ^ failed - 1)
unfolding retry_request
retry_request-answered send failed h k e =
    retry_left-answered send failed 4 1 1 0 (omega (arith, h)) k e
    ∙ ap (λ s. (none, s)) (omega (arith, slept_for_power 1 failed))

-- A request is an error exactly if all of five attempts fail, behind 15 seconds of sleep.
pub retry_request_iff :
    (send : ℕ → Bool) → (retry_request send ≡ (some Error.submission_failed, 15)) ↔ AllFail send 1 5
unfolding retry_request retry_left
retry_request_iff send = ground arith
