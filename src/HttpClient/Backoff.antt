-- ===== src/HttpClient/Backoff.antt =====
-- How long the pause between two attempts is.
use noted_runner.Prelude.{ℕ, ◌*◌, ◌-◌, ◌^◌, ◌≤◌, ◌<◌, ◌≡◌, some, ltb, if◌then◌else◌}
use noted_runner.Configs.{HttpRetryPolicyConfig}
use noted_runner.HttpClient.{backoff_delay}

-- The delay `d` is within a fifth of `planned`.
pub record IsNear (planned d : ℕ) : Type 0 where
  pub least : 4 * planned ≤ 5 * d
  pub most : 5 * d ≤ 6 * planned

-- the base doubled after each attempt, up to the maximum
abbrev pub capped : HttpRetryPolicyConfig → ℕ → ℕ
capped c attempt =
    if ltb c.max_delay (c.base_delay * 2 ^ (attempt - 1))
    then c.max_delay
    else c.base_delay * 2 ^ (attempt - 1)

-- The delay before attempt `attempt + 1`, the jitter included.
pub record BackoffSpec (c : HttpRetryPolicyConfig) (jitter : ℕ → ℕ → ℕ) (attempt : ℕ) : Type 0 where
  -- No delay is more than a fifth above the maximum.
  pub bounded : {d : ℕ} → backoff_delay c jitter attempt ≡ some d → 5 * d ≤ 6 * c.max_delay
  -- While the doubled base fits into an int64, there is a delay, within a fifth of the doubled base or
  -- of the maximum.
  pub doubled :
      c.base_delay * 2 ^ (attempt - 1) < 2 ^ 63
      → (d : ℕ) × (backoff_delay c jitter attempt ≡ some d) × IsNear (capped c attempt) d
