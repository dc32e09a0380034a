-- ===== src/Retry/Examples.antt =====
-- A function that fails twice before it succeeds, and one that fails for good.
use amazon_ecs_agent.Common.{ℕ, zero, suc, ◌≡◌, refl, arith, Bool, false, Option, none, some}
use amazon_ecs_agent.Retry.{Error, retry_n_with_backoff_ctx, retry_with_backoff_ctx, last_error}
use amazon_ecs_agent.Retry.Attempts.{Ends, retry_n_with_backoff_ctx_lem}

abbrev busy : Error
busy = record { text = "busy"; retry = none }

abbrev third_succeeds : ℕ → Option Error
third_succeeds zero = some busy
third_succeeds (suc zero) = some busy
third_succeeds (suc (suc i)) = none

abbrev never : ℕ → Bool
never i = false

two_attempts : retry_n_with_backoff_ctx 2 never 2 third_succeeds ≡ some (some busy, 2)
unfolding retry_n_with_backoff_ctx retry_with_backoff_ctx
two_attempts = refl

four_attempts : retry_n_with_backoff_ctx 4 never 4 third_succeeds ≡ some (none, 3)
unfolding retry_n_with_backoff_ctx retry_with_backoff_ctx
four_attempts = refl

abbrev broken : Error
broken = record { text = "broken"; retry = some false }

not_retried : retry_n_with_backoff_ctx 4 never 4 (λ i. some broken) ≡ some (some broken, 1)
unfolding retry_n_with_backoff_ctx retry_with_backoff_ctx
not_retried = refl

retry_n_with_backoff_ctx_lem_example :
    (calls : ℕ) × (retry_n_with_backoff_ctx 4 never 4 third_succeeds
      ≡ some (last_error third_succeeds calls, calls))
    × Ends never 4 third_succeeds calls
retry_n_with_backoff_ctx_lem_example =
    retry_n_with_backoff_ctx_lem never 4 third_succeeds (omega arith)
