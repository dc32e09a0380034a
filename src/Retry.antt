-- ===== src/Retry.antt =====
-- agent/utils/retry/retry.go: calls of a function that may fail, until it succeeds. The function and
-- the context are not under the package's control: `fn i` is what the call with number i returns,
-- from 0, and `cancelled i` whether the context is done when that call is due. The sleeps between
-- calls are left out. The loops run on fuel, a bound of the rounds.
use amazon_ecs_agent.Common.{
  ℕ, zero, suc, ◌+◌, ◌==◌, Bool, true, false, if◌then◌else◌, String, Option, none, some,
}
pub mod Attempts
mod Examples

-- An error, and what its `Retry` method says where its type has that method.
pub record Error : Type 0 where
  pub text : String
  pub retry : Option Bool

abbrev pub must_stop : Option Bool → Bool
must_stop (some false) = true
must_stop _ = false

-- The test after a call: no error, or one that is not to be retried.
abbrev pub is_final : Option Error → Bool
is_final none = true
is_final (some e) = must_stop e.retry

-- The error that is returned and the number of calls that were made, or `none` without fuel.
unfoldable pub retry_with_backoff_ctx :
    ℕ → (ℕ → Bool) → (ℕ → Option Error) → ℕ → Option (Option Error × ℕ)
retry_with_backoff_ctx zero cancelled fn i = none
retry_with_backoff_ctx (suc fuel) cancelled fn i =
    let rest = retry_with_backoff_ctx fuel cancelled fn (suc i) in
    if cancelled i then some (none, i) else if is_final (fn i) then some (fn i, suc i) else rest

-- The function literal in `RetryNWithBackoffCtx`, which returns no error from the call that brings
-- its counter to 0.
abbrev pub limited : ℕ → (ℕ → Option Error) → ℕ → Option Error
limited n fn i = if suc i == n then none else fn i

-- The variable `err` that the literal sets: the result of the last call.
abbrev pub last_error : (ℕ → Option Error) → ℕ → Option Error
last_error fn zero = none
last_error fn (suc i) = fn i

abbrev pub with_last : (ℕ → Option Error) → Option (Option Error × ℕ) → Option (Option Error × ℕ)
with_last fn none = none
with_last fn (some (err, calls)) = some (last_error fn calls, calls)

unfoldable pub retry_n_with_backoff_ctx :
    ℕ → (ℕ → Bool) → ℕ → (ℕ → Option Error) → Option (Option Error × ℕ)
retry_n_with_backoff_ctx fuel cancelled n fn =
    with_last fn (retry_with_backoff_ctx fuel cancelled (limited n fn) 0)
