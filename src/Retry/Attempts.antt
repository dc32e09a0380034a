-- ===== src/Retry/Attempts.antt =====
-- How many attempts are made, and why the last one was the last.
use amazon_ecs_agent.Common.{
  ℕ, zero, suc, ◌+◌, ◌==◌, ◌≤◌, ◌<◌, ◌≡◌, ◌≢◌, ap, subst, refl, ◌⊎◌, inl, inr, arith, Bool, true,
  false, if◌then◌else◌, Option, none, some, Bool-cases,
}
use amazon_ecs_agent.Retry.{
  Error, must_stop, is_final, retry_with_backoff_ctx, limited, last_error, with_last,
  retry_n_with_backoff_ctx,
}

-- A call that ends the loop: it succeeded, or its error says that it is not to be retried. An error
-- without a `Retry` method is retried.
abbrev pub IsDone : Option Error → Type 0
IsDone none = Unit
IsDone (some e) = e.retry ≡ some false

abbrev pub IsRetried : Option Error → Type 0
IsRetried none = ⊥
IsRetried (some e) = e.retry ≢ some false

must_stop_lem : (retry : Option Bool) → must_stop retry ≡ true → retry ≡ some false
must_stop_lem none h = absurd (ground arith)
must_stop_lem (some true) h = absurd (ground arith)
must_stop_lem (some false) h = refl

is_final-IsDone : (result : Option Error) → is_final result ≡ true → IsDone result
is_final-IsDone none h = tt
is_final-IsDone (some e) h = must_stop_lem e.retry h

is_final-IsRetried : (result : Option Error) → is_final result ≡ false → IsRetried result
is_final-IsRetried none h = absurd (ground arith)
is_final-IsRetried (some e) h = λ stops.
    let wrong : true ≡ false = subst (λ (r : Option Bool). must_stop r ≡ false) stops h in
    absurd (ground arith)

module _ (cancelled : ℕ → Bool) (n : ℕ) (fn : ℕ → Option Error) where
  -- The given number of calls were made with the context not done, and each of them is retried.
  abbrev pub AllRetried : ℕ → Type 0
  AllRetried zero = Unit
  AllRetried (suc i) = (cancelled i ≡ false) × IsRetried (fn i) × AllRetried i

  -- So many calls are made and none too many: the context was not done before any of them, and each but
  -- the last is retried.
  abbrev pub AllNeeded : ℕ → Type 0
  AllNeeded zero = Unit
  AllNeeded (suc i) = (cancelled i ≡ false) × AllRetried i

  abbrev pub LastIsDone : ℕ → Type 0
  LastIsDone zero = ⊥
  LastIsDone (suc i) = IsDone (fn i)

  -- The calls end after the given number of them, of n at most, and not before: the context is done,
  -- all n calls were made, or the last call ends the loop.
  abbrev pub Ends : ℕ → Type 0
  Ends calls =
      (calls ≤ n) × AllNeeded calls × ((cancelled calls ≡ true) ⊎ (calls ≡ n) ⊎ LastIsDone calls)

  AllRetried-AllNeeded : (calls : ℕ) → AllRetried calls → AllNeeded calls
  AllRetried-AllNeeded zero h = tt
  AllRetried-AllNeeded (suc i) (goes, retried, before) = (goes, before)

  limited_lem : (i : ℕ) → is_final (limited n fn i) ≡ true → (suc i ≡ n) ⊎ IsDone (fn i)
  limited_lem i h = elim (Bool-cases (suc i == n)) [
    | inl last ↦ inl (ground arith)
    | inr more ↦ inr (
        is_final-IsDone (fn i)
          (subst (λ (b : Bool). is_final (if b then none else fn i) ≡ true) more h))
  ]

  not_last : (i : ℕ) → is_final (limited n fn i) ≡ false → suc i ≢ n
  not_last i h e =
      let last : (suc i == n) ≡ true = ground arith in
      let wrong : true ≡ false =
        subst (λ (b : Bool). is_final (if b then none else fn i) ≡ false) last h in
      absurd (ground arith)

  limited_again : (i : ℕ) → is_final (limited n fn i) ≡ false → IsRetried (fn i)
  limited_again i h = elim (Bool-cases (suc i == n)) [
    | inl last ↦ absurd (not_last i h (ground arith))
    | inr more ↦
        is_final-IsRetried (fn i)
          (subst (λ (b : Bool). is_final (if b then none else fn i) ≡ false) more h)
  ]

  retry-Ends :
      (fuel i : ℕ)
      → AllRetried i
      → i < n
      → i + fuel ≡ n
      → (err : Option Error) × (calls : ℕ) × (retry_with_backoff_ctx fuel cancelled (limited n fn) i
          ≡ some (err, calls))
        × Ends calls
  unfolding retry_with_backoff_ctx
  retry-Ends zero i before less h = absurd (omega arith)
  retry-Ends (suc fuel) i before less h = elim (Bool-cases (cancelled i)) [
    | inl done ↦ (none, i, rw done refl, (omega arith, AllRetried-AllNeeded i before, inl done))
    | inr goes ↦ elim (Bool-cases (is_final (limited n fn i))) [
      | inl final ↦ (
        limited n fn i,
        suc i,
        rw (goes, final) refl,
        (omega arith, (goes, before), inr (limited_lem i final)),
      )
      | inr again ↦
          let (err, calls, e, ends) =
            retry-Ends fuel (suc i) (goes, limited_again i again, before)
              (omega (arith, not_last i again)) (omega arith) in
          (err, calls, rw (goes, again) e, ends)
    ]
  ]

  -- For a limit of at least 1, as many rounds as the limit are enough. The function is called at most
  -- that many times; before each call the context is not done, and each call but the last fails with an
  -- error that may be retried; after the last call the context is done, the limit is reached, or that
  -- call succeeded or failed with an error that is not to be retried. The result is that of the last
  -- call, or no error where there was none.
  pub retry_n_with_backoff_ctx_lem :
      1 ≤ n
      → (calls : ℕ) × (retry_n_with_backoff_ctx n cancelled n fn
          ≡ some (last_error fn calls, calls))
        × Ends calls
  unfolding retry_n_with_backoff_ctx
  retry_n_with_backoff_ctx_lem one =
      let (err, calls, e, ends) = retry-Ends n 0 tt (omega arith) (omega arith) in
      (calls, ap (with_last fn) e, ends)
