-- ===== src/WaitGroup.antt =====
-- agent/utils/sync/sequential_waitgroup.go: groups of goroutines by sequence number. The two locks
-- make `Add`, `Done` and each look of a waiter one step. Sequence numbers are those of the backend,
-- which are not negative, and `Add` is called with deltas that are not negative.
use amazon_ecs_agent.Common.{
  ℕ, ◌-◌, ◌+◌, ◌==◌, ltb, Bool, all, if◌then◌else◌, Option, none, some, List, [], ◌∷◌, lookup,
  insert, remove, nat_key,
}
pub mod Ledger
mod Examples

-- `semaphores`
abbrev pub WaitGroup : Type 0
WaitGroup = List (ℕ × ℕ)

-- The value that Go reads from the map, 0 where there is none.
abbrev pub count_of : Option ℕ → ℕ
count_of none = 0
count_of (some n) = n

-- The counter is stored, and the entry is deleted where the counter has come to 0.
unfoldable pub set_counter : ℕ → ℕ → WaitGroup → WaitGroup
set_counter sequence count s =
    let stored = insert sequence count s in if count == 0 then remove sequence stored else stored

unfoldable pub add : ℕ → ℕ → WaitGroup → WaitGroup
unfolding set_counter
add sequence delta s = set_counter sequence (count_of (lookup sequence s) + delta) s

abbrev pub decrement : ℕ → Option ℕ → WaitGroup → WaitGroup
decrement sequence none s = s
decrement sequence (some n) s = set_counter sequence (n - 1) s

-- Counters that are stored are positive, so that the subtraction is exact.
unfoldable pub done : ℕ → WaitGroup → WaitGroup
done sequence s = decrement sequence (lookup sequence s) s

-- `waitOver`
unfoldable pub wait_over : ℕ → WaitGroup → Bool
unfolding all
wait_over sequence s = all (λ e. ltb sequence e.0) s
