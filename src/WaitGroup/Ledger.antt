-- ===== src/WaitGroup/Ledger.antt =====
-- A wait group against the ledger of the calls that were made.
use amazon_ecs_agent.Common.{
  ℕ, ◌-◌, ◌+◌, ◌==◌, ◌≤◌, if◌then◌else◌, List, [], ◌∷◌, lookup, nat_key, All,
}
use amazon_ecs_agent.WaitGroup.{WaitGroup, count_of, add, done}

pub data Call : Type 0 where
  added : ℕ → ℕ → Call
  finished : ℕ → Call

-- The group after the calls, of which the last comes first.
unfoldable pub after : List Call → WaitGroup
after [] = []
after (added sequence delta ∷ earlier) = add sequence delta (after earlier)
after (finished sequence ∷ earlier) = done sequence (after earlier)

-- What is left to finish at a sequence number; finishing more than was added counts for nothing.
unfoldable pub outstanding : ℕ → List Call → ℕ
outstanding k [] = 0
outstanding k (added sequence delta ∷ earlier) =
    if sequence == k then outstanding k earlier + delta else outstanding k earlier
outstanding k (finished sequence ∷ earlier) =
    if sequence == k then outstanding k earlier - 1 else outstanding k earlier

abbrev pub pending : ℕ → WaitGroup → ℕ
pending k s = count_of (lookup k s)

abbrev AllPositive : WaitGroup → Type 0
AllPositive s = All (λ (e : ℕ × ℕ). 1 ≤ e.1) s
