-- ===== src/WaitGroup/Examples.antt =====
-- Two stops, of which the first has finished.
use amazon_ecs_agent.Common.{◌≡◌, refl, true, false, List, [], ◌∷◌, lookup, insert, remove}
use amazon_ecs_agent.WaitGroup.{add, done, set_counter, wait_over}
use amazon_ecs_agent.WaitGroup.Ledger.{Call, added, finished, after}

abbrev stops : List Call
stops = finished 3 ∷ added 8 1 ∷ added 3 1 ∷ []

first_is_over : wait_over 3 (after stops) ≡ true
unfolding wait_over after add done set_counter lookup insert remove
first_is_over = refl

second_is_not : wait_over 8 (after stops) ≡ false
unfolding wait_over after add done set_counter lookup insert remove
second_is_not = refl
