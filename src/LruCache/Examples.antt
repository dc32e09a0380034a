-- ===== src/LruCache/Examples.antt =====
-- A cache of two entries that live for ten units of time.
use amazon_ecs_agent.Common.{
  ℕ, ◌+◌, ◌≤◌, ◌≡◌, refl, arith, leb, if◌then◌else◌, none, some, List, [], ◌∷◌, lookup, insert,
  remove, any,
}
use amazon_ecs_agent.LruCache
use amazon_ecs_agent.LruCache.{
  LruCache, new_lru_cache, purge_size, remove_from_evict_list, evict_stale, update_accessed,
}
use amazon_ecs_agent.LruCache.Invariant.{
  Call, get_call, set_call, run, IsWellFormed, run-IsWellFormed,
}
use amazon_ecs_agent.LruCache.Reads.{get-set}

abbrev empty : LruCache ℕ
empty = new_lru_cache 2 10

abbrev calls : List (Call ℕ)
calls = set_call 1 "a" 7 ∷ set_call 2 "b" 8 ∷ get_call 3 "a" ∷ set_call 4 "c" 9 ∷ []

-- `b` was used least recently.
left_over : (run calls empty).evict_list ≡ "a" ∷ "c" ∷ []
unfolding run new_lru_cache LruCache.set LruCache.get purge_size remove_from_evict_list evict_stale
    update_accessed lookup insert remove any
left_over = refl

run-IsWellFormed_example : IsWellFormed (run calls empty)
run-IsWellFormed_example = run-IsWellFormed 2 10 calls

size_left : 1 ≤ (run calls empty).size
unfolding run new_lru_cache LruCache.set LruCache.get purge_size remove_from_evict_list evict_stale
    update_accessed lookup insert remove any
size_left = omega arith

get-set_example :
    (LruCache.get 12 "d" (LruCache.set 5 "d" 6 (run calls empty))).1
    ≡ (if leb (5 + (run calls empty).ttl) 12 then none else some 6)
get-set_example = get-set 5 12 "d" 6 (run calls empty) run-IsWellFormed_example size_left
