-- ===== src/Status/Json.antt =====
-- Statuses survive the state file, and the decoders' three outcomes.
use amazon_ecs_agent.Common.{
  lookup, ℕ, zero, suc, ◌≤◌, ◌≢◌, ◌↔◌, ◌⊎◌, inl, ◌≡◌, refl, arith, List, ◌∷◌, [], if◌then◌else◌,
  ◌==◌, Literal, out_of_range, unquoted, quoted, close_literal, string_literal, quote, bytes_key,
}
use amazon_ecs_agent.Status.ContainerStatus
use amazon_ecs_agent.Status.ContainerStatus.{
  decoded, failed, panicked, container_stopped, container_status_map, container_unhealthy,
  unmarshal_name, unmarshal_health, unmarshal_health_json, marshal_health_json,
}
use amazon_ecs_agent.Status.TaskStatus
use amazon_ecs_agent.Status.TaskStatus.{
  task_stopped, task_pulled, task_status_none, task_status_map,
}

-- A container status up to STOPPED is read back from the JSON that is written for it.
pub unmarshal_json-marshal_json :
    (cs : ℕ)
    → cs ≤ container_stopped
    → ContainerStatus.unmarshal_json (ContainerStatus.marshal_json cs) ≡ decoded cs
unfolding ContainerStatus.unmarshal_json ContainerStatus.marshal_json unmarshal_name string_literal
    lookup
unmarshal_json-marshal_json zero h = refl
unmarshal_json-marshal_json (suc zero) h = refl
unmarshal_json-marshal_json (suc (suc zero)) h = refl
unmarshal_json-marshal_json (suc (suc (suc zero))) h = refl
unmarshal_json-marshal_json (suc (suc (suc (suc zero)))) h = refl
unmarshal_json-marshal_json (suc (suc (suc (suc (suc zero))))) h = refl
unmarshal_json-marshal_json (suc (suc (suc (suc (suc (suc cs)))))) h = absurd (omega arith)

-- A task status up to STOPPED is read back from the JSON that is written for it, but for PULLED,
-- which has no name and is read back as NONE.
pub task_unmarshal_json-marshal_json :
    (ts : ℕ)
    → ts ≤ task_stopped
    → TaskStatus.unmarshal_json (TaskStatus.marshal_json ts)
      ≡ decoded (if ts == task_pulled then task_status_none else ts)
unfolding TaskStatus.unmarshal_json TaskStatus.marshal_json unmarshal_name string_literal lookup
task_unmarshal_json-marshal_json zero h = refl
task_unmarshal_json-marshal_json (suc zero) h = refl
task_unmarshal_json-marshal_json (suc (suc zero)) h = refl
task_unmarshal_json-marshal_json (suc (suc (suc zero))) h = refl
task_unmarshal_json-marshal_json (suc (suc (suc (suc zero)))) h = refl
task_unmarshal_json-marshal_json (suc (suc (suc (suc (suc ts))))) h = absurd (omega arith)

-- A health status is read back from the JSON that is written for it.
pub unmarshal_health_json-marshal_health_json :
    (h : ℕ) → h ≤ container_unhealthy → unmarshal_health_json (marshal_health_json h) ≡ decoded h
unfolding unmarshal_health_json marshal_health_json unmarshal_health string_literal
unmarshal_health_json-marshal_health_json zero h = refl
unmarshal_health_json-marshal_health_json (suc zero) h = refl
unmarshal_health_json-marshal_health_json (suc (suc zero)) h = refl
unmarshal_health_json-marshal_health_json (suc (suc (suc s))) h = absurd (omega arith)

close_literal_in_range : (s : List ℕ) → close_literal s ≢ out_of_range
close_literal_in_range [] = ground arith
close_literal_in_range (c ∷ []) = ground arith
close_literal_in_range (c ∷ d ∷ s) = ground (arith, close_literal_in_range (d ∷ s))

string_literal_in_range : (c d : ℕ) (s : List ℕ) → string_literal (c ∷ d ∷ s) ≢ out_of_range
unfolding string_literal
string_literal_in_range c d s = ground (arith, close_literal_in_range (d ∷ s))

string_literal_lone :
    (c : ℕ) → string_literal (c ∷ []) ≡ (if c == quote then out_of_range else unquoted)
unfolding string_literal
string_literal_lone c = refl

unmarshal_name_failed :
    (names : List (List ℕ × ℕ)) (stopped : ℕ)
    → (unmarshal_name names stopped out_of_range ≡ panicked)
      × (unmarshal_name names stopped unquoted ≡ failed 0)
unfolding unmarshal_name
unmarshal_name_failed names stopped = (refl, refl)

unmarshal_name_in_range :
    (names : List (List ℕ × ℕ)) (stopped : ℕ) (l : Literal)
    → l ≢ out_of_range
    → unmarshal_name names stopped l ≢ panicked
unfolding unmarshal_name
unmarshal_name_in_range names stopped out_of_range h = absurd (h refl)
unmarshal_name_in_range names stopped unquoted h = ground arith
unmarshal_name_in_range names stopped (quoted s) h = ground arith

-- The decoder of container statuses panics on the empty slice and on a lone quote, and on no other
-- input.
pub unmarshal_json_panics :
    (b : List ℕ) → (ContainerStatus.unmarshal_json b ≡ panicked) ↔ ((b ≡ []) ⊎ (b ≡ quote ∷ []))
unfolding ContainerStatus.unmarshal_json
unmarshal_json_panics [] = (λ _. inl refl, λ _. unfold string_literal unmarshal_name in refl)
unmarshal_json_panics (c ∷ []) =
    ground
      (arith, string_literal_lone c, unmarshal_name_failed container_status_map container_stopped)
unmarshal_json_panics (c ∷ d ∷ s) = ground (
  arith,
  string_literal_in_range c d s,
  unmarshal_name_in_range container_status_map container_stopped (string_literal (c ∷ d ∷ s)),
)
