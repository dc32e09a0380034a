-- ===== src/Status/Examples.antt =====
-- Status conversions at concrete values.
use amazon_ecs_agent.Common.{
  string_literal, lookup, ◌≡◌, ◌≤◌, ◌⊎◌, ◌↔◌, refl, arith, codes, quote, [], ◌∷◌, ◌==◌,
  if◌then◌else◌,
}
use amazon_ecs_agent.Status.Mapping.{
  map_container_to_task_status, map_task_to_container_status, map_container_to_task_status_mono,
  map_container_to_task_status-map_task_to_container_status,
}
use amazon_ecs_agent.Status.TaskStatus
use amazon_ecs_agent.Status.Json.{
  unmarshal_json-marshal_json, task_unmarshal_json-marshal_json, unmarshal_json_panics,
}
use amazon_ecs_agent.Status.ContainerStatus
use amazon_ecs_agent.Status.ContainerStatus.{
  unmarshal_name, decoded, failed, panicked, marshal_health_json, unmarshal_health_json,
}

unmarshal_unknown : ContainerStatus.unmarshal_json (codes "\"UNKNOWN\"") ≡ decoded 0
unfolding ContainerStatus.unmarshal_json unmarshal_name string_literal lookup
unmarshal_unknown = refl

unmarshal_null : ContainerStatus.unmarshal_json (codes "NuLl") ≡ decoded 0
unfolding ContainerStatus.unmarshal_json unmarshal_name string_literal lookup
unmarshal_null = refl

-- `b[1 : len(b)-1]` of a lone quote is `b[1:0]`.
unmarshal_lone_quote : ContainerStatus.unmarshal_json (codes "\"") ≡ panicked
unfolding ContainerStatus.unmarshal_json unmarshal_name string_literal lookup
unmarshal_lone_quote = refl

unmarshal_wrong : ContainerStatus.unmarshal_json (codes "\"GONE\"") ≡ failed 0
unfolding ContainerStatus.unmarshal_json unmarshal_name string_literal lookup
unmarshal_wrong = refl

map_container_to_task_status-map_task_to_container_status_example :
    map_container_to_task_status (map_task_to_container_status 3 4) 4 ≡ 3
map_container_to_task_status-map_task_to_container_status_example =
    map_container_to_task_status-map_task_to_container_status 3 4 (omega arith) (omega arith)
      (omega arith)

map_container_to_task_status_mono_example :
    map_container_to_task_status 2 3 ≤ map_container_to_task_status 3 3
map_container_to_task_status_mono_example =
    map_container_to_task_status_mono 2 3 3 (omega arith) (omega arith) (omega arith) (omega arith)
      (omega arith)

unmarshal_json-marshal_json_example :
    ContainerStatus.unmarshal_json (ContainerStatus.marshal_json 4) ≡ decoded 4
unmarshal_json-marshal_json_example = unmarshal_json-marshal_json 4 (omega arith)

task_unmarshal_json-marshal_json_example :
    TaskStatus.unmarshal_json (TaskStatus.marshal_json 4) ≡ decoded (if 4 == 1 then 0 else 4)
task_unmarshal_json-marshal_json_example = task_unmarshal_json-marshal_json 4 (omega arith)

unmarshal_json_panics_example :
    (ContainerStatus.unmarshal_json (codes "\"") ≡ panicked)
    ↔ ((codes "\"" ≡ []) ⊎ (codes "\"" ≡ quote ∷ []))
unmarshal_json_panics_example = unmarshal_json_panics (codes "\"")
