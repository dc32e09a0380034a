-- ===== src/EngineState/Runs.antt =====
-- Every state that the engine's state can come to is consistent.
use amazon_ecs_agent.Common.{
  ◌≡◌, refl, arith, String, str_eq, str_eq_iff, Option, none, some, List, [], ◌∷◌, lookup, remove,
  string_key, lookup-remove, Bool-cases, inl, inr,
}
use amazon_ecs_agent.EngineState.{
  TaskPointer, DockerContainer, EniAttachment, ImagePointer, DockerTaskEngineState,
  new_task_engine_state, add_eni_attachment, remove_eni_attachment, add_image_state,
  remove_image_state, add_task_ip_address, remove_task, remove_ip, task_to_ip, remove_container_map,
  remove_known_task, map_or_empty,
}
use amazon_ecs_agent.EngineState.Changes.{
  Change, task_added, container_added, eni_added, eni_removed, image_added, image_removed, ip_added,
  task_removed, apply, run,
}
use amazon_ecs_agent.EngineState.Consistency.{
  OnSome, IsConsistent, arns-remove, new-IsConsistent, add_task-IsConsistent,
  add_container-IsConsistent, remove_containers-IsConsistent,
}

-- The parts that consistency is about are the same.
abbrev SameMaps : DockerTaskEngineState → DockerTaskEngineState → Type 0
SameMaps t s =
    (t.tasks ≡ s.tasks)
    × (t.task_to_id ≡ s.task_to_id)
    × (t.id_to_task ≡ s.id_to_task)
    × (t.id_to_container ≡ s.id_to_container)
    × (t.v3_endpoint_id_to_task ≡ s.v3_endpoint_id_to_task)
    × (t.v3_endpoint_id_to_docker_id ≡ s.v3_endpoint_id_to_docker_id)

SameMaps-IsConsistent :
    (t s : DockerTaskEngineState) → SameMaps t s → IsConsistent s → IsConsistent t
SameMaps-IsConsistent t s (tasks, maps, ids, containers, v3, docker) h = record {
  ids = rw (ids, containers) h.ids;
  endpoints = rw (v3, docker) h.endpoints;
  arns = rw tasks h.arns;
  known = rw (tasks, maps) h.known;
  names = rw maps h.names;
}

same_eni :
    (e : Option EniAttachment) (s : DockerTaskEngineState) → SameMaps (add_eni_attachment e s) s
unfolding add_eni_attachment
same_eni e s = ground arith

same_eni_removed :
    (mac : String) (s : DockerTaskEngineState) → SameMaps (remove_eni_attachment mac s) s
unfolding remove_eni_attachment
same_eni_removed mac s = ground arith

same_image :
    (i : Option ImagePointer) (s : DockerTaskEngineState) → SameMaps (add_image_state i s) s
unfolding add_image_state
same_image i s = ground arith

same_image_removed :
    (i : Option ImagePointer) (s : DockerTaskEngineState) → SameMaps (remove_image_state i s) s
unfolding remove_image_state
same_image_removed i s = ground arith

same_ip :
    (addr arn : String) (s : DockerTaskEngineState) → SameMaps (add_task_ip_address addr arn s) s
unfolding add_task_ip_address
same_ip addr arn s = ground arith

same_ip_removed : (o : Option String) (s : DockerTaskEngineState) → SameMaps (remove_ip o s) s
same_ip_removed o s = ground arith

-- The state without a task and its containers' map.
abbrev without : String → DockerTaskEngineState → DockerTaskEngineState
without arn s = record s { tasks = remove arn s.tasks; task_to_id = remove arn s.task_to_id }

names-remove :
    (arn other name : String) (m : List (String × List (String × DockerContainer)))
    → OnSome (λ (d : DockerContainer). d.name ≡ name) (lookup name (map_or_empty (lookup other m)))
    → OnSome
        (λ (d : DockerContainer). d.name ≡ name)
        (lookup name (map_or_empty (lookup other (remove arn m))))
unfolding lookup
names-remove arn other name m h =
    rw lookup-remove (elim (Bool-cases (str_eq arn other)) [ inl e ↦ rw e tt | inr e ↦ rw e h ])

without-IsConsistent :
    (arn : String) (s : DockerTaskEngineState) → IsConsistent s → IsConsistent (without arn s)
without-IsConsistent arn s h = record {
  ids = h.ids;
  endpoints = h.endpoints;
  arns = λ a. arns-remove arn s.tasks a (h.arns a);
  known =
      λ a. ground (arith, h.known a, lookup-remove arn a s.tasks, lookup-remove arn a s.task_to_id);
  names = λ a name. names-remove arn a name s.task_to_id (h.names a name);
}

-- A task without a map of containers.
unmapped-IsConsistent :
    (arn : String) (s : DockerTaskEngineState)
    → lookup arn s.task_to_id ≡ none
    → IsConsistent s
    → IsConsistent (record s { tasks = remove arn s.tasks })
unmapped-IsConsistent arn s e h = record {
  ids = h.ids;
  endpoints = h.endpoints;
  arns = λ a. arns-remove arn s.tasks a (h.arns a);
  known = λ a. elim (Bool-cases (str_eq arn a)) [
    | inl same ↦ rw (← (str_eq_iff arn a).0 same) (rw e refl)
    | inr differs ↦ ground (arith, h.known a, lookup-remove arn a s.tasks)
  ];
  names = h.names;
}

remove_map-IsConsistent :
    (arn : String) (o : Option (List (String × DockerContainer))) (s : DockerTaskEngineState)
    → lookup arn s.task_to_id ≡ o
    → IsConsistent s
    → IsConsistent (remove_container_map arn o (record s { tasks = remove arn s.tasks }))
remove_map-IsConsistent arn none s e h = unmapped-IsConsistent arn s e h
remove_map-IsConsistent arn (some cs) s e h =
    remove_containers-IsConsistent cs (without arn s) (without-IsConsistent arn s h)

remove_found-IsConsistent :
    (task : TaskPointer) (o : Option String) (s : DockerTaskEngineState)
    → IsConsistent s
    → let s2 = remove_ip o (record s { tasks = remove task.arn s.tasks }) in
      IsConsistent (remove_container_map task.arn (lookup task.arn s2.task_to_id) s2)
remove_found-IsConsistent task none s h =
    remove_map-IsConsistent task.arn (lookup task.arn s.task_to_id) s refl h
remove_found-IsConsistent task (some ip) s h =
    let t = record s { ip_to_task = remove ip s.ip_to_task } in
    remove_map-IsConsistent task.arn (lookup task.arn s.task_to_id) t refl
      (SameMaps-IsConsistent t s (same_ip_removed (some ip) s) h)

remove_known-IsConsistent :
    (o : Option TaskPointer) (s : DockerTaskEngineState)
    → IsConsistent s
    → IsConsistent (remove_known_task o s)
remove_known-IsConsistent none s h = h
remove_known-IsConsistent (some task) s h =
    remove_found-IsConsistent task (task_to_ip task.arn s.ip_to_task) s h

apply-IsConsistent :
    (c : Change) (s : DockerTaskEngineState) → IsConsistent s → IsConsistent (apply c s)
unfolding apply remove_task
apply-IsConsistent (task_added t) s h = add_task-IsConsistent t s h
apply-IsConsistent (container_added c t) s h = add_container-IsConsistent c t s h
apply-IsConsistent (eni_added e) s h = SameMaps-IsConsistent _ s (same_eni e s) h
apply-IsConsistent (eni_removed mac) s h = SameMaps-IsConsistent _ s (same_eni_removed mac s) h
apply-IsConsistent (image_added i) s h = SameMaps-IsConsistent _ s (same_image i s) h
apply-IsConsistent (image_removed i) s h = SameMaps-IsConsistent _ s (same_image_removed i s) h
apply-IsConsistent (ip_added addr arn) s h = SameMaps-IsConsistent _ s (same_ip addr arn s) h
apply-IsConsistent (task_removed t) s h = remove_known-IsConsistent (lookup t.arn s.tasks) s h

run-step : (cs : List Change) (s : DockerTaskEngineState) → IsConsistent s → IsConsistent (run cs s)
unfolding run
run-step [] s h = h
run-step (c ∷ cs) s h = run-step cs (apply c s) (apply-IsConsistent c s h)

-- After any changes of a new state, a Docker id has a task exactly if it has a container, an endpoint
-- id has a task exactly if it has a Docker id, every task is stored under its ARN, only known tasks
-- have containers, and these are stored under their names.
pub run-IsConsistent : (cs : List Change) → IsConsistent (run cs new_task_engine_state)
run-IsConsistent cs = run-step cs new_task_engine_state new-IsConsistent
