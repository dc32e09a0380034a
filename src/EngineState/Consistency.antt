-- ===== src/EngineState/Consistency.antt =====
-- How the maps of the engine's state belong together.
use amazon_ecs_agent.Common.{
  ◌≡◌, ap, refl, ◌∙◌, arith, ◌||◌, not, true, String, str_eq, str_eq_iff, str_eq_refl, Option, none,
  some, List, [], ◌∷◌, lookup, insert, remove, string_key, lookup-insert, lookup-remove, Bool-cases,
  inl, inr,
}
use amazon_ecs_agent.EngineState.{
  TaskPointer, DockerContainer, DockerTaskEngineState, new_task_engine_state, has, add_task,
  add_container, add_unknown_task, store_id_to_container_task, store_v3_endpoint_id, add_to_task,
  map_or_empty, remove_id_to_container_task, remove_v3_endpoint_id, remove_containers,
  container_key,
}

-- What holds of the value that a read finds, if any.
abbrev pub OnSome : {A : Type 0} → (A → Type 0) → Option A → Type 0
OnSome P none = Unit
OnSome P (some a) = P a

-- A Docker id has a task exactly if it has a container, an endpoint id has a task exactly if it has
-- a Docker id, every task is stored under its ARN, only known tasks have containers, and these are
-- stored under their names.
pub record IsConsistent (s : DockerTaskEngineState) : Type 0 where
  pub ids : (id : String) → has (lookup id s.id_to_task) ≡ has (lookup id s.id_to_container)
  pub endpoints :
      (id : String)
      → has (lookup id s.v3_endpoint_id_to_task) ≡ has (lookup id s.v3_endpoint_id_to_docker_id)
  pub arns : (arn : String) → OnSome (λ (t : TaskPointer). t.arn ≡ arn) (lookup arn s.tasks)
  pub known :
      (arn : String) → (not (has (lookup arn s.task_to_id)) || has (lookup arn s.tasks)) ≡ true
  pub names :
      (arn name : String)
      → OnSome
          (λ (c : DockerContainer). c.name ≡ name)
          (lookup name (map_or_empty (lookup arn s.task_to_id)))

pub new-IsConsistent : IsConsistent new_task_engine_state
unfolding new_task_engine_state lookup
new-IsConsistent = record {
  ids = λ id. refl;
  endpoints = λ id. refl;
  arns = λ arn. tt;
  known = λ arn. refl;
  names = λ arn name. tt;
}

-- A task that is stored under its ARN.
arns-insert :
    (task : TaskPointer) (m : List (String × TaskPointer)) (arn : String)
    → OnSome (λ (t : TaskPointer). t.arn ≡ arn) (lookup arn m)
    → OnSome (λ (t : TaskPointer). t.arn ≡ arn) (lookup arn (insert task.arn task m))
arns-insert task m arn h = rw lookup-insert (elim (Bool-cases (str_eq task.arn arn)) [
  | inl e ↦ rw e ((str_eq_iff task.arn arn).0 e)
  | inr e ↦ rw e h
])

pub arns-remove :
    (removed : String) (m : List (String × TaskPointer)) (arn : String)
    → OnSome (λ (t : TaskPointer). t.arn ≡ arn) (lookup arn m)
    → OnSome (λ (t : TaskPointer). t.arn ≡ arn) (lookup arn (remove removed m))
arns-remove removed m arn h =
    rw lookup-remove (elim (Bool-cases (str_eq removed arn)) [ inl e ↦ rw e tt | inr e ↦ rw e h ])

pub add_task-IsConsistent :
    (task : TaskPointer) (s : DockerTaskEngineState)
    → IsConsistent s
    → IsConsistent (add_task task s)
unfolding add_task
add_task-IsConsistent task s h = record {
  ids = h.ids;
  endpoints = h.endpoints;
  arns = λ arn. arns-insert task s.tasks arn (h.arns arn);
  known = λ arn. ground (arith, h.known arn, lookup-insert task.arn arn task s.tasks);
  names = h.names;
}

add_unknown_task-IsConsistent :
    (task : TaskPointer) (s : DockerTaskEngineState)
    → IsConsistent s
    → IsConsistent (add_unknown_task task s)
unfolding add_task
add_unknown_task-IsConsistent task s h = elim (Bool-cases (has (lookup task.arn s.tasks))) [
  | inl e ↦ rw e h
  | inr e ↦ rw e (add_task-IsConsistent task s h)
]

same_store_id :
    (c : DockerContainer) (task : TaskPointer) (s : DockerTaskEngineState)
    → let t = store_id_to_container_task c task s in
      (t.tasks ≡ s.tasks) × (t.task_to_id ≡ s.task_to_id)
unfolding store_id_to_container_task
same_store_id c task s = ground arith

store_id-IsConsistent :
    (c : DockerContainer) (task : TaskPointer) (s : DockerTaskEngineState)
    → IsConsistent s
    → IsConsistent (store_id_to_container_task c task s)
unfolding store_id_to_container_task
store_id-IsConsistent c task s h =
    let (same_tasks, same_maps) = same_store_id c task s in
    record {
      ids = λ id. ground (
        arith,
        h.ids id,
        lookup-insert c.docker_id id c s.id_to_container,
        lookup-insert c.docker_id id task.arn s.id_to_task,
        lookup-remove c.docker_name id (insert c.docker_id c s.id_to_container),
        lookup-remove c.docker_name id (insert c.docker_id task.arn s.id_to_task),
        lookup-insert c.docker_name id c s.id_to_container,
        lookup-insert c.docker_name id task.arn s.id_to_task,
      );
      endpoints = λ id. ground (arith, h.endpoints id);
      arns = rw same_tasks h.arns;
      known = rw (same_tasks, same_maps) h.known;
      names = rw same_maps h.names;
    }

same_store_v3 :
    (c : DockerContainer) (task : TaskPointer) (s : DockerTaskEngineState)
    → let t = store_v3_endpoint_id c task s in
      (t.tasks ≡ s.tasks)
      × (t.task_to_id ≡ s.task_to_id)
      × (t.id_to_task ≡ s.id_to_task)
      × (t.id_to_container ≡ s.id_to_container)
unfolding store_v3_endpoint_id
same_store_v3 c task s = ground arith

store_v3-IsConsistent :
    (c : DockerContainer) (task : TaskPointer) (s : DockerTaskEngineState)
    → IsConsistent s
    → IsConsistent (store_v3_endpoint_id c task s)
unfolding store_v3_endpoint_id
store_v3-IsConsistent c task s h =
    let (same_tasks, same_maps, same_ids, same_containers) = same_store_v3 c task s in
    record {
      ids = rw (same_ids, same_containers) h.ids;
      endpoints = λ id. ground (
        arith,
        h.endpoints id,
        lookup-insert c.v3_endpoint_id id task.arn s.v3_endpoint_id_to_task,
        lookup-insert c.v3_endpoint_id id c.docker_id s.v3_endpoint_id_to_docker_id,
      );
      arns = rw same_tasks h.arns;
      known = rw (same_tasks, same_maps) h.known;
      names = rw same_maps h.names;
    }

names-insert :
    (c : DockerContainer) (arn other : String) (m : List (String × List (String × DockerContainer)))
    (name : String)
    → OnSome (λ (d : DockerContainer). d.name ≡ name) (lookup name (map_or_empty (lookup arn m)))
    → OnSome (λ (d : DockerContainer). d.name ≡ name) (lookup name (map_or_empty (lookup other m)))
    → OnSome
        (λ (d : DockerContainer). d.name ≡ name)
        (lookup name (
          map_or_empty
            (lookup other (insert arn (insert c.name c (map_or_empty (lookup arn m))) m))))
names-insert c arn other m name h k = rw lookup-insert (elim (Bool-cases (str_eq arn other)) [
  | inl e ↦ rw e (
      rw lookup-insert (elim (Bool-cases (str_eq c.name name)) [
        | inl same ↦ rw same ((str_eq_iff c.name name).0 same)
        | inr differs ↦ rw differs h
      ]))
  | inr e ↦ rw e k
])

add_to_task-IsConsistent :
    (c : DockerContainer) (task : TaskPointer) (s : DockerTaskEngineState)
    → has (lookup task.arn s.tasks) ≡ true
    → IsConsistent s
    → IsConsistent (add_to_task c task s)
add_to_task-IsConsistent c task s there h =
    let containers = insert c.name c (map_or_empty (lookup task.arn s.task_to_id)) in
    record {
      ids = h.ids;
      endpoints = h.endpoints;
      arns = h.arns;
      known = λ arn. ground (
        arith,
        h.known arn,
        lookup-insert task.arn arn containers s.task_to_id,
        str_eq_iff task.arn arn,
      );
      names = λ arn name.
          names-insert c task.arn arn s.task_to_id name (h.names task.arn name) (h.names arn name);
    }

add_unknown_task_known :
    (task : TaskPointer) (s : DockerTaskEngineState)
    → has (lookup task.arn (add_unknown_task task s).tasks) ≡ true
add_unknown_task_known task s =
    ground (arith, lookup-insert task.arn task.arn task s.tasks, str_eq_refl task.arn)

pub add_container-IsConsistent :
    (c : Option DockerContainer) (task : Option TaskPointer) (s : DockerTaskEngineState)
    → IsConsistent s
    → IsConsistent (add_container c task s)
unfolding add_container
add_container-IsConsistent none task s h = h
add_container-IsConsistent (some c) none s h = h
add_container-IsConsistent (some c) (some task) s h =
    let s1 = add_unknown_task task s in
    let s2 = store_id_to_container_task c task s1 in
    let (same_tasks, _) = same_store_id c task s1 in
    let (same_tasks', _, _, _) = same_store_v3 c task s2 in
    add_to_task-IsConsistent c task (store_v3_endpoint_id c task s2)
      (ap (λ (m : List (String × TaskPointer)). has (lookup task.arn m)) (same_tasks' ∙ same_tasks)
        ∙ add_unknown_task_known task s)
      (store_v3-IsConsistent c task s2
        (store_id-IsConsistent c task s1 (add_unknown_task-IsConsistent task s h)))

remove_id-IsConsistent :
    (c : DockerContainer) (s : DockerTaskEngineState)
    → IsConsistent s
    → IsConsistent (remove_id_to_container_task c s)
unfolding remove_id_to_container_task
remove_id-IsConsistent c s h = record {
  ids = λ id. ground (
    arith,
    h.ids id,
    lookup-remove (container_key c) id s.id_to_container,
    lookup-remove (container_key c) id s.id_to_task,
  );
  endpoints = h.endpoints;
  arns = h.arns;
  known = h.known;
  names = h.names;
}

remove_v3-IsConsistent :
    (v3 : String) (s : DockerTaskEngineState)
    → IsConsistent s
    → IsConsistent (remove_v3_endpoint_id v3 s)
unfolding remove_v3_endpoint_id
remove_v3-IsConsistent v3 s h = elim (Bool-cases (str_eq v3 "")) [
  | inl e ↦ rw e h
  | inr e ↦ rw e (record {
    ids = h.ids;
    endpoints = λ id. ground (
      arith,
      h.endpoints id,
      lookup-remove v3 id s.v3_endpoint_id_to_task,
      lookup-remove v3 id s.v3_endpoint_id_to_docker_id,
    );
    arns = h.arns;
    known = h.known;
    names = h.names;
  })
]

pub remove_containers-IsConsistent :
    (cs : List (String × DockerContainer)) (s : DockerTaskEngineState)
    → IsConsistent s
    → IsConsistent (remove_containers cs s)
unfolding remove_containers
remove_containers-IsConsistent [] s h = h
remove_containers-IsConsistent ((name, c) ∷ cs) s h =
    remove_containers-IsConsistent cs _
      (remove_v3-IsConsistent c.v3_endpoint_id _ (remove_id-IsConsistent c s h))
