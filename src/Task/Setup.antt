-- ===== src/Task/Setup.antt =====
-- agent/api/task/task.go: the dependencies that a task's containers get from their volumes and
-- links when the task is added. `strings.Split(link, ":")` is an argument.
use amazon_ecs_agent.Common.{
  Bool, true, false, if◌then◌else◌, String, Option, none, some, List, [], ◌∷◌, map,
}
use amazon_ecs_agent.Container.{Container, VolumeFrom, add_container_dependency}
use amazon_ecs_agent.Task.Types.{find_container}

abbrev pub container_ordering_create_condition : String
container_ordering_create_condition = "CREATE"

abbrev pub container_ordering_start_condition : String
container_ordering_start_condition = "START"

pub data OrderingError : Type 0 where
  could_not_find_container : String → OrderingError
  invalid_link_format : OrderingError

abbrev pub is_found : Option Container → Bool
is_found none = false
is_found (some c) = true

-- The inner loop over the names that one container's volumes or links have; a name that cannot be read
-- is `none`. The container is as the loop leaves it.
unfoldable pub depend_on_names :
    List Container → String → List (Option String) → Container → Container × Option OrderingError
unfolding add_container_dependency
depend_on_names all condition [] c = (c, none)
depend_on_names all condition (none ∷ ns) c = (c, some invalid_link_format)
depend_on_names all condition (some n ∷ ns) c =
    let rest = depend_on_names all condition ns (add_container_dependency n condition c) in
    if is_found (find_container n all) then rest else (c, some (could_not_find_container n))

abbrev pub then_others :
    Container
    → Option OrderingError
    → List Container
    → List Container × Option OrderingError
    → List Container × Option OrderingError
then_others c (some err) cs rest = (c ∷ cs, some err)
then_others c none cs (cs', err) = (c ∷ cs', err)

-- The outer loop over the containers.
unfoldable pub depend_on_all :
    List Container
    → String
    → (Container → List (Option String))
    → List Container
    → List Container × Option OrderingError
unfolding depend_on_names
depend_on_all all condition names [] = ([], none)
depend_on_all all condition names (c ∷ cs) =
    let (c', err) = depend_on_names all condition (names c) c in
    then_others c' err cs (depend_on_all all condition names cs)

abbrev pub volume_sources : Container → List (Option String)
volume_sources c = map (λ (v : VolumeFrom). some v.source_container) c.volumes_from

unfoldable pub initialize_container_ordering_for_volumes :
    List Container → List Container × Option OrderingError
unfolding depend_on_all
initialize_container_ordering_for_volumes cs =
    depend_on_all cs container_ordering_create_condition volume_sources cs

-- The first part of a link with at most two of them.
abbrev pub link_name : List String → Option String
link_name [] = none
link_name (name ∷ []) = some name
link_name (name ∷ alias ∷ []) = some name
link_name (name ∷ alias ∷ more ∷ parts) = none

abbrev pub link_names : (String → List String) → Container → List (Option String)
link_names split c = map (λ (l : String). link_name (split l)) c.links

unfoldable pub initialize_container_ordering_for_links :
    (String → List String) → List Container → List Container × Option OrderingError
unfolding depend_on_all
initialize_container_ordering_for_links split cs =
    depend_on_all cs container_ordering_start_condition (link_names split) cs

abbrev pub if_no_error :
    (List Container → List Container × Option OrderingError)
    → List Container
    → Option OrderingError
    → List Container × Option OrderingError
if_no_error go cs none = go cs
if_no_error go cs (some err) = (cs, some err)

-- The two calls in `PostUnmarshalTask`.
unfoldable pub initialize_container_ordering :
    (String → List String) → List Container → List Container × Option OrderingError
unfolding initialize_container_ordering_for_volumes initialize_container_ordering_for_links
initialize_container_ordering split cs =
    let (cs', err) = initialize_container_ordering_for_volumes cs in
    if_no_error (initialize_container_ordering_for_links split) cs' err
