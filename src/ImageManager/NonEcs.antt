-- ===== src/ImageManager/NonEcs.antt =====
-- agent/engine/docker_image_manager.go: the containers and images that the agent did not start, and a
-- whole cycle of the clean-up. What Docker answers, and Go's `sort.Slice`, are arguments.
use amazon_ecs_agent.Common.{
  ℕ, suc, ◌+◌, ◌==◌, ltb, leb, Bool, false, any, not, ◌&&◌, ◌||◌, if◌then◌else◌, String, str_eq,
  Option, none, some, List, [], ◌∷◌, ◌++◌, map, length,
}
use amazon_ecs_agent.ImageManager.State.{ImageState}
use amazon_ecs_agent.ImageManager.Cleanup.{
  Removal, Cycle, CleanupConfig, is_in, remove_unused_images,
}

-- What `InspectContainer` says: the state's status, and when it finished, where that time can be read.
pub record ContainerInspection : Type 0 where
  pub status : String
  pub finished_at : Option ℕ

-- `ImageWithSizeID`
pub record ImageWithSizeId : Type 0 where
  pub repo_tags : List String
  pub image_id : String
  pub size : ℕ
  pub created_time : ℕ

-- Docker's answers in one cycle. A creation time that cannot be read is the zero time.
pub record Docker : Type 0 where
  pub listed_containers : Option (List String)
  pub inspect_container : String → Option ContainerInspection
  pub container_removed : String → Bool
  pub listed_images : List String
  pub inspect_image : String → Option ImageWithSizeId
  pub image_removed : String → Bool

pub record NonEcsConfig : Type 0 where
  pub delete_non_ecs_images_enabled : Bool
  pub non_ecs_container_cleanup_wait_duration : ℕ
  pub num_non_ecs_containers_to_delete : ℕ
  pub non_ecs_minimum_age_before_deletion : ℕ

-- Each element that is not excluded, once. The code's order is that of a Go map.
unfoldable pub exclude : List String → List String → List String
unfolding any
exclude [] excluded = []
exclude (a ∷ as') excluded =
    let rest = exclude as' excluded in if is_in a excluded || is_in a as' then rest else a ∷ rest

-- On an error there are no ids.
unfoldable pub get_non_ecs_container_ids : Docker → List String → List String
unfolding exclude
get_non_ecs_container_ids docker ecs_ids = elim docker.listed_containers [
  | none ↦ []
  | some ids ↦ exclude ids ecs_ids
]

abbrev pub finished_before : NonEcsConfig → ℕ → Option ℕ → Bool
finished_before cfg now none = false
finished_before cfg now (some t) = ltb (t + cfg.non_ecs_container_cleanup_wait_duration) now

abbrev pub is_remove_available : NonEcsConfig → ℕ → Option ContainerInspection → Bool
is_remove_available cfg now none = false
is_remove_available cfg now (some i) =
    (str_eq i.status "exited" || str_eq i.status "dead" || str_eq i.status "created")
    && finished_before cfg now i.finished_at

unfoldable pub remove_available_ids : NonEcsConfig → ℕ → Docker → List String → List String
remove_available_ids cfg now docker [] = []
remove_available_ids cfg now docker (id ∷ ids) =
    let rest = remove_available_ids cfg now docker ids in
    if is_remove_available cfg now (docker.inspect_container id) then id ∷ rest else rest

-- The ids that Docker is told to remove, and the number of containers that it removes.
unfoldable pub remove_containers_up_to : (String → Bool) → ℕ → List String → ℕ → List String × ℕ
remove_containers_up_to removed limit [] deleted = ([], deleted)
remove_containers_up_to removed limit (id ∷ ids) deleted =
    let (requests, n) =
      remove_containers_up_to removed limit ids (if removed id then suc deleted else deleted) in
    if deleted == limit then ([], deleted) else (id ∷ requests, n)

unfoldable pub remove_non_ecs_containers : NonEcsConfig → ℕ → Docker → List String → List String × ℕ
unfolding remove_containers_up_to remove_available_ids get_non_ecs_container_ids
remove_non_ecs_containers cfg now docker ecs_ids =
    remove_containers_up_to docker.container_removed cfg.num_non_ecs_containers_to_delete
      (remove_available_ids cfg now docker (get_non_ecs_container_ids docker ecs_ids)) 0

abbrev pub with_inspected :
    String → Option ImageWithSizeId → List ImageWithSizeId → List ImageWithSizeId
with_inspected id none rest = rest
with_inspected id (some i) rest = record i { image_id = id } ∷ rest

unfoldable pub inspect_all : Docker → List String → List ImageWithSizeId
inspect_all docker [] = []
inspect_all docker (id ∷ ids) = with_inspected id (docker.inspect_image id) (inspect_all docker ids)

-- `isInExclusionList`, for some name.
abbrev pub any_is_in_exclusion_list : List String → List String → Bool
any_is_in_exclusion_list names excluded = any (λ n. is_in n excluded) names

abbrev pub is_non_ecs_image : CleanupConfig → List ImageState → ImageWithSizeId → Bool
is_non_ecs_image cfg ss i =
    not (is_in i.image_id (map (λ (s : ImageState). s.image_id) ss))
    && not (any_is_in_exclusion_list i.repo_tags cfg.image_cleanup_exclusion_list)

unfoldable pub select_non_ecs :
    CleanupConfig → List ImageState → List ImageWithSizeId → List ImageWithSizeId
unfolding any
select_non_ecs cfg ss [] = []
select_non_ecs cfg ss (i ∷ is) =
    let rest = select_non_ecs cfg ss is in if is_non_ecs_image cfg ss i then i ∷ rest else rest

unfoldable pub get_non_ecs_images : CleanupConfig → Docker → List ImageState → List ImageWithSizeId
unfolding select_non_ecs inspect_all
get_non_ecs_images cfg docker ss = select_non_ecs cfg ss (inspect_all docker docker.listed_images)

unfoldable pub non_ecs_image_old_enough : NonEcsConfig → ℕ → ImageWithSizeId → Bool
non_ecs_image_old_enough cfg now i =
    ltb (i.created_time + cfg.non_ecs_minimum_age_before_deletion) now

-- The names that Docker is told to remove, and the number of images that have been removed.
unfoldable pub remove_tags : (String → Bool) → List String → ℕ → List String × ℕ
remove_tags removed [] deleted = ([], deleted)
remove_tags removed (t ∷ ts) deleted =
    let (requests, n) = remove_tags removed ts (if removed t then suc deleted else deleted) in
    (t ∷ requests, n)

-- An image with more than one tag is removed by its tags, another one by its id.
abbrev pub names_to_remove : ImageWithSizeId → List String
names_to_remove i = if ltb 1 (length i.repo_tags) then i.repo_tags else i.image_id ∷ []

-- The loop of `removeNonECSImages`.
unfoldable pub remove_sorted :
    NonEcsConfig → ℕ → (String → Bool) → ℕ → List ImageWithSizeId → ℕ → List String × ℕ
unfolding remove_tags non_ecs_image_old_enough
remove_sorted cfg now removed limit [] deleted = ([], deleted)
remove_sorted cfg now removed limit (i ∷ is) deleted =
    let (requests, n) =
      if non_ecs_image_old_enough cfg now i
      then remove_tags removed (names_to_remove i) deleted
      else ([], deleted) in
    let (more, n') = remove_sorted cfg now removed limit is n in
    if leb limit deleted then ([], deleted) else (requests ++ more, n')

unfoldable pub remove_non_ecs_images :
    (List ImageWithSizeId → List ImageWithSizeId)
    → CleanupConfig
    → NonEcsConfig
    → ℕ
    → Docker
    → ℕ
    → List ImageState
    → List String × ℕ
unfolding remove_sorted get_non_ecs_images
remove_non_ecs_images sort_by_size images cfg now docker limit ss =
    if limit == 0
    then ([], 0)
    else remove_sorted cfg now docker.image_removed limit
        (sort_by_size (get_non_ecs_images images docker ss)) 0

-- What a whole cycle does: the cycle over the agent's own images, and the containers and other images
-- that are told to be removed, with the numbers of those that are.
pub record CleanedUp : Type 0 where
  pub cycle : Cycle
  pub containers : List String × ℕ
  pub images : List String × ℕ

-- `removeUnusedImages`; `ecs_ids` are the ids of `GetAllContainerIDs`.
unfoldable pub clean_up :
    (List ImageWithSizeId → List ImageWithSizeId)
    → CleanupConfig
    → NonEcsConfig
    → (String → Removal)
    → Docker
    → ℕ
    → List String
    → List ImageState
    → CleanedUp
unfolding remove_unused_images remove_non_ecs_containers remove_non_ecs_images
clean_up sort_by_size images cfg answers docker now ecs_ids ss =
    let (c, allowance) = remove_unused_images images answers now ss in
    if cfg.delete_non_ecs_images_enabled
    then record {
      cycle = c;
      containers = remove_non_ecs_containers cfg now docker ecs_ids;
      images = remove_non_ecs_images sort_by_size images cfg now docker allowance c.image_states;
    }
    else record { cycle = c; containers = ([], 0); images = ([], 0) }
