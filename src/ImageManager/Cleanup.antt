-- ===== src/ImageManager/Cleanup.antt =====
-- agent/engine/docker_image_manager.go: one cycle of the clean-up, under the manager's lock.
use amazon_ecs_agent.Common.{
  ℕ, zero, suc, ◌+◌, ◌-◌, ◌==◌, ltb, Bool, any, ◌&&◌, if◌then◌else◌, String, str_eq, Option, none,
  some, List, [], ◌∷◌, ◌++◌,
}
use amazon_ecs_agent.ImageManager.State.{
  ImageState, has_no_associated_containers, remove_image_name, is_nil,
}

-- What Docker answers when it is told to remove a name or an id: it did, there was none, or an error.
pub data Removal : Type 0 where
  removed missing refused : Removal

-- The parts of the configuration that the clean-up reads.
pub record CleanupConfig : Type 0 where
  pub minimum_age_before_deletion : ℕ
  pub num_images_to_delete : ℕ
  pub image_cleanup_exclusion_list : List String

-- The states that the manager holds, the ids that are considered for deletion in this cycle, and the
-- names and ids that Docker was told to remove.
pub record Cycle : Type 0 where
  pub image_states : List ImageState
  pub considered : List String
  pub requests : List String

abbrev pub is_in : String → List String → Bool
is_in name names = any (λ n. str_eq n name) names

unfoldable pub is_excluded_from_cleanup : CleanupConfig → ImageState → Bool
unfolding any
is_excluded_from_cleanup cfg s = any (λ n. is_in n cfg.image_cleanup_exclusion_list) s.names

-- `imagesConsiderForDeletion`
unfoldable pub images_consider_for_deletion : CleanupConfig → List ImageState → List String
images_consider_for_deletion cfg [] = []
images_consider_for_deletion cfg (s ∷ ss) =
    let rest = images_consider_for_deletion cfg ss in
    if is_excluded_from_cleanup cfg s then rest else s.image_id ∷ rest

unfoldable pub is_image_old_enough : CleanupConfig → ℕ → ImageState → Bool
is_image_old_enough cfg now s = ltb (s.pulled_at + cfg.minimum_age_before_deletion) now

abbrev pub is_candidate : CleanupConfig → ℕ → List String → ImageState → Bool
is_candidate cfg now considered s =
    is_in s.image_id considered && is_image_old_enough cfg now s && has_no_associated_containers s

abbrev pub earlier_of : ImageState → Option ImageState → ImageState
earlier_of s none = s
earlier_of s (some t) = if ltb t.last_used_at s.last_used_at then t else s

-- `getUnusedImageForDeletion`: of the candidates, one that was used least recently. The code sorts
-- them by that time and takes the first.
unfoldable pub get_unused_image_for_deletion :
    CleanupConfig → ℕ → List String → List ImageState → Option ImageState
unfolding is_image_old_enough has_no_associated_containers
get_unused_image_for_deletion cfg now considered [] = none
get_unused_image_for_deletion cfg now considered (s ∷ ss) =
    let rest = get_unused_image_for_deletion cfg now considered ss in
    if is_candidate cfg now considered s then some (earlier_of s rest) else rest

-- `removeImageState`: the first state with the id.
unfoldable pub remove_image_state : String → List ImageState → List ImageState
remove_image_state id [] = []
remove_image_state id (s ∷ ss) = if str_eq s.image_id id then ss else s ∷ remove_image_state id ss

-- A call of a method on the state that a pointer leads to.
unfoldable pub update_at : ℕ → (ImageState → ImageState) → List ImageState → List ImageState
update_at address f [] = []
update_at address f (s ∷ ss) = if s.address == address then f s ∷ ss else s ∷ update_at address f ss

unfoldable pub delete_considered : String → List String → List String
delete_considered id [] = []
delete_considered id (i ∷ is) =
    let rest = delete_considered id is in if str_eq i id then rest else i ∷ rest

-- All tracking information of the state is dropped.
unfoldable pub forget_image : ImageState → Cycle → Cycle
unfolding delete_considered remove_image_state
forget_image s c = record c {
  considered = delete_considered s.image_id c.considered;
  image_states = remove_image_state s.image_id c.image_states;
}

-- The name is taken off the state, in the manager's list too.
unfoldable pub untag : String → ImageState → Cycle → Cycle × ImageState
unfolding update_at remove_image_name
untag name s c =
    let s' = remove_image_name name s in
    let c' = record c {
      image_states = update_at s.address (remove_image_name name) c.image_states;
    } in
    (if is_nil s'.names then forget_image s c' else c', s')

abbrev pub answered : Removal → String → ImageState → Cycle → Cycle × ImageState
answered refused name s c = (record c { considered = delete_considered s.image_id c.considered }, s)
answered removed name s c = untag name s c
answered missing name s c = untag name s c

-- `deleteImage` on the state `s`; the second result is the state as the call leaves it.
unfoldable pub delete_image : (String → Removal) → String → ImageState → Cycle → Cycle × ImageState
delete_image docker name s c =
    if str_eq name ""
    then (c, s)
    else answered (docker name) name s (record c { requests = c.requests ++ name ∷ [] })

-- The loop of `removeImage` over a copy of the names.
unfoldable pub delete_names : (String → Removal) → List String → ImageState → Cycle → Cycle
delete_names docker [] s c = c
delete_names docker (n ∷ ns) s c =
    let (c', s') = delete_image docker n s c in delete_names docker ns s' c'

unfoldable pub remove_image : (String → Removal) → ImageState → Cycle → Cycle
unfolding delete_names
remove_image docker s c =
    if is_nil s.names
    then (delete_image docker s.image_id s c).0
    else delete_names docker s.names s c

abbrev pub when_found : Cycle × ℕ → (ImageState → Cycle × ℕ) → Option ImageState → Cycle × ℕ
when_found stop go none = stop
when_found stop go (some s) = go s

-- The loop of `removeUnusedImages`, with the number of rounds left and the value of `i`; the second
-- result is the variable `numECSImagesDeleted`.
unfoldable pub remove_least_recently_used :
    CleanupConfig → (String → Removal) → ℕ → ℕ → ℕ → ℕ → Cycle → Cycle × ℕ
remove_least_recently_used cfg docker now zero i deleted c = (c, deleted)
remove_least_recently_used cfg docker now (suc rounds) i deleted c =
    when_found (c, i)
      (λ s. remove_least_recently_used cfg docker now rounds (suc i) i (remove_image docker s c))
      (get_unused_image_for_deletion cfg now c.considered c.image_states)

abbrev pub start_cycle : CleanupConfig → List ImageState → Cycle
start_cycle cfg ss = record {
  image_states = ss;
  considered = images_consider_for_deletion cfg ss;
  requests = [];
}

-- The part of `removeUnusedImages` that deletes images of the agent's own containers, and the number
-- of other images that it lets `removeNonECSImages` delete.
unfoldable pub remove_unused_images :
    CleanupConfig → (String → Removal) → ℕ → List ImageState → Cycle × ℕ
unfolding remove_least_recently_used images_consider_for_deletion
remove_unused_images cfg docker now ss =
    let (c, deleted) =
      remove_least_recently_used cfg docker now cfg.num_images_to_delete 0 0 (start_cycle cfg ss) in
    (c, cfg.num_images_to_delete - deleted)
