-- ===== src/ImageManager/References.antt =====
-- agent/engine/docker_image_manager.go: the references of containers to images. What Docker says of an
-- image is an argument; the ids of the images differ.
use amazon_ecs_agent.Common.{
  ℕ, Bool, true, false, not, if◌then◌else◌, String, str_eq, Option, none, some, List, [], ◌∷◌, ◌++◌,
  map,
}
use amazon_ecs_agent.ImageManager.State.{
  ImageState, has_image_name, update_image_state, remove_image_name, remove_container_reference,
}

-- The fields of a container that the manager reads or sets.
pub record ImageUser : Type 0 where
  pub name : String
  pub image : String
  pub image_id : String

unfoldable pub get_image_state : String → List ImageState → Option ImageState
get_image_state id [] = none
get_image_state id (s ∷ ss) = if str_eq s.image_id id then some s else get_image_state id ss

-- A call of a method on the state that `get_image_state` finds.
unfoldable pub update_found : String → (ImageState → ImageState) → List ImageState → List ImageState
update_found id f [] = []
update_found id f (s ∷ ss) = if str_eq s.image_id id then f s ∷ ss else s ∷ update_found id f ss

abbrev pub without_name : String → String → ImageState → ImageState
without_name name id s = if not (str_eq s.image_id id) then remove_image_name name s else s

unfoldable pub remove_existing_image_name_of_different_id :
    String → String → List ImageState → List ImageState
unfolding remove_image_name
remove_existing_image_name_of_different_id name id = map (without_name name id)

abbrev pub found_image : Option ImageState → Bool
found_image none = false
found_image (some s) = true

unfoldable pub add_container_reference_to_existing_image_state :
    ImageUser → List ImageState → List ImageState × Bool
unfolding update_found update_image_state get_image_state
add_container_reference_to_existing_image_state c ss0 =
    let ss = remove_existing_image_name_of_different_id c.image c.image_id ss0 in
    (
      update_found c.image_id (update_image_state c.name c.image) ss,
      found_image (get_image_state c.image_id ss),
    )

-- A new state, at an address that no other has.
abbrev pub new_image_state : ℕ → ℕ → ℕ → ImageUser → ImageState
new_image_state now address size c = record {
  address = address;
  image_id = c.image_id;
  names = [];
  size = size;
  containers = [];
  pulled_at = now;
  last_used_at = now;
  pull_succeeded = false;
}

unfoldable pub add_container_reference_to_new_image_state :
    ℕ → ℕ → ℕ → ImageUser → List ImageState → List ImageState
unfolding update_found update_image_state get_image_state
add_container_reference_to_new_image_state now address size c ss0 =
    let ss = remove_existing_image_name_of_different_id c.image c.image_id ss0 in
    if found_image (get_image_state c.image_id ss)
    then update_found c.image_id (update_image_state c.name c.image) ss
    else ss ++ update_image_state c.name c.image (new_image_state now address size c) ∷ []

-- What `InspectImage` returns: an error, or an id and a size.
pub data Inspection : Type 0 where
  inspect_failed : Inspection
  inspected : String → ℕ → Inspection

abbrev pub record_inspected :
    ℕ → ℕ → Inspection → ImageUser → List ImageState → List ImageState × ImageUser × Bool
record_inspected now address inspect_failed c ss = (ss, c, false)
record_inspected now address (inspected id size) c0 ss0 =
    let c = record c0 { image_id = id } in
    let (ss, added) = add_container_reference_to_existing_image_state c ss0 in
    (
      if added then ss else add_container_reference_to_new_image_state now address size c ss,
      c,
      true,
    )

abbrev pub record_known : ImageUser → List ImageState × Bool → List ImageState × ImageUser × Bool
record_known c (ss, added) = (ss, c, added)

-- The Boolean is false where the method returns an error. Digests are left out.
unfoldable pub record_container_reference :
    ℕ → ℕ → Inspection → ImageUser → List ImageState → List ImageState × ImageUser × Bool
record_container_reference now address inspection c ss =
    if not (str_eq c.image_id "")
    then record_known c (add_container_reference_to_existing_image_state c ss)
    else if str_eq c.image ""
    then (ss, c, false)
    else record_inspected now address inspection c ss

abbrev pub remove_reference_of :
    ℕ → ImageUser → Option ImageState → List ImageState → List ImageState × Bool
remove_reference_of now c none ss = (ss, false)
remove_reference_of now c (some s) ss = (
  update_found c.image_id (λ t. (remove_container_reference now c.name t).0) ss,
  (remove_container_reference now c.name s).1,
)

unfoldable pub remove_container_reference_from_image_state :
    ℕ → ImageUser → List ImageState → List ImageState × Bool
remove_container_reference_from_image_state now c ss =
    if str_eq c.image_id ""
    then (ss, false)
    else remove_reference_of now c (get_image_state c.image_id ss) ss

unfoldable pub get_image_state_from_image_name : String → List ImageState → Option ImageState
get_image_state_from_image_name name [] = none
get_image_state_from_image_name name (s ∷ ss) =
    if has_image_name name s then some s else get_image_state_from_image_name name ss
