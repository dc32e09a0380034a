-- ===== src/ImageManager/State.antt =====
-- agent/engine/image: an image and the containers that use it.
use amazon_ecs_agent.Common.{
  ℕ, Bool, true, false, any, if◌then◌else◌, String, str_eq, List, [], ◌∷◌, ◌++◌,
}

-- The image and its state in one record. `address` tells the state's pointer from others; containers
-- are known by their names.
pub record ImageState : Type 0 where
  pub address : ℕ
  pub image_id : String
  pub names : List String
  pub size : ℕ
  pub containers : List String
  pub pulled_at : ℕ
  pub last_used_at : ℕ
  pub pull_succeeded : Bool

unfoldable pub has_image_name : String → ImageState → Bool
unfolding any
has_image_name name s = any (λ n. str_eq n name) s.names

unfoldable pub add_image_name : String → ImageState → ImageState
unfolding has_image_name
add_image_name name s =
    if has_image_name name s then s else record s { names = s.names ++ name ∷ [] }

unfoldable pub update_container_reference : String → ImageState → ImageState
update_container_reference container s = record s { containers = s.containers ++ container ∷ [] }

-- `UpdateImageState`, for a container with the given name and image name.
unfoldable pub update_image_state : String → String → ImageState → ImageState
unfolding add_image_name update_container_reference
update_image_state container image s = update_container_reference container (add_image_name image s)

-- The names are distinct, so that the loop finds one element at most: it goes on with the slice as it
-- was, whose later elements have moved by one, and the last of which stands there twice.
unfoldable pub remove_name : String → List String → List String
remove_name name [] = []
remove_name name (n ∷ ns) = if str_eq n name then ns else n ∷ remove_name name ns

unfoldable pub remove_image_name : String → ImageState → ImageState
unfolding remove_name
remove_image_name name s = record s { names = remove_name name s.names }

-- The Boolean is false where the method returns an error.
unfoldable pub remove_container_reference : ℕ → String → ImageState → ImageState × Bool
unfolding any remove_name
remove_container_reference now container s =
    if any (λ c. str_eq c container) s.containers
    then (record s { containers = remove_name container s.containers; last_used_at = now }, true)
    else (s, false)

abbrev pub is_nil {ℓ} : {A : Type ℓ} → List A → Bool
is_nil [] = true
is_nil (x ∷ xs) = false

unfoldable pub has_no_associated_containers : ImageState → Bool
has_no_associated_containers s = is_nil s.containers

unfoldable pub set_pull_succeeded : Bool → ImageState → ImageState
set_pull_succeeded b s = record s { pull_succeeded = b }
