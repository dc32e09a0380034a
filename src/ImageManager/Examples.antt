-- ===== src/ImageManager/Examples.antt =====
-- Two images, one of which a container uses, and a clean-up that may delete one image.
use amazon_ecs_agent.Common.{
  ◌≡◌, refl, ◌≤◌, ◌+◌, arith, true, String, some, [], ◌∷◌, length, any, All,
}
use amazon_ecs_agent.ImageManager.{
  ImageState, ImageUser, Removal, removed, CleanupConfig, remove_unused_images, Docker,
  NonEcsConfig, clean_up, inspect_all, remove_image_name, remove_name, remove_non_ecs_images,
  remove_sorted, get_non_ecs_images, select_non_ecs, remove_tags, non_ecs_image_old_enough,
  remove_least_recently_used, remove_image, delete_names, delete_image, untag, update_at,
  forget_image, delete_considered, remove_image_state, images_consider_for_deletion,
  is_excluded_from_cleanup, get_unused_image_for_deletion, is_image_old_enough,
  has_no_associated_containers,
}
use amazon_ecs_agent.ImageManager.Lists.{filter}
use amazon_ecs_agent.ImageManager.Safe.{is_protected}
use amazon_ecs_agent.ImageManager.Kept.{remove_unused_images-filter}
use amazon_ecs_agent.ImageManager.Total.{HasTags, clean_up-le}

abbrev used : ImageState
used = record {
  address = 1;
  image_id = "sha256:a";
  names = "web:1" ∷ [];
  size = 10;
  containers = "web" ∷ [];
  pulled_at = 5;
  last_used_at = 5;
  pull_succeeded = true;
}

abbrev unused : ImageState
unused = record {
  address = 2;
  image_id = "sha256:b";
  names = "old:1" ∷ "old:2" ∷ [];
  size = 10;
  containers = [];
  pulled_at = 1;
  last_used_at = 2;
  pull_succeeded = true;
}

abbrev cleanup : CleanupConfig
cleanup = record {
  minimum_age_before_deletion = 30;
  num_images_to_delete = 1;
  image_cleanup_exclusion_list = [];
}

abbrev answers : String → Removal
answers name = removed

-- The unused image is deleted by its two names, and one more image may be deleted all the same.
deleted_one :
    let (c, allowance) = remove_unused_images cleanup answers 100 (used ∷ unused ∷ []) in
    (c.image_states ≡ used ∷ []) × (c.requests ≡ "old:1" ∷ "old:2" ∷ []) × (allowance ≡ 1)
unfolding remove_unused_images remove_least_recently_used remove_image delete_names delete_image
    untag update_at forget_image delete_considered remove_image_state images_consider_for_deletion
    is_excluded_from_cleanup get_unused_image_for_deletion is_image_old_enough
    has_no_associated_containers any remove_image_name remove_name
deleted_one = (refl, refl, refl)

remove_unused_images-filter_example :
    filter
      (is_protected cleanup 100)
      (remove_unused_images cleanup answers 100 (used ∷ unused ∷ [])).0.image_states
    ≡ filter (is_protected cleanup 100) (used ∷ unused ∷ [])
remove_unused_images-filter_example =
    remove_unused_images-filter cleanup 100 answers (used ∷ unused ∷ []) ((refl, tt), (tt, tt))

abbrev user : ImageUser
user = record { name = "batch"; image = "old:1"; image_id = "" }

abbrev docker : Docker
docker = record {
  listed_containers = some ("c1" ∷ []);
  inspect_container = λ id. some (record { status = "exited"; finished_at = some 3 });
  container_removed = λ id. true;
  listed_images = "sha256:c" ∷ "sha256:d" ∷ [];
  inspect_image =
      λ id. some (record { repo_tags = "other:1" ∷ []; image_id = id; size = 7; created_time = 1 });
  image_removed = λ id. true;
}

abbrev non_ecs : NonEcsConfig
non_ecs = record {
  delete_non_ecs_images_enabled = true;
  non_ecs_container_cleanup_wait_duration = 10;
  num_non_ecs_containers_to_delete = 5;
  non_ecs_minimum_age_before_deletion = 10;
}

-- The limit is one image, and two are removed.
removed_two :
    let r = clean_up (λ is. is) cleanup non_ecs answers docker 100 [] (used ∷ unused ∷ []) in
    (length r.cycle.image_states ≡ 1) × (r.images ≡ ("sha256:c" ∷ [], 1))
unfolding clean_up remove_non_ecs_images remove_sorted get_non_ecs_images select_non_ecs inspect_all
    remove_tags non_ecs_image_old_enough remove_unused_images remove_least_recently_used
    remove_image delete_names delete_image untag update_at forget_image delete_considered
    remove_image_state images_consider_for_deletion is_excluded_from_cleanup
    get_unused_image_for_deletion is_image_old_enough has_no_associated_containers any
    remove_image_name remove_name
removed_two = (refl, refl)

tags : All (HasTags 1) (inspect_all docker docker.listed_images)
unfolding inspect_all
tags = (omega arith, (omega arith, tt))

clean_up-le_example :
    let r = clean_up (λ is. is) cleanup non_ecs answers docker 100 [] (used ∷ unused ∷ []) in
    (2 ≤ length r.cycle.image_states + 1)
    × (2 + r.images.1 ≤ length r.cycle.image_states + 1 + 1)
    × (r.containers.1 ≤ 5)
clean_up-le_example =
    clean_up-le (λ is. is) cleanup non_ecs answers docker 100 1 [] (used ∷ unused ∷ [])
      (λ i is m. m) (omega arith) tags ((refl, tt), (tt, tt))
