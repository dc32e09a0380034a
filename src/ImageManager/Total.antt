-- ===== src/ImageManager/Total.antt =====
-- How much a whole cycle of the clean-up removes.
use amazon_ecs_agent.Common.{
  ℕ, suc, ◌+◌, ◌≤◌, arith, ◌==◌, if◌then◌else◌, String, List, [], ◌∷◌, length, Bool, leb, In,
  In_All, All-of, All, inl, inr, Bool-cases,
}
use amazon_ecs_agent.ImageManager.State.{ImageState}
use amazon_ecs_agent.ImageManager.Cleanup.{Removal, CleanupConfig, remove_unused_images}
use amazon_ecs_agent.ImageManager.NonEcs.{
  ImageWithSizeId, Docker, NonEcsConfig, remove_containers_up_to, remove_non_ecs_containers,
  inspect_all, is_non_ecs_image, select_non_ecs, get_non_ecs_images, non_ecs_image_old_enough,
  remove_tags, names_to_remove, remove_sorted, remove_non_ecs_images, clean_up,
}
use amazon_ecs_agent.ImageManager.Lists.{IsDistinct}
use amazon_ecs_agent.ImageManager.Limit.{length-remove_unused_images}

remove_containers_up_to-le :
    (ok : String → Bool) (limit : ℕ) (ids : List String) (deleted : ℕ)
    → deleted ≤ limit
    → (remove_containers_up_to ok limit ids deleted).1 ≤ limit
unfolding remove_containers_up_to
remove_containers_up_to-le ok limit [] deleted h = h
remove_containers_up_to-le ok limit (id ∷ ids) deleted h = elim (Bool-cases (deleted == limit)) [
  | inl full ↦ rw full h
  | inr more ↦ rw more (
      remove_containers_up_to-le ok limit ids (if ok id then suc deleted else deleted)
        (ground (arith, more)))
]

remove_tags-le :
    (ok : String → Bool) (ts : List String) (deleted : ℕ)
    → (remove_tags ok ts deleted).1 ≤ deleted + length ts
unfolding remove_tags
remove_tags-le ok [] deleted = omega arith
remove_tags-le ok (t ∷ ts) deleted =
    ground (arith, remove_tags-le ok ts (suc deleted), remove_tags-le ok ts deleted)

-- No image has more tags than that, nor more than one name is removed where it is 1.
abbrev pub HasTags : ℕ → ImageWithSizeId → Type 0
HasTags most i = length i.repo_tags ≤ most

module _ (cfg : NonEcsConfig) (now : ℕ) (ok : String → Bool) (limit most : ℕ)
    (some_tag : 1 ≤ most) where
  remove_sorted-le :
      (is : List ImageWithSizeId) (deleted : ℕ)
      → All (HasTags most) is
      → suc deleted ≤ limit + most
      → suc ((remove_sorted cfg now ok limit is deleted).1) ≤ limit + most
  unfolding remove_sorted
  remove_sorted-le [] deleted tags h = h
  remove_sorted-le (i ∷ is) deleted (tag, tags) h = elim (Bool-cases (leb limit deleted)) [
    | inl full ↦ rw full h
    | inr more ↦ rw more (elim (Bool-cases (non_ecs_image_old_enough cfg now i)) [
      | inl old ↦ rw old (
          remove_sorted-le is _ tags
            (ground (arith, more, tag, remove_tags-le ok (names_to_remove i) deleted)))
      | inr young ↦ rw young (remove_sorted-le is deleted tags h)
    ])
  ]

-- Go's `sort.Slice` makes up no elements.
abbrev pub IsSorting : (List ImageWithSizeId → List ImageWithSizeId) → Type 0
IsSorting sort = (i : ImageWithSizeId) (is : List ImageWithSizeId) → In i (sort is) → In i is

select-HasTags :
    (cfg : CleanupConfig) (ss : List ImageState) (most : ℕ) (is : List ImageWithSizeId)
    → All (HasTags most) is
    → All (HasTags most) (select_non_ecs cfg ss is)
unfolding select_non_ecs
select-HasTags cfg ss most [] h = tt
select-HasTags cfg ss most (i ∷ is) (h, hs) = elim (Bool-cases (is_non_ecs_image cfg ss i)) [
  | inl own ↦ rw own (h, select-HasTags cfg ss most is hs)
  | inr other ↦ rw other (select-HasTags cfg ss most is hs)
]

remove_non_ecs_images-le :
    (sort : List ImageWithSizeId → List ImageWithSizeId) (images : CleanupConfig)
    (cfg : NonEcsConfig) (now : ℕ) (docker : Docker) (limit most : ℕ) (ss : List ImageState)
    → IsSorting sort
    → 1 ≤ most
    → All (HasTags most) (inspect_all docker docker.listed_images)
    → suc ((remove_non_ecs_images sort images cfg now docker limit ss).1) ≤ limit + most
unfolding remove_non_ecs_images get_non_ecs_images
remove_non_ecs_images-le sort images cfg now docker limit most ss sorting some_tag tags =
    elim (Bool-cases (limit == 0)) [
      | inl none_left ↦ rw none_left (ground (arith, none_left))
      | inr more ↦
          let selected =
            select-HasTags images ss most (inspect_all docker docker.listed_images) tags in
          rw more (
            remove_sorted-le cfg now docker.image_removed limit most some_tag _ 0
              (All-of _ _ (λ i m. In_All _ _ selected i (sorting i _ m))) (omega arith))
    ]

-- A clean-up forgets at most as many of the agent's images as the configuration allows; these and the
-- other images that it removes exceed that number by the tags of one image at most, where no image
-- has more than `most` of them; and it removes at most as many containers as the configuration allows.
-- The images that the manager holds have distinct ids, and sorting makes up no images.
pub clean_up-le :
    (sort : List ImageWithSizeId → List ImageWithSizeId) (images : CleanupConfig)
    (cfg : NonEcsConfig) (answers : String → Removal) (docker : Docker) (now most : ℕ)
    (ids : List String) (ss : List ImageState)
    → IsSorting sort
    → 1 ≤ most
    → All (HasTags most) (inspect_all docker docker.listed_images)
    → IsDistinct ss
    → let r = clean_up sort images cfg answers docker now ids ss in
      (length ss ≤ length r.cycle.image_states + images.num_images_to_delete)
      × (length ss + r.images.1 ≤ length r.cycle.image_states + images.num_images_to_delete + most)
      × (r.containers.1 ≤ cfg.num_non_ecs_containers_to_delete)
unfolding clean_up remove_non_ecs_containers
clean_up-le sort images cfg answers docker now most ids ss sorting some_tag tags distinct =
    let (c, allowance) = remove_unused_images images answers now ss in
    let (own, counted) = length-remove_unused_images images now answers ss distinct in
    let others =
      remove_non_ecs_images-le sort images cfg now docker allowance most c.image_states sorting
        some_tag tags in
    elim (Bool-cases cfg.delete_non_ecs_images_enabled) [
      | inl enabled ↦ rw enabled (
        own,
        omega (arith, counted, others),
        remove_containers_up_to-le _ cfg.num_non_ecs_containers_to_delete _ 0 (omega arith),
      )
      | inr disabled ↦ rw disabled (own, omega (arith, own), omega arith)
    ]
