-- ===== src/ImageManager/Kept.antt =====
-- The images that a clean-up does not touch.
use amazon_ecs_agent.Common.{
  ℕ, zero, suc, ◌==◌, ◌≡◌, refl, ◌∙◌, arith, true, any, not, ◌&&◌, String, str_eq, str_eq_iff, some,
  List, [], ◌∷◌, All, In, In_All, inl, inr, Bool-cases, Option-cases, subst,
}
use amazon_ecs_agent.ImageManager.State.{ImageState}
use amazon_ecs_agent.ImageManager.Cleanup.{
  Removal, Cycle, CleanupConfig, is_excluded_from_cleanup, images_consider_for_deletion,
  is_candidate, get_unused_image_for_deletion, remove_image, remove_least_recently_used,
  start_cycle, remove_unused_images,
}
use amazon_ecs_agent.ImageManager.Lists.{filter, IsDistinct, IsDistinct-IsElsewhere}
use amazon_ecs_agent.ImageManager.Safe.{
  is_protected, IsFair, Inv, is_in-consider, remove_image-IsSafe,
}

module _ (cfg : CleanupConfig) (now : ℕ) where
  chosen :
      (considered : List String) (ss : List ImageState) (s : ImageState)
      → get_unused_image_for_deletion cfg now considered ss ≡ some s
      → In s ss × (is_candidate cfg now considered s ≡ true)
  unfolding get_unused_image_for_deletion
  chosen considered [] s h = absurd (ground arith)
  chosen considered (t ∷ ts) s h = ground (arith, chosen considered ts s)

  -- A round of the loop that finds an image.
  pub round-IsSafe :
      (docker : String → Removal) (c : Cycle) (s : ImageState)
      → get_unused_image_for_deletion cfg now c.considered c.image_states ≡ some s
      → Inv cfg now c
      → Inv cfg now (remove_image docker s c)
        × (filter (is_protected cfg now) (remove_image docker s c).image_states
            ≡ filter (is_protected cfg now) c.image_states)
  round-IsSafe docker c s e inv =
      let (here, candidate) = chosen c.considered c.image_states s e in
      let fair = In_All _ c.image_states inv.1 s here in
      let elsewhere =
        IsDistinct-IsElsewhere (is_protected cfg now) s c.image_states inv.0 here
          (ground (arith, fair)) in
      let (inv1, _, same) = remove_image-IsSafe cfg now docker s c inv elsewhere in (inv1, same)

  loop-IsSafe :
      (docker : String → Removal) (rounds i deleted : ℕ) (c : Cycle)
      → Inv cfg now c
      → filter
          (is_protected cfg now)
          (remove_least_recently_used cfg docker now rounds i deleted c).0.image_states
        ≡ filter (is_protected cfg now) c.image_states
  unfolding remove_least_recently_used
  loop-IsSafe docker zero i deleted c inv = refl
  loop-IsSafe docker (suc rounds) i deleted c inv =
      elim (Option-cases (get_unused_image_for_deletion cfg now c.considered c.image_states)) [
        | inl e ↦ rw e refl
        | inr (s, e) ↦
            let (inv1, same) = round-IsSafe docker c s e inv in
            rw e (loop-IsSafe docker rounds (suc i) i (remove_image docker s c) inv1 ∙ same)
      ]

  consider_more :
      (t : ImageState) (rest : List String) (ss : List ImageState)
      → All (λ s. (not (s.address == t.address) && not (str_eq s.image_id t.image_id)) ≡ true) ss
      → All (IsFair cfg now rest) ss
      → All (IsFair cfg now (t.image_id ∷ rest)) ss
  unfolding any
  consider_more t rest [] d h = tt
  consider_more t rest (s ∷ ss) (d, ds) (h, hs) = (
    ground (arith, d, h, str_eq_iff t.image_id s.image_id, str_eq_iff s.image_id t.image_id),
    consider_more t rest ss ds hs,
  )

  pub start-Inv :
      (ss : List ImageState)
      → IsDistinct ss
      → All (IsFair cfg now (images_consider_for_deletion cfg ss)) ss
  unfolding images_consider_for_deletion any
  start-Inv [] d = tt
  start-Inv (t ∷ ts) (d, ds) = elim (Bool-cases (is_excluded_from_cleanup cfg t)) [
    | inl kept ↦
        subst (λ (is : List String). All (IsFair cfg now is) (t ∷ ts)) (rw kept refl)
          (rw (is_in-consider cfg t.image_id t ts d) refl, start-Inv ts ds)
    | inr considered ↦
        subst (λ (is : List String). All (IsFair cfg now is) (t ∷ ts))
          {x = t.image_id ∷ images_consider_for_deletion cfg ts} (rw considered refl)
          (
            rw considered (ground arith),
            consider_more t (images_consider_for_deletion cfg ts) ts d (start-Inv ts ds),
          )
  ]

  -- A clean-up leaves the states of the protected images as they are, in their order, whatever Docker
  -- answers. The images that the manager holds have distinct ids.
  pub remove_unused_images-filter :
      (docker : String → Removal) (ss : List ImageState)
      → IsDistinct ss
      → filter (is_protected cfg now) (remove_unused_images cfg docker now ss).0.image_states
        ≡ filter (is_protected cfg now) ss
  unfolding remove_unused_images
  remove_unused_images-filter docker ss distinct =
      loop-IsSafe docker cfg.num_images_to_delete 0 0 (start_cycle cfg ss)
        (distinct, start-Inv ss distinct)
