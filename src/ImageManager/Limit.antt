-- ===== src/ImageManager/Limit.antt =====
-- How many images one clean-up forgets.
use amazon_ecs_agent.Common.{
  ℕ, zero, suc, ◌+◌, ◌≤◌, ◌≡◌, refl, ◌∙◌, subst, arith, ◌==◌, not, ◌&&◌, true, if◌then◌else◌,
  String, str_eq, str_eq_iff, List, [], ◌∷◌, length, All, inl, inr, Bool-cases, Option-cases,
}
use amazon_ecs_agent.ImageManager.State.{ImageState, remove_image_name, is_nil}
use amazon_ecs_agent.ImageManager.Cleanup.{
  Removal, Cycle, CleanupConfig, get_unused_image_for_deletion, update_at, remove_image_state,
  forget_image, untag, delete_image, delete_names, remove_image, remove_least_recently_used,
  start_cycle, remove_unused_images,
}
use amazon_ecs_agent.ImageManager.Lists.{IsDistinct}
use amazon_ecs_agent.ImageManager.Safe.{Inv, same_pointer}
use amazon_ecs_agent.ImageManager.Kept.{start-Inv, round-IsSafe}

-- The number of states with another id.
unfoldable others : String → List ImageState → ℕ
others id [] = 0
others id (s ∷ ss) = let rest = others id ss in if str_eq s.image_id id then rest else suc rest

others-update_at :
    (id : String) (address : ℕ) (name : String) (ss : List ImageState)
    → others id (update_at address (remove_image_name name) ss) ≡ others id ss
unfolding others update_at remove_image_name
others-update_at id address name [] = refl
others-update_at id address name (s ∷ ss) = ground (arith, others-update_at id address name ss)

others-remove_image_state :
    (id : String) (ss : List ImageState) → others id (remove_image_state id ss) ≡ others id ss
unfolding others remove_image_state
others-remove_image_state id [] = refl
others-remove_image_state id (s ∷ ss) = ground (arith, others-remove_image_state id ss)

others-delete_image :
    (docker : String → Removal) (name : String) (s : ImageState) (c : Cycle)
    → others s.image_id (delete_image docker name s c).0.image_states
      ≡ others s.image_id c.image_states
unfolding delete_image untag forget_image
others-delete_image docker name s c =
    let listed = update_at s.address (remove_image_name name) c.image_states in
    ground (
      arith,
      others-update_at s.image_id s.address name c.image_states,
      others-remove_image_state s.image_id listed,
    )

others-le : (id : String) (ss : List ImageState) → others id ss ≤ length ss
unfolding others
others-le id [] = omega arith
others-le id (s ∷ ss) = ground (arith, others-le id ss)

others-apart :
    (s : ImageState) (ss : List ImageState)
    → All (λ t. (not (t.address == s.address) && not (str_eq t.image_id s.image_id)) ≡ true) ss
    → length ss ≤ others s.image_id ss
unfolding others
others-apart s [] h = omega arith
others-apart s (t ∷ ts) (h, hs) = ground (arith, h, others-apart s ts hs)

others-IsDistinct :
    (id : String) (ss : List ImageState) → IsDistinct ss → length ss ≤ suc (others id ss)
unfolding others
others-IsDistinct id [] d = omega arith
others-IsDistinct id (s ∷ ss) (d, ds) =
    ground (arith, others-IsDistinct id ss ds, others-apart s ss d, str_eq_iff s.image_id id)

module _ (cfg : CleanupConfig) (now : ℕ) (docker : String → Removal) where
  others-delete_names :
      (ns : List String) (s : ImageState) (c : Cycle)
      → others s.image_id (delete_names docker ns s c).image_states
        ≡ others s.image_id c.image_states
  unfolding delete_names
  others-delete_names [] s c = refl
  others-delete_names (n ∷ ns) s c =
      let (c1, t) = delete_image docker n s c in
      let (_, ids) = same_pointer cfg now docker n s c in
      subst
        (λ (id : String).
          others id (delete_names docker ns t c1).image_states ≡ others id c1.image_states)
        ids (others-delete_names ns t c1)
      ∙ others-delete_image docker n s c

  others-remove_image :
      (s : ImageState) (c : Cycle)
      → others s.image_id (remove_image docker s c).image_states ≡ others s.image_id c.image_states
  unfolding remove_image
  others-remove_image s c = elim (Bool-cases (is_nil s.names)) [
    | inl untagged ↦ rw untagged (others-delete_image docker s.image_id s c)
    | inr tagged ↦ rw tagged (others-delete_names s.names s c)
  ]

  length-remove_image :
      (s : ImageState) (c : Cycle)
      → IsDistinct c.image_states
      → length c.image_states ≤ suc (length (remove_image docker s c).image_states)
  length-remove_image s c distinct = omega (
    arith,
    others-IsDistinct s.image_id c.image_states distinct,
    others-remove_image s c,
    others-le s.image_id (remove_image docker s c).image_states,
  )

  -- `i` is the loop's counter, and `deleted` its value in the round before.
  length-loop :
      (rounds i deleted : ℕ) (c : Cycle)
      → Inv cfg now c
      → i ≤ suc deleted
      → deleted ≤ i
      → let (c', d) = remove_least_recently_used cfg docker now rounds i deleted c in
        (length c.image_states ≤ length c'.image_states + rounds)
        × (length c.image_states + i ≤ suc (length c'.image_states + d))
        × (d ≤ i + rounds)
  unfolding remove_least_recently_used
  length-loop zero i deleted c inv h h' = (omega arith, omega arith, omega arith)
  length-loop (suc rounds) i deleted c inv h h' =
      elim (Option-cases (get_unused_image_for_deletion cfg now c.considered c.image_states)) [
        | inl e ↦ rw e (omega arith, omega arith, omega arith)
        | inr (s, e) ↦
            let (inv1, _) = round-IsSafe cfg now docker c s e inv in
            let step = length-remove_image s c inv.0 in
            let (all, counted, most) =
              length-loop rounds (suc i) i (remove_image docker s c) inv1 (omega arith)
                (omega arith) in
            rw e (omega (arith, all, step), omega (arith, counted, step), omega (arith, most))
      ]

  -- A clean-up forgets at most as many images as the configuration allows, and that number and the
  -- number of other images that it goes on to delete exceed what the configuration allows by one
  -- at most. The images that the manager holds have distinct ids.
  pub length-remove_unused_images :
      (ss : List ImageState)
      → IsDistinct ss
      → let (c, allowance) = remove_unused_images cfg docker now ss in
        (length ss ≤ length c.image_states + cfg.num_images_to_delete)
        × (length ss + allowance ≤ suc (length c.image_states + cfg.num_images_to_delete))
  unfolding remove_unused_images
  length-remove_unused_images ss distinct =
      let (all, counted, most) =
        length-loop cfg.num_images_to_delete 0 0 (start_cycle cfg ss)
          (distinct, start-Inv cfg now ss distinct) (omega arith) (omega arith) in
      (all, omega (arith, counted, most))
