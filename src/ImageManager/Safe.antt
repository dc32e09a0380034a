-- ===== src/ImageManager/Safe.antt =====
-- What the deletion of an image leaves alone.
use amazon_ecs_agent.Common.{
  ℕ, ◌==◌, ◌≡◌, refl, sym, ◌∙◌, arith, Bool, true, false, any, not, ◌&&◌, ◌||◌, String, str_eq,
  List, [], ◌∷◌, ◌++◌, All, inl, inr, Bool-cases, subst,
}
use amazon_ecs_agent.ImageManager.State.{
  ImageState, remove_name, remove_image_name, has_no_associated_containers, is_nil,
}
use amazon_ecs_agent.ImageManager.Cleanup.{
  Removal, removed, missing, refused, Cycle, CleanupConfig, is_in, is_excluded_from_cleanup,
  images_consider_for_deletion, is_image_old_enough, update_at, remove_image_state,
  delete_considered, forget_image, untag, answered, delete_image, delete_names, remove_image,
}
use amazon_ecs_agent.ImageManager.Lists.{
  filter, IsElsewhere, IsDistinct, filter-update_at, IsElsewhere-update_at,
  filter-remove_image_state, IsElsewhere-remove_image_state, All-update_at, All-remove_image_state,
  All-mono, IsDistinct-update_at, IsDistinct-remove_image_state,
}

excluded-remove_name :
    (cfg : CleanupConfig) (name : String) (ns : List String)
    → any (λ n. is_in n cfg.image_cleanup_exclusion_list) ns ≡ false
    → any (λ n. is_in n cfg.image_cleanup_exclusion_list) (remove_name name ns) ≡ false
unfolding remove_name any
excluded-remove_name cfg name [] h = refl
excluded-remove_name cfg name (n ∷ ns) h = ground (arith, excluded-remove_name cfg name ns)

excluded-remove_image_name :
    (cfg : CleanupConfig) (name : String) (s : ImageState)
    → is_excluded_from_cleanup cfg s ≡ false
    → is_excluded_from_cleanup cfg (remove_image_name name s) ≡ false
unfolding is_excluded_from_cleanup remove_image_name
excluded-remove_image_name cfg name s h = excluded-remove_name cfg name s.names h

is_in-delete_considered :
    (i id : String) (cs : List String)
    → (not (is_in i (delete_considered id cs)) || is_in i cs) ≡ true
unfolding delete_considered any
is_in-delete_considered i id [] = refl
is_in-delete_considered i id (c ∷ cs) = ground (arith, is_in-delete_considered i id cs)

pub is_in-consider :
    (cfg : CleanupConfig) (i : String) (s : ImageState) (ss : List ImageState)
    → All (λ t. (not (t.address == s.address) && not (str_eq t.image_id s.image_id)) ≡ true) ss
    → is_in s.image_id (images_consider_for_deletion cfg ss) ≡ false
unfolding images_consider_for_deletion any
is_in-consider cfg i s [] h = refl
is_in-consider cfg i s (t ∷ ts) (h, hs) = ground (arith, is_in-consider cfg i s ts hs)

module _ (cfg : CleanupConfig) (now : ℕ) where
  -- An image that is used by a container, is not old enough, or has a name that is excluded.
  abbrev pub is_protected : ImageState → Bool
  is_protected s =
      is_excluded_from_cleanup cfg s
      || not (is_image_old_enough cfg now s)
      || not (has_no_associated_containers s)

  protected-remove_image_name :
      (name : String) (s : ImageState)
      → is_protected s ≡ false
      → is_protected (remove_image_name name s) ≡ false
  unfolding remove_image_name is_image_old_enough has_no_associated_containers
  protected-remove_image_name name s h = ground (arith, excluded-remove_image_name cfg name s)

  -- No id that is considered for deletion is that of an excluded image.
  abbrev pub IsFair : List String → ImageState → Type 0
  IsFair considered s =
      (not (is_in s.image_id considered) || not (is_excluded_from_cleanup cfg s)) ≡ true

  abbrev pub Inv : Cycle → Type 0
  Inv c = IsDistinct c.image_states × All (IsFair c.considered) c.image_states

  Fair-remove_image_name :
      (considered : List String) (name : String) (s : ImageState)
      → IsFair considered s
      → IsFair considered (remove_image_name name s)
  unfolding remove_image_name
  Fair-remove_image_name considered name s h = ground (arith, excluded-remove_image_name cfg name s)

  Fair-delete_considered :
      (considered : List String) (id : String) (ss : List ImageState)
      → All (IsFair considered) ss
      → All (IsFair (delete_considered id considered)) ss
  Fair-delete_considered considered id ss =
      All-mono _ _ ss (λ s h. ground (arith, is_in-delete_considered s.image_id id considered))

  -- The invariant, and the images that are protected.
  abbrev IsSafe : String → ℕ → Cycle → Cycle → Type 0
  IsSafe id address c c' =
      Inv c'
      × IsElsewhere is_protected address id c'.image_states
      × (filter is_protected c'.image_states ≡ filter is_protected c.image_states)

  forget-IsSafe :
      (s : ImageState) (c : Cycle)
      → Inv c
      → IsElsewhere is_protected s.address s.image_id c.image_states
      → IsSafe s.image_id s.address c (forget_image s c)
  unfolding forget_image
  forget-IsSafe s c (distinct, fair) e = (
    (
      IsDistinct-remove_image_state s.image_id c.image_states distinct,
      Fair-delete_considered c.considered s.image_id (remove_image_state s.image_id c.image_states)
          (All-remove_image_state _ s.image_id c.image_states fair),
    ),
    IsElsewhere-remove_image_state is_protected s.address s.image_id c.image_states e,
    filter-remove_image_state is_protected s.address s.image_id c.image_states e,
  )

  untag_list-IsSafe :
      (name : String) (s : ImageState) (c : Cycle)
      → Inv c
      → IsElsewhere is_protected s.address s.image_id c.image_states
      → IsSafe s.image_id s.address c
          (record c { image_states = update_at s.address (remove_image_name name) c.image_states })
  untag_list-IsSafe name s c (distinct, fair) e = (
    (
      IsDistinct-update_at s.address name c.image_states distinct,
      All-update_at _ s.address (remove_image_name name) c.image_states
          (Fair-remove_image_name c.considered name) fair,
    ),
    IsElsewhere-update_at is_protected s.address s.image_id (remove_image_name name) c.image_states
        (protected-remove_image_name name) e,
    filter-update_at is_protected s.address s.image_id (remove_image_name name) c.image_states
        (protected-remove_image_name name) e,
  )

  untag-IsSafe :
      (name : String) (s : ImageState) (c : Cycle)
      → Inv c
      → IsElsewhere is_protected s.address s.image_id c.image_states
      → IsSafe s.image_id s.address c (untag name s c).0
  unfolding untag
  untag-IsSafe name s c inv e =
      let c' = record c {
        image_states = update_at s.address (remove_image_name name) c.image_states;
      } in
      let (inv', e', same) = untag_list-IsSafe name s c inv e in
      elim (Bool-cases (is_nil (remove_image_name name s).names)) [
        | inl empty ↦
            let (inv2, e2, same2) = forget-IsSafe s c' inv' e' in rw empty (inv2, e2, same2 ∙ same)
        | inr more ↦ rw more (inv', e', same)
      ]

  answered-IsSafe :
      (answer : Removal) (name : String) (s : ImageState) (c : Cycle)
      → Inv c
      → IsElsewhere is_protected s.address s.image_id c.image_states
      → IsSafe s.image_id s.address c (answered answer name s c).0
  answered-IsSafe refused name s c (distinct, fair) e =
      ((distinct, Fair-delete_considered c.considered s.image_id c.image_states fair), e, refl)
  answered-IsSafe removed name s c inv e = untag-IsSafe name s c inv e
  answered-IsSafe missing name s c inv e = untag-IsSafe name s c inv e

  delete_image-IsSafe :
      (docker : String → Removal) (name : String) (s : ImageState) (c : Cycle)
      → Inv c
      → IsElsewhere is_protected s.address s.image_id c.image_states
      → IsSafe s.image_id s.address c (delete_image docker name s c).0
  unfolding delete_image
  delete_image-IsSafe docker name s c inv e = elim (Bool-cases (str_eq name "")) [
    | inl empty ↦ rw empty (inv, e, refl)
    | inr named ↦ rw named (
        answered-IsSafe (docker name) name s (record c { requests = c.requests ++ name ∷ [] }) inv
          e)
  ]

  pub same_pointer :
      (docker : String → Removal) (name : String) (s : ImageState) (c : Cycle)
      → let t = (delete_image docker name s c).1 in
        (t.address ≡ s.address) × (t.image_id ≡ s.image_id)
  unfolding delete_image remove_image_name untag
  same_pointer docker name s c = ground arith

  delete_names-IsSafe :
      (docker : String → Removal) (ns : List String) (s : ImageState) (c : Cycle)
      → Inv c
      → IsElsewhere is_protected s.address s.image_id c.image_states
      → IsSafe s.image_id s.address c (delete_names docker ns s c)
  unfolding delete_names
  delete_names-IsSafe docker [] s c inv e = (inv, e, refl)
  delete_names-IsSafe docker (n ∷ ns) s c inv e =
      let (c1, t) = delete_image docker n s c in
      let (inv1, e1, same1) = delete_image-IsSafe docker n s c inv e in
      let (addresses, ids) = same_pointer docker n s c in
      let e1' =
        subst (λ (a : ℕ). IsElsewhere is_protected a t.image_id c1.image_states) (sym addresses)
          (subst (λ (i : String). IsElsewhere is_protected s.address i c1.image_states) (sym ids)
            e1) in
      let (inv2, e2, same2) = delete_names-IsSafe docker ns t c1 inv1 e1' in
      (
        inv2,
        subst
            (λ (a : ℕ).
              IsElsewhere is_protected a s.image_id (delete_names docker ns t c1).image_states)
            addresses
            (subst
              (λ (i : String).
                IsElsewhere is_protected t.address i (delete_names docker ns t c1).image_states)
              ids e2),
        same2 ∙ same1,
      )

  pub remove_image-IsSafe :
      (docker : String → Removal) (s : ImageState) (c : Cycle)
      → Inv c
      → IsElsewhere is_protected s.address s.image_id c.image_states
      → IsSafe s.image_id s.address c (remove_image docker s c)
  unfolding remove_image
  remove_image-IsSafe docker s c inv e = elim (Bool-cases (is_nil s.names)) [
    | inl untagged ↦ rw untagged (delete_image-IsSafe docker s.image_id s c inv e)
    | inr tagged ↦ rw tagged (delete_names-IsSafe docker s.names s c inv e)
  ]
