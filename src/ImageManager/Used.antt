-- ===== src/ImageManager/Used.antt =====
-- An image that a container uses is not deleted.
use amazon_ecs_agent.Common.{
  ℕ, ◌==◌, ◌≡◌, refl, ◌∙◌, arith, Bool, true, false, any, ◌&&◌, String, str_eq, str_eq_iff,
  str_eq_refl, List, [], ◌∷◌, ◌++◌, map, All, In, In-append_right, inl, inr, Bool-cases,
}
use amazon_ecs_agent.ImageManager.State.{
  ImageState, has_image_name, add_image_name, update_container_reference, update_image_state,
}
use amazon_ecs_agent.ImageManager.References.{
  ImageUser, get_image_state, update_found, without_name,
  remove_existing_image_name_of_different_id, found_image,
  add_container_reference_to_existing_image_state, new_image_state,
  add_container_reference_to_new_image_state, Inspection, inspect_failed, inspected,
  record_inspected, record_container_reference,
}
use amazon_ecs_agent.ImageManager.Lists.{IsDistinct}
use amazon_ecs_agent.ImageManager.Distinct.{
  IsDistinct-map, IsDistinct-update_found, IsDistinct-snoc, without_name-KeepsKey,
  update_image_state-KeepsKey, addresses-map, addresses-update_found,
}

any-snoc : (x : String) (xs : List String) → any (λ y. str_eq y x) (xs ++ x ∷ []) ≡ true
unfolding any
any-snoc x [] = rw (str_eq_refl) refl
any-snoc x (y ∷ ys) = ground (arith, any-snoc x ys)

-- The image has the container's image name, and the container among its users.
abbrev pub is_used_by : ImageUser → ImageState → Bool
is_used_by c s = has_image_name c.image s && any (λ n. str_eq n c.name) s.containers

used-update_image_state :
    (c : ImageUser) (s : ImageState)
    → (is_used_by c (update_image_state c.name c.image s) ≡ true)
      × ((update_image_state c.name c.image s).image_id ≡ s.image_id)
      × ((update_image_state c.name c.image s).address ≡ s.address)
unfolding update_image_state add_image_name update_container_reference has_image_name
used-update_image_state c s = ground (arith, any-snoc c.image s.names, any-snoc c.name s.containers)

-- Some state has the id of the container's image, and is used by it.
abbrev pub IsRecorded : ImageUser → List ImageState → Type 0
IsRecorded c ss = (s : ImageState) × In s ss × (s.image_id ≡ c.image_id) × (is_used_by c s ≡ true)

IsRecorded-update_found :
    (c : ImageUser) (ss : List ImageState)
    → found_image (get_image_state c.image_id ss) ≡ true
    → IsRecorded c (update_found c.image_id (update_image_state c.name c.image) ss)
unfolding get_image_state update_found
IsRecorded-update_found c [] h = absurd (ground arith)
IsRecorded-update_found c (s ∷ ss) h = elim (Bool-cases (str_eq s.image_id c.image_id)) [
  | inl here ↦
      let (used, id, _) = used-update_image_state c s in
      rw here (
        update_image_state c.name c.image s,
        inl refl,
        id ∙ (str_eq_iff s.image_id c.image_id).0 here,
        used,
      )
  | inr other ↦
      let (t, m, id, used) = IsRecorded-update_found c ss (ground (arith, h, other)) in
      rw other (t, inr m, id, used)
]

found-false :
    (id : String) (ss : List ImageState)
    → found_image (get_image_state id ss) ≡ false
    → All (λ t. str_eq t.image_id id ≡ false) ss
unfolding get_image_state
found-false id [] h = tt
found-false id (s ∷ ss) h = elim (Bool-cases (str_eq s.image_id id)) [
  | inl here ↦ absurd (ground (arith, h, here))
  | inr other ↦ (other, found-false id ss (ground (arith, h, other)))
]

-- The container is recorded, and the states stay distinct.
abbrev IsGood : ImageUser → List ImageState → Type 0
IsGood c ss = IsRecorded c ss × IsDistinct ss

existing-IsGood :
    (c : ImageUser) (ss : List ImageState)
    → IsDistinct ss
    → (add_container_reference_to_existing_image_state c ss).1 ≡ true
    → IsGood c (add_container_reference_to_existing_image_state c ss).0
unfolding add_container_reference_to_existing_image_state remove_existing_image_name_of_different_id
existing-IsGood c ss d found = (
  IsRecorded-update_found c (map (without_name c.image c.image_id) ss) found,
  IsDistinct-update_found _ (update_image_state-KeepsKey c.name c.image) c.image_id _
      (IsDistinct-map _ (without_name-KeepsKey c.image c.image_id) ss d),
)

module _ (now address : ℕ) where
  new-IsGood :
      (size : ℕ) (c : ImageUser) (ss : List ImageState)
      → IsDistinct ss
      → All (λ s. (s.address == address) ≡ false) ss
      → IsGood c (add_container_reference_to_new_image_state now address size c ss)
  unfolding add_container_reference_to_new_image_state remove_existing_image_name_of_different_id
  new-IsGood size c ss d fresh =
      let others = map (without_name c.image c.image_id) ss in
      let d' = IsDistinct-map _ (without_name-KeepsKey c.image c.image_id) ss d in
      let x = new_image_state now address size c in
      let (used, id, at) = used-update_image_state c x in
      elim (Bool-cases (found_image (get_image_state c.image_id others))) [
        | inl found ↦ rw found (
          IsRecorded-update_found c others found,
          IsDistinct-update_found _ (update_image_state-KeepsKey c.name c.image) c.image_id others
              d',
        )
        | inr missing ↦ rw missing (
          (update_image_state c.name c.image x, In-append_right _ others _ (inl refl), id, used),
          IsDistinct-snoc (update_image_state c.name c.image x) others
              (rw id (found-false c.image_id others missing))
              (rw at (addresses-map _ (without_name-KeepsKey c.image c.image_id) address ss fresh))
              d',
        )
      ]

  fresh-existing :
      (c : ImageUser) (ss : List ImageState)
      → All (λ s. (s.address == address) ≡ false) ss
      → All
          (λ s. (s.address == address) ≡ false)
          (add_container_reference_to_existing_image_state c ss).0
  unfolding add_container_reference_to_existing_image_state
      remove_existing_image_name_of_different_id
  fresh-existing c ss fresh =
      addresses-update_found _ (update_image_state-KeepsKey c.name c.image) address c.image_id _
        (addresses-map _ (without_name-KeepsKey c.image c.image_id) address ss fresh)

  existing-IsDistinct :
      (c : ImageUser) (ss : List ImageState)
      → IsDistinct ss
      → IsDistinct (add_container_reference_to_existing_image_state c ss).0
  unfolding add_container_reference_to_existing_image_state
      remove_existing_image_name_of_different_id
  existing-IsDistinct c ss d =
      IsDistinct-update_found _ (update_image_state-KeepsKey c.name c.image) c.image_id _
        (IsDistinct-map _ (without_name-KeepsKey c.image c.image_id) ss d)

  inspected-IsGood :
      (inspection : Inspection) (c : ImageUser) (ss : List ImageState)
      → IsDistinct ss
      → All (λ s. (s.address == address) ≡ false) ss
      → let (ss', c', ok) = record_inspected now address inspection c ss in
        ok ≡ true → IsGood c' ss'
  inspected-IsGood inspect_failed c ss d fresh ok = absurd (ground (arith, ok))
  inspected-IsGood (inspected id bytes) c0 ss d fresh ok =
      let c = record c0 { image_id = id } in
      elim (Bool-cases ((add_container_reference_to_existing_image_state c ss).1)) [
        | inl added ↦ rw added (existing-IsGood c ss d added)
        | inr missing ↦
            rw missing
              (new-IsGood bytes c _ (existing-IsDistinct c ss d) (fresh-existing c ss fresh))
      ]

  -- When a container's reference is recorded without an error, some state has the id that the container
  -- gets, the container's image name and the container among its users, and the states stay distinct
  -- where they were and where a new one stands at a fresh address.
  pub record_container_reference-IsRecorded :
      (inspection : Inspection) (c : ImageUser) (ss : List ImageState)
      → IsDistinct ss
      → All (λ s. (s.address == address) ≡ false) ss
      → let (ss', c', ok) = record_container_reference now address inspection c ss in
        ok ≡ true → IsRecorded c' ss' × IsDistinct ss'
  unfolding record_container_reference
  record_container_reference-IsRecorded inspection c ss d fresh =
      elim (Bool-cases (str_eq c.image_id "")) [
        | inl unknown ↦ rw unknown (elim (Bool-cases (str_eq c.image "")) [
          | inl unnamed ↦ rw unnamed (λ ok. absurd (ground (arith, ok)))
          | inr named ↦ rw named (inspected-IsGood inspection c ss d fresh)
        ])
        | inr known ↦ rw known (existing-IsGood c ss d)
      ]
