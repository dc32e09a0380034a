-- ===== src/ImageManager/Distinct.antt =====
-- The calls on image states that keep every state's address and id, and so keep them distinct.
use amazon_ecs_agent.Common.{
  ℕ, ◌==◌, ◌≡◌, arith, true, false, not, ◌&&◌, String, str_eq, str_eq_iff, List, [], ◌∷◌, ◌++◌, map,
  All, inl, inr, Bool-cases,
}
use amazon_ecs_agent.ImageManager.State.{
  ImageState, add_image_name, update_container_reference, update_image_state, remove_image_name,
}
use amazon_ecs_agent.ImageManager.References.{update_found, without_name}
use amazon_ecs_agent.ImageManager.Lists.{IsDistinct}

-- A change of a state that keeps its address and its id.
abbrev pub KeepsKey : (ImageState → ImageState) → Type 0
KeepsKey f = (s : ImageState) → ((f s).address ≡ s.address) × ((f s).image_id ≡ s.image_id)

module _ (f : ImageState → ImageState) (keep : KeepsKey f) where
  apart-right :
      (s : ImageState) (ts : List ImageState)
      → All (λ t. (not (t.address == s.address) && not (str_eq t.image_id s.image_id)) ≡ true) ts
      → All
          (λ t. (not (t.address == (f s).address) && not (str_eq t.image_id (f s).image_id)) ≡ true)
          ts
  apart-right s ts h = rw ((keep s).0, (keep s).1) h

  apart-left :
      (s t : ImageState)
      → (not (t.address == s.address) && not (str_eq t.image_id s.image_id)) ≡ true
      → (not ((f t).address == s.address) && not (str_eq (f t).image_id s.image_id)) ≡ true
  apart-left s t h = rw ((keep t).0, (keep t).1) h

  apart-map :
      (s : ImageState) (ts : List ImageState)
      → All (λ t. (not (t.address == s.address) && not (str_eq t.image_id s.image_id)) ≡ true) ts
      → All
          (λ t. (not (t.address == s.address) && not (str_eq t.image_id s.image_id)) ≡ true)
          (map f ts)
  apart-map s [] h = tt
  apart-map s (t ∷ ts) (h, hs) = (apart-left s t h, apart-map s ts hs)

  apart-update_found :
      (id : String) (s : ImageState) (ts : List ImageState)
      → All (λ t. (not (t.address == s.address) && not (str_eq t.image_id s.image_id)) ≡ true) ts
      → All
          (λ t. (not (t.address == s.address) && not (str_eq t.image_id s.image_id)) ≡ true)
          (update_found id f ts)
  unfolding update_found
  apart-update_found id s [] h = tt
  apart-update_found id s (t ∷ ts) (h, hs) = elim (Bool-cases (str_eq t.image_id id)) [
    | inl here ↦ rw here (apart-left s t h, hs)
    | inr other ↦ rw other (h, apart-update_found id s ts hs)
  ]

  pub IsDistinct-map : (ss : List ImageState) → IsDistinct ss → IsDistinct (map f ss)
  IsDistinct-map [] d = tt
  IsDistinct-map (s ∷ ss) (d, ds) =
      (apart-right s (map f ss) (apart-map s ss d), IsDistinct-map ss ds)

  pub IsDistinct-update_found :
      (id : String) (ss : List ImageState) → IsDistinct ss → IsDistinct (update_found id f ss)
  unfolding update_found
  IsDistinct-update_found id [] d = tt
  IsDistinct-update_found id (s ∷ ss) (d, ds) = elim (Bool-cases (str_eq s.image_id id)) [
    | inl here ↦ rw here (apart-right s ss d, ds)
    | inr other ↦ rw other (apart-update_found id s ss d, IsDistinct-update_found id ss ds)
  ]

pub IsDistinct-snoc :
    (x : ImageState) (ss : List ImageState)
    → All (λ s. str_eq s.image_id x.image_id ≡ false) ss
    → All (λ s. (s.address == x.address) ≡ false) ss
    → IsDistinct ss
    → IsDistinct (ss ++ x ∷ [])
IsDistinct-snoc x [] ids addresses d = (tt, tt)
IsDistinct-snoc x (s ∷ ss) (i, is) (a, as') (d, ds) =
    (apart_snoc ss d, IsDistinct-snoc x ss is as' ds)
  where
    apart_snoc :
        (ts : List ImageState)
        → All (λ t. (not (t.address == s.address) && not (str_eq t.image_id s.image_id)) ≡ true) ts
        → All
            (λ t. (not (t.address == s.address) && not (str_eq t.image_id s.image_id)) ≡ true)
            (ts ++ x ∷ [])
    apart_snoc [] h = (
      ground (arith, i, a, str_eq_iff s.image_id x.image_id, str_eq_iff x.image_id s.image_id),
      tt,
    )
    apart_snoc (t ∷ ts) (h, hs) = (h, apart_snoc ts hs)

pub without_name-KeepsKey : (name id : String) → KeepsKey (without_name name id)
unfolding remove_image_name
without_name-KeepsKey name id s = ground arith

pub update_image_state-KeepsKey :
    (container image : String) → KeepsKey (update_image_state container image)
unfolding update_image_state add_image_name update_container_reference
update_image_state-KeepsKey container image s = ground arith

module _ (f : ImageState → ImageState) (keep : KeepsKey f) (address : ℕ) where
  pub addresses-map :
      (ss : List ImageState)
      → All (λ s. (s.address == address) ≡ false) ss
      → All (λ s. (s.address == address) ≡ false) (map f ss)
  addresses-map [] h = tt
  addresses-map (s ∷ ss) (h, hs) = (rw ((keep s).0) h, addresses-map ss hs)

  pub addresses-update_found :
      (id : String) (ss : List ImageState)
      → All (λ s. (s.address == address) ≡ false) ss
      → All (λ s. (s.address == address) ≡ false) (update_found id f ss)
  unfolding update_found
  addresses-update_found id [] h = tt
  addresses-update_found id (s ∷ ss) (h, hs) = elim (Bool-cases (str_eq s.image_id id)) [
    | inl here ↦ rw here (rw ((keep s).0) h, hs)
    | inr other ↦ rw other (h, addresses-update_found id ss hs)
  ]
