-- ===== src/ImageManager/Lists.antt =====
-- Lists of image states: what calls on one of them leave alone.
use amazon_ecs_agent.Common.{
  ℕ, ◌==◌, ◌≡◌, refl, sym, arith, Bool, true, false, not, ◌&&◌, ◌||◌, if◌then◌else◌, String, str_eq,
  str_eq_iff, List, [], ◌∷◌, All, In, In_All, subst, inl, inr, Bool-cases,
}
use amazon_ecs_agent.ImageManager.State.{ImageState, remove_image_name}
use amazon_ecs_agent.ImageManager.Cleanup.{update_at, remove_image_state}

-- Go's `filter`-like loops: the elements that pass a test, in order.
unfoldable pub filter {ℓ} : {A : Type ℓ} → (A → Bool) → List A → List A
filter p [] = []
filter p (x ∷ xs) = let rest = filter p xs in if p x then x ∷ rest else rest

-- The elements that pass the test stand at other addresses, and have other ids.
abbrev pub IsElsewhere : (ImageState → Bool) → ℕ → String → List ImageState → Type 0
IsElsewhere p address id =
    All (λ s. (not (p s) || (not (s.address == address) && not (str_eq s.image_id id))) ≡ true)

module _ (p : ImageState → Bool) (address : ℕ) (id : String) where
  pub filter-update_at :
      (f : ImageState → ImageState) (ss : List ImageState)
      → ((s : ImageState) → p s ≡ false → p (f s) ≡ false)
      → IsElsewhere p address id ss
      → filter p (update_at address f ss) ≡ filter p ss
  unfolding filter update_at
  filter-update_at f [] keep h = refl
  filter-update_at f (s ∷ ss) keep (h, hs) = ground (arith, keep s, filter-update_at f ss keep hs)

  pub IsElsewhere-update_at :
      (f : ImageState → ImageState) (ss : List ImageState)
      → ((s : ImageState) → p s ≡ false → p (f s) ≡ false)
      → IsElsewhere p address id ss
      → IsElsewhere p address id (update_at address f ss)
  unfolding update_at
  IsElsewhere-update_at f [] keep h = tt
  IsElsewhere-update_at f (s ∷ ss) keep (h, hs) = elim (Bool-cases (s.address == address)) [
    | inl here ↦ rw here (ground (arith, keep s), hs)
    | inr other ↦ rw other (h, IsElsewhere-update_at f ss keep hs)
  ]

  pub filter-remove_image_state :
      (ss : List ImageState)
      → IsElsewhere p address id ss
      → filter p (remove_image_state id ss) ≡ filter p ss
  unfolding filter remove_image_state
  filter-remove_image_state [] h = refl
  filter-remove_image_state (s ∷ ss) (h, hs) = ground (arith, filter-remove_image_state ss hs)

  pub IsElsewhere-remove_image_state :
      (ss : List ImageState)
      → IsElsewhere p address id ss
      → IsElsewhere p address id (remove_image_state id ss)
  unfolding remove_image_state
  IsElsewhere-remove_image_state [] h = tt
  IsElsewhere-remove_image_state (s ∷ ss) (h, hs) = elim (Bool-cases (str_eq s.image_id id)) [
    | inl here ↦ rw here hs
    | inr other ↦ rw other (h, IsElsewhere-remove_image_state ss hs)
  ]

-- No two states have the same address or the same id.
abbrev pub IsDistinct : List ImageState → Type 0
IsDistinct [] = Unit
IsDistinct (s ∷ ss) =
    All (λ t. (not (t.address == s.address) && not (str_eq t.image_id s.image_id)) ≡ true) ss
    × IsDistinct ss

pub All-update_at :
    (P : ImageState → Type 0) (address : ℕ) (f : ImageState → ImageState) (ss : List ImageState)
    → ((s : ImageState) → P s → P (f s))
    → All P ss
    → All P (update_at address f ss)
unfolding update_at
All-update_at P address f [] keep h = tt
All-update_at P address f (s ∷ ss) keep (h, hs) = elim (Bool-cases (s.address == address)) [
  | inl here ↦ rw here (keep s h, hs)
  | inr other ↦ rw other (h, All-update_at P address f ss keep hs)
]

pub All-remove_image_state :
    (P : ImageState → Type 0) (id : String) (ss : List ImageState)
    → All P ss
    → All P (remove_image_state id ss)
unfolding remove_image_state
All-remove_image_state P id [] h = tt
All-remove_image_state P id (s ∷ ss) (h, hs) = elim (Bool-cases (str_eq s.image_id id)) [
  | inl here ↦ rw here hs
  | inr other ↦ rw other (h, All-remove_image_state P id ss hs)
]

pub All-mono :
    (P Q : ImageState → Type 0) (ss : List ImageState)
    → ((s : ImageState) → P s → Q s)
    → All P ss
    → All Q ss
All-mono P Q [] imp h = tt
All-mono P Q (s ∷ ss) imp (h, hs) = (imp s h, All-mono P Q ss imp hs)

pub IsDistinct-update_at :
    (address : ℕ) (name : String) (ss : List ImageState)
    → IsDistinct ss
    → IsDistinct (update_at address (remove_image_name name) ss)
unfolding update_at remove_image_name
IsDistinct-update_at address name [] h = tt
IsDistinct-update_at address name (s ∷ ss) (h, hs) = elim (Bool-cases (s.address == address)) [
  | inl here ↦ rw here (h, hs)
  | inr other ↦ rw other (
    All-update_at _ address (remove_image_name name) ss (λ t k. k) h,
    IsDistinct-update_at address name ss hs,
  )
]

pub IsDistinct-remove_image_state :
    (id : String) (ss : List ImageState) → IsDistinct ss → IsDistinct (remove_image_state id ss)
unfolding remove_image_state
IsDistinct-remove_image_state id [] h = tt
IsDistinct-remove_image_state id (s ∷ ss) (h, hs) = elim (Bool-cases (str_eq s.image_id id)) [
  | inl here ↦ rw here hs
  | inr other ↦ rw other (All-remove_image_state _ id ss h, IsDistinct-remove_image_state id ss hs)
]

-- The one state at its address and with its id fails the test.
pub IsDistinct-IsElsewhere :
    (p : ImageState → Bool) (s : ImageState) (ss : List ImageState)
    → IsDistinct ss
    → In s ss
    → p s ≡ false
    → IsElsewhere p s.address s.image_id ss
IsDistinct-IsElsewhere p s [] d m fails = tt
IsDistinct-IsElsewhere p s (t ∷ ts) (d, ds) (inl e) fails = (
  subst
      (λ (x : ImageState).
        (not (p x) || (not (x.address == s.address) && not (str_eq x.image_id s.image_id))) ≡ true)
      e (ground arith),
  All-mono _ _ ts (λ x k. ground (arith, k))
      (subst
        (λ (x : ImageState).
          All (λ y. (not (y.address == x.address) && not (str_eq y.image_id x.image_id)) ≡ true) ts)
        (sym e) d),
)
IsDistinct-IsElsewhere p s (t ∷ ts) (d, ds) (inr m) fails =
    let apart = In_All _ ts d s m in
    (
      ground (arith, apart, str_eq_iff s.image_id t.image_id, str_eq_iff t.image_id s.image_id),
      IsDistinct-IsElsewhere p s ts ds m fails,
    )
