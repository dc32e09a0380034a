-- ===== src/Common/Membership.antt =====
-- Membership in a list, in a form that computes, and what permutations do to it.
use amazon_ecs_agent.Common.Lists.{All}
use mathlib.Core.Path.{refl, sym, subst, ◌≡◌, ◌∙◌}
use mathlib.Core.Logic.{◌⊎◌, inl, inr}
use mathlib.Core.List.{List, [], ◌∷◌, ◌++◌, Permᴰ}

module _ {A : Type 0} where
  abbrev pub In : A → List A → Type 0
  In a [] = ⊥
  In a (x ∷ xs) = (a ≡ x) ⊎ In a xs

  pub In-append_left : (a : A) (xs ys : List A) → In a xs → In a (xs ++ ys)
  In-append_left a [] ys h = absurd h
  In-append_left a (x ∷ xs) ys (inl e) = inl e
  In-append_left a (x ∷ xs) ys (inr h) = inr (In-append_left a xs ys h)

  pub In-append_right : (a : A) (xs ys : List A) → In a ys → In a (xs ++ ys)
  In-append_right a [] ys h = h
  In-append_right a (x ∷ xs) ys h = inr (In-append_right a xs ys h)

  pub In-append : (a : A) (xs ys : List A) → In a (xs ++ ys) → In a xs ⊎ In a ys
  In-append a [] ys h = inr h
  In-append a (x ∷ xs) ys (inl e) = inl (inl e)
  In-append a (x ∷ xs) ys (inr h) = elim (In-append a xs ys h) [
    | inl here ↦ inl (inr here)
    | inr there ↦ inr there
  ]

  pub All-of : (P : A → Type 0) (xs : List A) → ((a : A) → In a xs → P a) → All P xs
  All-of P [] h = tt
  All-of P (x ∷ xs) h = (h x (inl refl), All-of P xs (λ a m. h a (inr m)))

  pub In_All : (P : A → Type 0) (xs : List A) → All P xs → (a : A) → In a xs → P a
  In_All P [] h a m = absurd m
  In_All P (x ∷ xs) (h, hs) a (inl e) = subst P (sym e) h
  In_All P (x ∷ xs) (h, hs) a (inr m) = In_All P xs hs a m

  -- Permuted lists have the same members.
  pub In-perm : {xs ys : List A} → Permᴰ xs ys → (a : A) → In a xs → In a ys
  In-perm Permᴰ.nil a h = absurd h
  In-perm (Permᴰ.cons e p) a (inl here) = inl (here ∙ e)
  In-perm (Permᴰ.cons e p) a (inr there) = inr (In-perm p a there)
  In-perm (Permᴰ.swap e f) a (inl here) = inr (inl (here ∙ e))
  In-perm (Permᴰ.swap e f) a (inr (inl here)) = inl (here ∙ f)
  In-perm (Permᴰ.swap e f) a (inr (inr there)) = inr (inr there)
  In-perm (Permᴰ.trans p q) a h = In-perm q a (In-perm p a h)
