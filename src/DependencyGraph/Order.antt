-- ===== src/DependencyGraph/Order.antt =====
-- `ValidDependencies` decides whether a task's containers can be brought up in some order.
use amazon_ecs_agent.Common.{
  ℕ, zero, suc, ◌≤◌, true, ◌≡◌, refl, sym, ap, ◌⊎◌, inl, inr, ◌≢◌, arith, Option, none, some, List,
  [], ◌∷◌, ◌++◌, length, Option-cases, Bool-cases, In, In-append_left, In-append_right, In-append,
  In-perm, ◌∙◌, subst,
}
use mathlib.Core.Bool.{Bool-set}
use mathlib.Core.Logic.{∥∥₁_elim}
use mathlib.Core.List.{Perm, Permᴰ}
use mathlib.Core.List.Permᴰ
use amazon_ecs_agent.Container.{Container, Time}
use amazon_ecs_agent.DependencyGraph.Validity.{
  dependencies_can_be_resolved, take_resolvable, resolve_loop, valid_dependencies, is_some,
}
use amazon_ecs_agent.DependencyGraph.Names.{Unambiguous}
use amazon_ecs_agent.DependencyGraph.Backward.{
  DependsBackward, dependencies_can_be_resolved-IsNamedIn,
}
use amazon_ecs_agent.DependencyGraph.Monotone.{dependencies_can_be_resolved_mono}

-- Each container of the list can be resolved by those of `by` and those before it.
abbrev pub ResolvesInOrder : Time → List Container → List Container → Type 0
ResolvesInOrder now by [] = Unit
ResolvesInOrder now by (c ∷ cs) =
    (dependencies_can_be_resolved now c by ≡ true) × ResolvesInOrder now (by ++ c ∷ []) cs

length-perm : {xs ys : List Container} → Permᴰ xs ys → length xs ≡ length ys
length-perm Permᴰ.nil = refl
length-perm (Permᴰ.cons e p) = ap suc (length-perm p)
length-perm (Permᴰ.swap e f) = refl
length-perm (Permᴰ.trans p q) = length-perm p ∙ length-perm q

-- A container goes from the head of one list to the end of another.
moved_right :
    (y : Container) (by : List Container) (d : Container) (ds : List Container)
    → In y by ⊎ In y (d ∷ ds)
    → In y (by ++ d ∷ []) ⊎ In y ds
moved_right y by d ds (inl m) = inl (In-append_left y by (d ∷ []) m)
moved_right y by d ds (inr (inl e)) = inl (In-append_right y by (d ∷ []) (inl e))
moved_right y by d ds (inr (inr m)) = inr m

moved_left :
    (y : Container) (by : List Container) (d : Container) (ds : List Container)
    → In y (by ++ d ∷ []) ⊎ In y ds
    → In y by ⊎ In y (d ∷ ds)
moved_left y by d ds (inr m) = inr (inr m)
moved_left y by d ds (inl m) = elim (In-append y by (d ∷ []) m) [
  | inl here ↦ inl here
  | inr is_d ↦ elim is_d [ inl e ↦ inr (inl e) | inr no_more ↦ absurd no_more ]
]

module _ (now : Time) where
  -- What the inner loop takes can be resolved, and the others are left.
  take_resolvable_sound :
      (by cs : List Container) (d : Container) (ds : List Container)
      → take_resolvable now by cs ≡ some (d, ds)
      → (dependencies_can_be_resolved now d by ≡ true) × Permᴰ cs (d ∷ ds)
  unfolding take_resolvable
  take_resolvable_sound by [] d ds h = absurd (ground arith)
  take_resolvable_sound by (c ∷ cs) d ds h =
      elim (Bool-cases (dependencies_can_be_resolved now c by)) [
        | inl e ↦ (
          ground arith,
          Permᴰ.cons (ground arith) (subst (Permᴰ cs) (ground arith) (Permᴰ.refl cs)),
        )
        | inr e ↦ elim (Option-cases (take_resolvable now by cs)) [
          | inl none_left ↦ absurd (ground arith)
          | inr ((x, xs), found) ↦
              let (ok, perm) = take_resolvable_sound by cs x xs found in
              (
                subst (λ y. dependencies_can_be_resolved now y by ≡ true) (ground arith) ok,
                subst (λ y. Permᴰ (c ∷ cs) (y ∷ ds)) (ground arith)
                    (subst (λ ys. Permᴰ (c ∷ cs) (x ∷ ys)) (ground arith)
                      (Permᴰ.trans (Permᴰ.cons refl perm) (Permᴰ.swap refl refl))),
              )
        ]
      ]

  -- The inner loop misses no container that can be resolved.
  take_resolvable_complete :
      (by cs : List Container) (c : Container)
      → In c cs
      → dependencies_can_be_resolved now c by ≡ true
      → take_resolvable now by cs ≢ none
  unfolding take_resolvable
  take_resolvable_complete by [] c m h = absurd m
  take_resolvable_complete by (x ∷ cs) c (inl e) h =
      ground (arith, ap (λ y. dependencies_can_be_resolved now y by) e)
  take_resolvable_complete by (x ∷ cs) c (inr m) h =
      ground (arith, take_resolvable_complete by cs c m h)

  resolve_loop_sound :
      (rounds : ℕ) (by cs r : List Container)
      → resolve_loop now rounds by cs ≡ some r
      → (order : List Container) × Permᴰ cs order × ResolvesInOrder now by order
  unfolding resolve_loop
  resolve_loop_sound rounds by [] r h = ([], Permᴰ.nil, tt)
  resolve_loop_sound zero by (c ∷ cs) r h = absurd (ground arith)
  resolve_loop_sound (suc rounds) by (c ∷ cs) r h =
      elim (Option-cases (take_resolvable now by (c ∷ cs))) [
        | inl e ↦ absurd (ground arith)
        | inr ((d, ds), e) ↦
            let (ok, perm) = take_resolvable_sound by (c ∷ cs) d ds e in
            let (order, rest, res) = resolve_loop_sound rounds (by ++ d ∷ []) ds r (ground arith) in
            (d ∷ order, Permᴰ.trans perm (Permᴰ.cons refl rest), (ok, res))
      ]

  -- While some container is left, the order that is known to exist shows one that can be resolved.
  take_resolvable_progress :
      (pre order by cs : List Container) (x : Container)
      → Unambiguous by
      → ((y : Container) → In y pre → In y by)
      → ((y : Container) → In y order → In y by ⊎ In y cs)
      → In x order
      → In x cs
      → ResolvesInOrder now pre order
      → take_resolvable now by cs ≢ none
  take_resolvable_progress pre [] by cs x u sub cover m left res = absurd m
  take_resolvable_progress pre (o ∷ order) by cs x u sub cover m left res =
      elim (cover o (inl refl)) [
        | inr o_left ↦
            take_resolvable_complete by cs o o_left
              (dependencies_can_be_resolved_mono now o pre by u sub res.0)
        | inl o_done ↦ elim m [
          | inl e ↦
              take_resolvable_complete by cs o (subst (λ y. In y cs) e left)
                (dependencies_can_be_resolved_mono now o pre by u sub res.0)
          | inr later ↦
              take_resolvable_progress (pre ++ o ∷ []) order by cs x u
                (λ y my. elim (In-append y pre (o ∷ []) my) [
                  | inl my' ↦ sub y my'
                  | inr is_o ↦ elim is_o [
                    | inl e ↦ subst (λ z. In z by) (sym e) o_done
                    | inr no_more ↦ absurd no_more
                  ]
                ])
                (λ y my. cover y (inr my)) later left res.1
        ]
      ]

  module _ (order : List Container) (u : Unambiguous order)
      (res : ResolvesInOrder now [] order) where
    resolve_loop_complete :
        (rounds : ℕ) (by cs : List Container)
        → length cs ≤ rounds
        → ((y : Container) → In y order → In y by ⊎ In y cs)
        → ((y : Container) → In y by ⊎ In y cs → In y order)
        → resolve_loop now rounds by cs ≢ none
    unfolding resolve_loop
    resolve_loop_complete rounds by [] fits cover inside = ground arith
    resolve_loop_complete zero by (c ∷ cs) fits cover inside = absurd (omega arith)
    resolve_loop_complete (suc rounds) by (c ∷ cs) fits cover inside =
        elim (Option-cases (take_resolvable now by (c ∷ cs))) [
          | inl e ↦ absurd (
              take_resolvable_progress [] order by (c ∷ cs) c
                (λ x y mx my. u x y (inside x (inl mx)) (inside y (inl my))) (λ y m. absurd m) cover
                (inside c (inr (inl refl))) (inl refl) res e)
          | inr ((d, ds), e) ↦
              let (ok, perm) = take_resolvable_sound by (c ∷ cs) d ds e in
              rw (e, resolve_loop)
                (resolve_loop_complete rounds (by ++ d ∷ []) ds (omega (arith, length-perm perm))
                  (λ y m.
                    moved_right y by d ds
                      (elim (cover y m) [ inl a ↦ inl a | inr b ↦ inr (In-perm perm y b) ]))
                  (λ y m. inside y (elim (moved_left y by d ds m) [
                    | inl a ↦ inl a
                    | inr b ↦ inr (In-perm (Permᴰ.symm perm) y b)
                  ])))
        ]

some_of : (o : Option (List Container)) → is_some o ≡ true → (r : List Container) × (o ≡ some r)
some_of none h = absurd (ground arith)
some_of (some r) h = (r, refl)

is_some_of : (o : Option (List Container)) → o ≢ none → is_some o ≡ true
is_some_of none h = absurd (h refl)
is_some_of (some r) h = refl

ResolvesInOrder-DependsBackward :
    (now : Time) (by order : List Container)
    → ResolvesInOrder now by order
    → DependsBackward by order
ResolvesInOrder-DependsBackward now by [] h = tt
ResolvesInOrder-DependsBackward now by (c ∷ cs) (ok, rest) = (
  dependencies_can_be_resolved-IsNamedIn now c by ok,
  ResolvesInOrder-DependsBackward now (by ++ c ∷ []) cs rest,
)

-- A task that passes has an order of all its containers in which each can be resolved by those before
-- it: each container whose goal is CREATED or its steady state depends by `dependsOn` only on names that
-- containers before it have.
pub valid_dependencies_sound :
    (now : Time) (containers : List Container)
    → valid_dependencies now containers ≡ true
    → (order : List Container) × Perm containers order
      × ResolvesInOrder now [] order
      × DependsBackward [] order
unfolding valid_dependencies
valid_dependencies_sound now containers h =
    let (r, e) = some_of (resolve_loop now (length containers) [] containers) h in
    let (order, perm, res) = resolve_loop_sound now (length containers) [] containers r e in
    (order, ∣ perm ∣₁, res, ResolvesInOrder-DependsBackward now [] order res)

-- If no two containers share a name, and there is an order of them in which each can be resolved by
-- those before it, then the task passes: taking the first container that fits never misses an
-- order, and the rounds suffice.
pub valid_dependencies_complete :
    (now : Time) (containers order : List Container)
    → Unambiguous order
    → Perm containers order
    → ResolvesInOrder now [] order
    → valid_dependencies now containers ≡ true
unfolding valid_dependencies
valid_dependencies_complete now containers order u perm res = ∥∥₁_elim perm (Bool-set _ _) λ p.
    is_some_of (resolve_loop now (length containers) [] containers) (
      resolve_loop_complete now order u res (length containers) [] containers (omega arith)
        (λ y m. inr (In-perm (Permᴰ.symm p) y m))
        (λ y m. elim m [ inl a ↦ absurd a | inr b ↦ In-perm p y b ]))
