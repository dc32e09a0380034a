-- ===== src/DependencyGraph/Names.antt =====
-- What the map from names to containers holds when no two containers share a name.
use amazon_ecs_agent.Common.{
  ◌≡◌, refl, ap, ◌⊎◌, inl, inr, arith, String, some, List, [], ◌∷◌, lookup, insert, lookup-insert,
  str_eq_iff, string_key, In, subst,
}
use amazon_ecs_agent.Container.{Container}
use amazon_ecs_agent.DependencyGraph.Conditions.{add_names, name_map}

-- A name stands for one container.
abbrev pub Unambiguous : List Container → Type 0
Unambiguous cs = (x y : Container) → In x cs → In y cs → x.name ≡ y.name → x ≡ y

-- What a larger map still finds.
abbrev pub Extends : List (String × Container) → List (String × Container) → Type 0
Extends larger names =
    (n : String) (c : Container) → lookup n names ≡ some c → lookup n larger ≡ some c

-- A container that is found was listed under its name, or was in the map before.
lookup-add_names :
    (n : String) (c : Container) (names : List (String × Container)) (cs : List Container)
    → lookup n (add_names names cs) ≡ some c
    → (In c cs × (c.name ≡ n)) ⊎ (lookup n names ≡ some c)
unfolding add_names
lookup-add_names n c names [] h = inr h
lookup-add_names n c names (d ∷ cs) h = ground (
  arith,
  lookup-add_names n c (insert d.name d names) cs h,
  lookup-insert d.name n d names,
  str_eq_iff d.name n,
)

pub lookup-name_map_sound :
    (n : String) (c : Container) (by : List Container)
    → lookup n (name_map by) ≡ some c
    → In c by × (c.name ≡ n)
unfolding name_map lookup
lookup-name_map_sound n c by h = elim (lookup-add_names n c [] by h) [
  | inl found ↦ found
  | inr old ↦ absurd (ground arith)
]

-- A container stays in the map while containers of other names, or itself, are added.
lookup-add_names_keep :
    (c : Container) (names : List (String × Container)) (cs : List Container)
    → lookup c.name names ≡ some c
    → ((d : Container) → In d cs → d.name ≡ c.name → d ≡ c)
    → lookup c.name (add_names names cs) ≡ some c
unfolding add_names
lookup-add_names_keep c names [] h same = h
lookup-add_names_keep c names (d ∷ cs) h same =
    lookup-add_names_keep c (insert d.name d names) cs
      (ground
        (arith, lookup-insert d.name c.name d names, str_eq_iff d.name c.name, same d (inl refl)))
      (λ e m. same e (inr m))

lookup-add_names_complete :
    (c : Container) (names : List (String × Container)) (cs : List Container)
    → In c cs
    → ((d : Container) → In d cs → d.name ≡ c.name → d ≡ c)
    → lookup c.name (add_names names cs) ≡ some c
unfolding add_names
lookup-add_names_complete c names [] m same = absurd m
lookup-add_names_complete c names (d ∷ cs) (inl e) same =
    lookup-add_names_keep c (insert d.name d names) cs
      (ground (
        arith,
        lookup-insert d.name c.name d names,
        str_eq_iff d.name c.name,
        ap (λ (x : Container). x.name) e,
      ))
      (λ x m. same x (inr m))
lookup-add_names_complete c names (d ∷ cs) (inr m) same =
    lookup-add_names_complete c (insert d.name d names) cs m (λ x p. same x (inr p))

pub lookup-name_map_complete :
    (c : Container) (by : List Container)
    → In c by
    → Unambiguous by
    → lookup c.name (name_map by) ≡ some c
unfolding name_map
lookup-name_map_complete c by m u = lookup-add_names_complete c [] by m (λ d p e. u d c p m e)

-- With more containers, but no name used twice, the map finds all that it found.
pub name_map-Extends :
    (by more : List Container)
    → Unambiguous more
    → ((c : Container) → In c by → In c more)
    → Extends (name_map more) (name_map by)
name_map-Extends by more u sub n c h =
    let (m, e) = lookup-name_map_sound n c by h in
    subst (λ k. lookup k (name_map more) ≡ some c) e (lookup-name_map_complete c more (sub c m) u)
