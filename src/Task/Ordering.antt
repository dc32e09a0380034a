-- ===== src/Task/Ordering.antt =====
-- The dependencies that come from volumes and links.
use amazon_ecs_agent.Common.{
  ◌≡◌, refl, sym, ap, ◌∙◌, arith, Bool, true, false, if◌then◌else◌, String, Option, none, some,
  List, [], ◌∷◌, ◌++◌, map, Bool-cases, Option-cases, ◌⊎◌, inl, inr,
}
use mathlib.Core.List.{append_assoc, append-nil}
use amazon_ecs_agent.Container.{Container, DependsOn, add_container_dependency}
use amazon_ecs_agent.Task.Types.{find_container}
use amazon_ecs_agent.Task.Setup.{
  OrderingError, could_not_find_container, invalid_link_format, is_found, depend_on_names,
  depend_on_all, volume_sources, container_ordering_create_condition,
  container_ordering_start_condition, link_names, initialize_container_ordering_for_volumes,
  initialize_container_ordering_for_links, initialize_container_ordering,
}

-- The first name on a list that cannot be read or that no container has.
abbrev pub first_problem : List Container → List (Option String) → Option OrderingError
first_problem all [] = none
first_problem all (none ∷ ns) = some invalid_link_format
first_problem all (some n ∷ ns) =
    let rest = first_problem all ns in
    if is_found (find_container n all) then rest else some (could_not_find_container n)

abbrev pub is_problem : Option OrderingError → Bool
is_problem none = false
is_problem (some e) = true

-- The names of all containers, in their order.
abbrev pub all_names : (Container → List (Option String)) → List Container → List (Option String)
all_names names [] = []
all_names names (c ∷ cs) = names c ++ all_names names cs

abbrev pub depend : String → List (Option String) → List DependsOn
depend condition [] = []
depend condition (none ∷ ns) = depend condition ns
depend condition (some n ∷ ns) =
    record { container_name = n; condition = condition } ∷ depend condition ns

-- A container with a dependency on each name after the ones that it has.
abbrev pub with_names : String → (Container → List (Option String)) → Container → Container
with_names condition names c = record c { depends_on = c.depends_on ++ depend condition (names c) }

names_lem :
    (all : List Container) (condition : String) (ns : List (Option String)) (c : Container)
    → ((depend_on_names all condition ns c).1 ≡ first_problem all ns)
      × (first_problem all ns ≡ none
          → (depend_on_names all condition ns c).0
            ≡ record c { depends_on = c.depends_on ++ depend condition ns })
unfolding depend_on_names add_container_dependency
names_lem all condition [] c = (
  refl,
  λ h. ap (λ (ds : List DependsOn). record c { depends_on = ds }) (sym (append-nil c.depends_on)),
)
names_lem all condition (none ∷ ns) c = (refl, λ h. absurd (ground (arith, h)))
names_lem all condition (some n ∷ ns) c =
    let (err, done) = names_lem all condition ns (add_container_dependency n condition c) in
    elim (Bool-cases (is_found (find_container n all))) [
      | inl found ↦ rw found (
        err,
        λ h.
            done h
            ∙ ap (λ (ds : List DependsOn). record c { depends_on = ds })
                (append_assoc c.depends_on
                  (record { container_name = n; condition = condition } ∷ [])
                  (depend condition ns)),
      )
      | inr missing ↦ rw missing (refl, λ h. absurd (ground (arith, h)))
    ]

first_problem-append :
    (all : List Container) (ns ms : List (Option String))
    → first_problem all (ns ++ ms)
      ≡ elim (first_problem all ns) [ none ↦ first_problem all ms | some e ↦ some e ]
first_problem-append all [] ms = refl
first_problem-append all (none ∷ ns) ms = refl
first_problem-append all (some n ∷ ns) ms = elim (Bool-cases (is_found (find_container n all))) [
  | inl found ↦ rw found (first_problem-append all ns ms)
  | inr missing ↦ rw missing refl
]

all_lem :
    (all : List Container) (condition : String) (names : Container → List (Option String))
    (cs : List Container)
    → ((depend_on_all all condition names cs).1 ≡ first_problem all (all_names names cs))
      × (first_problem all (all_names names cs) ≡ none
          → (depend_on_all all condition names cs).0 ≡ map (with_names condition names) cs)
unfolding depend_on_all
all_lem all condition names [] = (refl, λ h. refl)
all_lem all condition names (c ∷ cs) =
    let (err, done) = names_lem all condition (names c) c in
    let (errs, rest) = all_lem all condition names cs in
    let split = first_problem-append all (names c) (all_names names cs) in
    elim (Option-cases (first_problem all (names c))) [
      | inl fine ↦
          rw (err, split, fine, done fine)
            (errs, λ h. ap (λ (xs : List Container). with_names condition names c ∷ xs) (rest h))
      | inr (problem, e) ↦ rw (err, split, e) (refl, λ h. absurd (ground (arith, h)))
    ]

-- The containers' names are the same.
found-map :
    (condition name : String) (names : Container → List (Option String)) (cs : List Container)
    → is_found (find_container name (map (with_names condition names) cs))
      ≡ is_found (find_container name cs)
unfolding find_container
found-map condition name names [] = refl
found-map condition name names (c ∷ cs) = ground (arith, found-map condition name names cs)

first_problem-map :
    (condition : String) (names : Container → List (Option String)) (cs : List Container)
    (ns : List (Option String))
    → first_problem (map (with_names condition names) cs) ns ≡ first_problem cs ns
first_problem-map condition names cs [] = refl
first_problem-map condition names cs (none ∷ ns) = refl
first_problem-map condition names cs (some n ∷ ns) =
    rw (found-map condition n names cs, first_problem-map condition names cs ns) refl

links_same :
    (split : String → List String) (cs : List Container)
    → all_names
        (link_names split)
        (map (with_names container_ordering_create_condition volume_sources) cs)
      ≡ all_names (link_names split) cs
links_same split [] = refl
links_same split (c ∷ cs) =
    ap (λ (ns : List (Option String)). link_names split c ++ ns) (links_same split cs)

-- A container with a dependency on each source of its volumes and on each of its links.
abbrev pub ordered : (String → List String) → Container → Container
ordered split c = record c {
  depends_on =
      (c.depends_on ++ depend container_ordering_create_condition (volume_sources c))
      ++ depend container_ordering_start_condition (link_names split c);
}

map-ordered :
    (split : String → List String) (cs : List Container)
    → map
        (with_names container_ordering_start_condition (link_names split))
        (map (with_names container_ordering_create_condition volume_sources) cs)
      ≡ map (ordered split) cs
map-ordered split [] = refl
map-ordered split (c ∷ cs) =
    ap (λ (xs : List Container). ordered split c ∷ xs) (map-ordered split cs)

initialize_container_ordering-both :
    (split : String → List String) (cs : List Container)
    → ((initialize_container_ordering split cs).1
        ≡ first_problem cs (all_names volume_sources cs ++ all_names (link_names split) cs))
      × (first_problem cs (all_names volume_sources cs ++ all_names (link_names split) cs) ≡ none
          → (initialize_container_ordering split cs).0 ≡ map (ordered split) cs)
unfolding initialize_container_ordering initialize_container_ordering_for_volumes
    initialize_container_ordering_for_links
initialize_container_ordering-both split cs =
    let (err, done) = all_lem cs container_ordering_create_condition volume_sources cs in
    let both =
      first_problem-append cs (all_names volume_sources cs) (all_names (link_names split) cs) in
    let cs1 = map (with_names container_ordering_create_condition volume_sources) cs in
    let (err', done') = all_lem cs1 container_ordering_start_condition (link_names split) cs1 in
    let same =
      first_problem-map container_ordering_create_condition volume_sources cs
        (all_names (link_names split) cs) in
    elim (Option-cases (first_problem cs (all_names volume_sources cs))) [
      | inl fine ↦
          let err2 = rw (links_same split cs, same) at err' in
          let done2 = rw (links_same split cs, same) at done' in
          rw (err, both, fine, done fine) (err2, λ h. done2 h ∙ map-ordered split cs)
      | inr (problem, e) ↦ rw (err, both, e) (refl, λ h. absurd (ground (arith, h)))
    ]

-- The ordering fails exactly for the first volume source that no container has or, where there is none,
-- for the first link that is malformed or that no container has; where there is no such name, it adds
-- to each container a dependency on every source of its volumes, with the condition CREATE, and then
-- one on every link, with the condition START, and changes nothing else.
pub initialize_container_ordering_lem :
    (split : String → List String) (cs : List Container)
    → let problem =
        first_problem cs (all_names volume_sources cs ++ all_names (link_names split) cs) in
      ((initialize_container_ordering split cs).1 ≡ problem)
      × ((is_problem problem ≡ true)
          ⊎ ((initialize_container_ordering split cs).0 ≡ map (ordered split) cs))
initialize_container_ordering_lem split cs =
    let problem =
      first_problem cs (all_names volume_sources cs ++ all_names (link_names split) cs) in
    let (err, done) = initialize_container_ordering-both split cs in
    (
      err,
      elim (Option-cases problem) [
        | inl fine ↦ inr (done fine)
        | inr (p, found) ↦ inl (ap is_problem found)
      ],
    )
