-- ===== src/Task/Proxy.antt =====
-- The user of the network's pause container, which a proxy's Docker configuration says.
use amazon_ecs_agent.Common.{
  Bool, ◌≡◌, refl, arith, true, false, String, str_eq, List, [], ◌∷◌, nat_key, Bool-cases, inl, inr,
  ◌⊎◌, Option, none, some,
}
use amazon_ecs_agent.Container.{Container}
use amazon_ecs_agent.Task.Types.{find_container}
use amazon_ecs_agent.Task.PauseSetup.{
  PauseConfig, PauseError, user_not_specified, unable_to_decode, proxy_user, checked_user,
  find_proxy_user, pause_user, if_user_found,
}

-- The first container with a name in a task's App Mesh configuration, whose user is wanted.
abbrev pub IsProxy : PauseConfig → List Container → Container → Type 0
IsProxy cfg cs c =
    (name : String) × (cfg.app_mesh_container_name ≡ some name)
    × (str_eq cfg.pause_container_image_name cfg.default_pause_container_image_name ≡ false)
    × (find_container name cs ≡ some c)

abbrev pub HasNoProxy : PauseConfig → List Container → Type 0
HasNoProxy cfg cs =
    (cfg.app_mesh_container_name ≡ none)
    ⊎ (str_eq cfg.pause_container_image_name cfg.default_pause_container_image_name ≡ true)
    ⊎ ((name : String) × (cfg.app_mesh_container_name ≡ some name)
        × (find_container name cs ≡ none))

-- What a Docker configuration says of the user.
abbrev pub SaysUser : (String → Option String) → Option String → String → Type 0
SaysUser decode config user =
    (text : String) × (config ≡ some text) × (decode text ≡ some user) × (str_eq user "" ≡ false)

abbrev pub SaysNoUser : (String → Option String) → Option String → Type 0
SaysNoUser decode config =
    (config ≡ none)
    ⊎ ((text : String) × (user : String) × (config ≡ some text)
        × (decode text ≡ some user)
        × (str_eq user "" ≡ true))

abbrev pub IsNotDecoded : (String → Option String) → Option String → Type 0
IsNotDecoded decode config = (text : String) × (config ≡ some text) × (decode text ≡ none)

module _ (decode : String → Option String) where
  -- The three outcomes for the Docker configuration of the proxy.
  abbrev pub UserOf : Option String → Option String → Option PauseError → Type 0
  UserOf config user err =
      ((u : String) × (user ≡ some u) × (err ≡ none) × SaysUser decode config u)
      ⊎ ((err ≡ some user_not_specified) × SaysNoUser decode config)
      ⊎ ((err ≡ some unable_to_decode) × IsNotDecoded decode config)

  checked_user_lem :
      (text : String) (result : Option String)
      → decode text ≡ result
      → UserOf (some text) (checked_user result).0 (checked_user result).1
  checked_user_lem text none h = inr (inr (refl, (text, refl, h)))
  checked_user_lem text (some u) h = elim (Bool-cases (str_eq u "")) [
    | inl empty ↦ rw empty (inr (inl (refl, inr (text, u, refl, h, empty))))
    | inr named ↦ rw named (inl (u, refl, refl, (text, refl, h, named)))
  ]

  proxy_user_lem :
      (config : Option String)
      → UserOf config (proxy_user decode config).0 (proxy_user decode config).1
  proxy_user_lem none = inr (inl (refl, inl refl))
  proxy_user_lem (some text) = checked_user_lem text (decode text) refl

  abbrev user_at :
      (Container → Option String) → Option Container → Option String × Option PauseError
  user_at docker_config none = (none, none)
  user_at docker_config (some c) = proxy_user decode (docker_config c)

  find_proxy_user_lem :
      (docker_config : Container → Option String) (name : String) (cs : List Container)
      → find_proxy_user decode docker_config name cs
        ≡ user_at docker_config (find_container name cs)
  unfolding find_proxy_user find_container
  find_proxy_user_lem docker_config name [] = refl
  find_proxy_user_lem docker_config name (c ∷ cs) = elim (Bool-cases (str_eq c.name name)) [
    | inl here ↦ rw here refl
    | inr other ↦ rw other (find_proxy_user_lem docker_config name cs)
  ]

  -- The outcome of the search for a user for the network's pause container: no proxy asks for one, or
  -- the proxy's Docker configuration says one, has none, or cannot be decoded.
  abbrev pub ProxyOutcome :
      PauseConfig → List Container → Option String → Option PauseError → Type 0
  ProxyOutcome cfg cs user err =
      ((user ≡ none) × (err ≡ none) × HasNoProxy cfg cs)
      ⊎ ((c : Container) × IsProxy cfg cs c × UserOf (cfg.docker_config c) user err)

  search_lem :
      (cfg : PauseConfig) (name : String) (cs : List Container) (found : Option Container)
      → cfg.app_mesh_container_name ≡ some name
      → str_eq cfg.pause_container_image_name cfg.default_pause_container_image_name ≡ false
      → find_container name cs ≡ found
      → ProxyOutcome cfg cs (user_at cfg.docker_config found).0 (user_at cfg.docker_config found).1
  search_lem cfg name cs none mesh custom h = inl (refl, refl, inr (inr (name, mesh, h)))
  search_lem cfg name cs (some c) mesh custom h =
      inr (c, (name, mesh, custom, h), proxy_user_lem (cfg.docker_config c))

  pub pause_user_lem :
      (cfg : PauseConfig) (cs : List Container) (mesh : Option String) (is_default : Bool)
      → cfg.app_mesh_container_name ≡ mesh
      → str_eq cfg.pause_container_image_name cfg.default_pause_container_image_name ≡ is_default
      → ProxyOutcome cfg cs
          (pause_user decode cfg.docker_config is_default mesh cs).0
          (pause_user decode cfg.docker_config is_default mesh cs).1
  unfolding pause_user
  pause_user_lem cfg cs none is_default h image = inl (refl, refl, inl h)
  pause_user_lem cfg cs (some name) true h image = inl (refl, refl, inr (inl image))
  pause_user_lem cfg cs (some name) false h image =
      rw (find_proxy_user_lem cfg.docker_config name cs) (search_lem cfg name cs _ h image refl)

  pub same_outcome :
      (cfg : PauseConfig) (cs : List Container) (user : Option String) (err : Option PauseError)
      → ProxyOutcome cfg cs user err
      → ProxyOutcome cfg cs (if_user_found cs (user, err)).user (if_user_found cs (user, err)).error
  unfolding if_user_found
  same_outcome cfg cs user none h = h
  same_outcome cfg cs user (some e) (inl (no_user, no_error, proxy)) = absurd (ground arith)
  same_outcome cfg cs user (some e) (inr (c, proxy, inl (u, same, no_error, says))) =
      absurd (ground arith)
  same_outcome cfg cs user (some e) (inr (c, proxy, inr failed)) = inr (c, proxy, inr failed)
