-- ===== src/TaskEngine/Once.antt =====
-- An image that was pulled once.
use amazon_ecs_agent.Common.{
  ℕ, ◌==◌, ◌≡◌, refl, subst, arith, Bool, true, false, any, String, str_eq, none, List, [], ◌∷◌,
  All, In, inl, inr, Bool-cases,
}
use amazon_ecs_agent.Container.{Container, is_internal}
use amazon_ecs_agent.Task.{Task, set_pull_started_at}
use amazon_ecs_agent.ManagedTask.{ImagePullBehavior, image_pull_once}
use amazon_ecs_agent.ImageManager.{
  ImageState, ImageUser, Inspection, record_container_reference, get_image_state_from_image_name,
  has_image_name, set_pull_succeeded,
}
use amazon_ecs_agent.ImageManager.Lists.{IsDistinct}
use amazon_ecs_agent.ImageManager.Used.{is_used_by, record_container_reference-IsRecorded}
use amazon_ecs_agent.TaskEngine.Pull.{
  PullWorld, has_pull_succeeded, image_pull_required, mark_pull_succeeded, update_image_reference,
  is_no_error, ask_to_pull, pull_and_update_container_reference, concurrent_pull, pull_container,
}

-- Some state that has the name makes the first such state marked.
marked :
    (image : String) (s : ImageState) (ss : List ImageState)
    → In s ss
    → has_image_name image s ≡ true
    → has_pull_succeeded (get_image_state_from_image_name image (mark_pull_succeeded image ss))
      ≡ true
unfolding get_image_state_from_image_name mark_pull_succeeded set_pull_succeeded has_image_name
marked image s [] m h = absurd m
marked image s (t ∷ ts) (inl e) h =
    let here : any (λ n. str_eq n image) t.names ≡ true =
      subst (λ (x : ImageState). any (λ n. str_eq n image) x.names ≡ true) e h in
    simp (here, here) refl
marked image s (t ∷ ts) (inr m) h = elim (Bool-cases (any (λ n. str_eq n image) t.names)) [
  | inl here ↦ simp (here, here) refl
  | inr other ↦ simp (other, other) (marked image s ts m h)
]

recorded_states :
    (behavior : ImagePullBehavior) (w : PullWorld) (task : Task) (c : Container) (user : ImageUser)
    (ss : List ImageState)
    → (pull_container behavior w task c user ss).asked ≡ true
    → is_internal c ≡ false
    → (pull_container behavior w task c user ss).image_states
      ≡ (update_image_reference w (is_no_error w.pull_image) user ss).0
unfolding pull_container concurrent_pull pull_and_update_container_reference ask_to_pull
    set_pull_started_at
recorded_states behavior w task c user ss asked external = ground arith

same_image_name :
    (now address : ℕ) (inspection : Inspection) (c : ImageUser) (ss : List ImageState)
    → (record_container_reference now address inspection c ss).1.image ≡ c.image
unfolding record_container_reference
same_image_name now address inspection c ss = ground arith

used_name :
    (c : ImageUser) (s : ImageState) → is_used_by c s ≡ true → has_image_name c.image s ≡ true
used_name c s h = ground (arith, h)

-- With the image states as a pull leaves them, which succeeded and recorded the reference without an
-- error, the behaviour `once` asks for no further pull of that image, for any container. The container is
-- one of the user's, the images that the manager holds have distinct ids, and a new state stands at a
-- fresh address.
pub pull_container-image_pull_required :
    (behavior : ImagePullBehavior) (w : PullWorld) (task : Task) (c : Container) (user : ImageUser)
    (ss : List ImageState) (cached : Bool)
    → IsDistinct ss
    → All (λ s. (s.address == w.address) ≡ false) ss
    → is_internal c ≡ false
    → w.pull_image ≡ none
    → (record_container_reference w.now w.address w.inspection user ss).2 ≡ true
    → let r = pull_container behavior w task c user ss in
      r.asked ≡ true → image_pull_required image_pull_once cached user.image r.image_states ≡ false
unfolding image_pull_required update_image_reference
pull_container-image_pull_required behavior w task c user ss cached d fresh external succeeded ok
      asked =
    let (ss', user', _) = record_container_reference w.now w.address w.inspection user ss in
    let name = same_image_name w.now w.address w.inspection user ss in
    let ((s, m, _, used), _) =
      record_container_reference-IsRecorded w.now w.address w.inspection user ss d fresh ok in
    let found = marked user'.image s ss' m (used_name user' s used) in
    let named =
      subst
        (λ (n : String).
          has_pull_succeeded (get_image_state_from_image_name n (mark_pull_succeeded n ss')) ≡ true)
        name found in
    let marked_states : has_pull_succeeded (
          get_image_state_from_image_name user.image
            (update_image_reference w (is_no_error w.pull_image) user ss).0)
        ≡ true =
      rw (succeeded, name) named in
    rw (recorded_states behavior w task c user ss asked external, marked_states) refl
