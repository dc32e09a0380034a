-- ===== src/EngineState/Changes.antt =====
-- The calls that change the state of the engine, and runs of them.
use amazon_ecs_agent.Common.{String, Option, List, [], ◌∷◌}
use amazon_ecs_agent.EngineState.{
  TaskPointer, DockerContainer, EniAttachment, ImagePointer, DockerTaskEngineState, add_task,
  add_container, add_eni_attachment, remove_eni_attachment, add_image_state, remove_image_state,
  add_task_ip_address, remove_task,
}

pub data Change : Type 0 where
  task_added : TaskPointer → Change
  container_added : Option DockerContainer → Option TaskPointer → Change
  eni_added : Option EniAttachment → Change
  eni_removed : String → Change
  image_added : Option ImagePointer → Change
  image_removed : Option ImagePointer → Change
  ip_added : String → String → Change
  task_removed : TaskPointer → Change

unfoldable pub apply : Change → DockerTaskEngineState → DockerTaskEngineState
apply (task_added t) s = add_task t s
apply (container_added c t) s = add_container c t s
apply (eni_added e) s = add_eni_attachment e s
apply (eni_removed mac) s = remove_eni_attachment mac s
apply (image_added i) s = add_image_state i s
apply (image_removed i) s = remove_image_state i s
apply (ip_added addr arn) s = add_task_ip_address addr arn s
apply (task_removed t) s = remove_task t s

unfoldable pub run : List Change → DockerTaskEngineState → DockerTaskEngineState
unfolding apply
run [] s = s
run (c ∷ cs) s = run cs (apply c s)
