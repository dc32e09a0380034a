-- ===== src/Credentials/Examples.antt =====
-- A store with the credentials of one role.
use amazon_ecs_agent.Common.{◌≡◌, String, some, [], ◌∷◌, str_eq, if◌then◌else◌}
use amazon_ecs_agent.Credentials.{
  TaskIamRoleCredentials, Manager, set_task_credentials, get_task_credentials,
  get_task_credentials-set_task_credentials,
}

abbrev role : String → TaskIamRoleCredentials
role id = record {
  arn = "task";
  iam_role_credentials = record {
    credentials_id = id;
    role_arn = "role";
    access_key_id = "key";
    secret_access_key = "secret";
    session_token = "token";
    expiration = "";
    role_type = "TaskExecution";
  };
}

abbrev store : Manager
store = ("first", role "first") ∷ []

get_task_credentials-set_task_credentials_example :
    get_task_credentials "first" (set_task_credentials (role "second") store).0 ≡ (
      if str_eq "second" ""
      then get_task_credentials "first" store
      else if str_eq "task" ""
      then get_task_credentials "first" store
      else if str_eq "second" "first"
      then some (role "second")
      else get_task_credentials "first" store)
get_task_credentials-set_task_credentials_example =
    get_task_credentials-set_task_credentials "first" (role "second") store
