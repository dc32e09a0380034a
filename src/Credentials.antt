-- ===== src/Credentials.antt =====
-- agent/credentials/manager.go: the store of the credentials that the backend sends. The manager's
-- lock makes each method one step on the map.
mod Examples
use amazon_ecs_agent.Common.{
  String, Option, none, some, List, [], if◌then◌else◌, str_eq, lookup, insert, remove, string_key,
  ◌≡◌, arith, lookup-insert, lookup-remove,
}

pub record IamRoleCredentials : Type 0 where
  pub credentials_id : String
  pub role_arn : String
  pub access_key_id : String
  pub secret_access_key : String
  pub session_token : String
  pub expiration : String
  pub role_type : String

pub record TaskIamRoleCredentials : Type 0 where
  pub arn : String
  pub iam_role_credentials : IamRoleCredentials

-- `idToTaskCredentials`
abbrev pub Manager : Type 0
Manager = List (String × TaskIamRoleCredentials)

pub data CredentialsError : Type 0 where
  credentials_id_empty task_arn_empty : CredentialsError

unfoldable pub new_manager : Manager
new_manager = []

-- An error leaves the manager as it was.
unfoldable pub set_task_credentials :
    TaskIamRoleCredentials → Manager → Manager × Option CredentialsError
set_task_credentials task_credentials manager =
    let credentials = task_credentials.iam_role_credentials in
    if str_eq credentials.credentials_id ""
    then (manager, some credentials_id_empty)
    else if str_eq task_credentials.arn ""
    then (manager, some task_arn_empty)
    else (insert credentials.credentials_id task_credentials manager, none)

unfoldable pub get_task_credentials : String → Manager → Option TaskIamRoleCredentials
get_task_credentials id manager = lookup id manager

unfoldable pub remove_credentials : String → Manager → Manager
remove_credentials id manager = remove id manager

-- What is read after a write that is accepted: the new credentials under their own id, and under
-- any other id what was there. A write that is refused changes no answer.
pub get_task_credentials-set_task_credentials :
    (id : String) (tc : TaskIamRoleCredentials) (m : Manager)
    → get_task_credentials id (set_task_credentials tc m).0 ≡ (
        if str_eq tc.iam_role_credentials.credentials_id ""
        then get_task_credentials id m
        else if str_eq tc.arn ""
        then get_task_credentials id m
        else if str_eq tc.iam_role_credentials.credentials_id id
        then some tc
        else get_task_credentials id m)
unfolding get_task_credentials set_task_credentials
get_task_credentials-set_task_credentials id tc m =
    ground (arith, lookup-insert tc.iam_role_credentials.credentials_id id tc m)

-- Credentials that are removed are gone, and no others are.
pub get_task_credentials-remove_credentials :
    (removed id : String) (m : Manager)
    → get_task_credentials id (remove_credentials removed m)
      ≡ (if str_eq removed id then none else get_task_credentials id m)
unfolding get_task_credentials remove_credentials
get_task_credentials-remove_credentials removed id m = lookup-remove removed id m
