-- ===== src/Security/Rbac/Table.antt =====
-- security/rbac.py: the permissions, the roles and the table that joins them.
use converse_os.Prelude.{String, Option, none, some, List, [], ◌∷◌, ◌==◌, string_eq, if◌then◌else◌}

pub data Permission : Type 0 where
  org_read org_update org_delete org_manage_members org_manage_settings project_create : Permission
  project_read project_update project_delete agent_create agent_read agent_update : Permission
  agent_delete agent_deploy agent_test conversation_read conversation_manage : Permission
  conversation_export kb_create kb_read kb_update kb_delete prompt_create prompt_read : Permission
  prompt_update prompt_delete prompt_publish workflow_create workflow_read : Permission
  workflow_update workflow_delete workflow_execute webhook_create webhook_read : Permission
  webhook_update webhook_delete analytics_read analytics_export user_read user_create : Permission
  user_update user_delete user_manage_roles billing_read billing_manage audit_read : Permission
  api_key_create api_key_read api_key_delete channel_create channel_read channel_update : Permission
  channel_delete admin_full_access admin_manage_tenants admin_view_metrics : Permission

-- the member's value, which is the member as a `str`
unfoldable pub value : Permission → String
value org_read = "org:read"
value org_update = "org:update"
value org_delete = "org:delete"
value org_manage_members = "org:manage_members"
value org_manage_settings = "org:manage_settings"
value project_create = "project:create"
value project_read = "project:read"
value project_update = "project:update"
value project_delete = "project:delete"
value agent_create = "agent:create"
value agent_read = "agent:read"
value agent_update = "agent:update"
value agent_delete = "agent:delete"
value agent_deploy = "agent:deploy"
value agent_test = "agent:test"
value conversation_read = "conversation:read"
value conversation_manage = "conversation:manage"
value conversation_export = "conversation:export"
value kb_create = "kb:create"
value kb_read = "kb:read"
value kb_update = "kb:update"
value kb_delete = "kb:delete"
value prompt_create = "prompt:create"
value prompt_read = "prompt:read"
value prompt_update = "prompt:update"
value prompt_delete = "prompt:delete"
value prompt_publish = "prompt:publish"
value workflow_create = "workflow:create"
value workflow_read = "workflow:read"
value workflow_update = "workflow:update"
value workflow_delete = "workflow:delete"
value workflow_execute = "workflow:execute"
value webhook_create = "webhook:create"
value webhook_read = "webhook:read"
value webhook_update = "webhook:update"
value webhook_delete = "webhook:delete"
value analytics_read = "analytics:read"
value analytics_export = "analytics:export"
value user_read = "user:read"
value user_create = "user:create"
value user_update = "user:update"
value user_delete = "user:delete"
value user_manage_roles = "user:manage_roles"
value billing_read = "billing:read"
value billing_manage = "billing:manage"
value audit_read = "audit:read"
value api_key_create = "api_key:create"
value api_key_read = "api_key:read"
value api_key_delete = "api_key:delete"
value channel_create = "channel:create"
value channel_read = "channel:read"
value channel_update = "channel:update"
value channel_delete = "channel:delete"
value admin_full_access = "admin:full_access"
value admin_manage_tenants = "admin:manage_tenants"
value admin_view_metrics = "admin:view_metrics"

-- `set(Permission)`
unfoldable pub all_permissions : List Permission
all_permissions =
    org_read ∷ org_update ∷ org_delete ∷ org_manage_members ∷ org_manage_settings ∷ project_create
    ∷ project_read ∷ project_update ∷ project_delete ∷ agent_create ∷ agent_read ∷ agent_update
    ∷ agent_delete ∷ agent_deploy ∷ agent_test ∷ conversation_read ∷ conversation_manage
    ∷ conversation_export ∷ kb_create ∷ kb_read ∷ kb_update ∷ kb_delete ∷ prompt_create
    ∷ prompt_read ∷ prompt_update ∷ prompt_delete ∷ prompt_publish ∷ workflow_create ∷ workflow_read
    ∷ workflow_update ∷ workflow_delete ∷ workflow_execute ∷ webhook_create ∷ webhook_read
    ∷ webhook_update ∷ webhook_delete ∷ analytics_read ∷ analytics_export ∷ user_read ∷ user_create
    ∷ user_update ∷ user_delete ∷ user_manage_roles ∷ billing_read ∷ billing_manage ∷ audit_read
    ∷ api_key_create ∷ api_key_read ∷ api_key_delete ∷ channel_create ∷ channel_read
    ∷ channel_update ∷ channel_delete ∷ admin_full_access ∷ admin_manage_tenants
    ∷ admin_view_metrics ∷ []

pub data Role : Type 0 where
  platform_admin org_owner org_admin project_manager developer analyst viewer : Role

unfoldable pub role_value : Role → String
role_value platform_admin = "platform_admin"
role_value org_owner = "org_owner"
role_value org_admin = "org_admin"
role_value project_manager = "project_manager"
role_value developer = "developer"
role_value analyst = "analyst"
role_value viewer = "viewer"

-- `Role(name)`; `none` is the `ValueError` of a name that no member has
unfoldable pub role_of_name : String → Option Role
role_of_name name =
    if name == "platform_admin"
    then some platform_admin
    else if name == "org_owner"
    then some org_owner
    else if name == "org_admin"
    then some org_admin
    else if name == "project_manager"
    then some project_manager
    else if name == "developer"
    then some developer
    else if name == "analyst"
    then some analyst
    else if name == "viewer"
    then some viewer
    else none

-- `ROLE_PERMISSIONS`
unfoldable pub role_permissions : Role → List Permission
unfolding all_permissions
role_permissions platform_admin = all_permissions
role_permissions org_owner =
    org_read ∷ org_update ∷ org_delete ∷ org_manage_members ∷ org_manage_settings ∷ project_create
    ∷ project_read ∷ project_update ∷ project_delete ∷ agent_create ∷ agent_read ∷ agent_update
    ∷ agent_delete ∷ agent_deploy ∷ agent_test ∷ conversation_read ∷ conversation_manage
    ∷ conversation_export ∷ kb_create ∷ kb_read ∷ kb_update ∷ kb_delete ∷ prompt_create
    ∷ prompt_read ∷ prompt_update ∷ prompt_delete ∷ prompt_publish ∷ workflow_create ∷ workflow_read
    ∷ workflow_update ∷ workflow_delete ∷ workflow_execute ∷ webhook_create ∷ webhook_read
    ∷ webhook_update ∷ webhook_delete ∷ analytics_read ∷ analytics_export ∷ user_read ∷ user_create
    ∷ user_update ∷ user_delete ∷ user_manage_roles ∷ billing_read ∷ billing_manage ∷ audit_read
    ∷ api_key_create ∷ api_key_read ∷ api_key_delete ∷ channel_create ∷ channel_read
    ∷ channel_update ∷ channel_delete ∷ []
role_permissions org_admin =
    org_read ∷ org_update ∷ org_manage_members ∷ org_manage_settings ∷ project_create ∷ project_read
    ∷ project_update ∷ project_delete ∷ agent_create ∷ agent_read ∷ agent_update ∷ agent_delete
    ∷ agent_deploy ∷ agent_test ∷ conversation_read ∷ conversation_manage ∷ conversation_export
    ∷ kb_create ∷ kb_read ∷ kb_update ∷ kb_delete ∷ prompt_create ∷ prompt_read ∷ prompt_update
    ∷ prompt_delete ∷ prompt_publish ∷ workflow_create ∷ workflow_read ∷ workflow_update
    ∷ workflow_delete ∷ workflow_execute ∷ webhook_create ∷ webhook_read ∷ webhook_update
    ∷ webhook_delete ∷ analytics_read ∷ analytics_export ∷ user_read ∷ user_create ∷ user_update
    ∷ user_manage_roles ∷ billing_read ∷ audit_read ∷ api_key_create ∷ api_key_read ∷ api_key_delete
    ∷ channel_create ∷ channel_read ∷ channel_update ∷ channel_delete ∷ []
role_permissions project_manager =
    org_read ∷ project_create ∷ project_read ∷ project_update ∷ agent_create ∷ agent_read
    ∷ agent_update ∷ agent_deploy ∷ agent_test ∷ conversation_read ∷ conversation_manage ∷ kb_create
    ∷ kb_read ∷ kb_update ∷ prompt_create ∷ prompt_read ∷ prompt_update ∷ prompt_publish
    ∷ workflow_create ∷ workflow_read ∷ workflow_update ∷ workflow_execute ∷ webhook_create
    ∷ webhook_read ∷ webhook_update ∷ analytics_read ∷ user_read ∷ api_key_create ∷ api_key_read
    ∷ channel_read ∷ channel_update ∷ []
role_permissions developer =
    org_read ∷ project_read ∷ agent_create ∷ agent_read ∷ agent_update ∷ agent_test
    ∷ conversation_read ∷ kb_create ∷ kb_read ∷ kb_update ∷ prompt_create ∷ prompt_read
    ∷ prompt_update ∷ workflow_create ∷ workflow_read ∷ workflow_update ∷ workflow_execute
    ∷ webhook_create ∷ webhook_read ∷ webhook_update ∷ analytics_read ∷ api_key_create
    ∷ api_key_read ∷ channel_read ∷ []
role_permissions analyst =
    org_read ∷ project_read ∷ agent_read ∷ conversation_read ∷ conversation_export ∷ kb_read
    ∷ prompt_read ∷ analytics_read ∷ analytics_export ∷ []
role_permissions viewer =
    org_read ∷ project_read ∷ agent_read ∷ conversation_read ∷ kb_read ∷ prompt_read
    ∷ analytics_read ∷ []
