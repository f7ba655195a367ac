-- ===== src/Permissions.antt =====
-- src/security/permissions.ts: what each role may do.
pub mod Roles
use background_jobs.Prelude.{Bool, true, false, List, [], ◌∷◌, any}

-- SecurityRole of src/types/index.ts.
pub data SecurityRole : Type 0 where
  viewer operator admin : SecurityRole

pub data Permission : Type 0 where
  jobs_read jobs_run jobs_write executions_read executions_cancel : Permission
  platform_read tokens_manage_self users_manage secrets_manage audit_read : Permission
  attention_read attention_manage system_read workers_manage : Permission

-- Equality of permissions, which are texts in the program.
abbrev pub same_permission : Permission → Permission → Bool
same_permission jobs_read jobs_read = true
same_permission jobs_run jobs_run = true
same_permission jobs_write jobs_write = true
same_permission executions_read executions_read = true
same_permission executions_cancel executions_cancel = true
same_permission platform_read platform_read = true
same_permission tokens_manage_self tokens_manage_self = true
same_permission users_manage users_manage = true
same_permission secrets_manage secrets_manage = true
same_permission audit_read audit_read = true
same_permission attention_read attention_read = true
same_permission attention_manage attention_manage = true
same_permission system_read system_read = true
same_permission workers_manage workers_manage = true
same_permission _ _ = false

-- ROLE_PERMISSIONS
abbrev pub role_permissions : SecurityRole → List Permission
role_permissions viewer =
    jobs_read ∷ executions_read ∷ platform_read ∷ tokens_manage_self ∷ attention_read ∷ []
role_permissions operator =
    jobs_read ∷ jobs_run ∷ executions_read ∷ executions_cancel ∷ platform_read ∷ tokens_manage_self
    ∷ attention_read ∷ []
role_permissions admin =
    jobs_read ∷ jobs_run ∷ jobs_write ∷ executions_read ∷ executions_cancel ∷ platform_read
    ∷ tokens_manage_self ∷ users_manage ∷ secrets_manage ∷ audit_read ∷ attention_read
    ∷ attention_manage ∷ system_read ∷ workers_manage ∷ []

abbrev pub has_permission : SecurityRole → Permission → Bool
has_permission role permission = any (same_permission permission) (role_permissions role)

abbrev pub permissions_for_role : SecurityRole → List Permission
permissions_for_role role = role_permissions role
