-- ===== src/Permissions/Roles.antt =====
-- How the permissions of the roles are ordered, and which belong to the administrator alone.
use background_jobs.Prelude.{Bool, true, false, ◌≡◌, ◌↔◌, refl, arith}
use background_jobs.Permissions.{
  SecurityRole, viewer, operator, admin, Permission, jobs_run, jobs_write, has_permission,
}

abbrev pub rank_le : SecurityRole → SecurityRole → Bool
rank_le viewer _ = true
rank_le operator viewer = false
rank_le operator _ = true
rank_le admin admin = true
rank_le admin _ = false

viewer_below :
    (high : SecurityRole) (p : Permission)
    → has_permission viewer p ≡ true
    → has_permission high p ≡ true
viewer_below high p h = ground arith

admin_above : (p : Permission) → has_permission admin p ≡ true
admin_above p = ground arith

-- A role has all permissions of another exactly when it stands at or above it in the order viewer,
-- operator, administrator.
pub rank_le-has_permission :
    (low high : SecurityRole)
    → (rank_le low high ≡ true)
      ↔ ((p : Permission) → has_permission low p ≡ true → has_permission high p ≡ true)
rank_le-has_permission viewer high = (λ _ p h. viewer_below high p h, λ _. refl)
rank_le-has_permission operator viewer = (λ e. cc, λ k. k jobs_run refl)
rank_le-has_permission operator operator = (λ _ p h. h, λ _. refl)
rank_le-has_permission operator admin = (λ _ p h. admin_above p, λ _. refl)
rank_le-has_permission admin viewer = (λ e. cc, λ k. k jobs_write refl)
rank_le-has_permission admin operator = (λ e. cc, λ k. k jobs_write refl)
rank_le-has_permission admin admin = (λ _ p h. h, λ _. refl)
