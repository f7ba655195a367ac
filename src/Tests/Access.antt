-- ===== src/Tests/Access.antt =====
-- src/security/permissions.ts for two roles.
use background_jobs.Prelude.{true, ◌≡◌, ◌↔◌}
use background_jobs.Permissions.{operator, admin, Permission, has_permission}
use background_jobs.Permissions.Roles.{rank_le, rank_le-has_permission}

rank_example :
    (rank_le operator admin ≡ true)
    ↔ ((p : Permission) → has_permission operator p ≡ true → has_permission admin p ≡ true)
rank_example = rank_le-has_permission operator admin
