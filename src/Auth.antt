-- ===== src/Auth.antt =====
-- The roles of server/internal/auth/auth.go, as the other packages use them.
use repo_mender.Prelude.{ℕ, Bool, ◌==◌, Text}

pub data Role : Type 0 where
  admin maintainer developer auditor : Role

abbrev role_rank : Role → ℕ
role_rank admin = 0
role_rank maintainer = 1
role_rank developer = 2
role_rank auditor = 3

abbrev pub role_eq : Role → Role → Bool
role_eq a b = role_rank a == role_rank b

-- The fields of `User` that decide what a user may do.
pub record User : Type 0 where
  pub id : Text
  pub role : Role
