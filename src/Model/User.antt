-- ===== src/Model/User.antt =====
-- repo/backend/internal/model/user.go
use w1t.Base.{ℕ, String, Bool, List, Option}

pub record User : Type 0 where
  pub id : ℕ
  pub username : String
  pub password_hash : String
  pub display_name : String
  pub email_encrypted : Option (List ℕ)
  pub email_hash : Option (List ℕ)
  pub is_locked : Bool
  pub locked_until : Option ℕ
  pub failed_login_count : ℕ
  pub created_by : Option ℕ
  pub created_at : ℕ
  pub updated_at : ℕ

pub record Role : Type 0 where
  pub id : ℕ
  pub name : String
  pub description : String

-- A row of `user_roles` joined with the name of its role; roles are never renamed.
pub record UserRole : Type 0 where
  pub user_id : ℕ
  pub role_id : ℕ
  pub role_name : String
  pub granted_by : ℕ
  pub granted_at : ℕ

pub record RefreshToken : Type 0 where
  pub id : ℕ
  pub user_id : ℕ
  pub token_hash : String
  pub family_id : ℕ
  pub expires_at : ℕ
  pub revoked_at : Option ℕ

-- A row of the table `login_attempts`.
pub record LoginAttempt : Type 0 where
  pub user_id : Option ℕ
  pub ip_address : String
  pub attempted_at : ℕ
