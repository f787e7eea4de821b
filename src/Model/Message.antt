-- ===== src/Model/Message.antt =====
-- repo/backend/internal/model/message.go
use w1t.Base.{ℕ, String, List}

-- The last fields but one come from the join with the attachments; in the table itself they are empty.
pub record Message : Type 0 where
  pub id : ℕ
  pub order_id : ℕ
  pub sender_id : ℕ
  pub body : String
  pub attachment_id : String
  pub attachment_size : ℕ
  pub attachment_mime : String
  pub created_at : ℕ

pub record MessageAttachment : Type 0 where
  pub id : ℕ
  pub message_id : ℕ
  pub content : List ℕ
  pub size : ℕ
  pub mime : String
  pub created_at : ℕ
