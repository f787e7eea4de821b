-- ===== src/Model/Collectible.antt =====
-- repo/backend/internal/model/collectible.go
use w1t.Base.{ℕ, String, Option}

-- `Collectible.Status`, one of two by a CHECK of the table.
pub data CollectibleStatus : Type 0 where
  published hidden : CollectibleStatus

pub record Collectible : Type 0 where
  pub id : ℕ
  pub seller_id : ℕ
  pub title : String
  pub description : String
  pub contract_address : String
  pub chain_id : ℕ
  pub token_id : String
  pub metadata_uri : String
  pub image_url : String
  pub price_cents : ℕ
  pub currency : String
  pub status : CollectibleStatus
  pub hidden_by : Option ℕ
  pub hidden_reason : String
  pub view_count : ℕ
  pub created_at : ℕ
  pub updated_at : ℕ

pub record CollectibleTxHistory : Type 0 where
  pub collectible_id : ℕ
  pub tx_hash : String
  pub from_address : String
  pub to_address : String
  pub block_number : ℕ
  pub timestamp : ℕ
