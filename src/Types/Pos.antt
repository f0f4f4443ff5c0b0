-- ===== src/Types/Pos.antt =====
-- frontend/src/types/pos.ts. A price is a decimal text.
use greenlink.Prelude.{ℕ, String, Bool, Option, List}
use greenlink.Types.Booking.{MutationDecision}

pub data TenderType : Type 0 where
  cash card member_account : TenderType

pub record PosProduct : Type 0 where
  pub id : String
  pub club_id : String
  pub name : String
  pub description : Option String
  pub price : String
  pub category : Option String
  pub active : Bool

pub record PosTransactionItemInput : Type 0 where
  pub product_id : Option String
  pub item_name : String
  pub unit_price : String
  pub quantity : ℕ

pub record PosTransactionCreateInput : Type 0 where
  pub items : List PosTransactionItemInput
  pub tender_type : TenderType
  pub person_id : Option String
  pub notes : Option String

pub record PosTransactionItemDetail : Type 0 where
  pub id : String
  pub product_id : Option String
  pub item_name_snapshot : String
  pub unit_price_snapshot : String
  pub quantity : ℕ
  pub line_total : String

pub record PosTransactionDetail : Type 0 where
  pub id : String
  pub club_id : String
  pub total_amount : String
  pub tender_type : TenderType
  pub finance_transaction_id : Option String
  pub notes : Option String
  pub created_by_user_id : String
  pub created_at : String
  pub items : List PosTransactionItemDetail

pub record PosTransactionResult : Type 0 where
  pub decision : MutationDecision
  pub transaction_applied : Bool
  pub transaction : Option PosTransactionDetail
  pub failures : List String

pub record CartItem : Type 0 where
  pub product_id : Option String
  pub item_name : String
  pub unit_price : String
  pub quantity : ℕ
  pub line_total : String
