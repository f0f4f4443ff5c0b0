-- ===== src/Types/Orders.antt =====
-- frontend/src/types/orders.ts, of the player's order.
use greenlink.Prelude.{ℕ, String, Bool, Option, List}
use greenlink.Types.Pos.{TenderType}

pub data OrderSource : Type 0 where
  player_app staff_desk : OrderSource

pub data OrderStatus : Type 0 where
  placed preparing ready collected cancelled_order : OrderStatus

pub record OrderMenuItem : Type 0 where
  pub product_id : String
  pub item_name : String
  pub description : String
  pub unit_price : String

pub record OrderCreateItemInput : Type 0 where
  pub product_id : Option String
  pub item_name : String
  pub unit_price : String
  pub quantity : ℕ

pub record OrderCreateInput : Type 0 where
  pub person_id : Option String
  pub booking_id : Option String
  pub source : OrderSource
  pub items : List OrderCreateItemInput

pub record OrderPersonSummary : Type 0 where
  pub id : String
  pub full_name : String

pub record OrderItemSnapshot : Type 0 where
  pub id : String
  pub order_id : String
  pub product_id : Option String
  pub item_name_snapshot : String
  pub unit_price_snapshot : String
  pub quantity : ℕ
  pub created_at : String

-- OrderSummary and the items that it adds
pub record OrderDetail : Type 0 where
  pub id : String
  pub club_id : String
  pub person_id : String
  pub person : OrderPersonSummary
  pub booking_id : Option String
  pub finance_charge_transaction_id : Option String
  pub finance_charge_posted : Bool
  pub finance_payment_transaction_id : Option String
  pub finance_payment_posted : Option Bool
  pub finance_tender_record_id : Option String
  pub tender_recorded : Option Bool
  pub payment_tender_type : Option TenderType
  pub source : OrderSource
  pub status : OrderStatus
  pub created_at : String
  pub item_count : ℕ
  pub item_summary : String
  pub items : List OrderItemSnapshot

pub record OrderCreateResult : Type 0 where
  pub order : OrderDetail
  pub created : Bool
