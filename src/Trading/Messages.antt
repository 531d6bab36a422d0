-- ===== src/Trading/Messages.antt =====
-- include/order_book/trading/messages.hpp: the one message type of the trading system.
-- A value of an enumeration is one of its enumerators, as `decode` makes them; only `Side` has a
-- further value (Types.antt).
pub mod Bytes
pub mod Equality
pub mod Names
use limit_order_book.Base.{ℕ, Bool, false}
use limit_order_book.Types.{Side, bid}

pub data Kind : Type 0 where
  command report delta heartbeat snapshot_begin snapshot_order snapshot_end : Kind

pub data Action : Type 0 where
  new cancel replace cancel_all snapshot status : Action

pub data OrderType : Type 0 where
  limit market : OrderType

pub data TimeInForce : Type 0 where
  gtc ioc fok : TimeInForce

pub data ReportType : Type 0 where
  accepted rejected fill cancelled replaced complete status : ReportType

pub data UpdateType : Type 0 where
  add cancel execute reduce trade : UpdateType

pub data Reject : Type 0 where
  no_reason invalid_command unknown_instrument invalid_price invalid_quantity : Reject
  duplicate_order unknown_order sequence post_only fok self_trade : Reject
  risk_quantity risk_notional risk_position risk_open_orders : Reject
  capacity session_busy kill_switch : Reject

pub record Message : Type 0 where
  pub kind : Kind
  pub action : Action
  pub side : Side
  pub order_type : OrderType
  pub tif : TimeInForce
  pub report : ReportType
  pub reject : Reject
  pub update : UpdateType
  pub post_only : Bool
  pub epoch : ℕ
  pub sequence : ℕ
  pub client_id : ℕ
  pub price : ℕ
  pub request_id : ℕ
  pub order_id : ℕ
  pub exchange_id : ℕ
  pub instrument_id : ℕ
  pub quantity : ℕ
  pub remaining : ℕ
  pub trade_id : ℕ

-- Message{}
abbrev pub default_message : Message
default_message = record {
  kind = command;
  action = new;
  side = bid;
  order_type = limit;
  tif = gtc;
  report = accepted;
  reject = no_reason;
  update = add;
  post_only = false;
  epoch = 0;
  sequence = 0;
  client_id = 0;
  price = 0;
  request_id = 0;
  order_id = 0;
  exchange_id = 0;
  instrument_id = 0;
  quantity = 0;
  remaining = 0;
  trade_id = 0;
}
