-- ===== src/Types.antt =====
-- include/order_book/core/types.hpp and events.hpp: sides, results, and the events of a book.
-- Identifiers, prices and quantities are numbers; the range of each is a hypothesis where it counts.
use limit_order_book.Base.{
  ℕ, ◌^◌, Bool, true, false, ◌≡◌, ◌≢◌, ◌↔◌, ◌⊎◌, inl, inr, refl, arith, Keyed,
}
use Prim.Native.String.{String}

-- `other` stands for a byte that no enumerator of `Side` names and that a cast can make.
pub data Side : Type 0 where
  bid ask other : Side

abbrev pub side_beq : Side → Side → Bool
side_beq bid bid = true
side_beq ask ask = true
side_beq other other = true
side_beq _ _ = false

pub side_beq_iff : (s t : Side) → (side_beq s t ≡ true) ↔ (s ≡ t)
side_beq_iff bid t = (λ h. ground arith, λ h. ground arith)
side_beq_iff ask t = (λ h. ground arith, λ h. ground arith)
side_beq_iff other t = (λ h. ground arith, λ h. ground arith)

instance abbrev pub side_eq : Keyed Side
side_eq = record { beq = side_beq; beq_iff = side_beq_iff }

-- side == Side::Bid || side == Side::Ask
abbrev pub is_known : Side → Bool
is_known bid = true
is_known ask = true
is_known other = false

-- The opposite side, as `side == Bid ? Ask : Bid` computes it.
abbrev pub opposite : Side → Side
opposite bid = ask
opposite ask = bid
opposite other = bid

pub data ApplyResult : Type 0 where
  ok duplicate_order unknown_order invalid_price invalid_quantity : ApplyResult
  unknown_instrument quantity_exceeds_remaining parse_error not_implemented : ApplyResult
  allocation_failed : ApplyResult

abbrev pub is_ok : ApplyResult → Bool
is_ok ok = true
is_ok duplicate_order = false
is_ok _ = false

unfoldable pub result_to_string : ApplyResult → String
result_to_string ok = "ok"
result_to_string duplicate_order = "duplicate_order"
result_to_string unknown_order = "unknown_order"
result_to_string invalid_price = "invalid_price"
result_to_string invalid_quantity = "invalid_quantity"
result_to_string quantity_exceeds_remaining = "quantity_exceeds_remaining"
result_to_string parse_error = "parse_error"
result_to_string not_implemented = "not_implemented"
result_to_string allocation_failed = "allocation_failed"
result_to_string unknown_instrument = "unknown_instrument"

pub record AddOrder : Type 0 where
  pub order_id : ℕ
  pub side : Side
  pub price : ℕ
  pub quantity : ℕ

pub record CancelOrder : Type 0 where
  pub order_id : ℕ

pub record ExecuteOrder : Type 0 where
  pub order_id : ℕ
  pub quantity : ℕ

pub data EventPayload : Type 0 where
  add_order : AddOrder → EventPayload
  cancel_order : CancelOrder → EventPayload
  execute_order : ExecuteOrder → EventPayload

pub record MarketEvent : Type 0 where
  pub sequence : ℕ
  pub instrument_id : ℕ
  pub payload : EventPayload

-- `Quantity` and `Price` are 32 bits wide.
abbrev pub u32_mod : ℕ
u32_mod = 2 ^ 32

abbrev pub u64_mod : ℕ
u64_mod = 2 ^ 64

pub ok-cases : (r : ApplyResult) → (r ≡ ok) ⊎ (r ≢ ok)
ok-cases ok = inl refl
ok-cases duplicate_order = inr (λ e. cc)
ok-cases _ = inr (λ e. cc)

pub is_ok-ok : (r : ApplyResult) → is_ok r ≡ true → r ≡ ok
is_ok-ok ok h = refl
is_ok-ok duplicate_order h = cc
is_ok-ok unknown_order h = cc
is_ok-ok invalid_price h = cc
is_ok-ok invalid_quantity h = cc
is_ok-ok unknown_instrument h = cc
is_ok-ok quantity_exceeds_remaining h = cc
is_ok-ok parse_error h = cc
is_ok-ok not_implemented h = cc
is_ok-ok allocation_failed h = cc
