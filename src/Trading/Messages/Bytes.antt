-- ===== src/Trading/Messages/Bytes.antt =====
-- The values of the enumerators, as `static_cast<std::uint8_t>` gives them, and the way back.
use limit_order_book.Base.{ℕ, suc, zero, Bool, true, false, ◌≡◌, refl}
use limit_order_book.Trading.Messages.{
  Kind, Action, OrderType, TimeInForce, ReportType, UpdateType, Reject,
}

unfoldable pub kind_byte : Kind → ℕ
kind_byte Kind.command = 1
kind_byte Kind.report = 2
kind_byte Kind.delta = 3
kind_byte Kind.heartbeat = 4
kind_byte Kind.snapshot_begin = 5
kind_byte Kind.snapshot_order = 6
kind_byte Kind.snapshot_end = 7

unfoldable pub action_byte : Action → ℕ
action_byte Action.new = 1
action_byte Action.cancel = 2
action_byte Action.replace = 3
action_byte Action.cancel_all = 4
action_byte Action.snapshot = 5
action_byte Action.status = 6

unfoldable pub order_type_byte : OrderType → ℕ
order_type_byte OrderType.limit = 1
order_type_byte OrderType.market = 2

unfoldable pub tif_byte : TimeInForce → ℕ
tif_byte TimeInForce.gtc = 1
tif_byte TimeInForce.ioc = 2
tif_byte TimeInForce.fok = 3

unfoldable pub report_byte : ReportType → ℕ
report_byte ReportType.accepted = 1
report_byte ReportType.rejected = 2
report_byte ReportType.fill = 3
report_byte ReportType.cancelled = 4
report_byte ReportType.replaced = 5
report_byte ReportType.complete = 6
report_byte ReportType.status = 7

unfoldable pub update_byte : UpdateType → ℕ
update_byte UpdateType.add = 1
update_byte UpdateType.cancel = 2
update_byte UpdateType.execute = 3
update_byte UpdateType.reduce = 4
update_byte UpdateType.trade = 5

unfoldable pub reject_byte : Reject → ℕ
reject_byte Reject.no_reason = 0
reject_byte Reject.invalid_command = 1
reject_byte Reject.unknown_instrument = 2
reject_byte Reject.invalid_price = 3
reject_byte Reject.invalid_quantity = 4
reject_byte Reject.duplicate_order = 5
reject_byte Reject.unknown_order = 6
reject_byte Reject.sequence = 7
reject_byte Reject.post_only = 8
reject_byte Reject.fok = 9
reject_byte Reject.self_trade = 10
reject_byte Reject.risk_quantity = 11
reject_byte Reject.risk_notional = 12
reject_byte Reject.risk_position = 13
reject_byte Reject.risk_open_orders = 14
reject_byte Reject.capacity = 15
reject_byte Reject.session_busy = 16
reject_byte Reject.kill_switch = 17

unfoldable pub bool_byte : Bool → ℕ
bool_byte true = 1
bool_byte false = 0

-- `static_cast` to an enumeration, at the bytes that `decode` has checked.
unfoldable pub kind_of : ℕ → Kind
kind_of zero = Kind.command
kind_of (suc zero) = Kind.command
kind_of (suc (suc zero)) = Kind.report
kind_of (suc (suc (suc zero))) = Kind.delta
kind_of (suc (suc (suc (suc zero)))) = Kind.heartbeat
kind_of (suc (suc (suc (suc (suc zero))))) = Kind.snapshot_begin
kind_of (suc (suc (suc (suc (suc (suc zero)))))) = Kind.snapshot_order
kind_of _ = Kind.snapshot_end

unfoldable pub action_of : ℕ → Action
action_of zero = Action.new
action_of (suc zero) = Action.new
action_of (suc (suc zero)) = Action.cancel
action_of (suc (suc (suc zero))) = Action.replace
action_of (suc (suc (suc (suc zero)))) = Action.cancel_all
action_of (suc (suc (suc (suc (suc zero))))) = Action.snapshot
action_of _ = Action.status

unfoldable pub order_type_of : ℕ → OrderType
order_type_of zero = OrderType.limit
order_type_of (suc zero) = OrderType.limit
order_type_of _ = OrderType.market

unfoldable pub tif_of : ℕ → TimeInForce
tif_of zero = TimeInForce.gtc
tif_of (suc zero) = TimeInForce.gtc
tif_of (suc (suc zero)) = TimeInForce.ioc
tif_of _ = TimeInForce.fok

unfoldable pub report_of : ℕ → ReportType
report_of zero = ReportType.accepted
report_of (suc zero) = ReportType.accepted
report_of (suc (suc zero)) = ReportType.rejected
report_of (suc (suc (suc zero))) = ReportType.fill
report_of (suc (suc (suc (suc zero)))) = ReportType.cancelled
report_of (suc (suc (suc (suc (suc zero))))) = ReportType.replaced
report_of (suc (suc (suc (suc (suc (suc zero)))))) = ReportType.complete
report_of _ = ReportType.status

unfoldable pub update_of : ℕ → UpdateType
update_of zero = UpdateType.add
update_of (suc zero) = UpdateType.add
update_of (suc (suc zero)) = UpdateType.cancel
update_of (suc (suc (suc zero))) = UpdateType.execute
update_of (suc (suc (suc (suc zero)))) = UpdateType.reduce
update_of _ = UpdateType.trade

unfoldable pub reject_of : ℕ → Reject
reject_of zero = Reject.no_reason
reject_of (suc zero) = Reject.invalid_command
reject_of (suc (suc zero)) = Reject.unknown_instrument
reject_of (suc (suc (suc zero))) = Reject.invalid_price
reject_of (suc (suc (suc (suc zero)))) = Reject.invalid_quantity
reject_of (suc (suc (suc (suc (suc zero))))) = Reject.duplicate_order
reject_of (suc (suc (suc (suc (suc (suc zero)))))) = Reject.unknown_order
reject_of (suc (suc (suc (suc (suc (suc (suc zero))))))) = Reject.sequence
reject_of (suc (suc (suc (suc (suc (suc (suc (suc zero)))))))) = Reject.post_only
reject_of (suc (suc (suc (suc (suc (suc (suc (suc (suc zero))))))))) = Reject.fok
reject_of (suc (suc (suc (suc (suc (suc (suc (suc (suc (suc zero)))))))))) = Reject.self_trade
reject_of (suc (suc (suc (suc (suc (suc (suc (suc (suc (suc (suc zero))))))))))) =
    Reject.risk_quantity
reject_of (suc (suc (suc (suc (suc (suc (suc (suc (suc (suc (suc (suc zero)))))))))))) =
    Reject.risk_notional
reject_of (suc (suc (suc (suc (suc (suc (suc (suc (suc (suc (suc (suc (suc zero))))))))))))) =
    Reject.risk_position
reject_of (suc (suc (suc (suc (suc (suc (suc (suc (suc (suc (suc (suc (suc (suc zero)))))))))))))) =
    Reject.risk_open_orders
reject_of
      (suc
        (suc (suc (suc (suc (suc (suc (suc (suc (suc (suc (suc (suc (suc (suc zero))))))))))))))) =
    Reject.capacity
reject_of
      (suc (
        suc (
          suc
            (suc (suc (suc (suc (suc (suc (suc (suc (suc (suc (suc (suc (suc zero)))))))))))))))) =
    Reject.session_busy
reject_of _ = Reject.kill_switch

-- Each enumerator comes back from its byte.
pub kind_of-byte : (x : Kind) → kind_of (kind_byte x) ≡ x
unfolding kind_of kind_byte
kind_of-byte Kind.command = refl
kind_of-byte Kind.report = refl
kind_of-byte Kind.delta = refl
kind_of-byte Kind.heartbeat = refl
kind_of-byte Kind.snapshot_begin = refl
kind_of-byte Kind.snapshot_order = refl
kind_of-byte Kind.snapshot_end = refl

pub action_of-byte : (x : Action) → action_of (action_byte x) ≡ x
unfolding action_of action_byte
action_of-byte Action.new = refl
action_of-byte Action.cancel = refl
action_of-byte Action.replace = refl
action_of-byte Action.cancel_all = refl
action_of-byte Action.snapshot = refl
action_of-byte Action.status = refl

pub order_type_of-byte : (x : OrderType) → order_type_of (order_type_byte x) ≡ x
unfolding order_type_of order_type_byte
order_type_of-byte OrderType.limit = refl
order_type_of-byte OrderType.market = refl

pub tif_of-byte : (x : TimeInForce) → tif_of (tif_byte x) ≡ x
unfolding tif_of tif_byte
tif_of-byte TimeInForce.gtc = refl
tif_of-byte TimeInForce.ioc = refl
tif_of-byte TimeInForce.fok = refl

pub report_of-byte : (x : ReportType) → report_of (report_byte x) ≡ x
unfolding report_of report_byte
report_of-byte ReportType.accepted = refl
report_of-byte ReportType.rejected = refl
report_of-byte ReportType.fill = refl
report_of-byte ReportType.cancelled = refl
report_of-byte ReportType.replaced = refl
report_of-byte ReportType.complete = refl
report_of-byte ReportType.status = refl

pub update_of-byte : (x : UpdateType) → update_of (update_byte x) ≡ x
unfolding update_of update_byte
update_of-byte UpdateType.add = refl
update_of-byte UpdateType.cancel = refl
update_of-byte UpdateType.execute = refl
update_of-byte UpdateType.reduce = refl
update_of-byte UpdateType.trade = refl

pub reject_of-byte : (x : Reject) → reject_of (reject_byte x) ≡ x
unfolding reject_of reject_byte
reject_of-byte Reject.no_reason = refl
reject_of-byte Reject.invalid_command = refl
reject_of-byte Reject.unknown_instrument = refl
reject_of-byte Reject.invalid_price = refl
reject_of-byte Reject.invalid_quantity = refl
reject_of-byte Reject.duplicate_order = refl
reject_of-byte Reject.unknown_order = refl
reject_of-byte Reject.sequence = refl
reject_of-byte Reject.post_only = refl
reject_of-byte Reject.fok = refl
reject_of-byte Reject.self_trade = refl
reject_of-byte Reject.risk_quantity = refl
reject_of-byte Reject.risk_notional = refl
reject_of-byte Reject.risk_position = refl
reject_of-byte Reject.risk_open_orders = refl
reject_of-byte Reject.capacity = refl
reject_of-byte Reject.session_busy = refl
reject_of-byte Reject.kill_switch = refl
