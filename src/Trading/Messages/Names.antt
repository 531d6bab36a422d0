-- ===== src/Trading/Messages/Names.antt =====
-- The `to_string` tables of src/trading/messages.cpp.
use Prim.Native.String.{String}
use limit_order_book.Trading.Messages.{Reject, ReportType}

unfoldable pub reject_to_string : Reject → String
reject_to_string Reject.no_reason = "none"
reject_to_string Reject.invalid_command = "invalid_command"
reject_to_string Reject.unknown_instrument = "unknown_instrument"
reject_to_string Reject.invalid_price = "invalid_price"
reject_to_string Reject.invalid_quantity = "invalid_quantity"
reject_to_string Reject.duplicate_order = "duplicate_order"
reject_to_string Reject.unknown_order = "unknown_order"
reject_to_string Reject.sequence = "sequence"
reject_to_string Reject.post_only = "post_only"
reject_to_string Reject.fok = "fok"
reject_to_string Reject.self_trade = "self_trade"
reject_to_string Reject.risk_quantity = "risk_quantity"
reject_to_string Reject.risk_notional = "risk_notional"
reject_to_string Reject.risk_position = "risk_position"
reject_to_string Reject.risk_open_orders = "risk_open_orders"
reject_to_string Reject.capacity = "capacity"
reject_to_string Reject.session_busy = "session_busy"
reject_to_string Reject.kill_switch = "kill_switch"

unfoldable pub report_to_string : ReportType → String
report_to_string ReportType.accepted = "accepted"
report_to_string ReportType.rejected = "rejected"
report_to_string ReportType.fill = "fill"
report_to_string ReportType.cancelled = "cancelled"
report_to_string ReportType.replaced = "replaced"
report_to_string ReportType.complete = "complete"
report_to_string ReportType.status = "status"
