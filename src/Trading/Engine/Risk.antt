-- ===== src/Trading/Engine/Risk.antt =====
-- The checks of `MatchingEngine::submit` that come before the plan: the form of the command, the
-- rules of its instrument and the limits of its client.
use limit_order_book.Base.{
  ℕ, suc, ◌+◌, ◌*◌, ◌%◌, Bool, true, false, not, ◌&&◌, ◌||◌, [], ◌∷◌, ltb, leb, ◌==◌, nat_eq,
  if◌then◌else◌,
}
use limit_order_book.Base.Int.{ℤ, pos, ◌+ℤ◌, ◌-ℤ◌, abs}
use limit_order_book.Map.{Map}
use limit_order_book.Types.{Side, bid, side_eq, is_known}
use limit_order_book.Trading.Messages.{
  Message, Reject, OrderType, limit, market, TimeInForce, gtc, no_reason, invalid_command,
  invalid_quantity, invalid_price, risk_quantity, risk_notional, risk_open_orders, risk_position,
  duplicate_order,
}
use limit_order_book.Trading.Engine.State.{InstrumentRules}

abbrev pub is_market : OrderType → Bool
is_market limit = false
is_market market = true

abbrev pub is_gtc : TimeInForce → Bool
is_gtc gtc = true
is_gtc TimeInForce.ioc = false
is_gtc TimeInForce.fok = false

-- A command whose fields do not fit together. `replaces` is `old_id != 0`.
unfoldable pub is_malformed : Message → Bool → Bool
is_malformed c replaces =
    not (is_known c.side)
    || (c.order_id == 0
        || ((is_market c.order_type && (not (c.price == 0) || (is_gtc c.tif || c.post_only)))
            || ((c.post_only && not (is_gtc c.tif))
                || (replaces && (is_market c.order_type || not (is_gtc c.tif))))))

-- The price at which a command is weighed.
abbrev pub risk_price : InstrumentRules → Message → ℕ
risk_price r c = if is_market c.order_type then r.max_price else c.price

unfoldable pub check_rules : InstrumentRules → Message → Bool → Reject
unfolding is_malformed
check_rules r c replaces =
    if is_malformed c replaces
    then invalid_command
    else if (c.quantity == 0) || not (c.quantity % r.lot_size == 0)
    then invalid_quantity
    else if not (is_market c.order_type)
        && (ltb c.price r.min_price
            || (ltb r.max_price c.price || not (c.price % r.tick_size == 0)))
    then invalid_price
    else if ltb r.max_order_quantity c.quantity
    then risk_quantity
    else if ltb r.max_notional (risk_price r c * c.quantity)
    then risk_notional
    else no_reason

-- The loop over `resting_`: how many orders the client has, and how much on this side of the
-- instrument.
unfoldable pub exposure : Message → ℕ → Map ℕ Message → ℕ × ℕ → ℕ × ℕ
exposure c old_id [] (open_orders, reserved) = (open_orders, reserved)
exposure c old_id ((id, order) ∷ rest) (open_orders, reserved) = exposure c old_id rest (
    if (id == old_id) || not (order.client_id == c.client_id) then (open_orders, reserved) else (
      suc open_orders,
      if (order.instrument_id == c.instrument_id) && (order.side == c.side)
          then reserved + order.quantity
          else reserved,
    ))

unfoldable pub worst_position : ℤ → Side → ℕ → ℤ
worst_position q side size = if side == bid then q +ℤ pos size else q -ℤ pos size

unfoldable pub check_limits : InstrumentRules → Message → ℕ → Map ℕ Message → ℕ → ℤ → Reject
unfolding exposure worst_position
check_limits r c old_id resting max_order_id held =
    let (open_orders, reserved) = exposure c old_id resting (0, 0) in
    if (old_id == 0) && leb c.order_id max_order_id
    then duplicate_order
    else if leb r.max_open_orders open_orders
    then risk_open_orders
    else if ltb r.max_position (abs (worst_position held c.side (reserved + c.quantity)))
    then risk_position
    else no_reason
