-- ===== src/Trading/Strategy.antt =====
-- The clients' strategies: src/trading/strategy.cpp and its header. Positions and quotes are exact
-- integers, as in the code while nothing passes 64 bits. `OrderManager::check`, which compares a
-- floating-point loss, is not modelled.
pub mod Replays
pub mod Quotes
mod Tests
use limit_order_book.Base.{
  ℕ, zero, suc, ◌+◌, ◌-◌, ◌*◌, ◌/◌, ◌%◌, Bool, true, false, not, ◌&&◌, ◌||◌, Option, none, some,
  List, [], ◌∷◌, ◌++◌, ltb, leb, ◌==◌, nat_eq, if◌then◌else◌,
}
use limit_order_book.Base.Int.{ℤ, pos, negsuc, pos_part, neg_part, sub_ℕ, ◌+ℤ◌, ◌-ℤ◌, ◌*ℤ◌}
use limit_order_book.Map.{Map, lookup, insert, erase, modify}
use limit_order_book.Types.{Side, bid, ask}
use limit_order_book.Book.State.{OrderBook}
use limit_order_book.Book.Queries.{best_bid, best_ask}
use limit_order_book.Trading.Messages.{Message, Kind, ReportType, Reject}
use limit_order_book.Trading.Engine.Position.{Position, no_position, fill}

pub record OrderManager : Type 0 where
  pub last_report : ℕ
  pub orders : Map ℕ Message
  pub positions : Map ℕ Position

abbrev pub new_manager : OrderManager
new_manager = record { last_report = 0; orders = []; positions = [] }

abbrev pub is_report : Kind → Bool
is_report Kind.report = true
is_report _ = false

abbrev pub is_status : ReportType → Bool
is_status ReportType.status = true
is_status _ = false

abbrev pub position_or_new : Option Position → Position
position_or_new none = no_position
position_or_new (some p) = p

-- OrderManager::position
abbrev pub client_position : OrderManager → ℕ → Position
client_position c id = position_or_new (lookup id c.positions)

-- An order that is there keeps what remains, or goes if nothing does.
abbrev pub set_left : Map ℕ Message → Message → Map ℕ Message
set_left orders m =
    if m.remaining == 0
    then erase m.order_id orders
    else modify m.order_id (λ o. record o { quantity = m.remaining }) orders

abbrev pub is_no_reason : Reject → Bool
is_no_reason Reject.no_reason = true
is_no_reason _ = false

abbrev pub stored : OrderManager → Message → OrderManager
stored c m = record c {
  orders = insert ltb m.order_id (record m { quantity = m.remaining }) c.orders;
}

unfoldable pub apply_report : OrderManager → Message → ReportType → OrderManager
unfolding fill
apply_report c m ReportType.accepted = stored c m
apply_report c m ReportType.replaced = stored c m
apply_report c m ReportType.fill = record c {
  positions =
      insert ltb m.instrument_id
        (fill (client_position c m.instrument_id) m.side m.price m.quantity) c.positions;
  orders = set_left c.orders m;
}
apply_report c m ReportType.cancelled = record c { orders = erase m.order_id c.orders }
apply_report c m ReportType.complete =
    if is_no_reason m.reject && not (m.order_id == 0)
    then record c { orders = set_left c.orders m }
    else c
apply_report c m ReportType.rejected = c
apply_report c m ReportType.status = c

abbrev pub is_ignored : OrderManager → Message → Bool
is_ignored c m = not (is_report m.kind) || (is_status m.report || leb m.sequence c.last_report)

-- OrderManager::consume
unfoldable pub consume_report : OrderManager → Message → Bool × OrderManager
unfolding apply_report
consume_report c m =
    if is_ignored c m
    then (false, c)
    else (true, apply_report (record c { last_report = m.sequence }) m m.report)

pub record Quote : Type 0 where
  pub side : Side
  pub price : ℕ
  pub quantity : ℕ

pub record StrategyConfig : Type 0 where
  pub instrument : ℕ
  pub clip : ℕ
  pub fair_price : ℕ
  pub edge : ℕ
  pub tick : ℕ
  pub inventory_limit : ℤ

-- The division of signed integers drops the fraction; the divisor is positive.
abbrev pub divide : ℤ → ℕ → ℤ
divide (pos n) d = pos (n / d)
divide (negsuc n) d = sub_ℕ 0 (suc n / d)

abbrev pub leb_ℤ : ℤ → ℤ → Bool
leb_ℤ a b = leb (pos_part a + neg_part b) (pos_part b + neg_part a)

abbrev pub ltb_ℤ : ℤ → ℤ → Bool
ltb_ℤ a b = ltb (pos_part a + neg_part b) (pos_part b + neg_part a)

-- One tick of skew for each clip of inventory.
abbrev pub fair_value : StrategyConfig → ℤ → ℤ
fair_value c inventory = pos c.fair_price -ℤ divide inventory c.clip *ℤ pos c.tick

abbrev pub bid_price : StrategyConfig → ℤ → ℤ
bid_price c fair = divide (fair -ℤ pos c.edge) c.tick *ℤ pos c.tick

abbrev pub ask_price : StrategyConfig → ℤ → ℤ
ask_price c fair = divide ((fair +ℤ pos c.edge) +ℤ pos c.tick -ℤ pos 1) c.tick *ℤ pos c.tick

abbrev pub may_buy : StrategyConfig → ℤ → Bool
may_buy c inventory = leb_ℤ (inventory +ℤ pos c.clip) c.inventory_limit

abbrev pub may_sell : StrategyConfig → ℤ → Bool
may_sell c inventory = leb_ℤ (pos 0 -ℤ c.inventory_limit) (inventory -ℤ pos c.clip)

abbrev pub price_max : ℤ
price_max = pos 4294967295

abbrev pub bid_quotes : StrategyConfig → ℤ → ℤ → ℤ → List Quote
bid_quotes c inventory bid_at ask_at =
    if (ltb_ℤ (pos 0) bid_at && ltb_ℤ bid_at ask_at)
      && (leb_ℤ bid_at price_max && may_buy c inventory)
    then (record { side = bid; price = pos_part bid_at; quantity = c.clip }) ∷ []
    else []

abbrev pub ask_quotes : StrategyConfig → ℤ → ℤ → ℤ → List Quote
ask_quotes c inventory bid_at ask_at =
    if (ltb_ℤ bid_at ask_at && ltb_ℤ (pos 0) ask_at)
      && (leb_ℤ ask_at price_max && may_sell c inventory)
    then (record { side = ask; price = pos_part ask_at; quantity = c.clip }) ∷ []
    else []

abbrev pub is_idle : StrategyConfig → Bool
is_idle c = (c.tick == 0 || c.edge == 0) || (c.clip == 0 || leb_ℤ c.inventory_limit (pos 0))

unfoldable pub maker_quotes : StrategyConfig → ℤ → List Quote
maker_quotes c inventory =
    let fair = fair_value c inventory in
    let bid_at = bid_price c fair in
    let ask_at = ask_price c fair in
    if is_idle c
    then []
    else bid_quotes c inventory bid_at ask_at ++ ask_quotes c inventory bid_at ask_at

-- The two tests of the taker, at the best prices that there are.
abbrev pub takes_ask : StrategyConfig → ℤ → Option ℕ → Option Quote
takes_ask c inventory none = none
takes_ask c inventory (some price) =
    if leb (price + c.edge) c.fair_price && may_buy c inventory
    then some (record { side = bid; price = price; quantity = c.clip })
    else none

abbrev pub takes_bid : StrategyConfig → ℤ → Option ℕ → Option Quote
takes_bid c inventory none = none
takes_bid c inventory (some price) =
    if leb (c.fair_price + c.edge) price && may_sell c inventory
    then some (record { side = ask; price = price; quantity = c.clip })
    else none

unfoldable pub taker_quote : StrategyConfig → Option OrderBook → ℤ → Option Quote
unfolding best_bid best_ask
taker_quote c none inventory = none
taker_quote c (some book) inventory =
    if c.clip == 0 || leb_ℤ c.inventory_limit (pos 0)
    then none
    else elim (takes_ask c inventory (best_ask book)) [
      | none ↦ takes_bid c inventory (best_bid book)
      | some quote ↦ some quote
    ]
