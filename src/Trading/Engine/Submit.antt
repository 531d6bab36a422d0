-- ===== src/Trading/Engine/Submit.antt =====
-- `MatchingEngine::submit`: a new order, or the replacement of the order `old_id`.
use limit_order_book.Base.{
  ℕ, ◌+◌, ◌-◌, ◌%◌, Bool, true, false, not, ◌&&◌, ◌||◌, List, [], ◌∷◌, Option, none, some, ltb, leb,
  ◌==◌, nat_eq, pair_eq, if◌then◌else◌,
}
use Prim.Native.Nat.{max}
use limit_order_book.Map.{Map, lookup, contains, insert, erase, modify}
use limit_order_book.Types.{Side, side_eq, u64_mod, ApplyResult, is_ok, ExecuteOrder, CancelOrder}
use limit_order_book.Book.State.{OrderBook, Allocation}
use limit_order_book.Book.Apply.{apply_add, apply_cancel, apply_execute}
use limit_order_book.Trading.Messages.{
  Message, Reject, UpdateType, ReportType, TimeInForce, no_reason, unknown_instrument,
  invalid_command, capacity, accepted, replaced, cancelled,
}
use limit_order_book.Trading.Engine.Position.{no_position, fill}
use limit_order_book.Trading.Engine.State.{
  InstrumentRules, Engine, Run, ClientState, ◌>>=◌, pair_before, report, update, reject, position,
}
use limit_order_book.Trading.Engine.Risk.{is_market, is_gtc, check_rules, check_limits}
use limit_order_book.Trading.Engine.Plan.{Fill, Plan, plan}

abbrev pub is_none : Reject → Bool
is_none no_reason = true
is_none invalid_command = false
is_none _ = false

abbrev pub is_fok : TimeInForce → Bool
is_fok TimeInForce.fok = true
is_fok TimeInForce.gtc = false
is_fok TimeInForce.ioc = false

-- m.emplace(k, v), which leaves a key that is there as it is
abbrev pub emplace_ℕ {ℓ} : {V : Type ℓ} → ℕ → V → Map ℕ V → Map ℕ V
emplace_ℕ k v m = if contains k m then m else insert ltb k v m

abbrev pub emplace_pair {ℓ} : {V : Type ℓ} → ℕ × ℕ → V → Map (ℕ × ℕ) V → Map (ℕ × ℕ) V
emplace_pair k v m = if contains k m then m else insert pair_before k v m

abbrev pub put_book : Engine → ℕ → OrderBook → Engine
put_book e instrument book = record e { books = modify instrument (λ _. book) e.books }

-- require(book.apply(...) == ApplyResult::Ok, ...)
abbrev pub require_ok : ApplyResult × OrderBook → Option OrderBook
require_ok (r, book) = if is_ok r then some book else none

-- require(books_.at(instrument).apply(ExecuteOrder{...}) == ApplyResult::Ok, ...)
unfoldable pub execute_book : Engine → ℕ → ExecuteOrder → Option Engine
execute_book e instrument order = do
  book ← lookup instrument e.books
  book' ← require_ok (apply_execute book order)
  some (put_book e instrument book')

-- require(books_.at(instrument).apply(CancelOrder{...}) == ApplyResult::Ok, ...)
unfoldable pub cancel_book : Engine → ℕ → CancelOrder → Option Engine
cancel_book e instrument order = do
  book ← lookup instrument e.books
  book' ← require_ok (apply_cancel book order)
  some (put_book e instrument book')

unfoldable pub reduce_book : Run → Message → ℕ → ℕ → Option Run
reduce_book (e, b) m old_id reduction =
    if reduction == 0
    then some (e, b)
    else (execute_book e m.instrument_id (record { order_id = old_id; quantity = reduction })
        >>= λ e'. some (update (e', b) m UpdateType.reduce))

-- A replacement at the same price for no more: the order keeps its place in the queue.
unfoldable pub reduce_in_place : Run → Message → ℕ → Message → Option Run
reduce_in_place r c old_id old = do
  let m = record c { exchange_id = old_id; remaining = c.quantity }
  (e', b') ← reduce_book r m old_id (old.quantity - c.quantity)
  some (
      report
        (
          record e' {
            resting = modify old_id (λ o. record o { quantity = c.quantity }) e'.resting;
          },
          b',
        )
        m replaced no_reason)

-- positions_.at(key).fill(side, price, size)
unfoldable pub fill_position : Engine → ℕ → ℕ → Side → ℕ → ℕ → Option Engine
fill_position e client instrument side price size =
    if contains (client, instrument) e.positions
    then some (record e {
      positions = modify (client, instrument) (λ p. fill p side price size) e.positions;
    })
    else none

unfoldable pub drop_maker : Engine → ℕ → Message → Engine
drop_maker e id maker =
    if maker.quantity == 0
    then record e {
      by_client = erase (maker.client_id, maker.order_id) e.by_client;
      resting = erase id e.resting;
    }
    else e

abbrev pub counted : Engine → ℕ → Engine
counted e size = record e {
  next_trade = (e.next_trade + 1) % u64_mod;
  stats = record (e.stats) {
    trades = (e.stats.trades + 1) % u64_mod;
    volume = (e.stats.volume + size) % u64_mod;
  };
}

-- The four messages of a trade: the maker's fill and its execution, the taker's fill and the trade.
unfoldable pub publish_trade : Run → Message → Message → Run
publish_trade r execution taker =
    let r' = update (report r execution ReportType.fill no_reason) execution UpdateType.execute in
    update (report r' taker ReportType.fill no_reason) taker UpdateType.trade

unfoldable pub settle_positions : Engine → Message → Message → Fill → Option Engine
settle_positions e maker incoming f = do
  e' ← fill_position e maker.client_id incoming.instrument_id maker.side f.price f.size
  fill_position e' incoming.client_id incoming.instrument_id incoming.side f.price f.size

-- The body of the loop over the planned fills.
unfoldable pub fill_one : Message → Run → ℕ → Fill → Option Run
fill_one incoming (e, b) taker_leaves f = do
  old_maker ← lookup f.id e.resting
  let maker = record old_maker { quantity = old_maker.quantity - f.size }
  e1 ← execute_book e incoming.instrument_id (record { order_id = f.id; quantity = f.size })
  let e2 = record e1 { resting = modify f.id (λ _. maker) e1.resting }
  let execution = record maker {
    quantity = f.size;
    remaining = maker.quantity;
    trade_id = e.next_trade;
  }
  let taker = record incoming {
    price = f.price;
    quantity = f.size;
    remaining = taker_leaves;
    trade_id = e.next_trade;
  }
  let r3 = publish_trade (e2, b) execution taker
  e4 ← settle_positions (r3.0) maker incoming f
  some (counted (drop_maker e4 f.id maker) f.size, r3.1)

unfoldable pub fill_all : Message → Run → ℕ → List Fill → Option Run
fill_all incoming r taker_leaves [] = some r
fill_all incoming r taker_leaves (f ∷ fs) =
    let left = taker_leaves - f.size in
    fill_one incoming r left f >>= λ r'. fill_all incoming r' left fs

-- The old order of a replacement leaves the book; its client's key follows or goes.
unfoldable pub retire_old : Run → Message → ℕ → ℕ → Bool → Option Run
retire_old (e, b) c old_id new_id rests = do
  old ← lookup old_id e.resting
  e1 ← cancel_book e c.instrument_id (record { order_id = old_id })
  let (e', b') = update (e1, b) old UpdateType.cancel
  some (
    record e' {
      resting = erase old_id e'.resting;
      by_client =
          if rests
          then modify (c.client_id, c.order_id) (λ _. new_id) e'.by_client
          else erase (c.client_id, c.order_id) e'.by_client;
    },
    b',
  )

unfoldable pub retire_if_replacing : Run → Message → ℕ → ℕ → Bool → Option Run
retire_if_replacing r c old_id new_id rests =
    if old_id == 0 then some r else retire_old r c old_id new_id rests

-- What is left of the command rests in the book, or is cancelled.
unfoldable pub finish : Message → ℕ → Bool → Run → Run
finish incoming leaves rests r =
    if rests
    then update r (record incoming { quantity = leaves; remaining = leaves }) UpdateType.add
    else if leaves == 0
    then r
    else report r (record incoming { quantity = leaves; remaining = 0 }) cancelled no_reason

unfoldable pub commit : Run → Message → ℕ → ℕ → Plan → Bool → Option Run
commit (e, b) c old_id new_id p rests = do
  let incoming = record c { exchange_id = new_id; remaining = c.quantity }
  let e0 = record e { next_order = (e.next_order + 1) % u64_mod }
  (e1, b1) ← retire_if_replacing (e0, b) c old_id new_id rests
  let raise = λ (s : ClientState). record s { max_order_id = max s.max_order_id c.order_id }
  let e2 = record e1 { clients = modify c.client_id raise e1.clients }
  let r2 = report (e2, b1) incoming (if old_id == 0 then accepted else replaced) no_reason
  r3 ← fill_all incoming r2 c.quantity p.planned
  some (finish incoming p.leaves rests r3)

-- The new order rests before the old one leaves, so that a full book is noticed in time.
unfoldable pub place : Allocation → Run → Message → ℕ → ℕ → Plan → OrderBook → Option Run
place alloc (e, b) c old_id new_id p book =
    let resting_order = record c {
      exchange_id = new_id;
      quantity = p.leaves;
      remaining = p.leaves;
    } in
    let (r, book') =
      apply_add alloc book
        (record { order_id = new_id; side = c.side; price = c.price; quantity = p.leaves }) in
    let e' = record (put_book e c.instrument_id book') {
      resting = emplace_ℕ new_id resting_order e.resting;
      by_client =
          if old_id == 0
          then emplace_pair (c.client_id, c.order_id) new_id e.by_client
          else e.by_client;
    } in
    if is_ok r
    then commit (e', b) c old_id new_id p true
    else some (
        reject
          (
            record e' {
              resting = erase new_id e'.resting;
              by_client =
                  if old_id == 0
                  then erase (c.client_id, c.order_id) e'.by_client
                  else e'.by_client;
            },
            b,
          )
          c capacity)

unfoldable pub submit_planned : Allocation → Run → Message → ℕ → Plan → OrderBook → Option Run
submit_planned alloc (e, b) c old_id p book =
    if p.faulted
    then none
    else if not (is_none p.rejection)
    then some (reject (e, b) c p.rejection)
    else if is_fok c.tif && not (p.leaves == 0)
    then some (reject (e, b) c Reject.fok)
    else (let rests = not (p.leaves == 0) && (is_gtc c.tif && not (is_market c.order_type)) in
        let e' = record e {
          positions = emplace_pair (c.client_id, c.instrument_id) no_position e.positions;
        } in
        if rests
        then place alloc (e', b) c old_id e.next_order p book
        else commit (e', b) c old_id e.next_order p false)

unfoldable pub submit_replacing : Allocation → Run → Message → ℕ → Message → OrderBook → Option Run
submit_replacing alloc (e, b) c old_id old book =
    if not (old.instrument_id == c.instrument_id) || not (old.side == c.side)
    then some (reject (e, b) c invalid_command)
    else if (old.price == c.price) && leb c.quantity old.quantity
    then reduce_in_place (e, b) c old_id old
    else submit_planned alloc (e, b) c old_id (plan c e.resting book) book

unfoldable pub submit_checked : Allocation → Run → Message → ℕ → OrderBook → Option Run
submit_checked alloc (e, b) c old_id book =
    if old_id == 0
    then submit_planned alloc (e, b) c old_id (plan c e.resting book) book
    else (lookup old_id e.resting >>= λ old. submit_replacing alloc (e, b) c old_id old book)

-- The order of an instrument that is known, with its rules.
unfoldable pub submit_ruled : Allocation → Run → Message → ℕ → Option InstrumentRules → Option Run
submit_ruled alloc (e, b) c old_id none = some (reject (e, b) c unknown_instrument)
submit_ruled alloc (e, b) c old_id (some r) =
    let malformed = check_rules r c (not (old_id == 0)) in
    if not (is_none malformed) then some (reject (e, b) c malformed) else (do
      state ← lookup c.client_id e.clients
      let held = (position e c.client_id c.instrument_id).quantity
      let limits = check_limits r c old_id e.resting state.max_order_id held
      if not (is_none limits)
          then some (reject (e, b) c limits)
          else (lookup c.instrument_id e.books >>= λ book.
              submit_checked alloc (e, b) c old_id book))

unfoldable pub submit : Allocation → Run → Message → ℕ → Option Run
unfolding submit_ruled
submit alloc r c old_id = submit_ruled alloc r c old_id (lookup c.instrument_id (r.0).instruments)
