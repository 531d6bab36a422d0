-- ===== src/Trading/Tests.antt =====
-- An engine with one instrument and two clients, and the theorems of Trading at it.
use limit_order_book.Base.{
  ℕ, suc, ◌-◌, subst, Bool-cases, inl, inr, true, false, Option, none, some, [], ◌∷◌, ◌≡◌, ◌≢◌,
  refl, arith, is_some, ◌==◌, nat_eq, pair_eq,
}
use limit_order_book.Map.{Map, lookup, insert, modify, erase}
use limit_order_book.Types.{add_order, bid, ask}
use limit_order_book.Book.State.{OrderBook, Allocation, empty_book, levels}
use limit_order_book.Book.Invariant.{IsValid}
use limit_order_book.Book.Reachable.{applied, created, Reachable-IsValid}
use limit_order_book.Trading.Messages.{Message, default_message, no_reason}
use limit_order_book.Trading.Engine.State.{InstrumentRules, Engine, Run, empty_batch, last_request}
use limit_order_book.Trading.Engine.Process.{process, reports_for}
use limit_order_book.Trading.Engine.Numbering.{BooksOk, RunOk}
use limit_order_book.Trading.Engine.Numbering.Process.{process-RunOk}
use limit_order_book.Trading.Engine.Requests.{process_retry, process_out_of_turn, Unmoved}
use limit_order_book.Base.Int.{◌-ℤ◌, ◌+ℤ◌, ◌*ℤ◌}
use limit_order_book.Book.Apply.{
  apply, apply_add, add_to, apply_cancel, apply_execute, cancel_at, cancel_found, close_level,
  execute_at, execute_found, open_level,
}
use limit_order_book.Book.Queries.{for_each_order, visit_levels, visit_orders}
use limit_order_book.Book.State.{erase_if_empty, node_at, remaining_at}
use limit_order_book.Trading.Engine.Plan.{start_plan, plan, crosses, plan_visit}
use limit_order_book.Trading.Engine.Position.{fill, signed_size}
use limit_order_book.Trading.Engine.Process.{
  process_numbered, carry_out, dispatch, cancel, cancel_all_ids, cancel_each, cancel_own, find_own,
  replace_own,
}
use limit_order_book.Trading.Engine.Risk.{
  check_rules, check_limits, exposure, is_malformed, worst_position,
}
use limit_order_book.Trading.Engine.State.{position, reject, report, update}
use limit_order_book.Trading.Engine.Submit.{
  submit, submit_ruled, submit_checked, submit_planned, place, commit, cancel_book, drop_maker,
  execute_book, fill_all, fill_one, fill_position, finish, publish_trade, reduce_book,
  reduce_in_place, retire_if_replacing, retire_old, settle_positions, submit_replacing,
}
use limit_order_book.Trading.Messages.Bytes.{
  action_byte, bool_byte, kind_byte, order_type_byte, reject_byte, report_byte, tif_byte,
  update_byte,
}
use limit_order_book.Trading.Messages.Equality.{message_beq}
use Prim.Native.Nat.{min}
use limit_order_book.Trading.Engine.Plan.Greedy.{queue, total, matched, plan-matched}
use limit_order_book.Trading.Engine.Plan.Available.{available, plan-available}
use limit_order_book.Trading.Engine.Plan.Makers.{MakerOk, EachFill, plan-MakerOk}

abbrev granted : Allocation
granted = record { level_node = true; order_node = true; index_node = true }

abbrev rules : InstrumentRules
rules = record {
  tick_size = 1;
  lot_size = 1;
  min_price = 1;
  max_price = 1000;
  max_order_quantity = 100;
  max_notional = 1000000;
  max_position = 1000;
  max_open_orders = 10;
}

abbrev engine : Engine
engine = record {
  instruments = (1, rules) ∷ [];
  books = (1, empty_book) ∷ [];
  resting = [];
  by_client = [];
  clients = [];
  positions = [];
  epoch = 5;
  sequence = 0;
  response_sequence = 0;
  next_order = 1;
  next_trade = 1;
  stats = record { commands = 0; rejected_commands = 0; trades = 0; volume = 0 };
}

abbrev sale : Message
sale = record default_message {
  side = ask;
  client_id = 8;
  request_id = 1;
  order_id = 1;
  instrument_id = 1;
  price = 100;
  quantity = 10;
}

abbrev purchase : Message
purchase = record default_message {
  side = bid;
  client_id = 7;
  request_id = 1;
  order_id = 1;
  instrument_id = 1;
  price = 101;
  quantity = 4;
}

abbrev run_of : Option Run → Run
run_of none = (engine, empty_batch)
run_of (some r) = r

run_of-some : (o : Option Run) → is_some o ≡ true → o ≡ some (run_of o)
run_of-some none h = cc
run_of-some (some r) h = refl

abbrev sold : Run
sold = run_of (process granted engine sale)

abbrev bought : Run
bought = run_of (process granted sold.0 purchase)

-- A request that skips a number.
abbrev late : Message
late = record sale { request_id = 5 }

abbrev skipped : Run
skipped = run_of (process granted engine late)

runs :
    (is_some (process granted engine sale) ≡ true)
    × ((is_some (process granted sold.0 purchase) ≡ true)
        × ((bought.0.stats.trades ≡ 1) × (is_some (process granted engine late) ≡ true)))
unfolding process lookup insert modify erase last_request reports_for ◌-ℤ◌ ◌+ℤ◌ ◌*ℤ◌ apply_add
    add_to apply_cancel apply_execute cancel_at cancel_found close_level execute_at execute_found
    open_level for_each_order visit_levels visit_orders erase_if_empty node_at remaining_at plan
    crosses plan_visit fill signed_size process_numbered carry_out dispatch cancel cancel_all_ids
    cancel_each cancel_own find_own replace_own check_rules check_limits exposure is_malformed
    worst_position position reject report update submit submit_ruled submit_checked submit_planned
    place commit cancel_book drop_maker execute_book fill_all fill_one fill_position finish
    publish_trade reduce_book reduce_in_place retire_if_replacing retire_old settle_positions
    submit_replacing action_byte bool_byte kind_byte order_type_byte reject_byte report_byte
    tif_byte update_byte message_beq
runs = (refl, (refl, (refl, refl)))

engine-BooksOk : BooksOk engine.books
unfolding lookup
engine-BooksOk i b h = elim (Bool-cases (1 == i)) [
  | inl same ↦ subst IsValid (ground (arith, h, same)) (Reachable-IsValid empty_book (created true))
  | inr apart ↦ absurd (ground (arith, h, apart))
]

sold-BooksOk : BooksOk sold.0.books
sold-BooksOk =
    (process-RunOk granted engine sale sold (omega arith) engine-BooksOk
      (run_of-some _ runs.0)).books_ok

process-RunOk_example : RunOk sold.0 bought
process-RunOk_example =
    process-RunOk granted sold.0 purchase bought (omega arith) sold-BooksOk (run_of-some _ runs.1.0)

first_request : sale.request_id ≡ suc (last_request engine 8)
unfolding last_request lookup
first_request = refl

process_retry_example :
    process granted sold.0 sale
    ≡ some (sold.0, record { reports = reports_for 8 sold.1.reports; updates = [] })
process_retry_example =
    process_retry granted granted engine sale sold (omega arith) engine-BooksOk refl first_request
      (run_of-some _ runs.0)

not_next : late.request_id ≢ suc (last_request engine 8)
unfolding last_request lookup
not_next h = omega (arith, h)

process_out_of_turn_example : Unmoved engine skipped
process_out_of_turn_example =
    process_out_of_turn granted engine late skipped refl not_next (run_of-some _ runs.1.1.1)

-- A book that offers ten at 100.
abbrev offered : OrderBook
offered =
    (apply granted empty_book
      (add_order (record { order_id = 1; side = ask; price = 100; quantity = 10 }))).1

offered-IsValid : IsValid offered
offered-IsValid =
    Reachable-IsValid offered (applied granted empty_book _ (omega arith) (created true))

abbrev makers : Map ℕ Message
makers = (1, sale) ∷ []

offered-plan :
    ((plan purchase makers offered).rejection ≡ no_reason)
    × ((plan purchase makers offered).faulted ≡ false)
unfolding apply apply_add add_to open_level modify insert lookup plan for_each_order visit_levels
    visit_orders plan_visit crosses
offered-plan = (refl, refl)

plan-matched_example :
    plan purchase makers offered
    ≡ matched purchase (start_plan purchase) (queue ask (levels offered ask))
plan-matched_example = plan-matched purchase makers offered offered-plan.0 offered-plan.1

plan-available_example :
    (total (plan purchase makers offered).planned
      ≡ min 4 (available purchase (queue ask (levels offered ask))))
    × ((plan purchase makers offered).leaves
        ≡ 4 - available purchase (queue ask (levels offered ask)))
plan-available_example =
    plan-available purchase makers offered offered-IsValid offered-plan.0 offered-plan.1

plan-MakerOk_example : EachFill (MakerOk purchase makers) (plan purchase makers offered).planned
plan-MakerOk_example = plan-MakerOk purchase makers offered
