-- ===== src/Trading/Engine/Process.antt =====
-- `MatchingEngine::process`, the cancel of one order, and the constructor of the engine.
use limit_order_book.Base.{
  ◌+◌, ◌%◌, ℕ, ◌-◌, Bool, true, false, not, ◌&&◌, ◌||◌, List, [], ◌∷◌, Option, none, some, ltb, leb,
  ◌==◌, nat_eq, pair_eq, if◌then◌else◌,
}
use limit_order_book.Types.{u64_mod}
use limit_order_book.Map.{Map, lookup, contains, insert, erase, modify}
use limit_order_book.Book.State.{OrderBook, Allocation, empty_book}
use limit_order_book.Trading.Messages.{
  Message, Kind, Action, ReportType, UpdateType, no_reason, invalid_command, unknown_order,
  sequence,
}
use limit_order_book.Trading.Messages.Equality.{message_beq}
use limit_order_book.Trading.Engine.State.{
  InstrumentRules, Instruments, Engine, Batch, Run, ClientState, ◌>>=◌, report, update, reject,
  last_request, new_client, empty_batch,
}
use limit_order_book.Trading.Engine.Submit.{cancel_book, submit}

-- MatchingEngine::cancel
unfoldable pub cancel : Run → ℕ → ℕ → Option Run
cancel (e, b) id request = do
  order ← lookup id e.resting
  let m = record order { request_id = request; remaining = 0 }
  e1 ← cancel_book e m.instrument_id (record { order_id = id })
  let (e', b') = report (update (e1, b) m UpdateType.cancel) m ReportType.cancelled no_reason
  some (
    record e' {
      by_client = erase (m.client_id, m.order_id) e'.by_client;
      resting = erase id e'.resting;
    },
    b',
  )

unfoldable pub cancel_each : Run → List ℕ → ℕ → Option Run
cancel_each r [] request = some r
cancel_each r (id ∷ ids) request = cancel r id request >>= λ r'. cancel_each r' ids request

-- The ids that a cancel-all collects, in the order of the map.
unfoldable pub cancel_all_ids : Message → Map ℕ Message → List ℕ
cancel_all_ids c [] = []
cancel_all_ids c ((id, order) ∷ rest) =
    let ids = cancel_all_ids c rest in
    if (order.client_id == c.client_id)
      && ((c.instrument_id == 0) || (order.instrument_id == c.instrument_id))
    then id ∷ ids
    else ids

abbrev pub Found : Type 0
Found = Option (ℕ × Message)

-- by_client_.find({client, order}) with the resting order that it names; `none` inside is a miss.
unfoldable pub find_own : Engine → Message → Option Found
find_own e c = elim (lookup (c.client_id, c.order_id) e.by_client) [
  | none ↦ some none
  | some id ↦ (lookup id e.resting >>= λ order. some (some (id, order)))
]

unfoldable pub cancel_own : Run → Message → Found → Option Run
cancel_own r c none = some (reject r c unknown_order)
cancel_own r c (some (id, order)) =
    if order.instrument_id == c.instrument_id
    then cancel r id c.request_id
    else some (reject r c unknown_order)

unfoldable pub replace_own : Allocation → Run → Message → Found → Option Run
replace_own alloc r c none = some (reject r c unknown_order)
replace_own alloc r c (some (id, order)) =
    if order.instrument_id == c.instrument_id
    then submit alloc r c id
    else some (reject r c unknown_order)

unfoldable pub dispatch : Allocation → Run → Message → Action → Option Run
dispatch alloc r c Action.new = submit alloc r c 0
dispatch alloc r c Action.cancel = find_own (r.0) c >>= cancel_own r c
dispatch alloc r c Action.replace = find_own (r.0) c >>= replace_own alloc r c
dispatch alloc r c Action.cancel_all = cancel_each r (cancel_all_ids c (r.0).resting) c.request_id
dispatch alloc r c Action.snapshot = some (reject r c invalid_command)
dispatch alloc r c Action.status = some (reject r c invalid_command)

abbrev pub completion : Message → Found → Message
completion c none = c
completion c (some (id, order)) = record c { remaining = order.quantity; exchange_id = id }

-- The reports of the batch that go to the client of the command.
unfoldable pub reports_for : ℕ → List Message → List Message
reports_for client [] = []
reports_for client (m ∷ ms) =
    let rest = reports_for client ms in if m.client_id == client then m ∷ rest else rest

-- The last request of the client, with its reports for a retry.
abbrev pub remember_request : Engine → Message → Batch → Engine
remember_request e c b =
    let remember = λ (s : ClientState). record s {
      last_request = c.request_id;
      last_command = c;
      cached = reports_for c.client_id b.reports;
    } in
    record e { clients = modify c.client_id remember e.clients }

-- A command that comes in turn: it is carried out, completed, and remembered for a retry.
unfoldable pub carry_out : Allocation → Run → Message → Option Run
carry_out alloc (e, b) c = do
  let e0 = record e { stats = record (e.stats) { commands = (e.stats.commands + 1) % u64_mod } }
  r1 ← dispatch alloc (e0, b) c c.action
  own ← find_own (r1.0) c
  let r2 = report r1 (completion c own) ReportType.complete no_reason
  some (remember_request (r2.0) c (r2.1), r2.1)

-- clients_[c.client_id]
abbrev pub with_client : Engine → ℕ → Engine
with_client e client =
    if contains client e.clients
    then e
    else record e { clients = insert ltb client new_client e.clients }

abbrev pub client_state : Engine → ℕ → ClientState
client_state e client = elim (lookup client e.clients) [ none ↦ new_client | some s ↦ s ]

-- The guards on the client's request number: a retry, a gap, or the next command.
unfoldable pub process_numbered : Allocation → Engine → Message → Option Run
process_numbered alloc e c =
    let e' = with_client e c.client_id in
    let state = client_state e c.client_id in
    if (c.request_id == state.last_request) && message_beq c state.last_command
    then some (e', record { reports = state.cached; updates = [] })
    else if leb c.request_id state.last_request || not (c.request_id - state.last_request == 1)
    then some (report (reject (e', empty_batch) c sequence) c ReportType.complete no_reason)
    else carry_out alloc (e', empty_batch) c

abbrev pub is_command : Kind → Bool
is_command Kind.command = true
is_command Kind.report = false
is_command _ = false

abbrev pub is_snapshot : Action → Bool
is_snapshot Action.snapshot = true
is_snapshot Action.new = false
is_snapshot _ = false

abbrev pub is_status : Action → Bool
is_status Action.status = true
is_status Action.new = false
is_status _ = false

unfoldable pub process : Allocation → Engine → Message → Option Run
process alloc e c =
    if not (is_command c.kind) || is_snapshot c.action
    then some (reject (e, empty_batch) c invalid_command)
    else if is_status c.action
    then some (
        report (e, empty_batch) (record c { request_id = last_request e c.client_id })
          ReportType.status no_reason)
    else if (c.client_id == 0) || (c.request_id == 0)
    then some (report (reject (e, empty_batch) c invalid_command) c ReportType.complete no_reason)
    else process_numbered alloc e c

-- The rules that the constructor accepts.
unfoldable pub valid_rules : ℕ → InstrumentRules → Bool
valid_rules id r =
    not (id == 0)
    && (not (r.tick_size == 0)
        && (not (r.lot_size == 0)
            && (not (r.min_price == 0)
                && (leb r.min_price r.max_price
                    && (not (r.max_order_quantity == 0)
                        && (not (r.max_notional == 0)
                            && (not (r.max_position == 0)
                                && (leb r.max_position 1000000000000
                                    && (not (r.max_open_orders == 0)
                                        && leb r.max_open_orders 4096)))))))))

unfoldable pub open_books : Instruments → Map ℕ OrderBook → Option (Map ℕ OrderBook)
unfolding valid_rules
open_books [] books = some books
open_books ((id, r) ∷ rest) books =
    let later =
      open_books rest (if contains id books then books else insert ltb id empty_book books) in
    if valid_rules id r then later else none

abbrev pub is_nil : Instruments → Bool
is_nil [] = true
is_nil (x ∷ xs) = false

-- The constructor; `none` is its `std::invalid_argument`.
unfoldable pub new_engine : Instruments → ℕ → Option Engine
unfolding open_books
new_engine instruments epoch = if is_nil instruments || (epoch == 0) then none else (do
  books ← open_books instruments []
  some (record {
    instruments = instruments;
    books = books;
    resting = [];
    by_client = [];
    clients = [];
    positions = [];
    epoch = epoch;
    sequence = 0;
    response_sequence = 0;
    next_order = 1;
    next_trade = 1;
    stats = record { commands = 0; rejected_commands = 0; trades = 0; volume = 0 };
  }))
