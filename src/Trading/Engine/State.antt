-- ===== src/Trading/Engine/State.antt =====
-- The state of the engine, and the steps `report`, `update` and `reject` that write a batch.
-- `none` stands for an exception: the engine's host stops then, and no later state is used.
use limit_order_book.Base.{
  ℕ, ◌+◌, ◌%◌, Bool, Option, none, some, List, [], ◌∷◌, ◌++◌, ltb, nat_eq, pair_eq, ◌==◌, ◌||◌,
  ◌&&◌,
}
use limit_order_book.Map.{Map, lookup}
use limit_order_book.Types.{u64_mod}
use limit_order_book.Book.State.{OrderBook}
use limit_order_book.Trading.Messages.{
  Message, Reject, ReportType, UpdateType, Kind, rejected, default_message,
}
use limit_order_book.Trading.Engine.Position.{Position, no_position}

pub record InstrumentRules : Type 0 where
  pub tick_size : ℕ
  pub lot_size : ℕ
  pub min_price : ℕ
  pub max_price : ℕ
  pub max_order_quantity : ℕ
  pub max_notional : ℕ
  pub max_position : ℕ
  pub max_open_orders : ℕ

abbrev pub Instruments : Type 0
Instruments = Map ℕ InstrumentRules

pub record Batch : Type 0 where
  pub reports : List Message
  pub updates : List Message

abbrev pub empty_batch : Batch
empty_batch = record { reports = []; updates = [] }

pub record EngineStats : Type 0 where
  pub commands : ℕ
  pub rejected_commands : ℕ
  pub trades : ℕ
  pub volume : ℕ

pub record ClientState : Type 0 where
  pub last_request : ℕ
  pub max_order_id : ℕ
  pub last_command : Message
  pub cached : List Message

abbrev pub new_client : ClientState
new_client = record {
  last_request = 0;
  max_order_id = 0;
  last_command = default_message;
  cached = [];
}

-- `resting` holds the resting orders by exchange id, `by_client` their exchange ids by client and
-- client order id.
pub record Engine : Type 0 where
  pub instruments : Instruments
  pub books : Map ℕ OrderBook
  pub resting : Map ℕ Message
  pub by_client : Map (ℕ × ℕ) ℕ
  pub clients : Map ℕ ClientState
  pub positions : Map (ℕ × ℕ) Position
  pub epoch : ℕ
  pub sequence : ℕ
  pub response_sequence : ℕ
  pub next_order : ℕ
  pub next_trade : ℕ
  pub stats : EngineStats

-- The order of `std::pair`.
abbrev pub pair_before : ℕ × ℕ → ℕ × ℕ → Bool
pair_before (a, b) (c, d) = ltb a c || ((a == c) && ltb b d)

abbrev pub Run : Type 0
Run = Engine × Batch

infixl 5 ◌>>=◌
abbrev pub ◌>>=◌ {ℓ κ} : {A : Type ℓ} {B : Type κ} → Option A → (A → Option B) → Option B
none >>= f = none
some a >>= f = f a

-- The report of `m` that carries the next response number.
abbrev pub reported : Engine → Message → ReportType → Reject → Message
reported e m type reason = record m {
  kind = Kind.report;
  report = type;
  reject = reason;
  epoch = e.epoch;
  sequence = (e.response_sequence + 1) % u64_mod;
}

unfoldable pub report : Run → Message → ReportType → Reject → Run
report (e, b) m type reason = (
  record e { response_sequence = (e.response_sequence + 1) % u64_mod },
  record b { reports = b.reports ++ reported e m type reason ∷ [] },
)

-- The public update of `m`, which names no client.
abbrev pub published : Engine → Message → UpdateType → Message
published e m type = record m {
  kind = Kind.delta;
  update = type;
  epoch = e.epoch;
  sequence = (e.sequence + 1) % u64_mod;
  client_id = 0;
  request_id = 0;
  order_id = 0;
}

unfoldable pub update : Run → Message → UpdateType → Run
update (e, b) m type = (
  record e { sequence = (e.sequence + 1) % u64_mod },
  record b { updates = b.updates ++ published e m type ∷ [] },
)

unfoldable pub reject : Run → Message → Reject → Run
unfolding report
reject (e, b) c reason =
    report
      (
        record e {
          stats = record (e.stats) {
            rejected_commands = (e.stats.rejected_commands + 1) % u64_mod;
          };
        },
        b,
      )
      c rejected reason

-- MatchingEngine::position
unfoldable pub position : Engine → ℕ → ℕ → Position
position e client instrument = elim (lookup (client, instrument) e.positions) [
  | none ↦ no_position
  | some p ↦ p
]

unfoldable pub last_request : Engine → ℕ → ℕ
last_request e client = elim (lookup client e.clients) [ none ↦ 0 | some s ↦ s.last_request ]
