-- ===== src/Trading/Engine/Snapshot.antt =====
-- `MatchingEngine::snapshot`: the public state of the engine as rows.
use limit_order_book.Base.{◌%◌, List, [], ◌∷◌, ◌++◌, length}
use limit_order_book.Types.{u32_mod}
use limit_order_book.Trading.Messages.{Message, Kind, default_message}
use limit_order_book.Trading.Engine.State.{Engine}
use limit_order_book.Trading.Replica.{book_rows}

abbrev pub envelope : Engine → Kind → Message
envelope e kind = record default_message {
  kind = kind;
  epoch = e.epoch;
  sequence = e.sequence;
  quantity = length e.resting % u32_mod;
}

unfoldable pub engine_snapshot : Engine → List Message
unfolding book_rows
engine_snapshot e =
    envelope e Kind.snapshot_begin
      ∷ book_rows (record default_message { epoch = e.epoch; sequence = e.sequence }) e.books
    ++ envelope e Kind.snapshot_end ∷ []
