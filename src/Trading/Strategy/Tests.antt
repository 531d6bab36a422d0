-- ===== src/Trading/Strategy/Tests.antt =====
-- A maker with an inventory of seven, and a fill that is reported twice.
use limit_order_book.Base.{[], ◌∷◌, ◌≡◌, refl}
use limit_order_book.Base.Int.{pos, ◌+ℤ◌, ◌-ℤ◌, ◌*ℤ◌}
use limit_order_book.Types.{bid, ask}
use limit_order_book.Trading.Messages.{Message, Kind, ReportType, default_message}
use limit_order_book.Trading.Strategy.{new_manager, StrategyConfig, maker_quotes}
use limit_order_book.Trading.Strategy.Replays.{consume_all, consume_all_again}
use limit_order_book.Trading.Strategy.Quotes.{AllMaker, maker_quotes-Maker}

abbrev config : StrategyConfig
config = record {
  instrument = 1;
  clip = 5;
  fair_price = 100;
  edge = 2;
  tick = 1;
  inventory_limit = pos 50;
}

two_quotes :
    maker_quotes config (pos 7)
    ≡ (record { side = bid; price = 97; quantity = 5 })
      ∷ (record { side = ask; price = 101; quantity = 5 })
      ∷ []
unfolding maker_quotes ◌+ℤ◌ ◌-ℤ◌ ◌*ℤ◌
two_quotes = refl

maker_quotes-Maker_example : AllMaker config (pos 7) (maker_quotes config (pos 7))
maker_quotes-Maker_example = maker_quotes-Maker config (pos 7)

abbrev bought : Message
bought = record default_message {
  kind = Kind.report;
  report = ReportType.fill;
  sequence = 1;
  instrument_id = 1;
  order_id = 3;
  price = 99;
  quantity = 5;
}

consume_all_again_example :
    consume_all (consume_all new_manager (bought ∷ [])) (bought ∷ [])
    ≡ consume_all new_manager (bought ∷ [])
consume_all_again_example = consume_all_again new_manager (bought ∷ [])
