-- ===== src/Trading/Engine/Position.antt =====
-- `Position` of include/order_book/trading/engine.hpp, and `Position::fill`.
-- The signed quantity, the volume and the cash are exact integers here. The cash is a `long double`
-- in the code, whose 64-bit mantissa holds every integer below 2 ^ 64 exactly. The statistics
-- `average_price` and `realized_pnl`, which nothing in the engine reads, are not modelled.
use limit_order_book.Base.{ℕ, ◌+◌, ◌%◌}
use limit_order_book.Base.Int.{ℤ, pos, ◌+ℤ◌, ◌-ℤ◌, ◌*ℤ◌}
use limit_order_book.Types.{Side, bid, ask, other, u64_mod}

pub record Position : Type 0 where
  pub quantity : ℤ
  pub volume : ℕ
  pub cash : ℤ

abbrev pub no_position : Position
no_position = record { quantity = pos 0; volume = 0; cash = pos 0 }

-- side == Side::Bid ? size : -size
unfoldable pub signed_size : Side → ℕ → ℤ
signed_size bid size = pos size
signed_size ask size = pos 0 -ℤ pos size
signed_size other size = pos 0 -ℤ pos size

unfoldable pub fill : Position → Side → ℕ → ℕ → Position
fill p side price size = record {
  quantity = p.quantity +ℤ signed_size side size;
  volume = (p.volume + size) % u64_mod;
  cash = p.cash -ℤ pos price *ℤ signed_size side size;
}
