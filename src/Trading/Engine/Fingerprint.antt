-- ===== src/Trading/Engine/Fingerprint.antt =====
-- `config_fingerprint` of src/trading/engine.cpp, and the default instruments.
use Prim.Native.Nat.{bit_xor}
use limit_order_book.Base.{ℕ, zero, suc, ◌*◌, ◌/◌, ◌%◌, [], ◌∷◌}
use limit_order_book.Types.{u64_mod}
use limit_order_book.Trading.Engine.State.{InstrumentRules, Instruments}

-- The loop of `mix` over the bytes of a value, the lowest first.
unfoldable pub mix_bytes : ℕ → ℕ → ℕ → ℕ
mix_bytes zero hash value = hash
mix_bytes (suc n) hash value =
    mix_bytes n ((bit_xor hash (value % 256) * 1099511628211) % u64_mod) (value / 256)

abbrev pub mix : ℕ → ℕ → ℕ
mix hash value = mix_bytes 8 hash value

abbrev pub mix_rules : ℕ → ℕ → InstrumentRules → ℕ
mix_rules hash id r =
    let h = mix (mix (mix (mix hash id) r.tick_size) r.lot_size) r.min_price in
    mix (mix (mix (mix (mix h r.max_price) r.max_order_quantity) r.max_notional) r.max_position)
      r.max_open_orders

unfoldable pub mix_all : ℕ → Instruments → ℕ
unfolding mix_bytes
mix_all hash [] = hash
mix_all hash ((id, r) ∷ rest) = mix_all (mix_rules hash id r) rest

unfoldable pub config_fingerprint : Instruments → ℕ
unfolding mix_all
config_fingerprint instruments = mix_all (mix 14695981039346656037 1) instruments

abbrev pub default_rules : InstrumentRules
default_rules = record {
  tick_size = 1;
  lot_size = 1;
  min_price = 1;
  max_price = 1000000;
  max_order_quantity = 100000;
  max_notional = 10000000000;
  max_position = 1000000;
  max_open_orders = 128;
}

abbrev pub default_instruments : Instruments
default_instruments = (1, default_rules) ∷ (2, default_rules) ∷ []
