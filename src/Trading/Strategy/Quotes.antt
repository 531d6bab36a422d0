-- ===== src/Trading/Strategy/Quotes.antt =====
-- The quotes of the strategies of src/trading/strategy.cpp.
use limit_order_book.Base.{
  ℕ, zero, suc, ◌+◌, ◌*◌, ◌/◌, ◌%◌, ◌≤◌, ◌<◌, Bool, true, false, ◌&&◌, ◌||◌, List, [], ◌∷◌, ◌++◌,
  leb→le, ltb→lt, ◌==◌, nat_eq, if◌then◌else◌, ◌≡◌, refl, sym, ap, subst, arith, Bool-cases, inl,
  inr,
}
use native.Mathlib.Nat.{mul-mod_left, div-mul-le_self, div-add-mod, mod-lt, mul_comm}
use limit_order_book.Base.Int.{
  ℤ, pos, negsuc, pos_part, neg_part, sub_ℕ, ◌+ℤ◌, ◌-ℤ◌, ◌*ℤ◌, +ℤ_parts, -ℤ_parts,
}
use limit_order_book.Types.{Side, bid, ask, other}
use limit_order_book.Trading.Strategy.{
  Quote, StrategyConfig, divide, leb_ℤ, ltb_ℤ, fair_value, bid_price, ask_price, may_buy, may_sell,
  price_max, bid_quotes, ask_quotes, is_idle, maker_quotes,
}

-- a ≤ b of integers.
abbrev pub AtMost : ℤ → ℤ → Type 0
AtMost a b = pos_part a + neg_part b ≤ pos_part b + neg_part a

-- What holds of one quote of a maker.
abbrev pub QuoteOk : StrategyConfig → ℤ → Side → ℕ → Type 0
QuoteOk c inventory bid price =
    AtMost (pos (price + c.edge)) (fair_value c inventory)
    × AtMost (inventory +ℤ pos c.clip) c.inventory_limit
QuoteOk c inventory ask price =
    AtMost (fair_value c inventory +ℤ pos c.edge) (pos price)
    × AtMost (pos 0 -ℤ c.inventory_limit) (inventory -ℤ pos c.clip)
QuoteOk c inventory other price = ⊥

pub record MakerQuote (c : StrategyConfig) (inventory : ℤ) (q : Quote) : Type 0 where
  pub positive : 0 < q.price
  pub within : q.price ≤ 4294967295
  pub on_tick : q.price % c.tick ≡ 0
  pub clipped : q.quantity ≡ c.clip
  pub safe : QuoteOk c inventory q.side q.price

abbrev pub AllMaker : StrategyConfig → ℤ → List Quote → Type 0
AllMaker c inventory [] = Unit
AllMaker c inventory (q ∷ qs) = MakerQuote c inventory q × AllMaker c inventory qs

mul-pos : (a d : ℕ) → pos a *ℤ pos d ≡ pos (a * d)
unfolding ◌*ℤ◌
mul-pos a d = ground arith

mul-neg : (a d : ℕ) → pos_part (sub_ℕ 0 a *ℤ pos d) ≡ 0
unfolding ◌*ℤ◌
mul-neg zero d = ground arith
mul-neg (suc a) d = ground arith

-- A price is a positive multiple of the tick only if the number that is rounded is positive.
record Rounded (d : ℤ) (t price : ℕ) : Type 0 where
  natural : neg_part d ≡ 0
  multiple : price % t ≡ 0
  below : price ≤ pos_part d
  near : pos_part d < price + t

rounded :
    (d : ℤ) (t : ℕ)
    → 0 < t
    → 0 < pos_part (divide d t *ℤ pos t)
    → Rounded d t (pos_part (divide d t *ℤ pos t))
rounded (pos n) t t_pos h =
    subst (Rounded (pos n) t) (sym (ap pos_part (mul-pos (n / t) t))) (record {
      natural = refl;
      multiple = mul-mod_left (n / t) t;
      below = div-mul-le_self n t;
      near = omega (arith, div-add-mod n t, mul_comm t (n / t), mod-lt n t_pos);
    })
rounded (negsuc n) t t_pos h = absurd (omega (arith, h, mul-neg (suc n / t) t))

all_four :
    (a b d e : Bool)
    → (a && b) && (d && e) ≡ true
    → (a ≡ true) × (b ≡ true) × (d ≡ true) × (e ≡ true)
all_four true true true true h = (refl, refl, refl, refl)
all_four true true true false h = cc
all_four true true false e h = cc
all_four true false d e h = cc
all_four false b d e h = cc

positive_price : (v : ℤ) → ltb_ℤ (pos 0) v ≡ true → 0 < pos_part v
positive_price (pos n) h = ground (arith, h)
positive_price (negsuc n) h = absurd (omega (arith, ltb→lt _ _ h))

small_price : (v : ℤ) → leb_ℤ v price_max ≡ true → pos_part v ≤ 4294967295
small_price (pos n) h = ground (arith, h)
small_price (negsuc n) h = omega arith

at_most : (a b : ℤ) → leb_ℤ a b ≡ true → AtMost a b
at_most a b h = leb→le (pos_part a + neg_part b) (pos_part b + neg_part a) h

-- The rounding towards the own side keeps the edge.
bid_edge :
    (fair : ℤ) (edge t price : ℕ)
    → Rounded (fair -ℤ pos edge) t price
    → AtMost (pos (price + edge)) fair
bid_edge fair edge t price r = omega (arith, -ℤ_parts fair (pos edge), r.natural, r.below)

ask_edge :
    (fair : ℤ) (edge t price : ℕ)
    → Rounded ((fair +ℤ pos edge) +ℤ pos t -ℤ pos 1) t price
    → AtMost (fair +ℤ pos edge) (pos price)
ask_edge fair edge t price r =
    let s = fair +ℤ pos edge in
    omega (arith, +ℤ_parts s (pos t), -ℤ_parts (s +ℤ pos t) (pos 1), r.natural, r.near)

module _ (c : StrategyConfig) (inventory : ℤ) where
  one_if :
      (b : Bool) (q : Quote)
      → (b ≡ true → MakerQuote c inventory q)
      → AllMaker c inventory (if b then q ∷ [] else [])
  one_if true q h = (h refl, tt)
  one_if false q h = tt

  AllMaker-append :
      (qs rs : List Quote)
      → AllMaker c inventory qs
      → AllMaker c inventory rs
      → AllMaker c inventory (qs ++ rs)
  AllMaker-append [] rs h k = k
  AllMaker-append (q ∷ qs) rs (h, hs) k = (h, AllMaker-append qs rs hs k)

  module _ (tick_pos : 0 < c.tick) where
    bid-Maker :
        (ask_at : ℤ)
        → AllMaker c inventory
            (bid_quotes c inventory (bid_price c (fair_value c inventory)) ask_at)
    bid-Maker ask_at =
        let fair = fair_value c inventory in
        let v = bid_price c fair in
        one_if ((ltb_ℤ (pos 0) v && ltb_ℤ v ask_at) && (leb_ℤ v price_max && may_buy c inventory)) _
          λ h.
            let (above, apart, small, may) =
              all_four (ltb_ℤ (pos 0) v) (ltb_ℤ v ask_at) (leb_ℤ v price_max) (may_buy c inventory)
                h in
            let r = rounded (fair -ℤ pos c.edge) c.tick tick_pos (positive_price v above) in
            record {
              positive = positive_price v above;
              within = small_price v small;
              on_tick = r.multiple;
              clipped = refl;
              safe = (
                bid_edge fair c.edge c.tick (pos_part v) r,
                at_most (inventory +ℤ pos c.clip) c.inventory_limit may,
              );
            }

    ask-Maker :
        (bid_at : ℤ)
        → AllMaker c inventory
            (ask_quotes c inventory bid_at (ask_price c (fair_value c inventory)))
    ask-Maker bid_at =
        let fair = fair_value c inventory in
        let v = ask_price c fair in
        one_if ((ltb_ℤ bid_at v && ltb_ℤ (pos 0) v) && (leb_ℤ v price_max && may_sell c inventory))
          _
          λ h.
            let (apart, above, small, may) =
              all_four (ltb_ℤ bid_at v) (ltb_ℤ (pos 0) v) (leb_ℤ v price_max) (may_sell c inventory)
                h in
            let r =
              rounded ((fair +ℤ pos c.edge) +ℤ pos c.tick -ℤ pos 1) c.tick tick_pos
                (positive_price v above) in
            record {
              positive = positive_price v above;
              within = small_price v small;
              on_tick = r.multiple;
              clipped = refl;
              safe = (
                ask_edge fair c.edge c.tick (pos_part v) r,
                at_most (pos 0 -ℤ c.inventory_limit) (inventory -ℤ pos c.clip) may,
              );
            }

  -- Whatever the configuration and the inventory, in exact integers, each quote of a maker has a
  -- positive 32-bit price on the tick and the size of a clip. A bid is at least the edge below the
  -- fair value with its skew and an ask at least the edge above, and no quote that is filled takes
  -- the inventory past its limit.
  pub maker_quotes-Maker : AllMaker c inventory (maker_quotes c inventory)
  unfolding maker_quotes
  maker_quotes-Maker = elim (Bool-cases (is_idle c)) [
    | inl idle ↦ rw (is_idle, idle) tt
    | inr busy ↦
        let fair = fair_value c inventory in
        rw (is_idle, busy)
          (AllMaker-append (bid_quotes c inventory (bid_price c fair) (ask_price c fair))
            (ask_quotes c inventory (bid_price c fair) (ask_price c fair))
            (bid-Maker (ticks busy) (ask_price c fair)) (ask-Maker (ticks busy) (bid_price c fair)))
  ]
    where
      first_false : (a e b : Bool) → (a || e) || b ≡ false → a ≡ false
      first_false true e b h = cc
      first_false false e b h = refl

      ticks : is_idle c ≡ false → 0 < c.tick
      ticks h =
          let some_tick =
            first_false (c.tick == 0) (c.edge == 0) (c.clip == 0 || leb_ℤ c.inventory_limit (pos 0))
              h in
          ground (arith, some_tick)
