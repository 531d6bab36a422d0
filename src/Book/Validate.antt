-- ===== src/Book/Validate.antt =====
-- `OrderBook::validate_invariants`, without the text of its reason.
use limit_order_book.Base.{
  ℕ, suc, ◌+◌, ◌-◌, Bool, true, false, not, ◌&&◌, ◌||◌, Option, none, some, List, [], ◌∷◌, length,
  ltb, ◌==◌, nat_eq, if◌then◌else◌,
}
use limit_order_book.Map.{Map, lookup}
use limit_order_book.Types.{Side, bid, ask, side_eq, u64_mod}
use limit_order_book.Book.State.{OrderEntry, OrderLocation, Levels, OrderBook, is_empty, before}
use limit_order_book.Book.Queries.{best_bid, best_ask}

-- `seen_order_ids`, `level_order_count` and the expected best price of the side.
pub record Walk : Type 0 where
  pub seen : List ℕ
  pub count : ℕ
  pub best : Option ℕ

abbrev pub is_member : ℕ → List ℕ → Bool
is_member id [] = false
is_member id (x ∷ xs) = (x == id) || is_member id xs

-- Does the index lead to this node?
abbrev pub leads_to : Option OrderLocation → Side → ℕ → ℕ → Bool
leads_to none side price n = false
leads_to (some loc) side price n =
    (loc.side == side) && ((loc.price == price) && (loc.iterator == n))

-- The checks on one order; `sum` is the aggregate so far.
abbrev pub order_is_sound : Map ℕ OrderLocation → Side → ℕ → ℕ → OrderEntry → List ℕ → ℕ → Bool
order_is_sound index side price n e seen sum =
    not (e.remaining_quantity == 0)
    && (not (is_member e.order_id seen)
        && (not (ltb (u64_mod - 1 - e.remaining_quantity) sum)
            && leads_to (lookup e.order_id index) side price n))

-- The loop over the orders of a level: their sum, with the walk.
unfoldable pub validate_orders :
    Map ℕ OrderLocation → Side → ℕ → Map ℕ OrderEntry → ℕ → Walk → Option (ℕ × Walk)
validate_orders index side price [] sum w = some (sum, w)
validate_orders index side price ((n, e) ∷ os) sum w =
    let rest =
      validate_orders index side price os (sum + e.remaining_quantity)
        (record w { seen = e.order_id ∷ w.seen; count = suc w.count }) in
    if order_is_sound index side price n e w.seen sum then rest else none

abbrev pub better : Side → ℕ → Option ℕ → Option ℕ
better side price none = some price
better side price (some best) = if before side price best then some price else some best

abbrev pub sums_up : ℕ → Option (ℕ × Walk) → Option Walk
sums_up aggregate none = none
sums_up aggregate (some (sum, w)) = if sum == aggregate then some w else none

-- The lambda `validate_levels`.
unfoldable pub validate_levels : Map ℕ OrderLocation → Side → Levels → Walk → Option Walk
unfolding validate_orders
validate_levels index side [] w = some w
validate_levels index side ((price, l) ∷ ls) w =
    let checked = sums_up l.aggregate_quantity (
      validate_orders index side price l.orders 0 (record w { best = better side price w.best })) in
    if (price == 0) || is_empty l.orders
    then none
    else elim checked [ none ↦ none | some w' ↦ validate_levels index side ls w' ]

abbrev pub all_seen : Map ℕ OrderLocation → List ℕ → Bool
all_seen [] seen = true
all_seen ((id, loc) ∷ rest) seen = is_member id seen && all_seen rest seen

abbrev pub same_price : Option ℕ → Option ℕ → Bool
same_price none none = true
same_price (some p) (some q) = p == q
same_price none (some q) = false
same_price (some p) none = false

abbrev pub validate_sides : OrderBook → Option Walk → Option Walk → Bool
validate_sides b none asks = false
validate_sides b (some wb) none = false
validate_sides b (some wb) (some wa) =
    all_seen b.orders_by_id wa.seen
    && ((wa.count == length b.orders_by_id)
        && (same_price (best_bid b) wb.best && same_price (best_ask b) wa.best))

abbrev pub then_asks : OrderBook → Option Walk → Option Walk
then_asks b none = none
then_asks b (some wb) = validate_levels b.orders_by_id ask b.asks (record wb { best = none })

unfoldable pub validate_invariants : OrderBook → Bool
unfolding validate_levels
validate_invariants b =
    let bids =
      validate_levels b.orders_by_id bid b.bids (record { seen = []; count = 0; best = none }) in
    validate_sides b bids (then_asks b bids)
