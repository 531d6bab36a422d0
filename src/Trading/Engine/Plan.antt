-- ===== src/Trading/Engine/Plan.antt =====
-- The plan of `MatchingEngine::submit`: which resting orders a command trades with, found by a visit
-- of the opposite side in price-time order. Nothing is changed yet.
pub mod Greedy
pub mod Available
pub mod Makers
use limit_order_book.Base.{
  ℕ, ◌-◌, Bool, true, false, ◌&&◌, ◌||◌, not, List, [], ◌∷◌, ◌++◌, Option, none, some, ltb, leb,
  ◌==◌, nat_eq, if◌then◌else◌,
}
use Prim.Native.Nat.{min}
use limit_order_book.Map.{Map, lookup}
use limit_order_book.Types.{Side, bid, ask, other, side_eq}
use limit_order_book.Book.State.{OrderBook}
use limit_order_book.Book.Queries.{OrderView, for_each_order}
use limit_order_book.Trading.Messages.{Message, Reject, no_reason, post_only, self_trade}
use limit_order_book.Trading.Engine.State.{Engine}
use limit_order_book.Trading.Engine.Risk.{is_market}

pub record Fill : Type 0 where
  pub id : ℕ
  pub price : ℕ
  pub size : ℕ

-- The variables that the visitor changes. `faulted` is an exception of `resting_.at`.
pub record Plan : Type 0 where
  pub planned : List Fill
  pub leaves : ℕ
  pub rejection : Reject
  pub faulted : Bool

-- Does a command trade at this price?
unfoldable pub crosses : Message → ℕ → Bool
crosses c price =
    is_market c.order_type || (if c.side == bid then leb price c.price else leb c.price price)

abbrev pub plan_fill : Plan → OrderView → Plan × Bool
plan_fill p o =
    let size = min p.leaves o.quantity in
    let left = p.leaves - size in
    (
      record p {
        planned = p.planned ++ record { id = o.order_id; price = o.price; size = size } ∷ [];
        leaves = left;
      },
      not (left == 0),
    )

abbrev pub plan_against : Message → Plan → OrderView → Option Message → Plan × Bool
plan_against c p o none = (record p { faulted = true }, false)
plan_against c p o (some maker) =
    if maker.client_id == c.client_id
    then (record p { rejection = self_trade }, false)
    else plan_fill p o

-- The visitor of the lambda; it stops the visit by `false`.
unfoldable pub plan_visit : Message → Map ℕ Message → Plan → OrderView → Plan × Bool
unfolding crosses
plan_visit c resting p o =
    if (p.leaves == 0) || not (crosses c o.price)
    then (p, false)
    else if c.post_only
    then (record p { rejection = post_only }, false)
    else plan_against c p o (lookup o.order_id resting)

abbrev pub start_plan : Message → Plan
start_plan c = record { planned = []; leaves = c.quantity; rejection = no_reason; faulted = false }

-- c.side == Side::Bid ? Side::Ask : Side::Bid
abbrev pub maker_side : Message → Side
maker_side c = if c.side == bid then ask else bid

unfoldable pub plan : Message → Map ℕ Message → OrderBook → Plan
unfolding plan_visit
plan c resting book = for_each_order (plan_visit c resting) book (maker_side c) (start_plan c)
