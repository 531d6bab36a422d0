-- ===== src/Trading/Engine/Numbering/Submit.antt =====
-- The parts of `submit` keep the books valid and the updates numbered.
use limit_order_book.Base.{
  ◌+◌, ◌%◌, ℕ, ◌-◌, ◌<◌, Bool, true, false, not, ◌&&◌, Option, none, some, List, [], ◌∷◌, ◌≡◌, refl,
  ◌∙◌, arith, ◌==◌, nat_eq, pair_eq, if◌then◌else◌, Bool-cases, inl, inr, ◌||◌, leb,
}
use Prim.Native.Nat.{max}
use limit_order_book.Map.{lookup, modify, contains}
use limit_order_book.Types.{
  Side, side_eq, u32_mod, u64_mod, ExecuteOrder, CancelOrder, AddOrder, is_ok,
}
use limit_order_book.Book.State.{OrderBook, Allocation}
use limit_order_book.Book.Apply.{apply_add, apply_cancel, apply_execute}
use limit_order_book.Book.Invariant.{IsValid}
use limit_order_book.Book.Invariant.Add.{apply_add-IsValid}
use limit_order_book.Book.Invariant.Remove.{apply_cancel-IsValid, apply_execute-IsValid}
use limit_order_book.Trading.Messages.{
  Message, Reject, ReportType, UpdateType, no_reason, cancelled, accepted, replaced, capacity,
  invalid_command, unknown_instrument,
}
use limit_order_book.Trading.Engine.State.{
  InstrumentRules, position, Engine, Batch, Run, ClientState, report,
}
use limit_order_book.Trading.Engine.Plan.Greedy.{plan-matched}
use limit_order_book.Trading.Engine.Risk.{check_rules, check_limits, is_market, is_gtc}
use limit_order_book.Trading.Engine.Plan.{Fill, Plan, plan}
use limit_order_book.Trading.Engine.Submit.{
  execute_book, cancel_book, publish_trade, settle_positions, retire_if_replacing, reduce_book,
  require_ok, fill_position, drop_maker, counted, fill_one, fill_all, retire_old, finish, commit,
  place, submit_planned, reduce_in_place, submit_replacing, submit_checked, submit, submit_ruled,
  is_none, is_fok,
}
use limit_order_book.Trading.Engine.Ensures.{Ensures, Ensures-bind, Ensures-then, Ensures-map}
use limit_order_book.Trading.Engine.Numbering.{
  Kept, contains-modify, RunOk, update-RunOk, report-RunOk, reject-RunOk, frame-RunOk,
  put_book-RunOk, require_ok-IsValid,
}

abbrev SameBooks : Engine → Engine → Type 0
SameBooks e e' = (e'.books ≡ e.books) × ((e'.sequence ≡ e.sequence) × Kept e e')

fill_position-SameBooks :
    (e : Engine) (client instrument : ℕ) (side : Side) (price size : ℕ)
    → Ensures (SameBooks e) (fill_position e client instrument side price size)
unfolding fill_position
fill_position-SameBooks e client instrument side price size =
    elim (Bool-cases (contains (client, instrument) e.positions)) [
      | inl h ↦ rw h (refl, (refl, λ i k. k))
      | inr h ↦ rw h tt
    ]

settle_positions-SameBooks :
    (e : Engine) (maker incoming : Message) (f : Fill)
    → Ensures (SameBooks e) (settle_positions e maker incoming f)
unfolding settle_positions
settle_positions-SameBooks e maker incoming f =
    Ensures-then (SameBooks e) (SameBooks e)
      (fill_position e maker.client_id incoming.instrument_id maker.side f.price f.size) _
      (fill_position-SameBooks e maker.client_id incoming.instrument_id maker.side f.price f.size)
      λ e' s.
        Ensures-map (SameBooks e') (SameBooks e)
          (fill_position e' incoming.client_id incoming.instrument_id incoming.side f.price f.size)
          (λ e'' t. (t.0 ∙ s.0, (t.1.0 ∙ s.1.0, λ i k. t.1.1 i (s.1.1 i k))))
          (fill_position-SameBooks e' incoming.client_id incoming.instrument_id incoming.side
            f.price f.size)

drop_maker-SameBooks : (e : Engine) (id : ℕ) (maker : Message) → SameBooks e (drop_maker e id maker)
unfolding drop_maker
drop_maker-SameBooks e id maker = elim (Bool-cases (maker.quantity == 0)) [
  | inl h ↦ rw h (refl, (refl, λ i k. k))
  | inr h ↦ rw h (refl, (refl, λ i k. k))
]

is_none-eq : (r : Reject) → is_none r ≡ true → r ≡ no_reason
is_none-eq Reject.no_reason h = refl
is_none-eq Reject.invalid_command h = cc
is_none-eq Reject.unknown_instrument h = cc
is_none-eq Reject.invalid_price h = cc
is_none-eq Reject.invalid_quantity h = cc
is_none-eq Reject.duplicate_order h = cc
is_none-eq Reject.unknown_order h = cc
is_none-eq Reject.sequence h = cc
is_none-eq Reject.post_only h = cc
is_none-eq Reject.fok h = cc
is_none-eq Reject.self_trade h = cc
is_none-eq Reject.risk_quantity h = cc
is_none-eq Reject.risk_notional h = cc
is_none-eq Reject.risk_position h = cc
is_none-eq Reject.risk_open_orders h = cc
is_none-eq Reject.capacity h = cc
is_none-eq Reject.session_busy h = cc
is_none-eq Reject.kill_switch h = cc

abbrev pub EngineOk : Engine → Batch → Engine → Type 0
EngineOk start b e = RunOk start (e, b)

module _ {start : Engine} where
  pub execute_book-RunOk :
      (e : Engine) (b : Batch) (i : ℕ) (order : ExecuteOrder)
      → RunOk start (e, b)
      → Ensures (EngineOk start b) (execute_book e i order)
  unfolding execute_book
  execute_book-RunOk e b i order good =
      Ensures-bind (EngineOk start b) (lookup i e.books) _ λ book h.
        Ensures-bind (EngineOk start b) (require_ok (apply_execute book order)) _ λ book' k.
          put_book-RunOk good i book' (
            require_ok-IsValid _ book' (apply_execute-IsValid book order (good.books_ok i book h))
              k)

  pub cancel_book-RunOk :
      (e : Engine) (b : Batch) (i : ℕ) (order : CancelOrder)
      → RunOk start (e, b)
      → Ensures (EngineOk start b) (cancel_book e i order)
  unfolding cancel_book
  cancel_book-RunOk e b i order good =
      Ensures-bind (EngineOk start b) (lookup i e.books) _ λ book h.
        Ensures-bind (EngineOk start b) (require_ok (apply_cancel book order)) _ λ book' k.
          put_book-RunOk good i book' (
            require_ok-IsValid _ book' (apply_cancel-IsValid book order (good.books_ok i book h)) k)

  publish_trade-RunOk :
      (r : Run) (execution taker : Message)
      → RunOk start r
      → RunOk start (publish_trade r execution taker)
  unfolding publish_trade
  publish_trade-RunOk r execution taker good =
      let made = report-RunOk good execution ReportType.fill no_reason in
      let executed = update-RunOk made execution UpdateType.execute in
      let taken = report-RunOk executed taker ReportType.fill no_reason in
      update-RunOk taken taker UpdateType.trade

  fill_one-RunOk :
      (incoming : Message) (r : Run) (left : ℕ) (f : Fill)
      → RunOk start r
      → Ensures (RunOk start) (fill_one incoming r left f)
  unfolding fill_one
  fill_one-RunOk incoming r left f good =
      Ensures-bind (RunOk start) (lookup f.id r.0.resting) _ λ old h1.
        let order : ExecuteOrder = record { order_id = f.id; quantity = f.size } in
        Ensures-then (EngineOk start r.1) (RunOk start)
          (execute_book r.0 incoming.instrument_id order) _
          (execute_book-RunOk r.0 r.1 incoming.instrument_id order good)
          λ e1 good1.
            let maker : Message = record old { quantity = old.quantity - f.size } in
            let e2 : Engine = record e1 { resting = modify f.id (λ _. maker) e1.resting } in
            let good2 = frame-RunOk good1 e2 refl refl (λ i h. h) in
            let execution : Message = record maker {
              quantity = f.size;
              remaining = maker.quantity;
              trade_id = (r.0).next_trade;
            } in
            let taker : Message = record incoming {
              price = f.price;
              quantity = f.size;
              remaining = left;
              trade_id = (r.0).next_trade;
            } in
            let good3 = publish_trade-RunOk (e2, r.1) execution taker good2 in
            let r3 : Run = publish_trade (e2, r.1) execution taker in
            Ensures-then (SameBooks r3.0) (RunOk start) (settle_positions r3.0 maker incoming f) _
              (settle_positions-SameBooks r3.0 maker incoming f)
              λ e4 s.
                let t = drop_maker-SameBooks e4 f.id maker in
                frame-RunOk good3 (counted (drop_maker e4 f.id maker) f.size) (t.0 ∙ s.0)
                  (t.1.0 ∙ s.1.0) (λ i k. t.1.1 i (s.1.1 i k))

  fill_all-RunOk :
      (incoming : Message) (r : Run) (left : ℕ) (fs : List Fill)
      → RunOk start r
      → Ensures (RunOk start) (fill_all incoming r left fs)
  unfolding fill_all
  fill_all-RunOk incoming r left [] good = good
  fill_all-RunOk incoming r left (f ∷ fs) good =
      Ensures-then (RunOk start) (RunOk start) (fill_one incoming r (left - f.size) f) _
        (fill_one-RunOk incoming r (left - f.size) f good)
        λ r' good'. fill_all-RunOk incoming r' (left - f.size) fs good'

  retire_old-RunOk :
      (r : Run) (c : Message) (old_id new_id : ℕ) (rests : Bool)
      → RunOk start r
      → Ensures (RunOk start) (retire_old r c old_id new_id rests)
  unfolding retire_old
  retire_old-RunOk r c old_id new_id rests good =
      Ensures-bind (RunOk start) (lookup old_id r.0.resting) _ λ old h.
        Ensures-then (EngineOk start r.1) (RunOk start)
          (cancel_book r.0 c.instrument_id (record { order_id = old_id })) _
          (cancel_book-RunOk r.0 r.1 c.instrument_id (record { order_id = old_id }) good)
          λ e1 good1. frame-RunOk (update-RunOk good1 old UpdateType.cancel) _ refl refl λ i h. h

  retire_if_replacing-RunOk :
      (r : Run) (c : Message) (old_id new_id : ℕ) (rests : Bool)
      → RunOk start r
      → Ensures (RunOk start) (retire_if_replacing r c old_id new_id rests)
  unfolding retire_if_replacing
  retire_if_replacing-RunOk r c old_id new_id rests good = elim (Bool-cases (old_id == 0)) [
    | inl h ↦ rw h good
    | inr h ↦ rw h (retire_old-RunOk r c old_id new_id rests good)
  ]

  finish-RunOk :
      (incoming : Message) (leaves : ℕ) (rests : Bool) (r : Run)
      → RunOk start r
      → RunOk start (finish incoming leaves rests r)
  unfolding finish
  finish-RunOk incoming leaves true r good = update-RunOk good _ UpdateType.add
  finish-RunOk incoming leaves false r good = elim (Bool-cases (leaves == 0)) [
    | inl h ↦ rw h good
    | inr h ↦ rw h (report-RunOk good _ cancelled no_reason)
  ]

  commit-RunOk :
      (r : Run) (c : Message) (old_id new_id : ℕ) (p : Plan) (rests : Bool)
      → RunOk start r
      → Ensures (RunOk start) (commit r c old_id new_id p rests)
  unfolding commit
  commit-RunOk r c old_id new_id p rests good =
      let e0 : Engine = record (r.0) { next_order = ((r.0).next_order + 1) % u64_mod } in
      Ensures-then (RunOk start) (RunOk start) (retire_if_replacing (e0, r.1) c old_id new_id rests)
        _
        (retire_if_replacing-RunOk (e0, r.1) c old_id new_id rests
          (frame-RunOk good e0 refl refl λ i h. h))
        λ r1 good1.
          let raise =
            λ (s : ClientState). record s { max_order_id = max s.max_order_id c.order_id } in
          let incoming : Message = record c { exchange_id = new_id; remaining = c.quantity } in
          let e2 : Engine = record (r1.0) { clients = modify c.client_id raise (r1.0).clients } in
          let kind = if old_id == 0 then accepted else replaced in
          let good2 =
            report-RunOk
              (frame-RunOk good1 e2 refl refl
                (λ i h. contains-modify c.client_id i raise r1.0.clients h))
              incoming kind no_reason in
          let r2 : Run = report (e2, r1.1) incoming kind no_reason in
          Ensures-then (RunOk start) (RunOk start) (fill_all incoming r2 c.quantity p.planned) _
            (fill_all-RunOk incoming r2 c.quantity p.planned good2)
            λ r3 good3. finish-RunOk incoming p.leaves rests r3 good3

  place-RunOk :
      (alloc : Allocation) (r : Run) (c : Message) (old_id new_id : ℕ) (p : Plan) (book : OrderBook)
      → p.leaves < u32_mod
      → IsValid book
      → RunOk start r
      → Ensures (RunOk start) (place alloc r c old_id new_id p book)
  unfolding place
  place-RunOk alloc r c old_id new_id p book small v good =
      let order : AddOrder = record {
        order_id = new_id;
        side = c.side;
        price = c.price;
        quantity = p.leaves;
      } in
      let added = apply_add alloc book order in
      let good1 =
        put_book-RunOk good c.instrument_id added.1 (apply_add-IsValid alloc book order small v) in
      elim (Bool-cases (is_ok added.0)) [
        | inl h ↦
            rw h (commit-RunOk _ c old_id new_id p true (frame-RunOk good1 _ refl refl λ i h. h))
        | inr h ↦ rw h (reject-RunOk (frame-RunOk good1 _ refl refl λ i h. h) c capacity)
      ]

  submit_planned-RunOk :
      (alloc : Allocation) (r : Run) (c : Message) (old_id : ℕ) (p : Plan) (book : OrderBook)
      → (p.rejection ≡ no_reason → p.faulted ≡ false → p.leaves < u32_mod)
      → IsValid book
      → RunOk start r
      → Ensures (RunOk start) (submit_planned alloc r c old_id p book)
  unfolding submit_planned
  submit_planned-RunOk alloc r c old_id p book small v good = elim (Bool-cases p.faulted) [
    | inl h ↦ rw h tt
    | inr h ↦ elim (Bool-cases (is_none p.rejection)) [
      | inr k ↦ rw (h, k) (reject-RunOk good c p.rejection)
      | inl k ↦ elim (Bool-cases (is_fok c.tif && not (p.leaves == 0))) [
        | inl l ↦ rw (h, k, l) (reject-RunOk good c Reject.fok)
        | inr l ↦
            rw (h, k, l)
              (elim (Bool-cases
                (not (p.leaves == 0) && (is_gtc c.tif && not (is_market c.order_type)))) [
                  | inl m ↦ rw m (
                      place-RunOk alloc _ c old_id _ _ book (small (is_none-eq p.rejection k) h) v
                        (frame-RunOk good _ refl refl λ i h. h))
                  | inr m ↦
                      rw m
                        (commit-RunOk _ c old_id _ _ false (frame-RunOk good _ refl refl λ i h. h))
                ])
      ]
    ]
  ]

  reduce_book-RunOk :
      (r : Run) (m : Message) (old_id reduction : ℕ)
      → RunOk start r
      → Ensures (RunOk start) (reduce_book r m old_id reduction)
  unfolding reduce_book
  reduce_book-RunOk r m old_id reduction good = elim (Bool-cases (reduction == 0)) [
    | inl h ↦ rw h good
    | inr h ↦
        let order : ExecuteOrder = record { order_id = old_id; quantity = reduction } in
        rw h (
          Ensures-then (EngineOk start r.1) (RunOk start) (execute_book r.0 m.instrument_id order) _
            (execute_book-RunOk r.0 r.1 m.instrument_id order good)
            λ e1 good1. update-RunOk good1 m UpdateType.reduce)
  ]

  reduce_in_place-RunOk :
      (r : Run) (c : Message) (old_id : ℕ) (old : Message)
      → RunOk start r
      → Ensures (RunOk start) (reduce_in_place r c old_id old)
  unfolding reduce_in_place
  reduce_in_place-RunOk r c old_id old good =
      let m : Message = record c { exchange_id = old_id; remaining = c.quantity } in
      Ensures-then (RunOk start) (RunOk start) (reduce_book r m old_id (old.quantity - c.quantity))
        _ (reduce_book-RunOk r m old_id (old.quantity - c.quantity) good)
        λ r1 good1. report-RunOk (frame-RunOk good1 _ refl refl λ i h. h) m replaced no_reason

  module _ (alloc : Allocation) (r : Run) (c : Message) (small : c.quantity < u32_mod)
      (good : RunOk start r) where
    plan-small :
        (book : OrderBook)
        → (plan c r.0.resting book).rejection ≡ no_reason
        → (plan c r.0.resting book).faulted ≡ false
        → (plan c r.0.resting book).leaves < u32_mod
    plan-small book clean sound =
        rw (plan-matched c r.0.resting book clean sound) (omega (arith, small))

    submit_replacing-RunOk :
        (old_id : ℕ) (old : Message) (book : OrderBook)
        → IsValid book
        → Ensures (RunOk start) (submit_replacing alloc r c old_id old book)
    unfolding submit_replacing
    submit_replacing-RunOk old_id old book v =
        elim (Bool-cases (not (old.instrument_id == c.instrument_id) || not (old.side == c.side))) [
          | inl h ↦ rw h (reject-RunOk good c invalid_command)
          | inr h ↦ elim (Bool-cases ((old.price == c.price) && leb c.quantity old.quantity)) [
            | inl k ↦ rw (h, k) (reduce_in_place-RunOk r c old_id old good)
            | inr k ↦
                rw (h, k)
                  (submit_planned-RunOk alloc r c old_id (plan c r.0.resting book) book
                    (plan-small book) v good)
          ]
        ]

    submit_checked-RunOk :
        (old_id : ℕ) (book : OrderBook)
        → IsValid book
        → Ensures (RunOk start) (submit_checked alloc r c old_id book)
    unfolding submit_checked
    submit_checked-RunOk old_id book v = elim (Bool-cases (old_id == 0)) [
      | inl h ↦ rw h (
          submit_planned-RunOk alloc r c old_id (plan c r.0.resting book) book (plan-small book) v
            good)
      | inr h ↦ rw h (
          Ensures-bind (RunOk start) (lookup old_id r.0.resting) _
            λ old k. submit_replacing-RunOk old_id old book v)
    ]

    submit_ruled-RunOk :
        (old_id : ℕ) (o : Option InstrumentRules)
        → Ensures (RunOk start) (submit_ruled alloc r c old_id o)
    unfolding submit_ruled
    submit_ruled-RunOk old_id none = reject-RunOk good c unknown_instrument
    submit_ruled-RunOk old_id (some rules) =
        elim (Bool-cases (is_none (check_rules rules c (not (old_id == 0))))) [
          | inr h ↦ rw h (reject-RunOk good c _)
          | inl h ↦ rw h (
              Ensures-bind (RunOk start) (lookup c.client_id r.0.clients) _ λ state k.
                elim (Bool-cases (
                  is_none (
                    check_limits rules c old_id r.0.resting state.max_order_id
                      (position r.0 c.client_id c.instrument_id).quantity))) [
                        | inr l ↦ rw l (reject-RunOk good c _)
                        | inl l ↦ rw l (
                            Ensures-bind (RunOk start) (lookup c.instrument_id r.0.books) _
                              λ book m.
                                submit_checked-RunOk old_id book
                                  (good.books_ok c.instrument_id book m))
                      ])
        ]

    pub submit-RunOk : (old_id : ℕ) → Ensures (RunOk start) (submit alloc r c old_id)
    unfolding submit
    submit-RunOk old_id = submit_ruled-RunOk old_id (lookup c.instrument_id r.0.instruments)
