-- ===== src/Trading/Engine/Numbering/Process.antt =====
-- `process` keeps the books valid and the updates numbered, whatever the command.
use limit_order_book.Base.{
  ℕ, ◌-◌, ◌<◌, not, ◌&&◌, ◌||◌, leb, none, some, List, [], ◌∷◌, ◌≡◌, refl, arith, ◌==◌, nat_eq,
  pair_eq, Bool-cases, inl, inr,
}
use limit_order_book.Map.{lookup, contains}
use limit_order_book.Types.{u32_mod}
use limit_order_book.Book.State.{Allocation}
use limit_order_book.Trading.Messages.{
  Message, Action, ReportType, UpdateType, no_reason, invalid_command, unknown_order, sequence,
}
use limit_order_book.Trading.Messages.Equality.{message_beq}
use limit_order_book.Trading.Engine.State.{Engine, Run, report, new_client, empty_batch}
use limit_order_book.Trading.Engine.Submit.{cancel_book}
use limit_order_book.Trading.Engine.Process.{
  cancel, cancel_each, cancel_all_ids, Found, find_own, cancel_own, replace_own, dispatch,
  completion, carry_out, remember_request, with_client, client_state, process_numbered, process,
  is_command, is_snapshot, is_status,
}
use limit_order_book.Trading.Engine.Ensures.{Ensures, Ensures-bind, Ensures-then, Ensures-elim}
use limit_order_book.Trading.Engine.Numbering.{
  BooksOk, contains-modify, contains-insert, RunOk, update-RunOk, report-RunOk, reject-RunOk,
  frame-RunOk,
}
use limit_order_book.Trading.Engine.Numbering.Submit.{EngineOk, cancel_book-RunOk, submit-RunOk}

module _ {start : Engine} where
  cancel-RunOk :
      (r : Run) (id request : ℕ) → RunOk start r → Ensures (RunOk start) (cancel r id request)
  unfolding cancel
  cancel-RunOk r id request good = Ensures-bind (RunOk start) (lookup id r.0.resting) _ λ order h.
      let m : Message = record order { request_id = request; remaining = 0 } in
      Ensures-then (EngineOk start r.1) (RunOk start)
        (cancel_book r.0 m.instrument_id (record { order_id = id })) _
        (cancel_book-RunOk r.0 r.1 m.instrument_id (record { order_id = id }) good)
        λ e1 good1.
          frame-RunOk
            (report-RunOk (update-RunOk good1 m UpdateType.cancel) m ReportType.cancelled no_reason)
            _ refl refl λ i h. h

  cancel_each-RunOk :
      (r : Run) (ids : List ℕ) (request : ℕ)
      → RunOk start r
      → Ensures (RunOk start) (cancel_each r ids request)
  unfolding cancel_each
  cancel_each-RunOk r [] request good = good
  cancel_each-RunOk r (id ∷ ids) request good =
      Ensures-then (RunOk start) (RunOk start) (cancel r id request) _
        (cancel-RunOk r id request good) λ r' good'. cancel_each-RunOk r' ids request good'

  cancel_own-RunOk :
      (r : Run) (c : Message) (o : Found) → RunOk start r → Ensures (RunOk start) (cancel_own r c o)
  unfolding cancel_own
  cancel_own-RunOk r c none good = reject-RunOk good c unknown_order
  cancel_own-RunOk r c (some (id, order)) good =
      elim (Bool-cases (order.instrument_id == c.instrument_id)) [
        | inl h ↦ rw h (cancel-RunOk r id c.request_id good)
        | inr h ↦ rw h (reject-RunOk good c unknown_order)
      ]

  module _ (alloc : Allocation) (r : Run) (c : Message) (small : c.quantity < u32_mod)
      (good : RunOk start r) where
    replace_own-RunOk : (o : Found) → Ensures (RunOk start) (replace_own alloc r c o)
    unfolding replace_own
    replace_own-RunOk none = reject-RunOk good c unknown_order
    replace_own-RunOk (some (id, order)) =
        elim (Bool-cases (order.instrument_id == c.instrument_id)) [
          | inl h ↦ rw h (submit-RunOk alloc r c small good id)
          | inr h ↦ rw h (reject-RunOk good c unknown_order)
        ]

    pub dispatch-RunOk : (a : Action) → Ensures (RunOk start) (dispatch alloc r c a)
    unfolding dispatch
    dispatch-RunOk Action.new = submit-RunOk alloc r c small good 0
    dispatch-RunOk Action.cancel =
        Ensures-bind (RunOk start) (find_own r.0 c) (cancel_own r c)
          λ o h. cancel_own-RunOk r c o good
    dispatch-RunOk Action.replace =
        Ensures-bind (RunOk start) (find_own r.0 c) (replace_own alloc r c)
          λ o h. replace_own-RunOk o
    dispatch-RunOk Action.cancel_all =
        cancel_each-RunOk r (cancel_all_ids c r.0.resting) c.request_id good
    dispatch-RunOk Action.snapshot = reject-RunOk good c invalid_command
    dispatch-RunOk Action.status = reject-RunOk good c invalid_command

  carry_out-RunOk :
      (alloc : Allocation) (r : Run) (c : Message)
      → c.quantity < u32_mod
      → RunOk start r
      → Ensures (RunOk start) (carry_out alloc r c)
  unfolding carry_out
  carry_out-RunOk alloc r c small good =
      Ensures-then (RunOk start) (RunOk start) (dispatch alloc _ c c.action) _
        (dispatch-RunOk alloc _ c small (frame-RunOk good _ refl refl λ i h. h) c.action)
        λ r1 good1. Ensures-bind (RunOk start) (find_own r1.0 c) _ λ own h.
          let r2 : Run = report r1 (completion c own) ReportType.complete no_reason in
          let good2 = report-RunOk good1 (completion c own) ReportType.complete no_reason in
          frame-RunOk good2 (remember_request r2.0 c r2.1) refl refl
            λ i k. contains-modify c.client_id i _ r2.0.clients k

pub start-RunOk : (e : Engine) → BooksOk e.books → RunOk e (e, empty_batch)
start-RunOk e ok = record {
  books_ok = ok;
  numbered = omega arith;
  consecutive = tt;
  kept = λ i h. h;
}

pub with_client-RunOk :
    (e : Engine) (client : ℕ) → BooksOk e.books → RunOk e (with_client e client, empty_batch)
with_client-RunOk e client ok = elim (Bool-cases (contains client e.clients)) [
  | inl h ↦ rw h (start-RunOk e ok)
  | inr h ↦ rw h (
      frame-RunOk (start-RunOk e ok) _ refl refl
        λ i k. contains-insert client i new_client e.clients k)
]

process_numbered-RunOk :
    (alloc : Allocation) (e : Engine) (c : Message)
    → c.quantity < u32_mod
    → BooksOk e.books
    → Ensures (RunOk e) (process_numbered alloc e c)
unfolding process_numbered
process_numbered-RunOk alloc e c small ok =
    let good = with_client-RunOk e c.client_id ok in
    let state = client_state e c.client_id in
    elim (Bool-cases ((c.request_id == state.last_request) && message_beq c state.last_command)) [
      | inl h ↦ rw h (record {
        books_ok = good.books_ok;
        numbered = good.numbered;
        consecutive = tt;
        kept = good.kept;
      })
      | inr h ↦
          elim (Bool-cases
            (leb c.request_id state.last_request || not (c.request_id - state.last_request == 1))) [
              | inl k ↦
                  rw (h, k)
                    (report-RunOk (reject-RunOk good c sequence) c ReportType.complete no_reason)
              | inr k ↦ rw (h, k) (carry_out-RunOk alloc _ c small good)
            ]
    ]

process-Ensures :
    (alloc : Allocation) (e : Engine) (c : Message)
    → c.quantity < u32_mod
    → BooksOk e.books
    → Ensures (RunOk e) (process alloc e c)
unfolding process
process-Ensures alloc e c small ok =
    let good = start-RunOk e ok in
    elim (Bool-cases (not (is_command c.kind) || is_snapshot c.action)) [
      | inl h ↦ rw h (reject-RunOk good c invalid_command)
      | inr h ↦ elim (Bool-cases (is_status c.action)) [
        | inl k ↦ rw (h, k) (report-RunOk good _ ReportType.status no_reason)
        | inr k ↦ elim (Bool-cases ((c.client_id == 0) || (c.request_id == 0))) [
          | inl l ↦
              rw (h, k, l)
                (report-RunOk (reject-RunOk good c invalid_command) c ReportType.complete no_reason)
          | inr l ↦ rw (h, k, l) (process_numbered-RunOk alloc e c small ok)
        ]
      ]
    ]

-- Where the books are valid, the quantity of the command has 32 bits and `process` does not throw,
-- the books stay valid, no client is forgotten, and the updates of the batch carry the 64-bit words
-- that follow the engine's number, one after the other and around at 2^64; the engine then has the
-- number of the last, and the number that it had if there is none.
pub process-RunOk :
    (alloc : Allocation) (e : Engine) (c : Message) (r : Run)
    → c.quantity < u32_mod
    → BooksOk e.books
    → process alloc e c ≡ some r
    → RunOk e r
process-RunOk alloc e c r small ok h =
    Ensures-elim (RunOk e) (process alloc e c) r (process-Ensures alloc e c small ok) h
