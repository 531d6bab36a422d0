-- ===== src/Trading/Engine/Requests.antt =====
-- The request numbers of the clients in `process`: a retry, and a request out of turn.
use limit_order_book.Base.{
  ℕ, suc, ltb, ◌-◌, ◌<◌, Bool, true, false, not, ◌&&◌, ◌||◌, leb, some, List, [], ◌≡◌, ◌≢◌, refl,
  sym, ap, ◌∙◌, arith, ◌==◌, nat_eq, pair_eq, Bool-cases, Option-cases, inl, inr,
}
use limit_order_book.Map.{lookup, contains}
use limit_order_book.Map.Laws.{lookup-modify, lookup-insert, beq_refl}
use limit_order_book.Types.{u32_mod}
use limit_order_book.Book.State.{Allocation}
use limit_order_book.Trading.Messages.{Message, ReportType, no_reason}
use limit_order_book.Trading.Messages.Equality.{message_beq, message_beq_refl}
use limit_order_book.Trading.Engine.State.{
  Engine, Batch, Run, ClientState, report, reject, last_request, new_client, empty_batch,
}
use limit_order_book.Trading.Engine.Process.{
  find_own, dispatch, completion, reports_for, carry_out, remember_request, with_client,
  client_state, process_numbered, process, is_command, is_snapshot, is_status,
}
use limit_order_book.Trading.Engine.Ensures.{Ensures, Ensures-bind, Ensures-then, Ensures-elim}
use limit_order_book.Trading.Engine.Numbering.{BooksOk, RunOk, report-RunOk, frame-RunOk}
use limit_order_book.Trading.Engine.Numbering.Process.{
  start-RunOk, dispatch-RunOk, with_client-RunOk,
}

-- A command with a client and a request number, which is neither for a snapshot nor for the status.
abbrev pub is_request : Message → Bool
is_request c =
    is_command c.kind
    && (not (is_snapshot c.action)
        && (not (is_status c.action) && (not (c.client_id == 0) && not (c.request_id == 0))))

process_request :
    (alloc : Allocation) (e : Engine) (c : Message)
    → is_request c ≡ true
    → process alloc e c ≡ process_numbered alloc e c
unfolding process
process_request alloc e c h = ground arith

-- What the engine knows of a client after a request that was carried out.
abbrev remembered : Message → Batch → ClientState → ClientState
remembered c b s = record s {
  last_request = c.request_id;
  last_command = c;
  cached = reports_for c.client_id b.reports;
}

abbrev Remembers : Message → Run → Type 0
Remembers c r = (s : ClientState) × (lookup c.client_id r.0.clients ≡ some (remembered c r.1 s))

remember_request_lem :
    (e : Engine) (c : Message) (b : Batch)
    → contains c.client_id e.clients ≡ true
    → Remembers c (remember_request e c b, b)
remember_request_lem e c b h = elim (Option-cases (lookup c.client_id e.clients)) [
  | inl k ↦ absurd (ground (arith, h, k))
  | inr (s, k) ↦
      (s, lookup-modify c.client_id _ e.clients c.client_id ∙ rw (beq_refl c.client_id, k) refl)
]

carry_out-Remembers :
    (alloc : Allocation) (e : Engine) (c : Message)
    → c.quantity < u32_mod
    → BooksOk e.books
    → contains c.client_id e.clients ≡ true
    → Ensures (Remembers c) (carry_out alloc (e, empty_batch) c)
unfolding carry_out
carry_out-Remembers alloc e c small ok known =
    let good = frame-RunOk (start-RunOk e ok) _ refl refl λ i h. h in
    Ensures-then (RunOk e) (Remembers c) (dispatch alloc _ c c.action) _
      (dispatch-RunOk alloc _ c small good c.action)
      λ r1 good1. Ensures-bind (Remembers c) (find_own r1.0 c) _ λ own h.
        let r2 : Run = report r1 (completion c own) ReportType.complete no_reason in
        let good2 = report-RunOk good1 (completion c own) ReportType.complete no_reason in
        remember_request_lem r2.0 c r2.1 (good2.kept c.client_id known)

-- A request that repeats the last one is answered from the cache.
process-cached :
    (alloc : Allocation) (c : Message) (r : Run)
    → is_request c ≡ true
    → Remembers c r
    → process alloc r.0 c
      ≡ some (r.0, record { reports = reports_for c.client_id r.1.reports; updates = [] })
unfolding process_numbered
process-cached alloc c r req (s, h) =
    process_request alloc r.0 c req
    ∙ rw (client_state, h, beq_refl c.request_id, message_beq_refl c) refl

client_state_last :
    (e : Engine) (client : ℕ) → (client_state e client).last_request ≡ last_request e client
unfolding last_request
client_state_last e client = elim (Option-cases (lookup client e.clients)) [
  | inl h ↦ rw (client_state, last_request, h) refl
  | inr (s, h) ↦ rw (client_state, last_request, h) refl
]

not_a_retry : (q last : ℕ) (b : Bool) → q ≡ suc last → ((q == last) && b) ≡ false
not_a_retry q last b h = ground arith

no_gap : (q last : ℕ) → q ≡ suc last → (leb q last || not (q - last == 1)) ≡ false
no_gap q last h = ground arith

-- In turn, a request is carried out.
process_in_turn :
    (alloc : Allocation) (e : Engine) (c : Message)
    → is_request c ≡ true
    → c.request_id ≡ suc (last_request e c.client_id)
    → process alloc e c ≡ carry_out alloc (with_client e c.client_id, empty_batch) c
unfolding process_numbered
process_in_turn alloc e c req turn =
    process_request alloc e c req
    ∙ let turn' = turn ∙ ap suc (sym (client_state_last e c.client_id)) in
      rw
        (
          not_a_retry c.request_id (client_state e c.client_id).last_request _ turn',
          no_gap c.request_id (client_state e c.client_id).last_request turn',
        )
        refl

with_client_known :
    (e : Engine) (client : ℕ) → contains client (with_client e client).clients ≡ true
with_client_known e client = elim (Bool-cases (contains client e.clients)) [
  | inl h ↦ rw h h
  | inr h ↦
      rw h (ground (arith, lookup-insert ltb client new_client e.clients client, beq_refl client))
]

-- In an engine with valid books, a request in turn, whose quantity has 32 bits and which `process`
-- answers, can be sent again: the answer is then the reports that its client had, nothing is
-- published, and the engine does not change.
pub process_retry :
    (alloc again : Allocation) (e : Engine) (c : Message) (r : Run)
    → c.quantity < u32_mod
    → BooksOk e.books
    → is_request c ≡ true
    → c.request_id ≡ suc (last_request e c.client_id)
    → process alloc e c ≡ some r
    → process again r.0 c
      ≡ some (r.0, record { reports = reports_for c.client_id r.1.reports; updates = [] })
process_retry alloc again e c r small ok req turn h =
    let e' = with_client e c.client_id in
    process-cached again c r req (
      Ensures-elim (Remembers c) (carry_out alloc (e', empty_batch) c) r
        (carry_out-Remembers alloc e' c small (with_client-RunOk e c.client_id ok).books_ok
          (with_client_known e c.client_id))
        (sym (process_in_turn alloc e c req turn) ∙ h))

-- The books, the resting orders, the positions and the number of the last update are as before.
abbrev pub Unmoved : Engine → Run → Type 0
Unmoved e r =
    (r.0.books ≡ e.books)
    × ((r.0.resting ≡ e.resting)
        × ((r.0.by_client ≡ e.by_client)
            × ((r.0.positions ≡ e.positions) × ((r.0.sequence ≡ e.sequence) × (r.1.updates ≡ [])))))

with_client-Unmoved :
    (e : Engine) (client : ℕ) (b : List Message)
    → Unmoved e (with_client e client, record { reports = b; updates = [] })
with_client-Unmoved e client b = elim (Bool-cases (contains client e.clients)) [
  | inl h ↦ rw h (refl, (refl, (refl, (refl, (refl, refl)))))
  | inr h ↦ rw h (refl, (refl, (refl, (refl, (refl, refl)))))
]

in_turn : (q last : ℕ) → (leb q last || not (q - last == 1)) ≡ false → q ≡ suc last
in_turn q last h = ground arith

process_numbered-Unmoved :
    (alloc : Allocation) (e : Engine) (c : Message)
    → c.request_id ≢ suc (last_request e c.client_id)
    → Ensures (Unmoved e) (process_numbered alloc e c)
unfolding process_numbered report reject
process_numbered-Unmoved alloc e c h =
    let state = client_state e c.client_id in
    let e' = with_client e c.client_id in
    elim (Bool-cases ((c.request_id == state.last_request) && message_beq c state.last_command)) [
      | inl k ↦ rw k (with_client-Unmoved e c.client_id state.cached)
      | inr k ↦
          elim (Bool-cases
            (leb c.request_id state.last_request || not (c.request_id - state.last_request == 1))) [
              | inl l ↦ rw (k, l) (with_client-Unmoved e c.client_id [])
              | inr l ↦ absurd (
                  h (
                    in_turn c.request_id state.last_request l
                    ∙ ap suc (client_state_last e c.client_id)))
            ]
    ]

-- A request whose number does not follow its client's last one changes no book, no resting order
-- and no position, and publishes nothing.
pub process_out_of_turn :
    (alloc : Allocation) (e : Engine) (c : Message) (r : Run)
    → is_request c ≡ true
    → c.request_id ≢ suc (last_request e c.client_id)
    → process alloc e c ≡ some r
    → Unmoved e r
process_out_of_turn alloc e c r req h k =
    Ensures-elim (Unmoved e) (process_numbered alloc e c) r (process_numbered-Unmoved alloc e c h)
      (sym (process_request alloc e c req) ∙ k)
