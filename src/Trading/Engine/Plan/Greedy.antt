-- ===== src/Trading/Engine/Plan/Greedy.antt =====
-- What `plan` computes: the greedy match of a command against the queue of the opposite side.
use limit_order_book.Base.{
  ℕ, ◌+◌, ◌-◌, Bool, true, false, not, ◌||◌, List, [], ◌∷◌, ◌++◌, ◌≡◌, refl, sym, ap, ◌∙◌, arith,
  ◌==◌, nat_eq, if◌then◌else◌, nat_beq_iff, Bool-cases, Option-cases, ◌⊎◌, subst, inl, inr,
  append_assoc, append-nil,
}
use limit_order_book.Map.{Map, lookup}
use Prim.Native.Nat.{min}
use limit_order_book.Types.{Side, bid, ask, side_eq}
use limit_order_book.Book.State.{OrderBook, OrderEntry, Levels, levels}
use limit_order_book.Book.Queries.{
  OrderView, level_orders, visit_orders, visit_levels, for_each_order,
}
use limit_order_book.Trading.Messages.{Message, no_reason, post_only, self_trade}
use limit_order_book.Trading.Engine.Plan.{
  Fill, Plan, crosses, plan_fill, plan_against, plan_visit, start_plan, maker_side, plan,
}

-- The orders of a side in the order of a visit: best price first, and first come first in a level.
abbrev pub queue : Side → Levels → List OrderView
queue side [] = []
queue side ((p, l) ∷ ls) = level_orders side p l.orders ++ queue side ls

-- A visit of a list, up to the first `false`.
abbrev pub visit_list {ℓ} :
    {S : Type ℓ} → (S → OrderView → S × Bool) → List OrderView → S → S × Bool
visit_list f [] s = (s, true)
visit_list f (o ∷ os) s =
    let rest = visit_list f os (f s o).0 in if (f s o).1 then rest else ((f s o).0, false)

module _ {ℓ} {S : Type ℓ} (f : S → OrderView → S × Bool) where
  visit_orders-list :
      (side : Side) (p : ℕ) (os : Map ℕ OrderEntry) (s : S)
      → visit_orders f side p os s ≡ visit_list f (level_orders side p os) s
  unfolding visit_orders level_orders
  visit_orders-list side p [] s = refl
  visit_orders-list side p ((n, e) ∷ os) s =
      let o : OrderView = record {
        order_id = e.order_id;
        side = side;
        price = p;
        quantity = e.remaining_quantity;
      } in
      elim (Bool-cases (f s o).1) [
        | inl h ↦ rw h (visit_orders-list side p os (f s o).0)
        | inr h ↦ rw h refl
      ]

  visit_list-append :
      (xs ys : List OrderView) (s : S)
      → visit_list f (xs ++ ys) s ≡ (
          if (visit_list f xs s).1
          then visit_list f ys (visit_list f xs s).0
          else visit_list f xs s)
  visit_list-append [] ys s = refl
  visit_list-append (x ∷ xs) ys s = elim (Bool-cases (f s x).1) [
    | inl h ↦ rw h (visit_list-append xs ys (f s x).0)
    | inr h ↦ rw h refl
  ]

  pub visit_levels-queue :
      (side : Side) (ls : Levels) (s : S)
      → visit_levels f side ls s ≡ (visit_list f (queue side ls) s).0
  unfolding visit_levels
  visit_levels-queue side [] s = refl
  visit_levels-queue side ((p, l) ∷ ls) s =
      rw
        (
          visit_orders-list side p l.orders s,
          visit_list-append (level_orders side p l.orders) (queue side ls) s,
        )
        (elim (Bool-cases (visit_list f (level_orders side p l.orders) s).1) [
          | inl h ↦
              rw h (visit_levels-queue side ls (visit_list f (level_orders side p l.orders) s).0)
          | inr h ↦ rw h refl
        ])

abbrev pub total : List Fill → ℕ
total [] = 0
total (f ∷ fs) = f.size + total fs

-- The greedy match of `left` units: order by order, until nothing is left or a price does not cross.
abbrev pub match_queue : Message → ℕ → List OrderView → List Fill
match_queue c left [] = []
match_queue c left (o ∷ os) =
    let size = min left o.quantity in
    let rest = match_queue c (left - size) os in
    if (left == 0) || not (crosses c o.price)
    then []
    else record { id = o.order_id; price = o.price; size = size } ∷ rest

abbrev pub matched : Message → Plan → List OrderView → Plan
matched c p os =
    let fills = match_queue c p.leaves os in
    record p { planned = p.planned ++ fills; leaves = p.leaves - total fills }

abbrev with_fills : Plan → List Fill → ℕ → Plan
with_fills p fills left = record p { planned = fills; leaves = left }

with_fills-eq :
    (p : Plan) (a b : List Fill) (m n : ℕ) → a ≡ b → m ≡ n → with_fills p a m ≡ with_fills p b n
with_fills-eq p a b m n h k = rw (h, k) refl

match_queue-zero : (c : Message) (os : List OrderView) → match_queue c 0 os ≡ []
match_queue-zero c [] = refl
match_queue-zero c (o ∷ os) = refl

matched-stop :
    (c : Message) (p : Plan) (os : List OrderView)
    → match_queue c p.leaves os ≡ []
    → p ≡ matched c p os
matched-stop c p os h = rw h (
    with_fills-eq p p.planned (p.planned ++ []) p.leaves (p.leaves - 0) (sym (append-nil p.planned))
      (omega arith))

matched-step :
    (c : Message) (p : Plan) (o : OrderView) (os : List OrderView)
    → ((p.leaves == 0) || not (crosses c o.price)) ≡ false
    → matched c (plan_fill p o).0 os ≡ matched c p (o ∷ os)
matched-step c p o os h =
    let size = min p.leaves o.quantity in
    let fills = match_queue c (p.leaves - size) os in
    let f : Fill = record { id = o.order_id; price = o.price; size = size } in
    rw h (
      with_fills-eq p (p.planned ++ f ∷ [] ++ fills) (p.planned ++ f ∷ fills)
        (p.leaves - size - total fills) (p.leaves - (size + total fills))
        (append_assoc p.planned (f ∷ []) fills) (omega arith))

abbrev stops : Message → Plan → OrderView → Bool
stops c p o = (p.leaves == 0) || not (crosses c o.price)

abbrev Clean : Plan → Type 0
Clean p = (p.rejection ≡ no_reason) × (p.faulted ≡ false)

module _ (c : Message) (resting : Map ℕ Message) (p : Plan) (o : OrderView) where
  visit-stops : stops c p o ≡ true → plan_visit c resting p o ≡ (p, false)
  unfolding plan_visit
  visit-stops h = rw h refl

  visit-post_only :
      stops c p o ≡ false
      → c.post_only ≡ true
      → plan_visit c resting p o ≡ (record p { rejection = post_only }, false)
  unfolding plan_visit
  visit-post_only h k = rw (h, k) refl

  visit-against :
      stops c p o ≡ false
      → c.post_only ≡ false
      → plan_visit c resting p o ≡ plan_against c p o (lookup o.order_id resting)
  unfolding plan_visit
  visit-against h k = rw (h, k) refl

  refused :
      (q : Plan)
      → ¬ (Clean q)
      → plan_visit c resting p o ≡ (q, false)
      → (r : Plan) × ((plan_visit c resting p o ≡ (r, false)) × ¬ (Clean r))
  refused q dirty h = (q, (h, dirty))

  -- The visitor stops at the order, fills it, or stops with a plan that is not clean.
  visit-cases :
      ((stops c p o ≡ true) × (plan_visit c resting p o ≡ (p, false)))
      ⊎ (((stops c p o ≡ false) × (plan_visit c resting p o ≡ plan_fill p o))
          ⊎ ((r : Plan) × ((plan_visit c resting p o ≡ (r, false)) × ¬ (Clean r))))
  visit-cases = elim (Bool-cases (stops c p o)) [
    | inl h ↦ inl (h, visit-stops h)
    | inr h ↦ elim (Bool-cases c.post_only) [
      | inl k ↦
          inr
            (inr (refused (record p { rejection = post_only }) (λ d. cc d.0) (visit-post_only h k)))
      | inr k ↦ elim (Option-cases (lookup o.order_id resting)) [
        | inl m ↦ inr (
            inr (
              refused (record p { faulted = true }) (λ d. cc d.1)
                (visit-against h k ∙ ap (plan_against c p o) m)))
        | inr (maker, m) ↦ elim (Bool-cases (maker.client_id == c.client_id)) [
          | inl own ↦ inr (
              inr (
                refused (record p { rejection = self_trade }) (λ d. cc d.0)
                  (visit-against h k ∙ ap (plan_against c p o) m ∙ rw own refl)))
          | inr apart ↦ inr (inl (h, visit-against h k ∙ ap (plan_against c p o) m ∙ rw apart refl))
        ]
      ]
    ]
  ]

module _ {ℓ} {S : Type ℓ} (f : S → OrderView → S × Bool) (o : OrderView) (os : List OrderView) where
  visit_list-step :
      (s t : S) (more : Bool)
      → f s o ≡ (t, more)
      → visit_list f (o ∷ os) s ≡ (if more then visit_list f os t else (t, false))
  visit_list-step s t more h = rw h refl

matched-filled :
    (c : Message) (p : Plan) (o : OrderView) (os : List OrderView)
    → stops c p o ≡ false
    → (plan_fill p o).0.leaves == 0 ≡ true
    → (plan_fill p o).0 ≡ matched c p (o ∷ os)
matched-filled c p o os h z =
    matched-stop c (plan_fill p o).0 os
      (rw ((nat_beq_iff (plan_fill p o).0.leaves 0).0 z) (match_queue-zero c os))
    ∙ matched-step c p o os h

-- If the visit ends without a rejection and without a missing order, it has planned the greedy match.
visit_list-matched :
    (c : Message) (resting : Map ℕ Message) (os : List OrderView) (p : Plan)
    → Clean (visit_list (plan_visit c resting) os p).0
    → (visit_list (plan_visit c resting) os p).0 ≡ matched c p os
visit_list-matched c resting [] p clean = matched-stop c p [] refl
visit_list-matched c resting (o ∷ os) p clean = elim (visit-cases c resting p o) [
  | inl (h, q) ↦
      ap (λ x. x.0) (visit_list-step (plan_visit c resting) o os p p false q)
      ∙ matched-stop c p (o ∷ os) (rw h refl)
  | inr (inl (h, q)) ↦
      let p' = (plan_fill p o).0 in
      let step = visit_list-step (plan_visit c resting) o os p p' (not (p'.leaves == 0)) q in
      elim (Bool-cases (p'.leaves == 0)) [
        | inl z ↦ ap (λ x. x.0) step ∙ rw z (matched-filled c p o os h z)
        | inr z ↦
            let rest = visit_list (plan_visit c resting) os p' in
            let on = step ∙ ap (λ z. if not z then rest else (p', false)) z in
            ap (λ x. x.0) on
            ∙ visit_list-matched c resting os p' (subst (λ x. Clean x.0) on clean)
            ∙ matched-step c p o os h
      ]
  | inr (inr (r, (q, dirty))) ↦ absurd (
      dirty
        (subst (λ x. Clean x.0) (visit_list-step (plan_visit c resting) o os p r false q) clean))
]

module _ (c : Message) (resting : Map ℕ Message) (book : OrderBook) where
  abbrev pub maker_queue : List OrderView
  maker_queue = queue (maker_side c) (levels book (maker_side c))

  pub plan_visited :
      plan c resting book ≡ (visit_list (plan_visit c resting) maker_queue (start_plan c)).0
  unfolding plan for_each_order
  plan_visited = elim (Bool-cases (c.side == bid)) [
    | inl h ↦ rw h (visit_levels-queue (plan_visit c resting) ask book.asks (start_plan c))
    | inr h ↦ rw h (visit_levels-queue (plan_visit c resting) bid book.bids (start_plan c))
  ]

-- If a plan has no rejection and no order is missing, then it is the greedy match of the command
-- against the opposite side of the book: the fills of `match_queue`, and what they leave.
pub plan-matched :
    (c : Message) (resting : Map ℕ Message) (book : OrderBook)
    → (plan c resting book).rejection ≡ no_reason
    → (plan c resting book).faulted ≡ false
    → plan c resting book
      ≡ matched c (start_plan c) (queue (maker_side c) (levels book (maker_side c)))
plan-matched c resting book clean sound =
    let visited = plan_visited c resting book in
    visited
    ∙ visit_list-matched c resting (maker_queue c resting book) (start_plan c)
        (subst Clean visited (clean, sound))
