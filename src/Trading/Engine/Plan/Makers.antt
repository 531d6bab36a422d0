-- ===== src/Trading/Engine/Plan/Makers.antt =====
-- Whom `plan` trades with: resting orders of other clients, at prices that cross.
use limit_order_book.Base.{
  ℕ, Bool, true, false, not, ◌||◌, List, [], ◌∷◌, ◌++◌, some, ◌≡◌, refl, ◌==◌, nat_eq, Bool-cases,
  Option-cases, inl, inr,
}
use limit_order_book.Map.{Map, lookup}
use limit_order_book.Types.{side_eq}
use limit_order_book.Book.State.{OrderBook}
use limit_order_book.Book.Queries.{OrderView}
use limit_order_book.Trading.Messages.{Message}
use limit_order_book.Trading.Engine.Plan.{Fill, Plan, crosses, plan_visit, start_plan, plan}
use limit_order_book.Trading.Engine.Plan.Greedy.{visit_list, plan_visited, maker_queue}

-- A planned fill names a resting order of another client, at a price that crosses.
abbrev pub MakerOk : Message → Map ℕ Message → Fill → Type 0
MakerOk c resting f =
    (crosses c f.price ≡ true)
    × ((maker : Message) × ((lookup f.id resting ≡ some maker)
          × ((maker.client_id == c.client_id) ≡ false)))

abbrev pub EachFill : (Fill → Type 0) → List Fill → Type 0
EachFill P [] = Unit
EachFill P (f ∷ fs) = P f × EachFill P fs

EachFill-append :
    (P : Fill → Type 0) (fs : List Fill) (f : Fill)
    → EachFill P fs
    → P f
    → EachFill P (fs ++ f ∷ [])
EachFill-append P [] f all h = (h, tt)
EachFill-append P (g ∷ gs) f all h = (all.0, EachFill-append P gs f all.1 h)

crossed : (spent crossing : Bool) → (spent || not crossing) ≡ false → crossing ≡ true
crossed false true h = refl
crossed false false h = cc
crossed true crossing h = cc

module _ (c : Message) (resting : Map ℕ Message) where
  plan_visit-MakerOk :
      (p : Plan) (o : OrderView)
      → EachFill (MakerOk c resting) p.planned
      → EachFill (MakerOk c resting) (plan_visit c resting p o).0.planned
  unfolding plan_visit
  plan_visit-MakerOk p o all = elim (Bool-cases ((p.leaves == 0) || not (crosses c o.price))) [
    | inl h ↦ rw h all
    | inr h ↦ elim (Bool-cases c.post_only) [
      | inl k ↦ rw (h, k) all
      | inr k ↦ elim (Option-cases (lookup o.order_id resting)) [
        | inl m ↦ rw (h, k, m) all
        | inr (maker, m) ↦ elim (Bool-cases (maker.client_id == c.client_id)) [
          | inl own ↦ rw (h, k, m, own) all
          | inr apart ↦
              rw (h, k, m, apart)
                (EachFill-append (MakerOk c resting) p.planned _ all
                  (crossed (p.leaves == 0) (crosses c o.price) h, (maker, (m, apart))))
        ]
      ]
    ]
  ]

  visit_list-MakerOk :
      (os : List OrderView) (p : Plan)
      → EachFill (MakerOk c resting) p.planned
      → EachFill (MakerOk c resting) (visit_list (plan_visit c resting) os p).0.planned
  visit_list-MakerOk [] p all = all
  visit_list-MakerOk (o ∷ os) p all = elim (Bool-cases (plan_visit c resting p o).1) [
    | inl h ↦ rw h (visit_list-MakerOk os (plan_visit c resting p o).0 (plan_visit-MakerOk p o all))
    | inr h ↦ rw h (plan_visit-MakerOk p o all)
  ]

  -- Every fill of a plan names a resting order of another client, at a price that crosses.
  pub plan-MakerOk : (book : OrderBook) → EachFill (MakerOk c resting) (plan c resting book).planned
  plan-MakerOk book =
      rw (plan_visited c resting book)
        (visit_list-MakerOk (maker_queue c resting book) (start_plan c) tt)
