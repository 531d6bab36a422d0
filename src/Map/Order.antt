-- ===== src/Map/Order.antt =====
-- A `std::map` keeps its keys in the order of its comparator.
use limit_order_book.Base.{
  Bool, true, false, some, [], ◌∷◌, ◌≡◌, ◌⊎◌, inl, inr, subst, arith, Keyed, ◌==◌, Bool-cases,
}
use limit_order_book.Map.{Map, lookup, insert, erase, modify}

-- What a comparator has to be.
pub record StrictOrder {ℓ} {K : Type ℓ} ⦃e : Keyed K⦄ (before : K → K → Bool) : Type ℓ where
  pub trans : (a b c : K) → before a b ≡ true → before b c ≡ true → before a c ≡ true
  pub total : (a b : K) → (a == b) ≡ false → before a b ≡ false → before b a ≡ true
  pub irrefl : (a : K) → before a a ≡ false

module _ {ℓ κ} {K : Type ℓ} {V : Type κ} ⦃e : Keyed K⦄ (before : K → K → Bool) where
  -- Every key of the map comes after `k`.
  abbrev pub After : K → Map K V → Type 0
  After k [] = Unit
  After k ((j, v) ∷ m) = (before k j ≡ true) × After k m

  abbrev pub Sorted : Map K V → Type 0
  Sorted [] = Unit
  Sorted ((j, v) ∷ m) = After j m × Sorted m

module _ {ℓ κ} {K : Type ℓ} {V : Type κ} ⦃e : Keyed K⦄ (before : K → K → Bool)
    (o : StrictOrder before) where
  After-trans : (k j : K) (m : Map K V) → before k j ≡ true → After before j m → After before k m
  After-trans k j [] h a = tt
  After-trans k j ((i, v) ∷ m) h a = (o.trans k j i h a.0, After-trans k j m h a.1)

  After-insert :
      (k j : K) (v : V) (m : Map K V)
      → before k j ≡ true
      → After before k m
      → After before k (insert before j v m)
  unfolding insert
  After-insert k j v [] h a = (h, tt)
  After-insert k j v ((i, w) ∷ m) h a = elim (Bool-cases (i == j)) [
    | inl old ↦ rw old (h, a.1)
    | inr new ↦ rw new (elim (Bool-cases (before j i)) [
      | inl first ↦ rw first (h, a)
      | inr later ↦ rw later (a.0, After-insert k j v m h a.1)
    ])
  ]

  pub Sorted-insert :
      (k : K) (v : V) (m : Map K V) → Sorted before m → Sorted before (insert before k v m)
  unfolding insert
  Sorted-insert k v [] s = (tt, tt)
  Sorted-insert k v ((j, w) ∷ m) s = elim (Bool-cases (j == k)) [
    | inl old ↦ rw old (subst (λ x. After before x m) ((e.beq_iff j k).0 old) s.0, s.1)
    | inr new ↦ rw new (elim (Bool-cases (before k j)) [
      | inl first ↦ rw first ((first, After-trans k j m first s.0), (s.0, s.1))
      | inr later ↦
          rw later
            (After-insert j k v m (o.total k j (flip k j new) later) s.0, Sorted-insert k v m s.1)
    ])
  ]
    where
      flip : (k j : K) → (j == k) ≡ false → (k == j) ≡ false
      flip k j h = ground (arith, e.beq_iff j k, e.beq_iff k j)

  After-erase : (k j : K) (m : Map K V) → After before k m → After before k (erase j m)
  unfolding erase
  After-erase k j [] a = tt
  After-erase k j ((i, v) ∷ m) a = ground (arith, After-erase k j m a.1)

  pub Sorted-erase : (k : K) (m : Map K V) → Sorted before m → Sorted before (erase k m)
  unfolding erase
  Sorted-erase k [] s = tt
  Sorted-erase k ((j, v) ∷ m) s = ground (arith, After-erase j k m s.0, Sorted-erase k m s.1)

  After-modify :
      (k j : K) (f : V → V) (m : Map K V) → After before k m → After before k (modify j f m)
  unfolding modify
  After-modify k j f [] a = tt
  After-modify k j f ((i, v) ∷ m) a = (a.0, After-modify k j f m a.1)

  pub Sorted-modify :
      (k : K) (f : V → V) (m : Map K V) → Sorted before m → Sorted before (modify k f m)
  unfolding modify
  Sorted-modify k f [] s = tt
  Sorted-modify k f ((j, v) ∷ m) s = (After-modify j k f m s.0, Sorted-modify k f m s.1)

  pub lookup-After :
      (k j : K) (m : Map K V) (v : V) → After before k m → lookup j m ≡ some v → before k j ≡ true
  unfolding lookup
  lookup-After k j [] v a h = ground arith
  lookup-After k j ((i, w) ∷ m) v a h = ground (arith, e.beq_iff i j, lookup-After k j m v a.1)

  -- The first key comes before every other key of the map.
  pub first_is_least :
      (k : K) (w : V) (m : Map K V) (j : K) (v : V)
      → Sorted before ((k, w) ∷ m)
      → lookup j ((k, w) ∷ m) ≡ some v
      → (k ≡ j) ⊎ (before k j ≡ true)
  unfolding lookup
  first_is_least k w m j v s h = elim (Bool-cases (k == j)) [
    | inl same ↦ inl ((e.beq_iff k j).0 same)
    | inr apart ↦ inr (lookup-After k j m v s.0 (ground arith))
  ]
