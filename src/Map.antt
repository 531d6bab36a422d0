-- ===== src/Map.antt =====
-- `std::map` and `std::unordered_map` as association lists. The order of a `std::map` is that of
-- its comparator, `before`; for a hash map it is no part of any property.
pub mod Laws
pub mod Order
use limit_order_book.Base.{
  Bool, Option, none, some, List, [], ◌∷◌, Keyed, ◌==◌, if◌then◌else◌, is_some,
}

abbrev pub Map {ℓ κ} : Type ℓ → Type κ → Type (ℓ ⊔ κ)
Map K V = List (K × V)

module _ {ℓ κ} {K : Type ℓ} {V : Type κ} ⦃e : Keyed K⦄ where
  -- m.find(k)
  unfoldable pub lookup : K → Map K V → Option V
  lookup k [] = none
  lookup k ((j, v) ∷ m) = if j == k then some v else lookup k m

  -- m.contains(k)
  abbrev pub contains : K → Map K V → Bool
  contains k m = is_some (lookup k m)

  -- A new key goes before the first key that it precedes; an old one gets the new value.
  unfoldable pub insert : (K → K → Bool) → K → V → Map K V → Map K V
  insert before k v [] = (k, v) ∷ []
  insert before k v ((j, w) ∷ m) =
      if j == k
      then (k, v) ∷ m
      else if before k j
      then (k, v) ∷ (j, w) ∷ m
      else (j, w) ∷ insert before k v m

  -- m.erase(k)
  unfoldable pub erase : K → Map K V → Map K V
  erase k [] = []
  erase k ((j, v) ∷ m) = let rest = erase k m in if j == k then rest else (j, v) ∷ rest

  -- An assignment through the iterator of k.
  unfoldable pub modify : K → (V → V) → Map K V → Map K V
  modify k f [] = []
  modify k f ((j, v) ∷ m) = (j, if j == k then f v else v) ∷ modify k f m
