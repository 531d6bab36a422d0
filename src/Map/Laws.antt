-- ===== src/Map/Laws.antt =====
-- What a look-up sees after each operation on a map, and when operations undo one another.
use limit_order_book.Base.{
  Bool, true, none, some, [], ◌∷◌, ◌≡◌, refl, arith, Keyed, ◌==◌, if◌then◌else◌, map_option,
}
use limit_order_book.Map.{Map, lookup, insert, erase, modify}

pub beq_refl {ℓ} : {K : Type ℓ} ⦃e : Keyed K⦄ (k : K) → (k == k) ≡ true
beq_refl ⦃e⦄ k = (e.beq_iff k k).1 refl

module _ {ℓ κ} {K : Type ℓ} {V : Type κ} ⦃e : Keyed K⦄ where
  pub lookup-insert :
      (before : K → K → Bool) (k : K) (v : V) (m : Map K V) (j : K)
      → lookup j (insert before k v m) ≡ (if k == j then some v else lookup j m)
  unfolding lookup insert
  lookup-insert before k v [] j = refl
  lookup-insert before k v ((i, w) ∷ m) j =
      ground (arith, e.beq_iff i k, e.beq_iff i j, e.beq_iff k j, lookup-insert before k v m j)

  pub lookup-erase :
      (k : K) (m : Map K V) (j : K) → lookup j (erase k m) ≡ (if k == j then none else lookup j m)
  unfolding lookup erase
  lookup-erase k [] j = ground arith
  lookup-erase k ((i, w) ∷ m) j =
      ground (arith, e.beq_iff i k, e.beq_iff i j, e.beq_iff k j, lookup-erase k m j)

  pub lookup-modify :
      (k : K) (f : V → V) (m : Map K V) (j : K)
      → lookup j (modify k f m) ≡ (if k == j then map_option f (lookup j m) else lookup j m)
  unfolding lookup modify
  lookup-modify k f [] j = ground arith
  lookup-modify k f ((i, w) ∷ m) j =
      ground (arith, e.beq_iff i k, e.beq_iff i j, e.beq_iff k j, lookup-modify k f m j)

  pub erase_absent : (k : K) (m : Map K V) → lookup k m ≡ none → erase k m ≡ m
  unfolding lookup erase
  erase_absent k [] h = refl
  erase_absent k ((j, v) ∷ m) h = ground (arith, erase_absent k m)

  pub erase-insert :
      (before : K → K → Bool) (k : K) (v : V) (m : Map K V)
      → lookup k m ≡ none
      → erase k (insert before k v m) ≡ m
  unfolding lookup insert erase
  erase-insert before k v [] h = ground (arith, e.beq_iff k k)
  erase-insert before k v ((j, w) ∷ m) h =
      ground (arith, e.beq_iff k k, e.beq_iff j k, erase_absent k m, erase-insert before k v m)

  pub modify-modify :
      (k : K) (f g : V → V) (m : Map K V) → modify k g (modify k f m) ≡ modify k (λ v. g (f v)) m
  unfolding modify
  modify-modify k f g [] = refl
  modify-modify k f g ((j, v) ∷ m) = ground (arith, modify-modify k f g m)

  pub modify_id : (k : K) (f : V → V) (m : Map K V) → ((v : V) → f v ≡ v) → modify k f m ≡ m
  unfolding modify
  modify_id k f [] h = refl
  modify_id k f ((j, v) ∷ m) h = ground (arith, h v, modify_id k f m h)

  pub modify_commute :
      (k j : K) (f g : V → V) (m : Map K V)
      → ((v : V) → f (g v) ≡ g (f v))
      → modify k f (modify j g m) ≡ modify j g (modify k f m)
  unfolding modify
  modify_commute k j f g [] h = refl
  modify_commute k j f g ((i, v) ∷ m) h = ground (arith, h v, modify_commute k j f g m h)

  pub erase-modify : (k : K) (f : V → V) (m : Map K V) → erase k (modify k f m) ≡ erase k m
  unfolding erase modify
  erase-modify k f [] = refl
  erase-modify k f ((j, v) ∷ m) = ground (arith, erase-modify k f m)

pub ruleset map_laws = (lookup-insert, lookup-erase, lookup-modify)
