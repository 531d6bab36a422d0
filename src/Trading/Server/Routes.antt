-- ===== src/Trading/Server/Routes.antt =====
-- The routes of src/trading/server.cpp and the connections that they lead to.
use limit_order_book.Base.{
  none≢some, ℕ, ◌+◌, ◌<◌, none, some, ltb, ◌==◌, nat_eq, if◌then◌else◌, ◌≡◌, ◌≢◌, refl, sym, ◌∙◌,
  ap, subst, arith, Bool-cases, Option-cases, inl, inr, ◌⊎◌, nat_beq_iff,
}
use native.Mathlib.Decide.{ℕ_discrete}
use mathlib.Core.Option.{some-injective}
use limit_order_book.Map.{Map, lookup, insert, erase}
use limit_order_book.Map.Laws.{lookup-insert, lookup-erase}
use limit_order_book.Trading.Server.{Connection, Server}

module _ {ℓ} {V : Type ℓ} where
  pub at_key : (k : ℕ) (v : V) (m : Map ℕ V) → lookup k (insert ltb k v m) ≡ some v
  at_key k v m = lookup-insert ltb k v m k ∙ rw ((nat_beq_iff k k).1 refl) refl

  other_key : (k j : ℕ) (v : V) (m : Map ℕ V) → k ≢ j → lookup j (insert ltb k v m) ≡ lookup j m
  other_key k j v m apart = lookup-insert ltb k v m j ∙ skip k j apart
    where
      skip : (a b : ℕ) → a ≢ b → (if a == b then some v else lookup j m) ≡ lookup j m
      skip a b h = elim (Bool-cases (a == b)) [
        | inl same ↦ absurd (h ((nat_beq_iff a b).0 same))
        | inr k ↦ rw k refl
      ]

  erased : (k : ℕ) (m : Map ℕ V) → lookup k (erase k m) ≡ none
  erased k m = lookup-erase k m k ∙ rw ((nat_beq_iff k k).1 refl) refl

  not_erased : (k j : ℕ) (m : Map ℕ V) → k ≢ j → lookup j (erase k m) ≡ lookup j m
  not_erased k j m apart = lookup-erase k m j ∙ skip k j apart
    where
      skip : (a b : ℕ) → a ≢ b → (if a == b then none else lookup j m) ≡ lookup j m
      skip a b h = elim (Bool-cases (a == b)) [
        | inl same ↦ absurd (h ((nat_beq_iff a b).0 same))
        | inr k ↦ rw k refl
      ]

  inserted :
      (k j : ℕ) (v w : V) (m : Map ℕ V)
      → lookup j (insert ltb k v m) ≡ some w
      → ((k ≡ j) × (v ≡ w)) ⊎ ((k ≢ j) × (lookup j m ≡ some w))
  inserted k j v w m h = elim (ℕ_discrete k j) [
    | yes same ↦ inl (
      same,
      some-injective _ _ (sym (at_key k v m) ∙ ap (λ i. lookup i (insert ltb k v m)) same ∙ h),
    )
    | no apart ↦ inr (apart, sym (other_key k j v m apart) ∙ h)
  ]

  kept_in :
      (k j : ℕ) (w : V) (m : Map ℕ V)
      → lookup j (erase k m) ≡ some w
      → (k ≢ j) × (lookup j m ≡ some w)
  kept_in k j w m h = elim (ℕ_discrete k j) [
    | yes same ↦ absurd (none≢some (sym (erased k m) ∙ ap (λ i. lookup i (erase k m)) same ∙ h))
    | no apart ↦ (apart, sym (not_erased k j m apart) ∙ h)
  ]

  pub same_value :
      (i j : ℕ) (v w : V) (m : Map ℕ V) → lookup i m ≡ some v → lookup j m ≡ some w → i ≡ j → v ≡ w
  same_value i j v w m h k e = some-injective _ _ (sym h ∙ ap (λ n. lookup n m) e ∙ k)

-- A client with a route owns the connection that it leads to, and every connection of a client has
-- its route.
pub record Routed (conns : Map ℕ Connection) (routes : Map ℕ ℕ) (next : ℕ) : Type 0 where
  pub owned :
      (k i : ℕ)
      → lookup k routes ≡ some i
      → (c : Connection) × (lookup i conns ≡ some c) × (c.client ≡ k)
  pub no_zero : lookup 0 routes ≡ none
  pub routed :
      (i : ℕ) (c : Connection)
      → lookup i conns ≡ some c
      → c.client ≢ 0
      → lookup c.client routes ≡ some i
  pub fresh : (i : ℕ) (c : Connection) → lookup i conns ≡ some c → i < next

abbrev pub IsRouted : Server → Type 0
IsRouted s = Routed s.connections s.routes s.next_connection

module _ (conns : Map ℕ Connection) (routes : Map ℕ ℕ) (next : ℕ)
    (h : Routed conns routes next) where
  -- A connection that keeps its client.
  pub put-Routed :
      (id : ℕ) (c c' : Connection)
      → lookup id conns ≡ some c
      → c'.client ≡ c.client
      → Routed (insert ltb id c' conns) routes next
  put-Routed id c c' at same = record {
    owned = λ k i found.
        let (d, there, mine) = h.owned k i found in
        elim (ℕ_discrete id i) [
          | yes e ↦ (
            c',
            ap (λ n. lookup n (insert ltb id c' conns)) (sym e) ∙ at_key id c' conns,
            same ∙ ap (λ x. x.client) (same_value id i c d conns at there e) ∙ mine,
          )
          | no apart ↦ (d, other_key id i c' conns apart ∙ there, mine)
        ];
    no_zero = h.no_zero;
    routed = λ i d found nz. elim (inserted id i c' d conns found) [
      | inl (e, changed) ↦
          let client : c.client ≡ d.client = sym same ∙ ap (λ x. x.client) changed in
          ap (λ k. lookup k routes) (sym client)
          ∙ h.routed id c at (λ z. nz (sym client ∙ z))
          ∙ ap some e
      | inr (apart, old) ↦ h.routed i d old nz
    ];
    fresh = λ i d found. elim (inserted id i c' d conns found) [
      | inl (e, changed) ↦ subst (λ n. n < next) e (h.fresh id c at)
      | inr (apart, old) ↦ h.fresh i d old
    ];
  }

  -- A connection without a client that takes one without a route.
  pub claim-Routed :
      (id k : ℕ) (c mine : Connection)
      → lookup id conns ≡ some c
      → c.client ≡ 0
      → k ≢ 0
      → lookup k routes ≡ none
      → mine.client ≡ k
      → Routed (insert ltb id mine conns) (insert ltb k id routes) next
  claim-Routed id k c mine at unclaimed nz free takes = record {
    owned = λ j i found. elim (inserted k j id i routes found) [
      | inl (e, f) ↦ (
        mine,
        ap (λ n. lookup n (insert ltb id mine conns)) (sym f) ∙ at_key id mine conns,
        takes ∙ e,
      )
      | inr (apart, old) ↦
          let (d, there, theirs) = h.owned j i old in
          let elsewhere : id ≢ i = λ e. none≢some (
            sym h.no_zero
            ∙ ap (λ n. lookup n routes)
                (sym unclaimed ∙ ap (λ x. x.client) (same_value id i c d conns at there e) ∙ theirs)
            ∙ old) in
          (d, other_key id i mine conns elsewhere ∙ there, theirs)
    ];
    no_zero = other_key k 0 id routes nz ∙ h.no_zero;
    routed = λ i d found d_nz. elim (inserted id i mine d conns found) [
      | inl (e, changed) ↦
          ap (λ n. lookup n (insert ltb k id routes)) (sym (ap (λ x. x.client) changed) ∙ takes)
          ∙ at_key k id routes
          ∙ ap some e
      | inr (apart, old) ↦
          let route = h.routed i d old d_nz in
          other_key k d.client id routes
            (λ e. none≢some (sym free ∙ ap (λ n. lookup n routes) e ∙ route))
          ∙ route
    ];
    fresh = λ i d found. elim (inserted id i mine d conns found) [
      | inl (e, changed) ↦ subst (λ n. n < next) e (h.fresh id c at)
      | inr (apart, old) ↦ h.fresh i d old
    ];
  }

  pub remove-Routed :
      (id : ℕ) (c : Connection)
      → lookup id conns ≡ some c
      → Routed (erase id conns) (erase c.client routes) next
  remove-Routed id c at = record {
    owned = λ k i found.
        let (others, old) = kept_in c.client k i routes found in
        let (d, there, theirs) = h.owned k i old in
        let elsewhere : id ≢ i =
          λ e. others (ap (λ x. x.client) (same_value id i c d conns at there e) ∙ theirs) in
        (d, not_erased id i conns elsewhere ∙ there, theirs);
    no_zero = elim (Option-cases (lookup 0 (erase c.client routes))) [
      | inl none_there ↦ none_there
      | inr (i, found) ↦ absurd (none≢some (sym h.no_zero ∙ (kept_in c.client 0 i routes found).1))
    ];
    routed = λ i d found nz.
        let (apart, old) = kept_in id i d conns found in
        let route = h.routed i d old nz in
        let others : c.client ≢ d.client = λ e. apart (
          same_value c.client d.client id i routes (h.routed id c at (λ z. nz (sym e ∙ z))) route
            e) in
        not_erased c.client d.client routes others ∙ route;
    fresh = λ i d found. h.fresh i d (kept_in id i d conns found).1;
  }

  -- The number of the next connection is new.
  pub unused : lookup next conns ≡ none
  unused = elim (Option-cases (lookup next conns)) [
    | inl free ↦ free
    | inr (c, at) ↦ let below = h.fresh next c at in absurd (omega (arith, below))
  ]

  pub accept-Routed :
      (c : Connection) → c.client ≡ 0 → Routed (insert ltb next c conns) routes (next + 1)
  accept-Routed c unclaimed = record {
    owned = λ k i found.
        let (d, there, theirs) = h.owned k i found in
        let below = h.fresh i d there in
        (d, other_key next i c conns (λ e. omega (arith, below, e)) ∙ there, theirs);
    no_zero = h.no_zero;
    routed = λ i d found nz. elim (inserted next i c d conns found) [
      | inl (e, changed) ↦ absurd (nz (sym (ap (λ x. x.client) changed) ∙ unclaimed))
      | inr (apart, old) ↦ h.routed i d old nz
    ];
    fresh = λ i d found. elim (inserted next i c d conns found) [
      | inl (e, changed) ↦ omega (arith, e)
      | inr (apart, old) ↦ omega (arith, h.fresh i d old)
    ];
  }
