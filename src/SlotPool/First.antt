-- ===== src/SlotPool/First.antt =====
-- The first call of a pool of include/order_book/memory/fixed_slot_pool.hpp, and its two kinds of
-- allocation side by side.
use limit_order_book.Base.{
  le→leb, ℕ, suc, ◌+◌, ◌-◌, ◌*◌, ◌/◌, ◌%◌, sym, ap, subst, ◌≤◌, ◌<◌, Bool, true, false, Option,
  none, some, ◌≡◌, refl, ◌∙◌, arith, ◌==◌, nat_eq, Bool-cases, Option-cases, inl, inr, ◌⊎◌, leb,
  if◌then◌else◌,
}
use native.Mathlib.Nat.{div-add-mod, mod-lt}
use limit_order_book.SlotPool.Layout.{Valid, slot_at}
use limit_order_book.SlotPool.{
  Pool, set_up, padding_of, align, ready, take_slot, try_allocate, allocate, Allocated, null,
  bad_alloc, address,
}
use limit_order_book.SlotPool.Allocate.{Fresh, Request, set_up-Valid}
use limit_order_book.SlotPool.Outcome.{HandsOut, try_allocate-HandsOut}

-- What the first call makes of a pool, and the slot that it hands out.
pub record LaidOut (p q : Pool) (bytes alignment at : ℕ) : Type 0 where
  pub valid : Valid q
  pub same_storage : q.storage ≡ p.storage
  pub same_capacity : q.capacity_bytes ≡ p.capacity_bytes
  pub sized : q.slot_sz ≡ bytes
  pub aligned : q.slot_alignment ≡ alignment
  pub least : q.first_valid_start < alignment
  pub no_more : p.capacity_bytes < q.first_valid_start + (q.slots + 1) * bytes
  pub slot : ℕ
  pub inside : slot < q.slots
  pub found_at : at ≡ p.storage + slot_at q slot
  pub only_used : (i : ℕ) → q.in_uses i ≡ i == slot
  pub one_less : suc q.free_count ≡ q.slots

kept_field {ℓ} :
    {A : Type ℓ} {p q : Pool} {at : ℕ} (out : HandsOut p q at) (f : Pool → A)
    → f q ≡ f (record p { free_count = q.free_count; in_uses = q.in_uses })
kept_field out f = ap f out.others_kept

leb_of_lt : (a b : ℕ) → b < a → leb a b ≡ false
leb_of_lt a b h = ground (arith, h)

module _ (p : Pool) (fresh : Fresh p) (bytes alignment : ℕ) where
  is_laid_out :
      leb (padding_of alignment p.storage + bytes) p.capacity_bytes ≡ true
      → ready p bytes alignment true
        ≡ some (set_up p bytes alignment (padding_of alignment p.storage))
  unfolding ready align
  is_laid_out room = rw (fresh.untouched, padding_of, room) refl

  stays_ready :
      (padding : ℕ)
      → ready (set_up p bytes alignment padding) bytes alignment true
        ≡ some (set_up p bytes alignment padding)
  unfolding ready
  stays_ready padding = refl

  same_call :
      (q : Pool)
      → 0 < bytes
      → ready p bytes alignment true ≡ some q
      → ready q bytes alignment true ≡ some q
      → try_allocate p bytes alignment true ≡ try_allocate q bytes alignment true
  unfolding try_allocate
  same_call q pos found again =
      let something : bytes == 0 ≡ false = ground (arith, pos) in rw (something, found, again) refl

  set_up-LaidOut :
      Request bytes alignment
      → padding_of alignment p.storage + bytes ≤ p.capacity_bytes
      → (q : Pool) (at : ℕ)
      → HandsOut (set_up p bytes alignment (padding_of alignment p.storage)) q at
      → LaidOut p q bytes alignment at
  set_up-LaidOut request room q at out =
      let n = (p.capacity_bytes - padding_of alignment p.storage) / bytes in
      let slots : q.slots ≡ n = kept_field out (λ x. x.slots) in
      let start : q.first_valid_start ≡ padding_of alignment p.storage =
        kept_field out (λ x. x.first_valid_start) in
      record {
        valid = out.valid;
        same_storage = kept_field out (λ x. x.storage);
        same_capacity = kept_field out (λ x. x.capacity_bytes);
        sized = kept_field out (λ x. x.slot_sz);
        aligned = kept_field out (λ x. x.slot_alignment);
        least =
            subst (λ k. k < alignment) (sym start)
              (mod-lt (alignment - p.storage % alignment) request.alignment_pos);
        no_more = no_more n slots start;
        slot = out.slot;
        inside = subst (λ k. out.slot < k) (sym slots) out.inside;
        found_at =
            out.found_at
            ∙ ap (λ k. p.storage + (k + out.slot * bytes)) (sym start)
            ∙ ap (λ k. p.storage + (q.first_valid_start + out.slot * k))
                (sym (kept_field out (λ x. x.slot_sz)));
        only_used = λ i. ap (λ f. f i) out.now_used ∙ only (i == out.slot);
        one_less = out.one_less ∙ sym slots;
      }
    where
      only : (b : Bool) → (if b then true else false) ≡ b
      only true = refl
      only false = refl

      no_more :
          (n : ℕ)
          → q.slots ≡ (p.capacity_bytes - padding_of alignment p.storage) / bytes
          → q.first_valid_start ≡ padding_of alignment p.storage
          → p.capacity_bytes < q.first_valid_start + (q.slots + 1) * bytes
      no_more n slots start =
          let space = p.capacity_bytes - padding_of alignment p.storage in
          let counted : (q.slots + 1) * bytes ≡ bytes * (space / bytes) + bytes =
            ap (λ k. (k + 1) * bytes) slots ∙ one_more (space / bytes) bytes in
          omega
            (arith, room, start, counted, div-add-mod space bytes, mod-lt space request.bytes_pos)
        where
          one_more : (a b : ℕ) → (a + 1) * b ≡ b * a + b
          one_more a b = omega arith

  -- The first call of a pool lays out slots of the asked size from the first aligned place of the
  -- storage on, as many as fit, and hands one of them out, if one fits and the tables find memory:
  -- the pool is then valid and that slot is the only one in use.
  pub first_call-LaidOut :
      Request bytes alignment
      → padding_of alignment p.storage + bytes ≤ p.capacity_bytes
      → (at : ℕ) × (q : Pool) × (try_allocate p bytes alignment true ≡ (q, some at))
        × LaidOut p q bytes alignment at
  unfolding try_allocate
  first_call-LaidOut request room =
      let padding = padding_of alignment p.storage in
      let valid = set_up-Valid p bytes alignment padding fresh request refl room in
      let (at, q, same, out) =
        try_allocate-HandsOut (set_up p bytes alignment padding) valid true valid.slots_pos in
      let found = le→leb (padding + bytes) p.capacity_bytes room in
      (
        at,
        q,
        same_call (set_up p bytes alignment padding) request.bytes_pos (is_laid_out found)
              (stays_ready padding)
            ∙ same,
        set_up-LaidOut request room q at out,
      )

  stays_out :
      (reserved : Bool)
      → (p.capacity_bytes < padding_of alignment p.storage + bytes) ⊎ (reserved ≡ false)
      → ready p bytes alignment reserved ≡ none
  unfolding ready align
  stays_out reserved (inl small) =
      rw
        (
          fresh.untouched,
          padding_of,
          leb_of_lt (padding_of alignment p.storage + bytes) p.capacity_bytes small,
        )
        refl
  stays_out reserved (inr no_memory) =
      elim (Bool-cases (leb (padding_of alignment p.storage + bytes) p.capacity_bytes)) [
        | inl room ↦ rw (fresh.untouched, padding_of, room, no_memory) refl
        | inr no_room ↦ rw (fresh.untouched, padding_of, no_room) refl
      ]

  -- If not even one slot fits behind the alignment, or the tables find no memory, the first call gets
  -- nothing and the pool stays as it was.
  pub first_call_refused :
      (reserved : Bool)
      → (p.capacity_bytes < padding_of alignment p.storage + bytes) ⊎ (reserved ≡ false)
      → try_allocate p bytes alignment reserved ≡ (p, none)
  unfolding try_allocate
  first_call_refused reserved why = elim (Bool-cases (bytes == 0)) [
    | inl nothing ↦ rw nothing refl
    | inr something ↦ rw (something, stays_out reserved why) refl
  ]

-- What `allocate` returns where `try_allocate` returns nothing or an address.
abbrev pub thrown : ℕ → Option ℕ → Allocated
thrown bytes none = if bytes == 0 then null else bad_alloc
thrown bytes (some at) = address at

-- The two kinds of allocation leave the same pool and find the same address; where the one returns
-- a null pointer, the other throws, but for a request of no bytes.
pub allocate_agrees :
    (p : Pool) (bytes alignment : ℕ) (reserved : Bool)
    → allocate p bytes alignment reserved ≡ (
      (try_allocate p bytes alignment reserved).0,
      thrown bytes (try_allocate p bytes alignment reserved).1,
    )
unfolding allocate try_allocate
allocate_agrees p bytes alignment reserved = elim (Bool-cases (bytes == 0)) [
  | inl nothing ↦ rw (nothing, thrown, nothing) refl
  | inr something ↦ elim (Option-cases (ready p bytes alignment reserved)) [
    | inl not_ready ↦ rw (something, not_ready, thrown, something) refl
    | inr (q, is_ready) ↦ elim (Option-cases (take_slot q bytes alignment)) [
      | inl not_taken ↦ rw (something, is_ready, not_taken, thrown, something) refl
      | inr ((r, at), taken) ↦ rw (something, is_ready, taken) refl
    ]
  ]
]
