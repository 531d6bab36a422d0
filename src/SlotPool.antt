-- ===== src/SlotPool.antt =====
-- The pool of equal slots of include/order_book/memory/fixed_slot_pool.hpp. Addresses are numbers;
-- the two vectors, which have the same size, are functions from the index. Whether the memory for
-- them is to be had is an argument of the calls that may build them.
pub mod Counting
pub mod Layout
pub mod Allocate
pub mod Outcome
pub mod First
pub mod Release
pub mod Reuse
pub mod Calls
pub mod Adaptor
mod Tests
use limit_order_book.Base.{
  ℕ, ◌+◌, ◌-◌, ◌*◌, ◌/◌, ◌%◌, Bool, true, false, not, ◌&&◌, ◌||◌, Option, none, some, ltb, leb,
  ◌==◌, nat_eq, if◌then◌else◌,
}
use limit_order_book.Types.{u64_mod}

pub record Pool : Type 0 where
  pub first_init : Bool
  -- the address of storage_
  pub storage : ℕ
  pub capacity_bytes : ℕ
  -- the size of free_slots_ and of in_uses_
  pub slots : ℕ
  pub free_slots : ℕ → ℕ
  pub in_uses : ℕ → Bool
  pub free_count : ℕ
  pub slot_sz : ℕ
  pub slot_alignment : ℕ
  pub last_valid_start : ℕ
  pub first_valid_start : ℕ

-- The constructor, at what `upstream_.allocate` returned; `none` is its `std::bad_alloc`.
unfoldable pub new_pool : ℕ → ℕ → Option Pool
new_pool storage capacity =
    if capacity == 0
    then none
    else some (record {
      first_init = false;
      storage = storage;
      capacity_bytes = capacity;
      slots = 0;
      free_slots = λ i. 0;
      in_uses = λ i. false;
      free_count = 0;
      slot_sz = 0;
      slot_alignment = 0;
      last_valid_start = 0;
      first_valid_start = 0;
    })

-- The subtraction of a `std::size_t`.
abbrev pub sub_size : ℕ → ℕ → ℕ
sub_size a b = (a + u64_mod - b) % u64_mod

abbrev pub set_at {ℓ} : {A : Type ℓ} → (ℕ → A) → ℕ → A → ℕ → A
set_at f i x j = if j == i then x else f j

-- How far `std::align` moves a pointer; `none` if the rest of the space is too small.
abbrev pub padding_of : ℕ → ℕ → ℕ
padding_of alignment pointer = (alignment - pointer % alignment) % alignment

unfoldable pub align : ℕ → ℕ → ℕ → ℕ → Option ℕ
align alignment size pointer space =
    let padding = padding_of alignment pointer in
    if leb (padding + size) space then some padding else none

-- The tables of the first call.
abbrev pub set_up : Pool → ℕ → ℕ → ℕ → Pool
set_up p bytes alignment padding =
    let count = (p.capacity_bytes - padding) / bytes in
    record p {
      first_init = true;
      slots = count;
      free_slots = λ i. padding + i * bytes;
      in_uses = λ i. false;
      free_count = count;
      slot_sz = bytes;
      slot_alignment = alignment;
      last_valid_start = padding + (count - 1) * bytes;
      first_valid_start = padding;
    }

-- `none` leaves the call: the storage is too small, or the tables find no memory.
unfoldable pub ready : Pool → ℕ → ℕ → Bool → Option Pool
unfolding align
ready p bytes alignment reserved =
    if p.first_init then some p else elim (align alignment bytes p.storage p.capacity_bytes) [
      | none ↦ none
      | some padding ↦ if reserved then some (set_up p bytes alignment padding) else none
    ]

-- The top of the stack of free slots.
abbrev pub popped_slot : Pool → ℕ → Pool × ℕ
popped_slot p bytes =
    let start = p.free_slots (p.free_count - 1) in
    (
      record p {
        free_count = p.free_count - 1;
        in_uses = set_at p.in_uses (sub_size start p.first_valid_start / bytes) true;
      },
      p.storage + start,
    )

unfoldable pub take_slot : Pool → ℕ → ℕ → Option (Pool × ℕ)
take_slot p bytes alignment =
    if p.free_count == 0
    then none
    else if not (p.slot_sz == bytes) || not (p.slot_alignment == alignment)
    then none
    else some (popped_slot p bytes)

-- `none` is nullptr.
unfoldable pub try_allocate : Pool → ℕ → ℕ → Bool → Pool × Option ℕ
unfolding ready take_slot
try_allocate p bytes alignment reserved =
    if bytes == 0 then (p, none) else elim (ready p bytes alignment reserved) [
      | none ↦ (p, none)
      | some q ↦ elim (take_slot q bytes alignment) [
        | none ↦ (q, none)
        | some (r, address) ↦ (r, some address)
      ]
    ]

pub data Allocated : Type 0 where
  null : Allocated
  bad_alloc : Allocated
  address : ℕ → Allocated

unfoldable pub allocate : Pool → ℕ → ℕ → Bool → Pool × Allocated
unfolding ready take_slot
allocate p bytes alignment reserved =
    if bytes == 0 then (p, null) else elim (ready p bytes alignment reserved) [
      | none ↦ (p, bad_alloc)
      | some q ↦ elim (take_slot q bytes alignment) [
        | none ↦ (q, bad_alloc)
        | some (r, at) ↦ (r, address at)
      ]
    ]

-- The guards in front of the read of in_uses_.
abbrev pub is_slot : Pool → ℕ → ℕ → Bool
is_slot p pointer start =
    (leb start p.last_valid_start && leb p.first_valid_start start)
    && (((sub_size start p.first_valid_start % p.slot_sz) == 0)
        && leb (padding_of p.slot_alignment pointer + p.slot_sz) p.slot_sz)

abbrev pub freed : Pool → ℕ → ℕ → Pool
freed p start idx = record p {
  in_uses = set_at p.in_uses idx false;
  free_slots = set_at p.free_slots p.free_count start;
  free_count = p.free_count + 1;
}

-- The null pointer is 0.
unfoldable pub deallocate : Pool → ℕ → ℕ → Pool
deallocate p pointer bytes =
    let start = sub_size pointer p.storage in
    let idx = sub_size start p.first_valid_start / bytes in
    if (pointer == 0 || bytes == 0) || (not p.first_init || not (bytes == p.slot_sz))
    then p
    else if not (is_slot p pointer start)
    then p
    else if not (p.in_uses idx)
    then p
    else freed p start idx

abbrev pub count : Pool → ℕ
count p = (p.free_count * p.slot_sz) % u64_mod
