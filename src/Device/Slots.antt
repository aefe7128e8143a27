-- ===== src/Device/Slots.antt =====
-- The slot of an address, on devices whose slots all have one size and follow one another.
use sjasmplus.Common.{
  ℕ, zero, suc, ◌+◌, ◌*◌, ◌/◌, ◌%◌, ◌≤◌, ◌<◌, ◌≡◌, ◌↔◌, refl, ap, inl, inr, false, not, ◌&&◌,
  Option, none, some, List, if◌then◌else◌, ltb, ◌==◌, length, get_elem?, Option-cases, Bool-cases,
  ltb→lt, arith,
}
use sjasmplus.Common.Int.{ℤ, pos, negsuc}
use native.Mathlib.Nat.{div-eq_of_lt-le, div-lt_iff_lt-mul, div-add-mod'}
use sjasmplus.Device.{
  DeviceSlot, Device, find_slot, get_slot_of_a16, get_slot, entry_of, max_slot_n,
  slot_number_from_precise_address,
}

-- Slot `i` covers the addresses from `i * size` on.
pub record IsRegular (size : ℕ) (slots : List DeviceSlot) : Type 0 where
  pub positive : 0 < size
  pub slot_at :
      (i : ℕ)
      → i < length slots
      → (s : DeviceSlot) × (get_elem? slots i ≡ some s) × (s.address ≡ i * size) × (s.size ≡ size)

pub suc_mul : (n size : ℕ) → suc n * size ≡ n * size + size
suc_mul n size = omega arith

pub slot_of_range : (a n size : ℕ) → n * size ≤ a → a < n * size + size → a / size ≡ n
slot_of_range a n size lo hi = div-eq_of_lt-le size lo (omega arith)

find_slot_step :
    (slots : List DeviceSlot) (s : DeviceSlot) (a i : ℕ)
    → get_elem? slots i ≡ some s
    → find_slot slots (pos a) (suc i) ≡ (
        if ltb a s.address
        then find_slot slots (pos a) i
        else if ltb a (s.address + s.size)
        then some i
        else none)
unfolding find_slot
find_slot_step slots s a i at = rw (at, find_slot)

find_slot-IsRegular :
    (size : ℕ) (slots : List DeviceSlot) (a n : ℕ)
    → IsRegular size slots
    → n ≤ length slots
    → find_slot slots (pos a) n ≡ (if ltb a (n * size) then some (a / size) else none)
unfolding find_slot
find_slot-IsRegular size slots a zero r h = ground arith
find_slot-IsRegular size slots a (suc n) r h =
    let (s, at, start, big) = r.slot_at n (omega arith) in
    let earlier = find_slot-IsRegular size slots a n r (omega arith) in
    let range = slot_of_range a n size in
    rw (find_slot_step slots s a n at, start, big, earlier, suc_mul n size) (ground (arith, range))

find_slot-negsuc : (slots : List DeviceSlot) (a n : ℕ) → find_slot slots (negsuc a) n ≡ none
unfolding find_slot
find_slot-negsuc slots a zero = refl
find_slot-negsuc slots a (suc n) = elim (Option-cases (get_elem? slots n)) [
  | inl e ↦ rw (e, find_slot)
  | inr (s, e) ↦ rw (e, find_slot) (find_slot-negsuc slots a n)
]

-- GetSlotOfA16 by division: an address below the end of the last slot lies in slot `address / size`,
-- any other in none.
abbrev pub slot_by_division : ℕ → ℕ → ℤ → Option ℕ
slot_by_division size count (pos a) = if ltb a (count * size) then some (a / size) else none
slot_by_division size count (negsuc a) = none

-- On a device with slots of one size, the search of GetSlotOfA16 from the last slot down is the
-- division of the address by the size, within the slots; negative addresses have no slot.
pub get_slot_of_a16_by_division :
    (size : ℕ) (address : ℤ) (d : Device)
    → IsRegular size d.slots
    → get_slot_of_a16 address d ≡ slot_by_division size (length d.slots) address
unfolding get_slot_of_a16
get_slot_of_a16_by_division size (pos a) d r =
    find_slot-IsRegular size d.slots a (length d.slots) r (omega arith)
get_slot_of_a16_by_division size (negsuc a) d r = find_slot-negsuc d.slots a (length d.slots)

pub div-lt : (a size count : ℕ) → 0 < size → a < count * size → a / size < count
div-lt a size count h lt = (div-lt_iff_lt-mul h).1 lt

exact_multiple : (a size : ℕ) → (a / size * size ≡ a) ↔ (a % size ≡ 0)
exact_multiple a size =
    (λ e. omega (arith, div-add-mod' a size), λ e. omega (arith, div-add-mod' a size))

get_slot_at :
    (i : ℕ) (d : Device) (s : DeviceSlot)
    → get_elem? d.slots i ≡ some s
    → get_slot i d ≡ some (s, false)
unfolding get_slot
get_slot_at i d s e = ap (entry_of (ltb i max_slot_n) (get_elem? d.slots 0)) e

div-le : (a size : ℕ) → a / size * size ≤ a
div-le a size = omega (arith, div-add-mod' a size)

-- On a device with slots of one size SlotNumberFromPreciseAddress keeps slot numbers and maps the start
-- address of a slot to the slot's number; every other value is returned as it is.
pub slot_number_from_precise_address_lem :
    (size : ℕ) (address : ℤ) (d : Device)
    → IsRegular size d.slots
    → let count = length d.slots in
      slot_number_from_precise_address address d ≡ elim address [
        | pos a ↦
            if not (ltb a count) && (ltb a (count * size) && a % size == 0)
            then pos (a / size)
            else pos a
        | negsuc a ↦ negsuc a
      ]
unfolding slot_number_from_precise_address
slot_number_from_precise_address_lem size (negsuc a) d r = refl
slot_number_from_precise_address_lem size (pos a) d r =
    elim (Bool-cases (ltb a (length d.slots * size))) [
      | inl inside ↦
          let slot =
            r.slot_at (a / size) (div-lt a size (length d.slots) r.positive (ltb→lt a _ inside)) in
          rw
            (
              get_slot_of_a16_by_division size (pos a) d r,
              inside,
              get_slot_at (a / size) d slot.0 slot.1,
              slot.2,
            )
            (ground (arith, (exact_multiple a size).0, (exact_multiple a size).1, div-le a size))
      | inr outside ↦ rw (get_slot_of_a16_by_division size (pos a) d r, outside) (ground arith)
    ]
