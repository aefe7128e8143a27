-- ===== src/Device/Memory.antt =====
-- Bytes of the device memory under the current mapping: Poke of sjasm/devices.cpp and MemGetByte of
-- sjasm/sjio.cpp.
use sjasmplus.Common.{
  ℕ, ◌+◌, ◌-◌, ◌*◌, ◌/◌, ◌%◌, ◌^◌, ◌≤◌, ◌<◌, ◌≡◌, refl, Bool, not, ◌&&◌, Option, none, some, List,
  [], ◌∷◌, ◌++◌, if◌then◌else◌, ltb, leb, length, get_elem?, get_elem?-lt, arith,
}
use sjasmplus.Common.Int.{pos}
use sjasmplus.Device.{DevicePage, DeviceSlot, Device, max_page_n, get_page_of_a16}
use sjasmplus.Device.Init.{IsInitialised}
use sjasmplus.Device.Slots.{IsRegular}

-- The first slot from the start of the list that holds the address.
unfoldable pub slot_holding : List DeviceSlot → ℕ → Option DeviceSlot
slot_holding [] address = none
slot_holding (s ∷ slots) address =
    let later = slot_holding slots address in
    if leb s.address address && ltb address (s.address + s.size) then some s else later

-- The byte at an offset of a mapped page; 0 stands for a slot without a page, which no device has.
abbrev pub page_byte : ℕ → Device → Option DevicePage → ℕ
page_byte offset d none = 0
page_byte offset d (some p) = d.memory (p.ram + offset)

abbrev pub slot_byte : ℕ → Device → Option ℕ → ℕ
slot_byte offset d none = 0
slot_byte offset d (some n) = page_byte offset d (get_elem? d.pages n)

-- MemGetByte with the addresses that it reports; `readable` says that a device is set and that this is the
-- last pass. An address in no slot is an error and reads 0.
unfoldable pub mem_get_byte : Bool → ℕ → Device → ℕ × List ℕ
mem_get_byte readable address d =
    if not readable then (0, []) else elim (slot_holding d.slots address) [
      | none ↦ (0, address ∷ [])
      | some s ↦ (slot_byte (address - s.address) d s.page, [])
    ]

-- MemGetWord: little endian.
unfoldable pub mem_get_word : Bool → ℕ → Device → ℕ × List ℕ
mem_get_word readable address d =
    let (low, before) = mem_get_byte readable address d in
    let (high, later) = mem_get_byte readable ((address + 1) % 2 ^ 32) d in
    (low + high * 256, before ++ later)

-- A device of equal slots, each mapped to one of its pages, whose size is a power of two.
pub record IsMapped (k : ℕ) (d : Device) : Type 0 where
  pub regular : IsRegular (2 ^ k) d.slots
  pub few_pages : length d.pages ≤ max_page_n
  pub page_at :
      (i : ℕ)
      → i < length d.pages
      → get_elem? d.pages i ≡ some (record { size = 2 ^ k; number = i; ram = i * 2 ^ k })
  pub mapped_at :
      (i : ℕ)
      → i < length d.slots
      → (s : DeviceSlot) × (get_elem? d.slots i ≡ some s)
        × (s.address ≡ i * 2 ^ k)
        × (s.size ≡ 2 ^ k)
        × (n : ℕ) × (s.page ≡ some n)
        × (n < length d.pages)

abbrev SlotsFrom : ℕ → ℕ → List DeviceSlot → Type 0
SlotsFrom size j slots =
    (i : ℕ)
    → i < length slots
    → (s : DeviceSlot) × (get_elem? slots i ≡ some s)
      × (s.address ≡ (j + i) * size)
      × (s.size ≡ size)

-- The place of an address in the device memory under the current mapping; 0 stands for none.
unfoldable pub physical : (k a : ℕ) → Device → ℕ
physical k a d = elim (get_elem? d.slots (a / 2 ^ k)) [
  | none ↦ 0
  | some s ↦ elim s.page [ none ↦ 0 | some n ↦ n * 2 ^ k + a % 2 ^ k ]
]

-- What the mapping says of one address within the slots.
record IsAt (k a : ℕ) (d : Device) : Type 0 where
  slot : DeviceSlot
  page : ℕ
  at_slot : get_elem? d.slots (a / 2 ^ k) ≡ some slot
  start : slot.address ≡ a / 2 ^ k * 2 ^ k
  at_page : slot.page ≡ some page
  valid : page < length d.pages
  number : get_page_of_a16 (pos a) d ≡ page
  place : physical k a d ≡ page * 2 ^ k + a % 2 ^ k

abbrev clean : ℕ → ℕ × List ℕ
clean v = (v, [])

-- A device that initRegularSlotDevice made is mapped, if the slot size is a power of two.
pub IsInitialised-IsMapped :
    (k slot_count page_count : ℕ) (initial : List ℕ) (d : Device)
    → IsInitialised (2 ^ k) slot_count page_count initial d
    → slot_count ≤ length initial
    → 0 < page_count
    → page_count ≤ max_page_n
    → IsMapped k d
IsInitialised-IsMapped k slot_count page_count initial d v named some_page few = record {
  regular = v.regular;
  few_pages = omega (arith, v.pages_made);
  page_at = λ i h. v.page_at i (omega (arith, v.pages_made));
  mapped_at = mapped_at;
}
  where
    mapped_at :
        (i : ℕ)
        → i < length d.slots
        → (s : DeviceSlot) × (get_elem? d.slots i ≡ some s)
          × (s.address ≡ i * 2 ^ k)
          × (s.size ≡ 2 ^ k)
          × (n : ℕ) × (s.page ≡ some n)
          × (n < length d.pages)
    mapped_at i h =
        let (p, e) = get_elem?-lt initial i (omega (arith, v.slots_made)) in
        (
          _,
          v.mapped_at i p (omega (arith, v.slots_made)) e,
          refl,
          refl,
          (if ltb p page_count then p else 0),
          refl,
          page_valid p,
        )
      where
        page_valid : (p : ℕ) → (if ltb p page_count then p else 0) < length d.pages
        page_valid p = ground (arith, v.pages_made)
