-- ===== src/Device.antt =====
-- sjasm/devices.cpp and sjasm/devices.h: the virtual device, its memory slots and pages.
pub mod Slots
pub mod Made
pub mod Init
pub mod Memory
pub mod CheckPage
pub mod Define
mod Examples
use sjasmplus.Common.{
  ℕ, zero, suc, ◌+◌, ◌-◌, ◌*◌, ◌<◌, Bool, true, false, not, ◌&&◌, ◌||◌, Option, none, some, List,
  [], ◌∷◌, ◌++◌, if◌then◌else◌, ltb, leb, ◌==◌, length, get_elem?, set, bit_and,
}
use sjasmplus.Common.Int.{ℤ, pos, negsuc}

abbrev pub label_page_out_of_bounds : ℕ
label_page_out_of_bounds = 0x7F80

abbrev pub max_slot_n : ℕ
max_slot_n = 256

abbrev pub max_page_n : ℕ
max_page_n = 4096

-- CDevicePage; `ram` is the offset of its memory in that of the device.
pub record DevicePage : Type 0 where
  pub size : ℕ
  pub number : ℕ
  pub ram : ℕ

pub data SlotOption : Type 0 where
  o_none o_error o_warning o_next : SlotOption

-- CDeviceSlot; `page` is the number of the mapped page, and `none` is a null pointer.
pub record DeviceSlot : Type 0 where
  pub address : ℕ
  pub size : ℕ
  pub page : Option ℕ
  pub initial_page : Option ℕ
  pub option : SlotOption

-- CDevice without its name, the list of devices and the RAMTOP of ZX-like machines. `memory` is what
-- `Memory` points to.
pub record Device : Type 0 where
  pub slots : List DeviceSlot
  pub pages : List DevicePage
  pub memory : ℕ → ℕ
  pub current_slot : ℕ
  pub previous_slot : ℕ
  pub previous_option : SlotOption
  pub limit_exceeded : Bool

-- The constructor: no slots, no pages, and memory that is allocated zeroed with the pages.
abbrev pub new_device : Device
new_device = record {
  slots = [];
  pages = [];
  memory = λ _. 0;
  current_slot = 0;
  previous_slot = 0;
  previous_option = o_none;
  limit_exceeded = false;
}

-- `none` is the FATAL error of a table that is full.
unfoldable pub add_slot : ℕ → ℕ → Device → Option Device
add_slot adr size d =
    if length d.slots == max_slot_n
    then none
    else some (record d {
      slots =
          d.slots
          ++ (record {
            address = adr;
            size = size;
            page = none;
            initial_page = none;
            option = o_none;
          }
              ∷ []);
    })

unfoldable pub add_page : ℕ → ℕ → Device → Option Device
add_page ram size d =
    if length d.pages == max_page_n
    then none
    else some (record d {
      pages = d.pages ++ (record { size = size; number = length d.pages; ram = ram } ∷ []);
    })

abbrev pub wrong_number {ℓ} : {A : Type ℓ} → Option A → Option (A × Bool)
wrong_number none = none
wrong_number (some x) = some (x, true)

abbrev pub entry_of {ℓ} : {A : Type ℓ} → Bool → Option A → Option A → Option (A × Bool)
entry_of inside first (some x) = some (x, false)
entry_of true first none = wrong_number first
entry_of false first none = none

-- The entry of an array of `size` pointers, the first of which are `entries`, and whether its number is
-- reported as wrong: a null pointer is, and the first entry is taken. `none` is a number outside of the
-- array, which the code reads all the same, or a null pointer as the result.
abbrev pub entry_at {ℓ} : {A : Type ℓ} → ℕ → List A → ℕ → Option (A × Bool)
entry_at size entries num = entry_of (ltb num size) (get_elem? entries 0) (get_elem? entries num)

-- GetSlot and GetPage.
unfoldable pub get_slot : ℕ → Device → Option (DeviceSlot × Bool)
get_slot num d = entry_at max_slot_n d.slots num

unfoldable pub get_page : ℕ → Device → Option (DevicePage × Bool)
get_page num d = entry_at max_page_n d.pages num

-- `a < n` and `n <= a` for an address that may be negative.
abbrev pub below : ℤ → ℕ → Bool
below (pos a) n = ltb a n
below (negsuc a) n = true

abbrev pub within_slot : DeviceSlot → ℤ → Bool
within_slot s a = not (below a s.address) && below a (s.address + s.size)

-- The loop of GetSlotOfA16 from the last slot down; `none` is -1.
unfoldable pub find_slot : List DeviceSlot → ℤ → ℕ → Option ℕ
find_slot slots address zero = none
find_slot slots address (suc i) =
    let earlier = find_slot slots address i in
    elim (get_elem? slots i) [
      | none ↦ none
      | some s ↦
          if below address s.address
          then earlier
          else if below address (s.address + s.size)
          then some i
          else none
    ]

unfoldable pub get_slot_of_a16 : ℤ → Device → Option ℕ
get_slot_of_a16 address d = find_slot d.slots address (length d.slots)

abbrev mapped : Option DeviceSlot → Option ℕ
mapped none = none
mapped (some s) = s.page

-- The pages of a device are numbered by their place in `Pages`.
unfoldable pub get_page_of_a16 : ℤ → Device → ℕ
get_page_of_a16 address d = elim (get_slot_of_a16 address d) [
  | none ↦ label_page_out_of_bounds
  | some num ↦ elim (mapped (get_elem? d.slots num)) [
    | none ↦ label_page_out_of_bounds
    | some page ↦ page
  ]
]

unfoldable pub set_slot : ℤ → Device → Device × Bool
set_slot (negsuc n) d = (d, false)
set_slot (pos num) d =
    if leb (length d.slots) num then (d, false) else (record d { current_slot = num }, true)

unfoldable pub get_current_slot : Device → Option (DeviceSlot × Bool)
get_current_slot d = get_slot d.current_slot d

unfoldable pub get_memory_offset : ℕ → ℕ → Device → ℕ
get_memory_offset page offset d = elim (get_elem? d.pages 0) [
  | none ↦ 0
  | some p ↦ offset + page * p.size
]

abbrev pub update : (ℕ → ℕ) → ℕ → ℕ → ℕ → ℕ
update memory at value = λ i. if i == at then value else memory i

-- Poke: a write through the current mapping, at `z80adr & (page->Size-1)` of the page.
unfoldable pub poke : ℤ → ℕ → Device → Device
poke (negsuc n) value d = d
poke (pos z80adr) value d =
    let page = get_page_of_a16 (pos z80adr) d in
    if page == label_page_out_of_bounds then d else elim (get_page page d) [
      | none ↦ d
      | some (p, wrong) ↦ record d {
        memory = update d.memory (p.ram + bit_and z80adr (p.size - 1)) value;
      }
    ]

-- A slot number is kept; the exact address of a slot becomes the slot's number. GetSlot and GetPage report
-- nothing here and in Poke, since their numbers are those of a slot and of a page of the device.
unfoldable pub slot_number_from_precise_address : ℤ → Device → ℤ
slot_number_from_precise_address address d =
    if below address (length d.slots) then address else elim (get_slot_of_a16 address d) [
      | none ↦ address
      | some num ↦ elim (get_slot num d) [
        | none ↦ address
        | some (s, wrong) ↦
            if below address s.address || not (below address (s.address + 1))
            then address
            else pos num
      ]
    ]
