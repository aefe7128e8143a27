-- ===== src/Device/Examples.antt =====
-- Examples: a device of four slots of 16 KiB and four pages, two slots of which show page 1.
use sjasmplus.Common.{
  ℕ, zero, suc, ◌*◌, ◌<◌, ◌≡◌, refl, true, false, Option, none, some, List, [], ◌∷◌, if◌then◌else◌,
  ltb, get_elem?, min, All, All-get_elem?, arith,
}
use sjasmplus.Common.Int.{ℤ, pos}
use sjasmplus.Device.{
  DevicePage, DeviceSlot, Device, o_none, o_next, new_device, get_slot_of_a16,
  slot_number_from_precise_address,
}
use sjasmplus.Device.Slots.{
  IsRegular, get_slot_of_a16_by_division, slot_number_from_precise_address_lem,
}
use sjasmplus.Device.Init.{
  IsInitialised, init_regular_slot_device, init_regular_slot_device-IsInitialised,
}
use sjasmplus.Device.CheckPage.{
  check_emit, disp_none, Emission, check_page, size_boundary_flow, no_more_pages, point_at,
  find_start, wrap_displaced, check_wrapped, scan_slots, enter_slot, ram_at, leave_slot, leave_next,
  wrap_around,
}
use sjasmplus.Device.CheckPage.Pointer.{IsPointing, check_page-IsPointing}
use sjasmplus.Device.CheckPage.Wrap.{IsAtEnd, check_page-next_page, check_page-no_more_pages}
use sjasmplus.Device.Define.{
  DeviceDef, def_device, defined, set_user_defined_device, get_int_arguments, check_sizes, make_def,
  choose_pages, invalid_pages,
}
use sjasmplus.Device.Define.Pages.{def_device-implicit_pages, set_user_defined_device-IsInitialised}

abbrev slot : ℕ → ℕ → DeviceSlot
slot n page = record {
  address = n * 0x4000;
  size = 0x4000;
  page = some page;
  initial_page = some page;
  option = o_none;
}

abbrev page : ℕ → DevicePage
page n = record { size = 0x4000; number = n; ram = n * 0x4000 }

abbrev four_slots : Device
four_slots = record new_device {
  slots = slot 0 3 ∷ slot 1 1 ∷ slot 2 2 ∷ slot 3 1 ∷ [];
  pages = page 0 ∷ page 1 ∷ page 2 ∷ page 3 ∷ [];
}

four_slots-IsRegular : IsRegular 0x4000 four_slots.slots
four_slots-IsRegular = record { positive = omega arith; slot_at = slot_at }
  where
    slot_at :
        (i : ℕ)
        → i < 4
        → (s : DeviceSlot) × (get_elem? four_slots.slots i ≡ some s)
          × (s.address ≡ i * 0x4000)
          × (s.size ≡ 0x4000)
    slot_at zero h = (_, refl, refl, refl)
    slot_at (suc zero) h = (_, refl, refl, refl)
    slot_at (suc (suc zero)) h = (_, refl, refl, refl)
    slot_at (suc (suc (suc zero))) h = (_, refl, refl, refl)
    slot_at (suc (suc (suc (suc i)))) h = absurd (omega arith)

get_slot_of_a16_by_division_example : get_slot_of_a16 (pos 0x8001) four_slots ≡ some 2
get_slot_of_a16_by_division_example =
    get_slot_of_a16_by_division 0x4000 (pos 0x8001) four_slots four_slots-IsRegular

init_regular_slot_device-IsInitialised_example :
    (d : Device) × (init_regular_slot_device 0x4000 4 8 (7 ∷ 9 ∷ 2 ∷ 0 ∷ []) new_device
      ≡ some (d, 1))
    × IsInitialised 0x4000 4 8 (7 ∷ 9 ∷ 2 ∷ 0 ∷ []) d
init_regular_slot_device-IsInitialised_example =
    init_regular_slot_device-IsInitialised 0x4000 4 8 (7 ∷ 9 ∷ 2 ∷ 0 ∷ []) (omega arith)
      (omega arith) (omega arith) (omega arith) (omega arith) (omega arith) (omega arith)
      (omega arith) (omega arith, (omega arith, (omega arith, (omega arith, tt))))

slot_number_from_precise_address_lem_example :
    slot_number_from_precise_address (pos 0x8000) four_slots ≡ pos 2
slot_number_from_precise_address_lem_example =
    slot_number_from_precise_address_lem 0x4000 (pos 0x8000) four_slots four_slots-IsRegular

-- A byte is emitted at the end of slot 1, which wraps, and which shows page 1.
abbrev at_end : ℕ → Emission
at_end number = record {
  cur_address = pos 0x8000;
  adrdisp = pos 0;
  pseudo_org = disp_none;
  last_pass = true;
  memory_pointer = none;
  page = some number;
  device = record four_slots {
    slots = slot 0 3 ∷ record (slot 1 number) { option = o_next } ∷ slot 2 2 ∷ slot 3 1 ∷ [];
    previous_slot = 1;
    previous_option = o_next;
  };
  notices = [];
}

at_end-IsAtEnd :
    (n : ℕ) → IsAtEnd check_emit (at_end n) (record (slot 1 n) { option = o_next }) (slot 0 3) n
at_end-IsAtEnd n = record {
  checks = refl;
  plain = refl;
  before = refl;
  next_option = refl;
  at_end = refl;
  starts = refl;
  from_zero = refl;
  page_of = refl;
}

check_page-next_page_example :
    (e : Emission) × (check_page check_emit (at_end 1) ≡ some e)
    × (e.cur_address ≡ pos 0x4000)
    × (e.memory_pointer ≡ some 0x8000)
    × (e.page ≡ some 2)
    × (e.device ≡ record (at_end 1).device {
      slots =
          slot 0 3
          ∷ record (slot 1 1) { page = some 2; option = o_next }
          ∷ slot 2 2
          ∷ slot 3 1
          ∷ [];
    })
    × (e.notices ≡ size_boundary_flow ∷ [])
check_page-next_page_example =
    check_page-next_page check_emit (at_end 1) _ _ 1 (at_end-IsAtEnd 1) (page 2) refl

check_page-no_more_pages_example :
    (e : Emission) × (check_page check_emit (at_end 3) ≡ some e)
    × (e.cur_address ≡ pos 0x8000)
    × (e.device.slots ≡ slot 0 3 ∷ slot 1 3 ∷ slot 2 2 ∷ slot 3 1 ∷ [])
    × (e.notices ≡ size_boundary_flow ∷ no_more_pages ∷ [])
check_page-no_more_pages_example =
    check_page-no_more_pages check_emit (at_end 3) _ _ 3 (at_end-IsAtEnd 3) (omega arith)

abbrev wrapped : Emission
wrapped = record (at_end 1) {
  cur_address = pos 0x4000;
  memory_pointer = some 0x8000;
  page = some 2;
  device = record (at_end 1).device {
    slots =
        slot 0 3 ∷ record (slot 1 1) { page = some 2; option = o_next } ∷ slot 2 2 ∷ slot 3 1 ∷ [];
  };
  notices = size_boundary_flow ∷ [];
}

check_page-wrapped : check_page check_emit (at_end 1) ≡ some wrapped
unfolding check_page wrap_displaced check_wrapped scan_slots find_start enter_slot point_at ram_at
    leave_slot leave_next wrap_around
check_page-wrapped = refl

slots_HasSize : (i : ℕ) (s : DeviceSlot) → get_elem? (at_end 1).device.slots i ≡ some s → 0 < s.size
slots_HasSize i s e =
    All-get_elem? (λ s. 0 < s.size) (at_end 1).device.slots i s
      (omega arith, (omega arith, (omega arith, (omega arith, tt)))) e

check_page-IsPointing_example : IsPointing wrapped 0x8000
check_page-IsPointing_example =
    check_page-IsPointing check_emit (at_end 1) wrapped 0x8000 slots_HasSize check_page-wrapped refl

abbrev small_arguments : List (Option ℤ)
small_arguments = some (pos 0x4000) ∷ some (pos 3) ∷ some (pos 2) ∷ some (pos 7) ∷ some (pos 0) ∷ []

abbrev small_def : DeviceDef
small_def = record {
  slot_size = 0x4000;
  slots_count = 4;
  pages_count = 3;
  initial_pages = 2 ∷ 2 ∷ 0 ∷ 1 ∷ [];
  invalid = pos 7 ∷ [];
}

def_device-small_def : def_device small_arguments ≡ defined small_def
unfolding def_device get_int_arguments check_sizes make_def choose_pages invalid_pages
def_device-small_def = refl

set_user_defined_device-IsInitialised_example :
    All (λ p. p < 3) (2 ∷ 2 ∷ 0 ∷ 1 ∷ [])
    × (d : Device) × (set_user_defined_device (pos 0) small_def
        ≡ some (record { device = d; wrong_pages = 0; no_ramtop = false }))
    × IsInitialised 0x4000 4 3 (2 ∷ 2 ∷ 0 ∷ 1 ∷ []) d
set_user_defined_device-IsInitialised_example =
    set_user_defined_device-IsInitialised (pos 0) small_arguments small_def def_device-small_def
      (omega arith)

def_device-implicit_pages_example :
    (def : DeviceDef) × (def_device (some (pos 256) ∷ some (pos 512) ∷ []) ≡ defined def)
    × (def.slots_count ≡ 256)
    × ((i : ℕ)
        → i < def.slots_count
        → get_elem? def.initial_pages i ≡ some (if ltb i 254 then min i 511 else 0))
def_device-implicit_pages_example =
    def_device-implicit_pages 256 512 (omega arith) (omega arith) (omega arith) (omega arith)
