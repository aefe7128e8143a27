-- ===== src/Device/CheckPage.antt =====
-- CDevice::CheckPage of sjasm/devices.cpp with the globals that it reads and changes.
pub mod Pointer
pub mod Wrap
use sjasmplus.Common.{
  ℕ, zero, suc, ◌+◌, ◌-◌, ◌%◌, ◌^◌, Bool, true, false, not, ◌&&◌, ◌||◌, Option, none, some, List,
  [], ◌∷◌, ◌++◌, if◌then◌else◌, ltb, leb, ◌==◌, length, get_elem?, set,
}
use sjasmplus.Common.Int.{ℤ, pos, negsuc, pos_part, neg_part, sub_ℕ, word}
use sjasmplus.Device.{
  DeviceSlot, Device, SlotOption, o_none, o_error, o_warning, o_next, below, within_slot,
}

-- EDispMode and ECheckPageLevel.
pub data DispMode : Type 0 where
  disp_none disp_active disp_inside_relocate : DispMode

pub data CheckLevel : Type 0 where
  check_reset check_no_emit check_emit : CheckLevel

-- What is reported, and the boundary that is set for the SIZEOF counts.
pub data Notice : Type 0 where
  ram_limit_by_disp write_outside_slot warn_outside_slot no_more_pages too_late write_outside_device
        no_slot :
      Notice
  size_boundary_flow : Notice

-- CurAddress, adrdisp, PseudoORG, `pass == LASTPASS`, MemoryPointer (an offset in the device memory;
-- null is `none`), the number of the page of `Page`, the device and the notices so far.
pub record Emission : Type 0 where
  pub cur_address : ℤ
  pub adrdisp : ℤ
  pub pseudo_org : DispMode
  pub last_pass : Bool
  pub memory_pointer : Option ℕ
  pub page : Option ℕ
  pub device : Device
  pub notices : List Notice

abbrev pub is_disp : DispMode → Bool
is_disp disp_none = false
is_disp mode = true

abbrev pub is_reset : CheckLevel → Bool
is_reset check_reset = true
is_reset level = false

abbrev pub is_emit : CheckLevel → Bool
is_emit check_emit = true
is_emit level = false

abbrev pub is_no_emit : CheckLevel → Bool
is_no_emit check_no_emit = true
is_no_emit level = false

-- `a & 0xFFFF`
abbrev pub low_word : ℤ → ℕ
low_word a = word a % 2 ^ 16

abbrev pub minus : ℤ → ℕ → ℤ
minus a n = sub_ℕ (pos_part a) (neg_part a + n)

abbrev pub notify : List Notice → Emission → Emission
notify ns e = record e { notices = e.notices ++ ns }

-- The address of the next byte.
abbrev pub long_address : Emission → ℤ
long_address e = if is_disp e.pseudo_org then e.adrdisp else e.cur_address

-- A displaced address wraps at 64 KiB, except in checks that emit nothing.
unfoldable pub wrap_displaced : CheckLevel → Emission → Emission
wrap_displaced level e =
    if is_disp e.pseudo_org && (not (is_no_emit level) && not (below e.cur_address 0x10000))
    then record e {
      cur_address = pos (low_word e.cur_address);
      notices =
          e.notices
          ++ ((if e.last_pass then ram_limit_by_disp ∷ [] else []) ++ (size_boundary_flow ∷ []));
    }
    else e

-- RAM of a page plus the offset of the address in the slot. The pages of a device have one size, and
-- `RAM` of page `n` is the offset that the page table holds.
unfoldable pub ram_at : Device → DeviceSlot → ℤ → Option ℕ
ram_at d s a = elim s.page [
  | none ↦ none
  | some n ↦ elim (get_elem? d.pages n) [
    | none ↦ none
    | some p ↦ some (p.ram + (pos_part a - s.address))
  ]
]

abbrev pub with_device : (Device → Device) → Emission → Emission
with_device f e = record e { device = f e.device }

-- A write that left its slot: `first` is reported once, until the limit is reset.
unfoldable pub report_once : CheckLevel → Notice → Emission → Emission
report_once level first e =
    if e.last_pass && (is_emit level && not e.device.limit_exceeded)
    then notify (first ∷ []) (with_device (λ d. record d { limit_exceeded = true }) e)
    else e

-- The end of the switch: the slot `i` becomes the previous one, in checks that emit.
unfoldable pub refresh_slot : CheckLevel → ℕ → DeviceSlot → Emission → Emission
refresh_slot level i s e =
    if is_emit level
    then with_device
        (λ d. record d {
          limit_exceeded = d.limit_exceeded && d.previous_slot == i;
          previous_slot = i;
          previous_option = s.option;
        })
        e
    else e

abbrev pub set_option : SlotOption → DeviceSlot → DeviceSlot
set_option o s = record s { option = o }

abbrev pub set_page : Option ℕ → DeviceSlot → DeviceSlot
set_page p s = record s { page = p }

-- O_NEXT without a further page: the option is taken off the previous slot, and slot `i` is entered.
unfoldable pub no_next_page : CheckLevel → ℕ → DeviceSlot → DeviceSlot → Emission → Emission
no_next_page level i s prev e =
    let s' = if e.device.previous_slot == i then set_option o_none s else s in
    refresh_slot level i s' (
      notify (no_more_pages ∷ []) (
        with_device
          (λ d. record d {
            slots = set d.slots d.previous_slot (set_option o_none prev);
            limit_exceeded = false;
            previous_slot = i;
            previous_option = s'.option;
          })
          e))

-- O_NEXT: the next page is mapped into the slot, and the address goes back by the slot's size.
unfoldable pub wrap_around : DeviceSlot → ℕ → Emission → Emission
wrap_around prev next e =
    let e' =
      if is_disp e.pseudo_org
      then record e { adrdisp = minus e.adrdisp prev.size }
      else record e { cur_address = minus e.cur_address prev.size } in
    record e' {
      page = some next;
      memory_pointer = elim (get_elem? e.device.pages next) [ none ↦ none | some p ↦ some p.ram ];
      device = record e.device {
        slots = set e.device.slots e.device.previous_slot (set_page (some next) prev);
      };
    }

abbrev pub next_page : DeviceSlot → ℕ
next_page prev = elim prev.page [ none ↦ 0 | some n ↦ suc n ]

-- The case O_NEXT; `none` is the FATAL error on a write that is caught too late.
unfoldable pub leave_next : CheckLevel → ℕ → DeviceSlot → Emission → Option Emission
leave_next level i s e =
    let e' = notify (size_boundary_flow ∷ []) e in
    elim (get_elem? e.device.slots e.device.previous_slot) [
      | none ↦ none
      | some prev ↦
          let end = prev.address + prev.size in
          if leb (length e.device.pages) (next_page prev)
          then some (no_next_page level i s prev e')
          else if below (long_address e) end || not (below (long_address e) (end + 1))
          then none
          else some (wrap_around prev (next_page prev) e')
    ]

-- The default case: only a write outside of the device memory is reported. The last argument is the
-- memory pointer.
unfoldable pub leave_plain : CheckLevel → ℕ → DeviceSlot → Emission → Option ℕ → Emission
leave_plain level i s e (some p) = refresh_slot level i s e
leave_plain level i s e none =
    if e.last_pass && (is_emit level && not e.device.limit_exceeded)
    then refresh_slot level i s (
        notify (write_outside_device ∷ [])
          (with_device (λ d. record d { limit_exceeded = true; previous_slot = i }) e))
    else refresh_slot level i s e

unfoldable pub leave_slot : CheckLevel → ℕ → DeviceSlot → Emission → SlotOption → Option Emission
leave_slot level i s e o_error =
    some (refresh_slot level i s (report_once level write_outside_slot e))
leave_slot level i s e o_warning =
    some (refresh_slot level i s (report_once level warn_outside_slot e))
leave_slot level i s e o_next = leave_next level i s e
leave_slot level i s e o_none = some (leave_plain level i s e e.memory_pointer)

-- `Page` and `MemoryPointer` for the slot that the address masked to 16 bits belongs to.
unfoldable pub point_at : DeviceSlot → Emission → Emission
point_at s e = record e {
  page = s.page;
  memory_pointer =
      if within_slot s (long_address e) then ram_at e.device s (long_address e) else none;
}

unfoldable pub enter_slot : CheckLevel → ℕ → DeviceSlot → Emission → Option Emission
enter_slot level i s e =
    if is_reset level
    then some (
        with_device
          (λ d. record d { previous_option = s.option; previous_slot = i; limit_exceeded = false })
          (point_at s e))
    else if i == e.device.previous_slot && within_slot s (long_address e)
    then some (point_at s e)
    else leave_slot level i s (point_at s e) e.device.previous_option

-- The last slot that starts at or below the address.
unfoldable pub find_start : List DeviceSlot → ℕ → ℕ → Option (ℕ × DeviceSlot)
find_start slots address zero = none
find_start slots address (suc i) =
    let earlier = find_start slots address i in
    elim (get_elem? slots i) [
      | none ↦ none
      | some s ↦ if ltb address s.address then earlier else some (i, s)
    ]

unfoldable pub scan_slots : CheckLevel → Emission → Option Emission
scan_slots level e =
    elim (find_start e.device.slots (low_word (long_address e)) (length e.device.slots)) [
      | none ↦ none
      | some (i, s) ↦ enter_slot level i s e
    ]

-- The quick check of the previous slot comes first. `none` is a FATAL error.
unfoldable pub check_wrapped : CheckLevel → Emission → Option Emission
check_wrapped level e = elim (get_elem? e.device.slots e.device.previous_slot) [
  | none ↦ none
  | some prev ↦
      if not (is_reset level) && within_slot prev (long_address e)
      then some (record e { memory_pointer = ram_at e.device prev (long_address e) })
      else scan_slots level e
]

unfoldable pub check_page : CheckLevel → Emission → Option Emission
check_page level e = check_wrapped level (wrap_displaced level e)
