-- ===== src/Device/Define.antt =====
-- Devices that the user defines: dirDEFDEVICE of sjasm/directives.cpp with getIntArguments of
-- sjasm/parser.h and CDeviceDef of sjasm/devices.cpp.
pub mod Pages
use sjasmplus.Common.{
  ℕ, zero, suc, ◌+◌, ◌-◌, ◌/◌, ◌≤◌, ◌<◌, ◌≡◌, refl, ap, ◌∙◌, inl, inr, Bool, true, false, not, ◌&&◌,
  ◌||◌, Option, none, some, List, [], ◌∷◌, ◌++◌, if◌then◌else◌, ltb, leb, min, length, get_elem?,
  replicate, drop, All, Bool-cases, ltb→lt, arith,
}
use sjasmplus.Common.Int.{ℤ, pos, negsuc, pos_part}
use sjasmplus.Device.{Device, below, new_device, max_slot_n}
use sjasmplus.Device.Init.{◌>>=◌, init_regular_slot_device}

-- The arguments between commas, `none` where ParseExpression fails. The Boolean says whether this is
-- the first argument; the result is the filled array and the function's value.
unfoldable pub get_int_arguments : Bool → List ℤ → List Bool → List (Option ℤ) → List ℤ × Bool
get_int_arguments first [] optional [] = ([], true)
get_int_arguments first [] optional (g ∷ given) = ([], false)
get_int_arguments first (a ∷ args) [] given = (a ∷ args, false)
get_int_arguments first (a ∷ args) (o ∷ optional) [] = (a ∷ args, o)
get_int_arguments first (a ∷ args) (o ∷ optional) (none ∷ given) = (a ∷ args, first && o)
get_int_arguments first (a ∷ args) (o ∷ optional) (some v ∷ given) =
    let (rest, ok) = get_int_arguments false args optional given in (v ∷ rest, ok)

-- args and optional: two zeroes, then the loop `for (i = 2; i < MAX_SLOT_N; ++i)` over 254 entries of
-- the 258.
abbrev pub default_args : List ℤ
default_args = pos 0 ∷ pos 0 ∷ (replicate 254 (negsuc 0) ++ (pos 0 ∷ pos 0 ∷ []))

abbrev pub default_optional : List Bool
default_optional = false ∷ false ∷ (replicate 254 true ++ (false ∷ false ∷ []))

abbrev pub label_page_max_ram : ℕ
label_page_max_ram = 30000

-- `previous_page` after a slot without a valid page of its own; `none` is -1, and the page count is
-- above zero.
abbrev pub following_page : ℕ → Option ℕ → ℕ
following_page page_count none = 0
following_page page_count (some p) = if ltb (p + 1) page_count then p + 1 else p

abbrev pub slot_page : ℕ → ℤ → Option ℕ → ℕ
slot_page page_count (negsuc n) previous = following_page page_count previous
slot_page page_count (pos p) previous =
    if ltb p page_count then p else following_page page_count previous

-- The loop over the slots of the definition.
unfoldable pub choose_pages : ℕ → ℕ → List ℤ → Option ℕ → List ℕ
choose_pages zero page_count args previous = []
choose_pages (suc slots) page_count [] previous = []
choose_pages (suc slots) page_count (a ∷ args) previous =
    let page = slot_page page_count a previous in
    page ∷ choose_pages slots page_count args (some page)

-- The values that are reported as "invalid initial page".
unfoldable pub invalid_pages : ℕ → ℕ → List ℤ → List ℤ
invalid_pages zero page_count args = []
invalid_pages (suc slots) page_count [] = []
invalid_pages (suc slots) page_count (pos p ∷ args) =
    let rest = invalid_pages slots page_count args in
    if ltb p page_count then rest else pos p ∷ rest
invalid_pages (suc slots) page_count (negsuc zero ∷ args) = invalid_pages slots page_count args
invalid_pages (suc slots) page_count (negsuc (suc n) ∷ args) =
    negsuc (suc n) ∷ invalid_pages slots page_count args

pub record DeviceDef : Type 0 where
  pub slot_size : ℕ
  pub slots_count : ℕ
  pub pages_count : ℕ
  pub initial_pages : List ℕ
  pub invalid : List ℤ

pub data Definition : Type 0 where
  syntax_error : Definition
  invalid_size : Definition
  defined : DeviceDef → Definition

unfoldable pub make_def : ℕ → ℕ → List ℤ → DeviceDef
make_def slot_size page_count initial =
    let slots = (0x10000 + slot_size - 1) / slot_size in
    record {
      slot_size = slot_size;
      slots_count = slots;
      pages_count = page_count;
      initial_pages = choose_pages slots page_count initial none;
      invalid = invalid_pages slots page_count initial;
    }

unfoldable pub check_sizes : List ℤ → Definition
check_sizes (size ∷ count ∷ initial) =
    if below size 256
      || not (below size 0x10001)
      || below count 1
      || not (below count (label_page_max_ram + 1))
    then invalid_size
    else defined (make_def (pos_part size) (pos_part count) initial)
check_sizes args = syntax_error

abbrev pub is_zero : ℤ → Bool
is_zero (pos zero) = true
is_zero v = false

-- The part of dirDEFDEVICE behind the name of the device.
unfoldable pub def_device : List (Option ℤ) → Definition
def_device given =
    let (args, ok) = get_int_arguments true default_args default_optional given in
    if ok then check_sizes args else syntax_error

-- What SetUserDefinedDevice makes, with the count of wrong page numbers and whether it warns that the device
-- has no RAMTOP.
pub record UserDevice : Type 0 where
  pub device : Device
  pub wrong_pages : ℕ
  pub no_ramtop : Bool

-- SetUserDefinedDevice for a definition that is found.
unfoldable pub set_user_defined_device : ℤ → DeviceDef → Option UserDevice
set_user_defined_device ramtop def = do
  (d, wrong) ←
      init_regular_slot_device def.slot_size def.slots_count def.pages_count def.initial_pages
        new_device
  some (record { device = d; wrong_pages = wrong; no_ramtop = not (is_zero ramtop) })
