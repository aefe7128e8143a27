-- ===== src/Relocation.antt =====
-- The relocation table: sjasm/relocate.cpp and sjasm/relocate.h.
pub mod Bounds
pub mod Passes
mod Examples
use sjasmplus.Common.{
  ℕ, zero, suc, ◌+◌, ◌-◌, ◌/◌, ◌%◌, ◌^◌, max, Bool, true, false, not, ◌&&◌, ◌||◌, Option, none,
  some, List, [], ◌∷◌, ◌++◌, if◌then◌else◌, ltb, leb, ◌==◌, length, get_elem?,
}

-- EType, and its value in sums and tests.
pub data RelocationType : Type 0 where
  off regular high : RelocationType

abbrev pub type_value : RelocationType → ℕ
type_value off = 0
type_value regular = 1
type_value high = 2

abbrev pub is_active : RelocationType → Bool
is_active off = false
is_active t = true

pub data Message : Type 0 where
  inconsistent_table unstable diverts unstable_expression already_started mixed_modes missing_start
        disp_open missing_end :
      Message

-- The variables of the namespace; `offsets` and `offsets_previous` hold 16-bit words. `symbols` is what
-- relocate_count was last set to (relocate_size is twice that), `none` before that.
pub record Relocation : Type 0 where
  pub alternative_offset : ℕ
  pub type : RelocationType
  pub is_result_affected : Bool
  pub delta_type : RelocationType
  pub offsets : List ℕ
  pub offsets_previous : List ℕ
  pub max_table_count : ℕ
  pub warn_about_content_change : Bool
  pub symbols : Option ℕ
  pub messages : List Message

abbrev pub initial : Relocation
initial = record {
  alternative_offset = 0;
  type = off;
  is_result_affected = false;
  delta_type = off;
  offsets = [];
  offsets_previous = [];
  max_table_count = 0;
  warn_about_content_change = false;
  symbols = none;
  messages = [];
}

abbrev pub report : Message → Relocation → Relocation
report m r = record r { messages = r.messages ++ (m ∷ []) }

-- The entry of the previous pass is another one, or there is none.
abbrev pub differs : Option ℕ → ℕ → Bool
differs none offset = true
differs (some previous) offset = not (previous == offset)

-- `offset` is the 32-bit pattern of an aint.
unfoldable pub add_offset_to_relocate : ℕ → Relocation → Relocation
add_offset_to_relocate offset r =
    let r' =
      if r.warn_about_content_change
        && differs (get_elem? r.offsets_previous (length r.offsets)) offset
      then record (report inconsistent_table r) { warn_about_content_change = false }
      else r in
    record r' { offsets = r.offsets ++ (offset % 2 ^ 16 ∷ []) }

-- `opcode_offset` is `none` for INT_MAX, `address` is adrdisp inside of a displaced block in a relocation
-- block and CurAddress otherwise.
unfoldable pub resolve_relocation_affected : Option ℕ → RelocationType → ℕ → Relocation → Relocation
resolve_relocation_affected opcode_offset min_type address r =
    if ltb (type_value r.type) (type_value min_type)
    then r
    else if not r.is_result_affected
    then r
    else let r' = record r { is_result_affected = false } in
      if leb (type_value min_type) (type_value r.delta_type)
      then elim opcode_offset [
        | none ↦ r'
        | some o ↦
            add_offset_to_relocate
              ((address + o + type_value r.type + (2 ^ 32 - type_value r.delta_type)) % 2 ^ 32) r'
      ]
      else report (if is_active r.delta_type then unstable else diverts) r'

unfoldable pub check_and_warn : Bool → Relocation → Relocation × Bool
check_and_warn do_error r = if not r.is_result_affected then (r, false) else (
  report (if do_error then unstable_expression else unstable)
      (record r { is_result_affected = false }),
  true,
)

unfoldable pub refresh_max_table_count : Relocation → Relocation
refresh_max_table_count r =
    let count = max r.max_table_count (length r.offsets) in
    let r' = record r { max_table_count = count } in
    if is_active r.type || not (count == 0)
    then record r' { is_result_affected = false; delta_type = off; symbols = some count }
    else r'

abbrev pub alternative : Bool → ℕ
alternative is_high = if is_high then 0x300 else 0x272

unfoldable pub relocate_start : Bool → Relocation → Relocation
relocate_start is_high r =
    if is_active r.type
    then report already_started r
    else if not (r.alternative_offset == 0) && not (r.alternative_offset == alternative is_high)
    then report mixed_modes r
    else refresh_max_table_count (record r {
      alternative_offset = alternative is_high;
      type = if is_high then high else regular;
    })

-- `disp_inside` says that PseudoORG is DISP_INSIDE_RELOCATE.
unfoldable pub relocate_end : Bool → Relocation → Relocation
relocate_end disp_inside r =
    if not (is_active r.type)
    then report missing_start r
    else if disp_inside
    then report disp_open r
    else refresh_max_table_count (record r { type = off })

-- Entry `index` of the emitted table; 0 stands for a read behind the end of offsetsPrevious.
abbrev pub table_entry : Relocation → ℕ → ℕ
table_entry r index = elim (get_elem? r.offsets index) [
  | some offset ↦ offset
  | none ↦ elim (get_elem? r.offsets_previous index) [ some offset ↦ offset | none ↦ 0 ]
]

-- `offset - subtract_offset` of the entries from `index` on, as the words that EmitWord gets.
unfoldable pub table_words : Relocation → ℕ → ℕ → ℕ → List ℕ
table_words r subtract index zero = []
table_words r subtract index (suc rounds) =
    (table_entry r index + (2 ^ 32 - subtract)) % 2 ^ 16 ∷ table_words r subtract (suc index) rounds

-- The words that are emitted, and the new state.
unfoldable pub relocate_table : ℕ → Bool → Relocation → List ℕ × Relocation
relocate_table subtract last_pass r =
    let r' = refresh_max_table_count r in
    (
      table_words r' subtract 0 r'.max_table_count,
      record r' { warn_about_content_change = last_pass },
    )

unfoldable pub relocation_init_pass : Relocation → Relocation
relocation_init_pass r =
    let r' = if is_active r.type then report missing_end r else r in
    record r' {
      offsets_previous = r.offsets;
      max_table_count = length r.offsets;
      offsets = [];
      type = off;
    }
