-- ===== src/Relocation/Bounds.antt =====
-- What holds in every state of the relocation table (sjasm/relocate.cpp): the operations as steps.
use sjasmplus.Common.{
  ℕ, ◌+◌, ◌-◌, ◌%◌, ◌^◌, ◌≤◌, ◌≡◌, refl, ◌⊎◌, inl, inr, max, Bool, true, false, not, ◌&&◌, ◌||◌,
  Option, none, some, List, [], ◌∷◌, ◌++◌, if◌then◌else◌, ltb, leb, ◌==◌, length, get_elem?,
  length-append, Bool-cases, arith,
}
use sjasmplus.Relocation.{
  RelocationType, off, regular, high, type_value, is_active, Message, Relocation, initial, report,
  differs, already_started, mixed_modes, missing_start, disp_open, unstable, diverts,
  add_offset_to_relocate, resolve_relocation_affected, check_and_warn, refresh_max_table_count,
  alternative, relocate_start, relocate_end, relocate_table, relocation_init_pass,
}

-- One operation. `affected` is an expression that is evaluated in between, which sets the two flags.
pub data Step (r : Relocation) : Relocation → Type 0 where
  affected :
      (b : Bool) (t : RelocationType) → Step r (record r { is_result_affected = b; delta_type = t })
  resolved :
      (o : Option ℕ) (t : RelocationType) (address : ℕ)
      → Step r (resolve_relocation_affected o t address r)
  checked : (do_error : Bool) → Step r (check_and_warn do_error r).0
  started : (is_high : Bool) → Step r (relocate_start is_high r)
  ended : (disp_inside : Bool) → Step r (relocate_end disp_inside r)
  tabled : (subtract : ℕ) (last_pass : Bool) → Step r (relocate_table subtract last_pass r).1
  passed : Step r (relocation_init_pass r)

-- The states of a run of the program.
pub data IsReachable : Relocation → Type 0 where
  at_start : IsReachable initial
  after : (r r' : Relocation) → IsReachable r → Step r r' → IsReachable r'

-- The offset of the alternative evaluation fits the mode of the open block.
abbrev pub IsMode : RelocationType → ℕ → Type 0
IsMode off offset = (offset ≡ 0) ⊎ ((offset ≡ 0x272) ⊎ (offset ≡ 0x300))
IsMode regular offset = offset ≡ 0x272
IsMode high offset = offset ≡ 0x300

pub record IsSafe (r : Relocation) : Type 0 where
  pub bounded : r.max_table_count ≤ max (length r.offsets) (length r.offsets_previous)
  pub mode : IsMode r.type r.alternative_offset

IsMode-off : (t : RelocationType) (offset : ℕ) → IsMode t offset → IsMode off offset
IsMode-off off offset h = h
IsMode-off regular offset h = inr (inl h)
IsMode-off high offset h = inr (inr h)

if-IsSafe : (b : Bool) (x y : Relocation) → IsSafe x → IsSafe y → IsSafe (if b then x else y)
if-IsSafe true x y hx hy = hx
if-IsSafe false x y hx hy = hy

-- The fields of the invariant are those of `r`, up to a longer table.
same-IsSafe :
    (r r' : Relocation)
    → IsSafe r
    → r'.max_table_count ≡ r.max_table_count
    → length r.offsets ≤ length r'.offsets
    → r'.offsets_previous ≡ r.offsets_previous
    → IsMode r'.type r'.alternative_offset
    → IsSafe r'
same-IsSafe r r' h count offsets previous mode = record {
  bounded = rw (count, previous) (omega (arith, h.bounded));
  mode = mode;
}

refresh-IsSafe : (r : Relocation) → IsSafe r → IsSafe (refresh_max_table_count r)
unfolding refresh_max_table_count
refresh-IsSafe r h =
    if-IsSafe (is_active r.type || not (max r.max_table_count (length r.offsets) == 0)) _ _
      (record { bounded = wider; mode = h.mode }) (record { bounded = wider; mode = h.mode })
  where
    wider :
        max r.max_table_count (length r.offsets)
        ≤ max (length r.offsets) (length r.offsets_previous)
    wider = omega (arith, h.bounded)

grows : (xs : List ℕ) (x : ℕ) → length xs ≤ length (xs ++ (x ∷ []))
grows xs x = omega (arith, length-append xs (x ∷ []))

put-IsSafe :
    (offset : ℕ) (r : Relocation)
    → IsSafe r
    → IsSafe (record r { offsets = r.offsets ++ (offset ∷ []) })
put-IsSafe offset r h = same-IsSafe r _ h refl (grows r.offsets offset) refl h.mode

add_offset-IsSafe :
    (offset : ℕ) (r : Relocation) → IsSafe r → IsSafe (add_offset_to_relocate offset r)
unfolding add_offset_to_relocate
add_offset-IsSafe offset r h =
    elim (Bool-cases (
      r.warn_about_content_change
      && differs (get_elem? r.offsets_previous (length r.offsets)) offset)) [
        | inl warns ↦
            rw (add_offset_to_relocate, warns)
              (same-IsSafe r _ h refl (grows r.offsets (offset % 2 ^ 16)) refl h.mode)
        | inr silent ↦ rw (add_offset_to_relocate, silent) (put-IsSafe (offset % 2 ^ 16) r h)
      ]

report-IsSafe : (m : Message) (r : Relocation) → IsSafe r → IsSafe (report m r)
report-IsSafe m r h = record { bounded = h.bounded; mode = h.mode }

clear-IsSafe : (r : Relocation) → IsSafe r → IsSafe (record r { is_result_affected = false })
clear-IsSafe r h = record { bounded = h.bounded; mode = h.mode }

resolve-IsSafe :
    (o : Option ℕ) (t : RelocationType) (address : ℕ) (r : Relocation)
    → IsSafe r
    → IsSafe (resolve_relocation_affected o t address r)
unfolding resolve_relocation_affected
resolve-IsSafe o t address r h = if-IsSafe (ltb (type_value r.type) (type_value t)) _ _ h (
    if-IsSafe (not r.is_result_affected) _ _ h (
      if-IsSafe (leb (type_value t) (type_value r.delta_type)) _ _ (fixed o) (
        report-IsSafe (if is_active r.delta_type then unstable else diverts) cleared
          (clear-IsSafe r h))))
  where
    cleared : Relocation
    cleared = record r { is_result_affected = false }

    fixed :
        (o : Option ℕ)
        → IsSafe (elim o [
          | none ↦ cleared
          | some n ↦
              add_offset_to_relocate
                ((address + n + type_value r.type + (2 ^ 32 - type_value r.delta_type)) % 2 ^ 32)
                cleared
        ])
    fixed none = clear-IsSafe r h
    fixed (some n) = add_offset-IsSafe _ cleared (clear-IsSafe r h)

start-IsSafe : (is_high : Bool) (r : Relocation) → IsSafe r → IsSafe (relocate_start is_high r)
unfolding relocate_start
start-IsSafe is_high r h = if-IsSafe (is_active r.type) _ _ (report-IsSafe already_started r h) (
    if-IsSafe (not (r.alternative_offset == 0) && not (r.alternative_offset == alternative is_high))
      _ _ (report-IsSafe mixed_modes r h)
      (refresh-IsSafe opened (record { bounded = h.bounded; mode = right_mode is_high })))
  where
    opened : Relocation
    opened = record r {
      alternative_offset = alternative is_high;
      type = if is_high then high else regular;
    }

    right_mode : (b : Bool) → IsMode (if b then high else regular) (alternative b)
    right_mode true = refl
    right_mode false = refl

end-IsSafe : (disp_inside : Bool) (r : Relocation) → IsSafe r → IsSafe (relocate_end disp_inside r)
unfolding relocate_end
end-IsSafe disp_inside r h =
    if-IsSafe (not (is_active r.type)) _ _ (report-IsSafe missing_start r h) (
      if-IsSafe disp_inside _ _ (report-IsSafe disp_open r h) (
        refresh-IsSafe (record r { type = off })
          (record { bounded = h.bounded; mode = IsMode-off r.type r.alternative_offset h.mode })))

check-IsSafe : (do_error : Bool) (r : Relocation) → IsSafe r → IsSafe (check_and_warn do_error r).0
unfolding check_and_warn
check-IsSafe do_error r h = elim (Bool-cases (not r.is_result_affected)) [
  | inl quiet ↦ rw (check_and_warn, quiet) h
  | inr warns ↦ rw (check_and_warn, warns) (record { bounded = h.bounded; mode = h.mode })
]

table-IsSafe :
    (subtract : ℕ) (last_pass : Bool) (r : Relocation)
    → IsSafe r
    → IsSafe (relocate_table subtract last_pass r).1
unfolding relocate_table
table-IsSafe subtract last_pass r h =
    let w = refresh-IsSafe r h in record { bounded = w.bounded; mode = w.mode }

pass-IsSafe : (r : Relocation) → IsSafe r → IsSafe (relocation_init_pass r)
unfolding relocation_init_pass
pass-IsSafe r h = elim (Bool-cases (is_active r.type)) [
  | inl is_open ↦
      rw (relocation_init_pass, is_open)
        (record { bounded = omega arith; mode = IsMode-off r.type r.alternative_offset h.mode })
  | inr closed ↦
      rw (relocation_init_pass, closed)
        (record { bounded = omega arith; mode = IsMode-off r.type r.alternative_offset h.mode })
]

Step-IsSafe : (r r' : Relocation) → IsSafe r → Step r r' → IsSafe r'
Step-IsSafe r r' h (affected b t) = record { bounded = h.bounded; mode = h.mode }
Step-IsSafe r r' h (resolved o t address) = resolve-IsSafe o t address r h
Step-IsSafe r r' h (checked do_error) = check-IsSafe do_error r h
Step-IsSafe r r' h (started is_high) = start-IsSafe is_high r h
Step-IsSafe r r' h (ended disp_inside) = end-IsSafe disp_inside r h
Step-IsSafe r r' h (tabled subtract last_pass) = table-IsSafe subtract last_pass r h
Step-IsSafe r r' h passed = pass-IsSafe r h

-- In every state of a run, over all passes: a block that is open has the alternative offset of its
-- mode, and the count of the relocation table is at most the longer one of the lengths of the offsets
-- of this pass and of the pass before, between which RELOCATE_TABLE chooses each entry.
pub IsReachable-IsSafe : (r : Relocation) → IsReachable r → IsSafe r
IsReachable-IsSafe r at_start = record { bounded = omega arith; mode = inl refl }
IsReachable-IsSafe r (after r₀ r' reached step) =
    Step-IsSafe r₀ r' (IsReachable-IsSafe r₀ reached) step
