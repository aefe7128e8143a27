-- ===== src/Relocation/Examples.antt =====
-- Examples of the relocation table.
use sjasmplus.Common.{◌≡◌, refl, true, false, some, [], ◌∷◌, arith}
use sjasmplus.Relocation.{
  Relocation, regular, initial, resolve_relocation_affected, relocate_start, relocate_table,
  relocation_init_pass,
}
use sjasmplus.Relocation.Bounds.{
  started, affected, resolved, IsReachable, at_start, after, IsSafe, IsReachable-IsSafe,
}
use sjasmplus.Relocation.Passes.{add_all, relocate_table-repeated_pass}

-- RELOCATE_START, then an instruction at 0x8000 with a word to relocate at its second byte.
abbrev in_block : Relocation
in_block = relocate_start false initial

abbrev with_offset : Relocation
with_offset =
    resolve_relocation_affected (some 1) regular 0x8000
      (record in_block { is_result_affected = true; delta_type = regular })

with_offset-IsReachable : IsReachable with_offset
with_offset-IsReachable =
    after _ _ (after _ _ (after _ _ at_start (started false)) (affected true regular))
      (resolved (some 1) regular 0x8000)

IsReachable-IsSafe_example : IsSafe with_offset
IsReachable-IsSafe_example = IsReachable-IsSafe with_offset with_offset-IsReachable

abbrev after_first_pass : Relocation
after_first_pass = record initial { offsets = 0x8001 ∷ 0x8010 ∷ [] }

relocate_table-repeated_pass_example :
    let entered = relocation_init_pass after_first_pass in
    let emitted = relocate_table 0x8000 true (add_all (0x8001 ∷ []) entered) in
    let ended = add_all (0x8010 ∷ []) emitted.1 in
    (emitted.0 ≡ 0x0001 ∷ 0x0010 ∷ [])
    × (ended.messages ≡ entered.messages)
    × (ended.offsets ≡ 0x8001 ∷ 0x8010 ∷ [])
relocate_table-repeated_pass_example =
    relocate_table-repeated_pass (0x8001 ∷ []) (0x8010 ∷ []) 0x8000 true after_first_pass
      (omega arith, tt) (omega arith, tt) refl
