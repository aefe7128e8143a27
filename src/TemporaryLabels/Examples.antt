-- ===== src/TemporaryLabels/Examples.antt =====
-- Examples of temporary labels.
use sjasmplus.Common.{ℕ, ◌≡◌, refl, true, false, some, [], ◌∷◌}
use sjasmplus.TemporaryLabels.{TemporaryLabel, Table, new_table, init_pass, seek_forward, seek_back}
use sjasmplus.TemporaryLabels.Passes.{IsFirst, insert_all, last_number, seek-repeated_pass}
use sjasmplus.TemporaryLabels.Flow.{same_numbers, insert_all-same_numbers}

abbrev at_address : ℕ → ℕ → TemporaryLabel
at_address number value = record { number = number; value = value; is_relocatable = false }

seek-repeated_pass_example :
    let first =
      (insert_all (at_address 1 10 ∷ at_address 1 20 ∷ at_address 1 30 ∷ []) new_table).0 in
    let second = insert_all (at_address 1 10 ∷ at_address 1 20 ∷ []) (init_pass first) in
    (second.1 ≡ true)
    × (second.0.warnings ≡ first.warnings)
    × IsFirst 1 (at_address 1 30 ∷ []) (seek_forward 1 second.0)
    × (seek_back 1 second.0 ≡ some (at_address 1 20))
unfolding last_number
seek-repeated_pass_example =
    seek-repeated_pass (at_address 1 10 ∷ at_address 1 20 ∷ []) (at_address 1 30 ∷ []) 1 new_table
      refl

abbrev two_known : Table
two_known = record new_table { labels = at_address 1 10 ∷ at_address 2 20 ∷ [] }

insert_all-same_numbers_example :
    (insert_all (at_address 1 10 ∷ at_address 3 20 ∷ []) two_known).1 ≡ false
unfolding same_numbers
insert_all-same_numbers_example =
    insert_all-same_numbers (at_address 1 10 ∷ at_address 3 20 ∷ []) two_known
