-- ===== src/TemporaryLabels.antt =====
-- Numbered temporary labels: CTemporaryLabelTable of sjasm/tables.cpp.
pub mod Passes
pub mod Flow
pub mod Read
mod Examples
use sjasmplus.Common.{
  ℕ, zero, suc, ◌+◌, ◌-◌, Bool, true, false, Option, none, some, List, [], ◌∷◌, ◌++◌, if◌then◌else◌,
  ltb, leb, ◌==◌, length, get_elem?,
}

-- `number` is the field `nummer`, in the bits of an aint.
pub record TemporaryLabel : Type 0 where
  pub number : ℕ
  pub value : ℕ
  pub is_relocatable : Bool

-- `labels` are those of the previous pass, `next_pass_labels` those of this one; `warnings` counts the
-- reports of a changed address.
pub record Table : Type 0 where
  pub labels : List TemporaryLabel
  pub next_pass_labels : List TemporaryLabel
  pub warnings : ℕ

abbrev pub new_table : Table
new_table = record { labels = []; next_pass_labels = []; warnings = 0 }

-- A moved vector is empty.
unfoldable pub init_pass : Table → Table
init_pass t = record t { labels = t.next_pass_labels; next_pass_labels = [] }

-- `label` holds the number, CurAddress and whether relocation is active. The Boolean is the result.
unfoldable pub insert_refresh : TemporaryLabel → Table → Table × Bool
insert_refresh label t =
    let refresh = length t.next_pass_labels in
    let t' = record t { next_pass_labels = t.next_pass_labels ++ (label ∷ []) } in
    elim (get_elem? t.labels refresh) [
      | none ↦ (t', false)
      | some to_r ↦
          if to_r.number == label.number
          then (
            if to_r.value == label.value then t' else record t' { warnings = suc t.warnings },
            true,
          )
          else (t', false)
    ]

-- The loop `while (i < labels.size() && ...) ++i`, over the labels from `i` on.
unfoldable pub find_number : ℕ → List TemporaryLabel → Option TemporaryLabel
find_number number [] = none
find_number number (l ∷ labels) =
    let later = find_number number labels in if l.number == number then some l else later

abbrev pub labels_from : ℕ → List TemporaryLabel → List TemporaryLabel
labels_from zero labels = labels
labels_from (suc i) [] = []
labels_from (suc i) (l ∷ labels) = labels_from i labels

unfoldable pub seek_forward : ℕ → Table → Option TemporaryLabel
seek_forward number t = find_number number (labels_from (length t.next_pass_labels) t.labels)

-- The loop `while (i-- && ...)` down from index `i`.
unfoldable pub find_number_back : ℕ → List TemporaryLabel → ℕ → Option TemporaryLabel
find_number_back number labels zero = none
find_number_back number labels (suc i) =
    let earlier = find_number_back number labels i in
    elim (get_elem? labels i) [
      | none ↦ none
      | some l ↦ if l.number == number then some l else earlier
    ]

unfoldable pub seek_back : ℕ → Table → Option TemporaryLabel
seek_back number t = find_number_back number t.next_pass_labels (length t.next_pass_labels)
