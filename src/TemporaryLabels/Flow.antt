-- ===== src/TemporaryLabels/Flow.antt =====
-- The check that a pass has the temporary labels of the pass before it (sjasm/tables.cpp).
use sjasmplus.Common.{
  ℕ, zero, suc, ◌≡◌, refl, ap, ◌∙◌, inl, inr, Bool, true, false, none, some, List, [], ◌∷◌,
  if◌then◌else◌, ◌==◌, length, get_elem?, length-append, Bool-cases, Option-cases, arith,
}
use sjasmplus.TemporaryLabels.{TemporaryLabel, Table, insert_refresh, labels_from}
use sjasmplus.TemporaryLabels.Passes.{insert_all, insert_refresh-next_pass_labels}

-- Each label of a pass has the number of the label at its place in the pass before.
unfoldable pub same_numbers : List TemporaryLabel → List TemporaryLabel → Bool
same_numbers [] previous = true
same_numbers (l ∷ labels) [] = false
same_numbers (l ∷ labels) (p ∷ previous) =
    let rest = same_numbers labels previous in if p.number == l.number then rest else false

labels_from-none :
    (labels : List TemporaryLabel) (k : ℕ) → get_elem? labels k ≡ none → labels_from k labels ≡ []
labels_from-none [] zero h = refl
labels_from-none [] (suc k) h = refl
labels_from-none (l ∷ labels) zero h = absurd (cc h)
labels_from-none (l ∷ labels) (suc k) h = labels_from-none labels k h

labels_from-some :
    (labels : List TemporaryLabel) (k : ℕ) (l : TemporaryLabel)
    → get_elem? labels k ≡ some l
    → labels_from k labels ≡ l ∷ labels_from (suc k) labels
labels_from-some [] k l h = absurd (cc h)
labels_from-some (x ∷ labels) zero l h = ap (λ y. y ∷ labels) (same x h)
  where
    same : (x : TemporaryLabel) → some x ≡ some l → x ≡ l
    same x e = cc e
labels_from-some (x ∷ labels) (suc k) l h = labels_from-some labels k l h

-- insert_refresh keeps the labels of the pass before, and its result for a label.
insert_refresh-result :
    (l : TemporaryLabel) (t : Table)
    → ((insert_refresh l t).0.labels ≡ t.labels)
      × ((insert_refresh l t).1 ≡ elim (get_elem? t.labels (length t.next_pass_labels)) [
        | none ↦ false
        | some p ↦ p.number == l.number
      ])
unfolding insert_refresh
insert_refresh-result l t = elim (Option-cases (get_elem? t.labels (length t.next_pass_labels))) [
  | inl new ↦ rw (insert_refresh, new) (refl, refl)
  | inr (old, at) ↦ elim (Bool-cases (old.number == l.number)) [
    | inr other ↦ rw (insert_refresh, at, other) (refl, refl)
    | inl same ↦ elim (Bool-cases (old.value == l.value)) [
      | inl kept ↦ rw (insert_refresh, at, same, kept) (refl, refl)
      | inr moved ↦ rw (insert_refresh, at, same, moved) (refl, refl)
    ]
  ]
]

-- The labels of a pass are all accepted exactly if each has the number of the label at its place in
-- the pass before, whatever their addresses are.
pub insert_all-same_numbers :
    (labels : List TemporaryLabel) (t : Table)
    → (insert_all labels t).1
      ≡ same_numbers labels (labels_from (length t.next_pass_labels) t.labels)
unfolding insert_all same_numbers
insert_all-same_numbers [] t = refl
insert_all-same_numbers (l ∷ labels) t =
    let (kept, result) = insert_refresh-result l t in
    let later = insert_all-same_numbers labels (insert_refresh l t).0 in
    let next : length (insert_refresh l t).0.next_pass_labels ≡ suc (length t.next_pass_labels) =
      ap length (insert_refresh-next_pass_labels l t)
      ∙ length-append t.next_pass_labels (l ∷ [])
      ∙ omega arith in
    elim (Option-cases (get_elem? t.labels (length t.next_pass_labels))) [
      | inl new ↦ rw (result, new, labels_from-none t.labels (length t.next_pass_labels) new)
      | inr (p, at) ↦ rw (
        result,
        at,
        later,
        next,
        kept,
        labels_from-some t.labels (length t.next_pass_labels) p at,
      )
    ]
