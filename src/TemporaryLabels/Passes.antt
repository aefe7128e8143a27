-- ===== src/TemporaryLabels/Passes.antt =====
-- Temporary labels over the passes of an assembly (sjasm/tables.cpp).
use sjasmplus.Common.{
  ℕ, zero, suc, ◌≤◌, ◌≡◌, ◌≢◌, refl, sym, subst, ==→eq, ==→ne, All, ap, ◌∙◌, inl, inr, Bool, true,
  false, Option, none, some, List, [], ◌∷◌, ◌++◌, if◌then◌else◌, ◌==◌, length, get_elem?,
  append_assoc, append-nil, Bool-cases, Option-cases, get_elem?-lt, ==-self, arith,
}
use sjasmplus.TemporaryLabels.{
  TemporaryLabel, Table, init_pass, insert_refresh, find_number, labels_from, seek_forward,
  find_number_back, seek_back,
}

-- The labels of a part of a pass, one after the other; the Boolean says that every one was accepted.
unfoldable pub insert_all : List TemporaryLabel → Table → Table × Bool
insert_all [] t = (t, true)
insert_all (l ∷ labels) t =
    let (t', ok) = insert_refresh l t in
    let (t'', rest) = insert_all labels t' in (t'', if ok then rest else false)

-- The last label with a number, by recursion from the front.
unfoldable pub last_number : ℕ → List TemporaryLabel → Option TemporaryLabel
last_number number [] = none
last_number number (l ∷ labels) = elim (last_number number labels) [
  | some found ↦ some found
  | none ↦ if l.number == number then some l else none
]

-- What a search for the first label with a number promises: no label has the number, or the label has it and
-- none before it has.
abbrev pub IsFirst : ℕ → List TemporaryLabel → Option TemporaryLabel → Type 0
IsFirst number labels none = All (λ x. x.number ≢ number) labels
IsFirst number labels (some l) =
    (earlier : List TemporaryLabel) × (later : List TemporaryLabel) × (labels
      ≡ earlier ++ (l ∷ later))
    × (l.number ≡ number)
    × All (λ x. x.number ≢ number) earlier

cons-IsFirst :
    (number : ℕ) (l : TemporaryLabel) (labels : List TemporaryLabel) (o : Option TemporaryLabel)
    → l.number ≢ number
    → IsFirst number labels o
    → IsFirst number (l ∷ labels) o
cons-IsFirst number l labels none ne all = (ne, all)
cons-IsFirst number l labels (some x) ne (earlier, later, e, here, all) =
    (l ∷ earlier, later, ap (λ ls. l ∷ ls) e, here, (ne, all))

find_number-IsFirst :
    (number : ℕ) (labels : List TemporaryLabel) → IsFirst number labels (find_number number labels)
unfolding find_number
find_number-IsFirst number [] = tt
find_number-IsFirst number (l ∷ labels) = elim (Bool-cases (l.number == number)) [
  | inl here ↦ rw here ([], labels, refl, ==→eq l.number number here, tt)
  | inr later ↦ rw later (
      cons-IsFirst number l labels (find_number number labels) (==→ne l.number number later)
        (find_number-IsFirst number labels))
]

labels_from-length :
    (before after : List TemporaryLabel) → labels_from (length before) (before ++ after) ≡ after
labels_from-length [] after = refl
labels_from-length (l ∷ before) after = labels_from-length before after

get_elem?-length :
    (before after : List TemporaryLabel) (l : TemporaryLabel)
    → get_elem? (before ++ (l ∷ after)) (length before) ≡ some l
get_elem?-length [] after l = refl
get_elem?-length (x ∷ before) after l = get_elem?-length before after l

-- A label that the previous pass had at the same place and address.
insert_refresh-same :
    (before after : List TemporaryLabel) (l : TemporaryLabel) (w : ℕ)
    → insert_refresh l
        (record { labels = before ++ (l ∷ after); next_pass_labels = before; warnings = w })
      ≡ (
        record {
          labels = before ++ (l ∷ after);
          next_pass_labels = before ++ (l ∷ []);
          warnings = w;
        },
        true,
      )
unfolding insert_refresh
insert_refresh-same before after l w =
    rw (insert_refresh, get_elem?-length before after l, ==-self l.number, ==-self l.value)

insert_all-same :
    (before middle after : List TemporaryLabel) (w : ℕ)
    → insert_all middle
        (record { labels = before ++ (middle ++ after); next_pass_labels = before; warnings = w })
      ≡ (
        record {
          labels = before ++ (middle ++ after);
          next_pass_labels = before ++ middle;
          warnings = w;
        },
        true,
      )
unfolding insert_all
insert_all-same before [] after w = rw (append-nil before)
insert_all-same before (l ∷ middle) after w =
    let next = insert_all-same (before ++ (l ∷ [])) middle after w in
    let later =
      rw (append_assoc before (l ∷ []) (middle ++ after), append_assoc before (l ∷ []) middle) at
        next in
    rw (insert_refresh-same before (middle ++ after) l w, later)

pub insert_refresh-next_pass_labels :
    (l : TemporaryLabel) (t : Table)
    → (insert_refresh l t).0.next_pass_labels ≡ t.next_pass_labels ++ (l ∷ [])
unfolding insert_refresh
insert_refresh-next_pass_labels l t =
    elim (Option-cases (get_elem? t.labels (length t.next_pass_labels))) [
      | inl new ↦ rw (insert_refresh, new)
      | inr (old, at) ↦ elim (Bool-cases (old.number == l.number)) [
        | inr other ↦ rw (insert_refresh, at, other)
        | inl same ↦ elim (Bool-cases (old.value == l.value)) [
          | inl kept ↦ rw (insert_refresh, at, same, kept)
          | inr moved ↦ rw (insert_refresh, at, same, moved)
        ]
      ]
    ]

insert_all-next_pass_labels :
    (labels : List TemporaryLabel) (t : Table)
    → (insert_all labels t).0.next_pass_labels ≡ t.next_pass_labels ++ labels
unfolding insert_all
insert_all-next_pass_labels [] t = sym (append-nil t.next_pass_labels)
insert_all-next_pass_labels (l ∷ labels) t =
    insert_all-next_pass_labels labels (insert_refresh l t).0
    ∙ ap (λ ls. ls ++ labels) (insert_refresh-next_pass_labels l t)
    ∙ append_assoc t.next_pass_labels (l ∷ []) labels

find_number_back_step :
    (number : ℕ) (labels : List TemporaryLabel) (l : TemporaryLabel) (i : ℕ)
    → get_elem? labels i ≡ some l
    → find_number_back number labels (suc i)
      ≡ (if l.number == number then some l else find_number_back number labels i)
unfolding find_number_back
find_number_back_step number labels l i at = rw (find_number_back, at)

abbrev or_first : ℕ → TemporaryLabel → Option TemporaryLabel → Option TemporaryLabel
or_first number l none = if l.number == number then some l else none
or_first number l (some found) = some found

find_number_back-cons :
    (number : ℕ) (l : TemporaryLabel) (labels : List TemporaryLabel) (k : ℕ)
    → k ≤ length labels
    → find_number_back number (l ∷ labels) (suc k)
      ≡ or_first number l (find_number_back number labels k)
unfolding find_number_back
find_number_back-cons number l labels zero h = refl
find_number_back-cons number l labels (suc k) h =
    let (x, at) = get_elem?-lt labels k h in
    let earlier = find_number_back-cons number l labels k (omega arith) in
    find_number_back_step number (l ∷ labels) x (suc k) at
    ∙ rw earlier (elim (Bool-cases (x.number == number)) [
      | inl here ↦ rw (find_number_back_step number labels x k at, here)
      | inr before ↦ rw (find_number_back_step number labels x k at, before)
    ])

find_number_back-last_number :
    (number : ℕ) (labels : List TemporaryLabel)
    → find_number_back number labels (length labels) ≡ last_number number labels
unfolding last_number
find_number_back-last_number number [] = unfold find_number_back in refl
find_number_back-last_number number (l ∷ labels) =
    find_number_back-cons number l labels (length labels) (omega arith)
    ∙ rw (find_number_back-last_number number labels) (same (last_number number labels))
  where
    same :
        (found : Option TemporaryLabel)
        → or_first number l found ≡ elim found [
          | some found ↦ some found
          | none ↦ if l.number == number then some l else none
        ]
    same none = refl
    same (some found) = refl

-- A pass that repeats the labels of the pass before it, at the same addresses: InsertRefresh accepts
-- every label and warns of none, and between the labels `before` and `after` SeekForward finds the
-- first label with the number in `after`, which is still to come: it has the number, no label of `after`
-- in front of it has, and there is no such label if nothing is found. SeekBack finds the last one in `before`.
pub seek-repeated_pass :
    (before after : List TemporaryLabel) (number : ℕ) (t : Table)
    → t.next_pass_labels ≡ []
    → let first = (insert_all (before ++ after) t).0 in
      let second = insert_all before (init_pass first) in
      (second.1 ≡ true)
      × (second.0.warnings ≡ first.warnings)
      × IsFirst number after (seek_forward number second.0)
      × (seek_back number second.0 ≡ last_number number before)
unfolding init_pass seek_forward seek_back
seek-repeated_pass before after number t fresh =
    let first = (insert_all (before ++ after) t).0 in
    let kept : first.next_pass_labels ≡ before ++ after =
      insert_all-next_pass_labels (before ++ after) t ∙ ap (λ ls. ls ++ (before ++ after)) fresh in
    let run = insert_all-same [] before after first.warnings in
    rw (kept, run)
      (
        refl,
        refl,
        subst (λ ls. IsFirst number after (find_number number ls))
            (sym (labels_from-length before after)) (find_number-IsFirst number after),
        find_number_back-last_number number before,
      )
