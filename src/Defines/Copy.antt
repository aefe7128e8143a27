-- ===== src/Defines/Copy.antt =====
-- The copy of a table of DEFINEs, which starts each pass from those of the command line
-- (sjasm/tables.cpp).
use sjasmplus.Common.{
  ℕ, zero, suc, ◌+◌, ◌<◌, ◌≡◌, ◌≢◌, refl, ap, ◌∙◌, inl, inr, false, Option, none, some, List, [],
  ◌∷◌, if◌then◌else◌, length, get_or, All, replicate, length-replicate, Bool-cases, arith,
}
use sjasmplus.Defines.{
  DefineEntry, DefineTable, same_name, cut_line, bucket_count, bucket_of, bucket, add, Predefined,
  get, add_entries, add_buckets, remove_all, copy_from, find_entry,
}
use sjasmplus.Defines.Dynamic.{
  same_name→eq, value_in, table_value, is_dynamic, dynamic_value, get-looked_up,
}
use sjasmplus.Defines.Lookup.{add-table_value, length-add, bucket_of-lt}

-- The value of the oldest entry with the name.
unfoldable pub oldest_value : List ℕ → List DefineEntry → Option (List ℕ)
oldest_value n [] = none
oldest_value n (e ∷ entries) = elim (oldest_value n entries) [
  | some v ↦ some v
  | none ↦ if same_name n e.name then some e.value else none
]

-- Every entry stands in the list of its name, and its value has no line end.
abbrev IsFiledAt : ℕ → DefineEntry → Type 0
IsFiledAt j e = (bucket_of e.name ≡ j) × (cut_line e.value ≡ e.value)

abbrev pub IsFiled : ℕ → List (List DefineEntry) → Type 0
IsFiled j [] = Unit {0}
IsFiled j (entries ∷ buckets) = All (IsFiledAt j) entries × IsFiled (suc j) buckets

abbrev or_else : Option (List ℕ) → Option (List ℕ) → Option (List ℕ)
or_else (some v) w = some v
or_else none w = w

add_entries-table_value :
    (n : List ℕ) (j : ℕ) (entries : List DefineEntry) (t : DefineTable)
    → length t.defs ≡ bucket_count
    → All (IsFiledAt j) entries
    → (table_value n (add_entries entries t) ≡ or_else (oldest_value n entries) (table_value n t))
      × (length (add_entries entries t).defs ≡ bucket_count)
unfolding add_entries oldest_value
add_entries-table_value n j [] t full filed = (refl, full)
add_entries-table_value n j (e ∷ entries) t full (filed, more) =
    let (later, full') =
      add_entries-table_value n j entries (add e.name e.value e.nss t)
        (length-add e.name e.value e.nss t ∙ full) more in
    (
      later
          ∙ ap (or_else (oldest_value n entries)) (add-table_value n e.name e.value e.nss t full)
          ∙ pick (oldest_value n entries) filed.1,
      full',
    )
  where
    pick :
        (o : Option (List ℕ))
        → cut_line e.value ≡ e.value
        → or_else o (if same_name n e.name then some (cut_line e.value) else table_value n t)
          ≡ or_else
              (elim o [
                | some v ↦ some v
                | none ↦ if same_name n e.name then some e.value else none
              ])
              (table_value n t)
    pick (some v) line = refl
    pick none line = elim (Bool-cases (same_name n e.name)) [
      | inl same ↦ rw (same, line)
      | inr other ↦ rw other
    ]

-- The value of the oldest entry with the name in any of the lists.
oldest_in : List ℕ → List (List DefineEntry) → Option (List ℕ)
oldest_in n [] = none
oldest_in n (entries ∷ buckets) = or_else (oldest_in n buckets) (oldest_value n entries)

add_buckets-table_value :
    (n : List ℕ) (j : ℕ) (buckets : List (List DefineEntry)) (t : DefineTable)
    → length t.defs ≡ bucket_count
    → IsFiled j buckets
    → table_value n (add_buckets buckets t) ≡ or_else (oldest_in n buckets) (table_value n t)
unfolding add_buckets oldest_in
add_buckets-table_value n j [] t full filed = refl
add_buckets-table_value n j (entries ∷ buckets) t full (filed, more) =
    let (first, full') = add_entries-table_value n j entries t full filed in
    add_buckets-table_value n (suc j) buckets (add_entries entries t) full' more
    ∙ ap (or_else (oldest_in n buckets)) first
    ∙ or_else_assoc (oldest_in n buckets) (oldest_value n entries) (table_value n t)
  where
    or_else_assoc : (a b c : Option (List ℕ)) → or_else a (or_else b c) ≡ or_else (or_else a b) c
    or_else_assoc (some v) b c = refl
    or_else_assoc none b c = refl

oldest_value-elsewhere :
    (n : List ℕ) (j : ℕ) (entries : List DefineEntry)
    → All (IsFiledAt j) entries
    → bucket_of n ≢ j
    → oldest_value n entries ≡ none
unfolding oldest_value
oldest_value-elsewhere n j [] filed ne = refl
oldest_value-elsewhere n j (e ∷ entries) (filed, more) ne =
    rw (oldest_value-elsewhere n j entries more ne, other)
  where
    other : same_name n e.name ≡ false
    other = elim (Bool-cases (same_name n e.name)) [
      | inr different ↦ different
      | inl same ↦ absurd (ne (ap bucket_of (same_name→eq n e.name same) ∙ filed.0))
    ]

oldest_in-below :
    (n : List ℕ) (j : ℕ) (buckets : List (List DefineEntry))
    → IsFiled j buckets
    → bucket_of n < j
    → oldest_in n buckets ≡ none
unfolding oldest_in
oldest_in-below n j [] filed lt = refl
oldest_in-below n j (entries ∷ buckets) (filed, more) lt = rw (
  oldest_in-below n (suc j) buckets more (omega arith),
  oldest_value-elsewhere n j entries filed (λ e. omega (arith, e)),
)

or_else-none : (o : Option (List ℕ)) → or_else o none ≡ o
or_else-none (some v) = refl
or_else-none none = refl

oldest_in-bucket :
    (n : List ℕ) (j k : ℕ) (buckets : List (List DefineEntry))
    → IsFiled j buckets
    → bucket_of n ≡ j + k
    → k < length buckets
    → oldest_in n buckets ≡ oldest_value n (get_or buckets k [])
unfolding oldest_in
oldest_in-bucket n j k [] filed at lt = elim lt [ ]
oldest_in-bucket n j zero (entries ∷ buckets) (filed, more) at lt =
    rw (oldest_in-below n (suc j) buckets more (omega arith))
oldest_in-bucket n j (suc k) (entries ∷ buckets) (filed, more) at lt =
    rw (oldest_value-elsewhere n j entries filed (λ e. omega (arith, e))) (
      or_else-none (oldest_in n buckets)
      ∙ oldest_in-bucket n (suc j) k buckets more (omega arith) (omega arith))

remove_all-table_value : (n : List ℕ) (t : DefineTable) → table_value n (remove_all t) ≡ none
unfolding remove_all
remove_all-table_value n t =
    unfold find_entry in ap (value_in n) (get_or-replicate bucket_count (bucket_of n))
  where
    get_or-replicate : (k i : ℕ) → get_or (replicate {A = List DefineEntry} k []) i [] ≡ []
    get_or-replicate zero i = refl
    get_or-replicate (suc k) zero = refl
    get_or-replicate (suc k) (suc i) = get_or-replicate k i

copy_from-table_value :
    (n : List ℕ) (source t : DefineTable)
    → length source.defs ≡ bucket_count
    → IsFiled 0 source.defs
    → table_value n (copy_from source t) ≡ oldest_value n (bucket n source)
unfolding copy_from
copy_from-table_value n source t full filed =
    add_buckets-table_value n 0 source.defs (remove_all t) cleared filed
    ∙ ap (or_else (oldest_in n source.defs)) (remove_all-table_value n t)
    ∙ or_else-none (oldest_in n source.defs)
    ∙ oldest_in-bucket n 0 (bucket_of n) source.defs filed (omega arith)
        (omega (arith, full, bucket_of-lt n))
  where
    cleared : length (remove_all t).defs ≡ bucket_count
    cleared = unfold remove_all in length-replicate {A = List DefineEntry} bucket_count []

-- After `operator=` Get gives for every name the value of the oldest entry with this name in the source,
-- whatever the table held before: a name that was added twice has its first value again. Each entry of
-- the source stands in the list of its name, and no value has a line end. The names that Get treats itself
-- are not in the table: the empty name has no value, __COUNTER__ that of the counter and __LINE__ that of
-- the line.
pub get-copy_from :
    (n : List ℕ) (g : Predefined) (source t : DefineTable)
    → length source.defs ≡ bucket_count
    → IsFiled 0 source.defs
    → (get n g (copy_from source t)).value
      ≡ (if is_dynamic n then dynamic_value n g else oldest_value n (bucket n source))
get-copy_from n g source t full filed =
    get-looked_up n g (copy_from source t)
    ∙ ap (λ v. if is_dynamic n then dynamic_value n g else v)
        (copy_from-table_value n source t full filed)
