-- ===== src/Defines/Lookup.antt =====
-- The table of DEFINEs as a map from names to values (sjasm/tables.cpp).
use sjasmplus.Common.{
  ℕ, suc, ◌%◌, ◌^◌, ◌<◌, ◌≡◌, ◌≢◌, refl, sym, ap, ◌∙◌, inl, inr, true, false, Option, none, some,
  List, [], ◌∷◌, if◌then◌else◌, ◌==◌, length, length-set, get_or, get_or-set_self, get_or-set_ne,
  Bool-cases, Option-cases, ==→eq, ==→ne, subst, arith,
}
use sjasmplus.Common.Bits.{bit_and_mask}
use sjasmplus.Defines.{
  DefineEntry, DefineTable, same_name, cut_line, bucket_count, bucket_of, bucket, set_bucket,
  find_entry, find_duplicate, add, Predefined, get, replace_entry, replace,
}
use sjasmplus.Defines.Dynamic.{
  same_name→eq, value_in, table_value, is_dynamic, dynamic_value, get-changed,
}

pub find_entry-cons :
    (n : List ℕ) (e : DefineEntry) (entries : List DefineEntry)
    → find_entry n (e ∷ entries) ≡ (if same_name n e.name then some e else find_entry n entries)
unfolding find_entry
find_entry-cons n e entries = refl

same_list : {xs ys : List DefineEntry} → some xs ≡ some ys → xs ≡ ys
same_list e = cc e

head_value :
    (n name value : List ℕ) (e : DefineEntry) (entries : List DefineEntry)
    → name ≡ e.name
    → value_in n (record e { value = value } ∷ entries)
      ≡ (if same_name n name then some value else value_in n (e ∷ entries))
unfolding find_entry
head_value n name value e entries same = elim (Bool-cases (same_name n e.name)) [
  | inl is_it ↦ rw (same, is_it)
  | inr other ↦ rw (same, other)
]

other_name :
    (n name m : List ℕ) → same_name n m ≡ true → same_name name m ≡ false → same_name n name ≡ false
other_name n name m is_it other = elim (Bool-cases (same_name n name)) [
  | inr different ↦ different
  | inl same ↦
      let names : n ≡ name = same_name→eq n name same in
      absurd (impossible (sym other ∙ ap (λ k. same_name k m) (sym names) ∙ is_it))
]
  where
    impossible : ¬ (false ≡ true)
    impossible e = cc e

tail_value :
    (n name value : List ℕ) (e : DefineEntry) (es entries : List DefineEntry)
    → same_name name e.name ≡ false
    → value_in n es ≡ (if same_name n name then some value else value_in n entries)
    → value_in n (e ∷ es) ≡ (if same_name n name then some value else value_in n (e ∷ entries))
unfolding find_entry
tail_value n name value e es entries later tail = elim (Bool-cases (same_name n e.name)) [
  | inl is_it ↦ rw (is_it, other_name n name e.name is_it later)
  | inr other ↦ rw other tail
]

replace_entry-value :
    (n name value : List ℕ) (entries entries' : List DefineEntry)
    → replace_entry name value entries ≡ some entries'
    → value_in n entries' ≡ (if same_name n name then some value else value_in n entries)
unfolding replace_entry find_entry
replace_entry-value n name value [] entries' h = absurd (cc h)
replace_entry-value n name value (e ∷ entries) entries' h =
    elim (Bool-cases (same_name name e.name)) [
      | inl here ↦
          let found : record e { value = value } ∷ entries ≡ entries' =
            same_list (sym (rw here) ∙ h) in
          subst
            (λ es.
              value_in n es ≡ (if same_name n name then some value else value_in n (e ∷ entries)))
            found (head_value n name value e entries (same_name→eq name e.name here))
      | inr later ↦ elim (Option-cases (replace_entry name value entries)) [
        | inl missing ↦ absurd (no_list (sym (rw (later, missing)) ∙ h))
        | inr (es, replaced) ↦
            let kept : e ∷ es ≡ entries' = same_list (sym (rw (later, replaced)) ∙ h) in
            subst
              (λ es.
                value_in n es ≡ (if same_name n name then some value else value_in n (e ∷ entries)))
              kept
              (tail_value n name value e es entries later
                (replace_entry-value n name value entries es replaced))
      ]
    ]
  where
    no_list : ¬ (none ≡ some entries')
    no_list e = cc e

replace_entry-none :
    (name value : List ℕ) (entries : List DefineEntry)
    → replace_entry name value entries ≡ none
    → find_entry name entries ≡ none
unfolding replace_entry find_entry
replace_entry-none name value [] h = refl
replace_entry-none name value (e ∷ entries) h = elim (Bool-cases (same_name name e.name)) [
  | inl here ↦ absurd (no_list (record e { value = value } ∷ entries) (sym (rw here) ∙ h))
  | inr later ↦ elim (Option-cases (replace_entry name value entries)) [
    | inl missing ↦ rw later (replace_entry-none name value entries missing)
    | inr (es, replaced) ↦ absurd (no_list (e ∷ es) (sym (rw (later, replaced)) ∙ h))
  ]
]
  where
    no_list : (xs : List DefineEntry) → ¬ (some xs ≡ none)
    no_list xs e = cc e

pub bucket_of-lt : (n : List ℕ) → bucket_of n < bucket_count
bucket_of-lt [] = omega arith
bucket_of-lt (c ∷ n) = rw (bit_and_mask c 7) (below_mask c)
  where
    below_mask : (c : ℕ) → c % 2 ^ 7 < bucket_count
    below_mask c = omega arith

pub bucket-set_bucket :
    (n name : List ℕ) (entries : List DefineEntry) (t : DefineTable)
    → length t.defs ≡ bucket_count
    → bucket n (set_bucket name entries t)
      ≡ (if bucket_of n == bucket_of name then entries else bucket n t)
bucket-set_bucket n name entries t full = elim (Bool-cases (bucket_of n == bucket_of name)) [
  | inl same ↦
      let index : bucket_of n ≡ bucket_of name = ==→eq (bucket_of n) (bucket_of name) same in
      rw (same, index)
        (get_or-set_self t.defs (bucket_of name) entries []
          (omega (arith, full, bucket_of-lt name)))
  | inr other ↦ rw other (
      get_or-set_ne t.defs (bucket_of name) (bucket_of n) entries []
        (λ e. ==→ne (bucket_of n) (bucket_of name) other (sym e)))
]

-- A list of entries in which only `name` has another value.
set_bucket-table_value :
    (n name : List ℕ) (entries : List DefineEntry) (v : Option (List ℕ)) (t : DefineTable)
    → length t.defs ≡ bucket_count
    → value_in n entries ≡ (if same_name n name then v else value_in n (bucket name t))
    → table_value n (set_bucket name entries t) ≡ (if same_name n name then v else table_value n t)
set_bucket-table_value n name entries v t full change =
    ap (value_in n) (bucket-set_bucket n name entries t full)
    ∙ elim (Bool-cases (bucket_of n == bucket_of name)) [
      | inl same ↦
          let index : bucket_of n ≡ bucket_of name = ==→eq (bucket_of n) (bucket_of name) same in
          rw same change
          ∙ ap (λ w. if same_name n name then v else w)
              (ap (λ i. value_in n (get_or t.defs i [])) (sym index))
      | inr other ↦ rw (other, elsewhere (==→ne (bucket_of n) (bucket_of name) other))
    ]
  where
    elsewhere : bucket_of n ≢ bucket_of name → same_name n name ≡ false
    elsewhere ne = elim (Bool-cases (same_name n name)) [
      | inr different ↦ different
      | inl same ↦ absurd (ne (ap bucket_of (same_name→eq n name same)))
    ]

new_first :
    (n name value : List ℕ) (entries : List DefineEntry)
    → value_in n (record { name = name; value = value; nss = none } ∷ entries)
      ≡ (if same_name n name then some value else value_in n entries)
unfolding find_entry
new_first n name value entries = elim (Bool-cases (same_name n name)) [
  | inl same ↦ rw same
  | inr other ↦ rw other
]

replace-table_value :
    (n name value : List ℕ) (t : DefineTable)
    → length t.defs ≡ bucket_count
    → cut_line value ≡ value
    → table_value n (replace name value t).0
      ≡ (if same_name n name then some value else table_value n t)
unfolding replace
replace-table_value n name value t full line =
    elim (Option-cases (replace_entry name value (bucket name t))) [
      | inr (entries, replaced) ↦
          rw (replace, replaced)
            (set_bucket-table_value n name entries (some value) t full
              (replace_entry-value n name value (bucket name t) entries replaced))
      | inl missing ↦
          rw (replace, missing, line)
            (set_bucket-table_value n name _ (some value) t full
              (new_first n name value (bucket name t)))
    ]

pub add-table_value :
    (n name value : List ℕ) (nss : Option (List (List ℕ))) (t : DefineTable)
    → length t.defs ≡ bucket_count
    → table_value n (add name value nss t)
      ≡ (if same_name n name then some (cut_line value) else table_value n t)
add-table_value n name value nss t full = elim (Bool-cases (find_duplicate name t)) [
  | inl again ↦
      let counted = record t { duplicates = suc t.duplicates } in
      unfold add in
      rw again (
        set_bucket-table_value n name _ (some (cut_line value)) counted full
          (first (bucket name t)))
  | inr new ↦
      unfold add in
      rw new
        (set_bucket-table_value n name _ (some (cut_line value)) t full (first (bucket name t)))
]
  where
    first :
        (entries : List DefineEntry)
        → value_in n (record { name = name; value = cut_line value; nss = nss } ∷ entries)
          ≡ (if same_name n name then some (cut_line value) else value_in n entries)
    first entries =
        unfold find_entry in
        elim (Bool-cases (same_name n name)) [ inl same ↦ rw same | inr other ↦ rw other ]

pub length-add :
    (name value : List ℕ) (nss : Option (List (List ℕ))) (t : DefineTable)
    → length (add name value nss t).defs ≡ length t.defs
unfolding add
length-add name value nss t = elim (Bool-cases (find_duplicate name t)) [
  | inl again ↦ rw (add, again) (length-set t.defs (bucket_of name) _)
  | inr new ↦ rw (add, new) (length-set t.defs (bucket_of name) _)
]

-- Replace is the update of a map: Get gives the new value for the name and for every other name what it
-- gave before, on a table with its 128 lists and for a value without line ends. The names that Get treats
-- itself are not in the map: the empty name has no value, __COUNTER__ that of the counter and __LINE__ that
-- of the line.
pub get-replace :
    (n name value : List ℕ) (g : Predefined) (t : DefineTable)
    → length t.defs ≡ bucket_count
    → cut_line value ≡ value
    → (get n g (replace name value t).0).value ≡ (
        if is_dynamic n
        then dynamic_value n g
        else if same_name n name
        then some value
        else (get n g t).value)
get-replace n name value g t full line =
    get-changed n g t (replace name value t).0 (same_name n name) (some value)
      (replace-table_value n name value t full line)

-- Add puts a new entry in front: Get gives its value for the name, up to the line end, and for every other
-- name what it gave before, on a table with its 128 lists. The names that Get treats itself are not in the
-- table: the empty name has no value, __COUNTER__ that of the counter and __LINE__ that of the line.
pub get-add :
    (n name value : List ℕ) (nss : Option (List (List ℕ))) (g : Predefined) (t : DefineTable)
    → length t.defs ≡ bucket_count
    → (get n g (add name value nss t)).value ≡ (
        if is_dynamic n
        then dynamic_value n g
        else if same_name n name
        then some (cut_line value)
        else (get n g t).value)
get-add n name value nss g t full =
    get-changed n g t (add name value nss t) (same_name n name) (some (cut_line value))
      (add-table_value n name value nss t full)
