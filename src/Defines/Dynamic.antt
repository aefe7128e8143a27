-- ===== src/Defines/Dynamic.antt =====
-- Get of sjasm/tables.cpp on the names that it treats itself: the empty one, __COUNTER__ and __LINE__.
use sjasmplus.Common.{
  zero, ◌+◌, ◌-◌, ◌*◌, ◌/◌, ◌%◌, ◌<◌, ◌++◌, ltb, ltb→le, arith, ==→eq, ==-self, ℕ, suc, ◌≡◌, refl,
  sym, ap, ◌∙◌, inl, inr, Bool, true, false, ◌&&◌, ◌||◌, Option, none, some, List, [], ◌∷◌,
  if◌then◌else◌, ◌==◌, Bool-cases, Option-cases,
}
use sjasmplus.Defines.{
  DefineEntry, DefineTable, Predefined, same_name, bucket, find_entry, counter_name, line_name,
  second, get_or_zero, print_digits, print_decimal, get_entry, get_name, get,
}

-- The names that are no names of the table for Get.
abbrev pub is_dynamic : List ℕ → Bool
is_dynamic n = same_name n [] || same_name n counter_name || same_name n line_name

abbrev pub dynamic_value : List ℕ → Predefined → Option (List ℕ)
dynamic_value n g =
    if same_name n []
    then none
    else if same_name n counter_name
    then some (print_decimal g.counter)
    else some (print_decimal (get_or_zero g.source_line))

pub same_name_self : (n : List ℕ) → same_name n n ≡ true
unfolding same_name
same_name_self [] = refl
same_name_self (c ∷ n) = rw (==-self c) (same_name_self n)

pub same_name→eq : (n m : List ℕ) → same_name n m ≡ true → n ≡ m
unfolding same_name
same_name→eq [] [] h = refl
same_name→eq [] (d ∷ m) h = absurd (cc h)
same_name→eq (c ∷ n) [] h = absurd (cc h)
same_name→eq (c ∷ n) (d ∷ m) h = elim (Bool-cases (c == d)) [
  | inl same ↦
      let first : c ≡ d = ==→eq c d same in
      let rest : n ≡ m = same_name→eq n m (sym (rw same) ∙ h) in cc (first, rest)
  | inr other ↦ absurd (impossible (sym (rw other) ∙ h))
]
  where
    impossible : ¬ (false ≡ true)
    impossible e = cc e

abbrev entry_value : Option DefineEntry → Option (List ℕ)
entry_value none = none
entry_value (some e) = some e.value

-- The value of the first entry with the name in a list.
abbrev pub value_in : List ℕ → List DefineEntry → Option (List ℕ)
value_in n entries = entry_value (find_entry n entries)

-- The value that the table has for a name.
abbrev pub table_value : List ℕ → DefineTable → Option (List ℕ)
table_value n t = value_in n (bucket n t)

and-false : (b : Bool) → (b && false) ≡ false
and-false true = refl
and-false false = refl

-- The test of the second character decides nothing.
second-same_name :
    (n m : List ℕ) → (second m == b'_') ≡ true → (second n == b'_' && same_name n m) ≡ same_name n m
second-same_name n m h = elim (Bool-cases (same_name n m)) [
  | inl same ↦ rw (same, ap (λ k. second k == b'_') (same_name→eq n m same), h)
  | inr other ↦ rw other (and-false (second n == b'_'))
]

get_entry-table_value :
    (n : List ℕ) (g : Predefined) (t : DefineTable) → (get_entry n g t).value ≡ table_value n t
unfolding get_entry
get_entry-table_value n g t = elim (Option-cases (find_entry n (bucket n t))) [
  | inl missing ↦ rw (get_entry, missing)
  | inr (e, found) ↦ rw (get_entry, found)
]

same_name_nil : (c : ℕ) (name : List ℕ) → same_name (c ∷ name) [] ≡ false
unfolding same_name
same_name_nil c name = refl

abbrev looked_up : List ℕ → Predefined → DefineTable → Option (List ℕ)
looked_up n g t = if is_dynamic n then dynamic_value n g else table_value n t

get_name-looked_up :
    (c : ℕ) (name : List ℕ) (g : Predefined) (t : DefineTable)
    → (get_name (c ∷ name) g t).value ≡ looked_up (c ∷ name) g t
unfolding get_name
get_name-looked_up c name g t =
    let n = c ∷ name in
    elim (Bool-cases (same_name n counter_name)) [
      | inl counts ↦
          rw (get_name, second-same_name n counter_name refl, counts, same_name_nil c name)
      | inr other ↦ elim (Bool-cases (same_name n line_name)) [
        | inl line ↦ rw (
          get_name,
          second-same_name n counter_name refl,
          second-same_name n line_name refl,
          other,
          line,
          same_name_nil c name,
        )
        | inr none_of_them ↦
            rw
              (
                get_name,
                second-same_name n counter_name refl,
                second-same_name n line_name refl,
                other,
                none_of_them,
                same_name_nil c name,
              )
              (get_entry-table_value n g t)
      ]
    ]

-- Get looks in the table for all other names.
pub get-looked_up :
    (n : List ℕ) (g : Predefined) (t : DefineTable) → (get n g t).value ≡ looked_up n g t
unfolding get same_name
get-looked_up [] g t = refl
get-looked_up (c ∷ name) g t = get_name-looked_up c name g t

-- A change of the table for one name.
pub get-changed :
    (n : List ℕ) (g : Predefined) (t t' : DefineTable) (b : Bool) (v : Option (List ℕ))
    → table_value n t' ≡ (if b then v else table_value n t)
    → (get n g t').value
      ≡ (if is_dynamic n then dynamic_value n g else if b then v else (get n g t).value)
get-changed n g t t' b v change = get-looked_up n g t' ∙ elim (Bool-cases (is_dynamic n)) [
  | inl dynamic ↦ rw dynamic
  | inr plain ↦
      let before : (get n g t).value ≡ table_value n t = get-looked_up n g t ∙ rw plain in
      rw (plain, before) change
]

-- The number that a text of decimal digits spells, behind the digits of `acc`.
unfoldable decimal_value : ℕ → List ℕ → ℕ
decimal_value acc [] = acc
decimal_value acc (c ∷ text) = decimal_value (acc * 10 + (c - b'0')) text

decimal_value-last :
    (acc c : ℕ) (text : List ℕ)
    → decimal_value acc (text ++ (c ∷ [])) ≡ decimal_value acc text * 10 + (c - b'0')
unfolding decimal_value
decimal_value-last acc c [] = refl
decimal_value-last acc c (d ∷ text) = decimal_value-last (acc * 10 + (d - b'0')) c text

print_digits-decimal_value : (fuel n : ℕ) → n < fuel → decimal_value 0 (print_digits fuel n) ≡ n
unfolding print_digits decimal_value
print_digits-decimal_value zero n h = elim h [ ]
print_digits-decimal_value (suc fuel) n h = elim (Bool-cases (ltb n 10)) [
  | inl small ↦ rw small (omega arith)
  | inr big ↦
      let higher = print_digits-decimal_value fuel (n / 10) (omega (arith, h, ltb→le n 10 big)) in
      rw (big, decimal_value-last 0 (b'0' + n % 10) (print_digits fuel (n / 10)), higher)
        (omega arith)
]

-- The fuel of the decimal digits is enough: they spell the number.
print_decimal-decimal_value : (n : ℕ) → decimal_value 0 (print_decimal n) ≡ n
unfolding print_decimal
print_decimal-decimal_value n = print_digits-decimal_value (suc n) n (omega arith)
