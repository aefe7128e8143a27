-- ===== src/Defines.antt =====
-- The table of DEFINEs: CDefineTable of sjasm/tables.cpp.
pub mod Lookup
pub mod Dynamic
pub mod Copy
mod Examples
use sjasmplus.Common.{
  ℕ, zero, suc, ◌+◌, ◌/◌, ◌%◌, ◌&&◌, ltb, Bool, true, false, not, ◌||◌, Option, none, some, List,
  [], ◌∷◌, ◌++◌, if◌then◌else◌, ◌==◌, bit_and, length, get_or, set, replicate,
}

-- `strcmp` of two names is zero.
unfoldable pub same_name : List ℕ → List ℕ → Bool
same_name [] [] = true
same_name [] (d ∷ m) = false
same_name (c ∷ n) [] = false
same_name (c ∷ n) (d ∷ m) = let rest = same_name n m in if c == d then rest else false

-- CDefineTableEntry: `nss` are the values of a DEFARRAY.
pub record DefineEntry : Type 0 where
  pub name : List ℕ
  pub value : List ℕ
  pub nss : Option (List (List ℕ))

-- The constructor of an entry ends its value at a line end.
unfoldable pub cut_line : List ℕ → List ℕ
cut_line [] = []
cut_line (c ∷ value) =
    let rest = cut_line value in if c == b'\n' || c == b'\r' then [] else c ∷ rest

-- `defs` are the 128 lists, the newest entry of each first; `duplicates` counts the reports of a
-- duplicate define.
pub record DefineTable : Type 0 where
  pub defs : List (List DefineEntry)
  pub def_array_list : Option (List (List ℕ))
  pub duplicates : ℕ

abbrev pub bucket_count : ℕ
bucket_count = 128

-- Init.
abbrev pub new_define_table : DefineTable
new_define_table = record {
  defs = replicate bucket_count [];
  def_array_list = none;
  duplicates = 0;
}

-- `(*name)&127`; an empty name has its terminator there.
abbrev pub bucket_of : List ℕ → ℕ
bucket_of [] = 0
bucket_of (c ∷ name) = bit_and c 127

abbrev pub bucket : List ℕ → DefineTable → List DefineEntry
bucket name t = get_or t.defs (bucket_of name) []

abbrev pub set_bucket : List ℕ → List DefineEntry → DefineTable → DefineTable
set_bucket name entries t = record t { defs = set t.defs (bucket_of name) entries }

-- The loop over the entries of a list.
unfoldable pub find_entry : List ℕ → List DefineEntry → Option DefineEntry
find_entry name [] = none
find_entry name (e ∷ entries) =
    let rest = find_entry name entries in if same_name name e.name then some e else rest

abbrev pub get_or_zero : Option ℕ → ℕ
get_or_zero none = 0
get_or_zero (some n) = n

abbrev is_some : Option DefineEntry → Bool
is_some none = false
is_some (some e) = true

unfoldable pub find_duplicate : List ℕ → DefineTable → Bool
find_duplicate name t = is_some (find_entry name (bucket name t))

unfoldable pub add : List ℕ → List ℕ → Option (List (List ℕ)) → DefineTable → DefineTable
add name value nss t =
    let t' = if find_duplicate name t then record t { duplicates = suc t.duplicates } else t in
    set_bucket name (record { name = name; value = cut_line value; nss = nss } ∷ bucket name t) t'

-- The globals that Get reads besides the table: PredefinedCounter, which counts up from 0, and the line of
-- `sourcePosStack.back()`, `none` if the stack is empty.
pub record Predefined : Type 0 where
  pub counter : ℕ
  pub source_line : Option ℕ

-- `%d` of a number that is not negative, on fuel for its digits.
unfoldable pub print_digits : ℕ → ℕ → List ℕ
print_digits zero n = []
print_digits (suc fuel) n =
    let higher = print_digits fuel (n / 10) in
    if ltb n 10 then (b'0' + n) ∷ [] else higher ++ ((b'0' + n % 10) ∷ [])

unfoldable pub print_decimal : ℕ → List ℕ
print_decimal n = print_digits (suc n) n

abbrev pub counter_name : List ℕ
counter_name = b'_' ∷ b'_' ∷ b'C' ∷ b'O' ∷ b'U' ∷ b'N' ∷ b'T' ∷ b'E' ∷ b'R' ∷ b'_' ∷ b'_' ∷ []

abbrev pub line_name : List ℕ
line_name = b'_' ∷ b'_' ∷ b'L' ∷ b'I' ∷ b'N' ∷ b'E' ∷ b'_' ∷ b'_' ∷ []

-- `name[1]`, the terminator of a shorter name.
abbrev pub second : List ℕ → ℕ
second (c ∷ d ∷ name) = d
second name = 0

-- What Get returns, with the table and the globals after it.
pub record Got : Type 0 where
  pub value : Option (List ℕ)
  pub table : DefineTable
  pub predefined : Predefined

-- The search of Get in the table.
unfoldable pub get_entry : List ℕ → Predefined → DefineTable → Got
get_entry name g t = elim (find_entry name (bucket name t)) [
  | none ↦ record { value = none; table = record t { def_array_list = none }; predefined = g }
  | some e ↦ record {
    value = some e.value;
    table = record t { def_array_list = e.nss };
    predefined = g;
  }
]

-- Get of a name that is not empty.
unfoldable pub get_name : List ℕ → Predefined → DefineTable → Got
get_name name g t =
    if second name == b'_' && same_name name counter_name
    then record {
      value = some (print_decimal g.counter);
      table = record t { def_array_list = none };
      predefined = record g { counter = suc g.counter };
    }
    else if second name == b'_' && same_name name line_name
    then record {
      value = some (print_decimal (get_or_zero g.source_line));
      table = record t { def_array_list = none };
      predefined = g;
    }
    else get_entry name g t

-- Get.
unfoldable pub get : List ℕ → Predefined → DefineTable → Got
get [] g t = record { value = none; table = record t { def_array_list = none }; predefined = g }
get (c ∷ name) g t = get_name (c ∷ name) g t

-- CDefineTableEntry::Replace on the entry with the name.
unfoldable pub replace_entry : List ℕ → List ℕ → List DefineEntry → Option (List DefineEntry)
replace_entry name value [] = none
replace_entry name value (e ∷ entries) =
    let rest = replace_entry name value entries in
    if same_name name e.name
    then some (record e { value = value } ∷ entries)
    else elim rest [ none ↦ none | some entries' ↦ some (e ∷ entries') ]

unfoldable pub replace : List ℕ → List ℕ → DefineTable → DefineTable × Bool
replace name value t = elim (replace_entry name value (bucket name t)) [
  | some entries ↦ (set_bucket name entries t, false)
  | none ↦ (
    set_bucket name (record { name = name; value = cut_line value; nss = none } ∷ bucket name t) t,
    true,
  )
]

unfoldable pub remove_entry : List ℕ → List DefineEntry → Option (List DefineEntry)
remove_entry name [] = none
remove_entry name (e ∷ entries) =
    let rest = remove_entry name entries in
    if same_name name e.name
    then some entries
    else elim rest [ none ↦ none | some entries' ↦ some (e ∷ entries') ]

unfoldable pub remove : List ℕ → DefineTable → DefineTable × Bool
remove name t = elim (remove_entry name (bucket name t)) [
  | some entries ↦ (record (set_bucket name entries t) { def_array_list = none }, true)
  | none ↦ (t, false)
]

unfoldable pub add_entries : List DefineEntry → DefineTable → DefineTable
add_entries [] t = t
add_entries (e ∷ entries) t = add_entries entries (add e.name e.value e.nss t)

unfoldable pub add_buckets : List (List DefineEntry) → DefineTable → DefineTable
add_buckets [] t = t
add_buckets (entries ∷ buckets) t = add_buckets buckets (add_entries entries t)

unfoldable pub remove_all : DefineTable → DefineTable
remove_all t = record t { defs = replicate bucket_count []; def_array_list = none }

-- operator=
unfoldable pub copy_from : DefineTable → DefineTable → DefineTable
copy_from source t = add_buckets source.defs (remove_all t)
