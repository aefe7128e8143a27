-- ===== src/Defines/Examples.antt =====
-- Examples of the table of DEFINEs.
use sjasmplus.Common.{
  ℕ, zero, suc, ◌+◌, ◌≡◌, refl, subst, arith, ◌++◌, none, some, List, [], ◌∷◌, replicate,
}
use sjasmplus.Defines.{
  DefineEntry, DefineTable, new_define_table, same_name, cut_line, add, Predefined, get, replace,
  copy_from,
}
use sjasmplus.Defines.Lookup.{get-replace, get-add}
use sjasmplus.Defines.Copy.{oldest_value, get-copy_from, IsFiled}

abbrev first_line : Predefined
first_line = record { counter = 0; source_line = some 1 }

get-replace_example :
    (get (b'a' ∷ []) first_line (replace (b'a' ∷ []) (b'2' ∷ []) new_define_table).0).value
    ≡ some (b'2' ∷ [])
unfolding same_name
get-replace_example =
    get-replace (b'a' ∷ []) (b'a' ∷ []) (b'2' ∷ []) first_line new_define_table refl
      (unfold cut_line in refl)

get-add_example :
    (get (b'a' ∷ []) first_line (add (b'a' ∷ []) (b'2' ∷ []) none new_define_table)).value
    ≡ some (b'2' ∷ [])
unfolding same_name cut_line
get-add_example = get-add (b'a' ∷ []) (b'a' ∷ []) (b'2' ∷ []) none first_line new_define_table refl

-- `a` was added as 1 and then as 2: Get gives 2, and after the copy 1.
abbrev twice : List DefineEntry
twice =
    record { name = b'a' ∷ []; value = b'2' ∷ []; nss = none }
    ∷ record { name = b'a' ∷ []; value = b'1' ∷ []; nss = none }
    ∷ []

abbrev added_twice : DefineTable
added_twice = record new_define_table {
  defs = replicate 97 [] ++ (twice ∷ replicate 30 []);
  duplicates = 1;
}

empty-IsFiled : (k j : ℕ) → IsFiled j (replicate k [])
empty-IsFiled zero j = tt
empty-IsFiled (suc k) j = (tt, empty-IsFiled k (suc j))

behind_empty :
    (k j : ℕ) (rest : List (List DefineEntry))
    → IsFiled (j + k) rest
    → IsFiled j (replicate k [] ++ rest)
behind_empty zero j rest h = subst (λ i. IsFiled i rest) (omega arith) h
behind_empty (suc k) j rest h =
    (tt, behind_empty k (suc j) rest (subst (λ i. IsFiled i rest) (omega arith) h))

added_twice-IsFiled : IsFiled 0 added_twice.defs
unfolding cut_line
added_twice-IsFiled =
    behind_empty 97 0 (twice ∷ replicate 30 [])
      (((refl, refl), ((refl, refl), tt)), empty-IsFiled 30 98)

get-copy_from_example :
    (get (b'a' ∷ []) first_line (copy_from added_twice new_define_table)).value ≡ some (b'1' ∷ [])
unfolding same_name oldest_value
get-copy_from_example =
    get-copy_from (b'a' ∷ []) first_line added_twice new_define_table refl added_twice-IsFiled
