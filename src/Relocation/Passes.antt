-- ===== src/Relocation/Passes.antt =====
-- The relocation table that is emitted in a pass which repeats the pass before it (sjasm/relocate.cpp).
use sjasmplus.Common.{
  ℕ, zero, suc, ◌+◌, ◌-◌, ◌%◌, ◌^◌, ◌<◌, ◌≡◌, refl, sym, ap, ◌∙◌, inl, inr, max, Bool, true, false,
  not, ◌&&◌, ◌||◌, none, some, List, [], ◌∷◌, ◌++◌, map, ◌==◌, length, get_elem?, get_or, All,
  append_assoc, append-nil, length-append, Bool-cases, ==-self, arith,
}
use native.Mathlib.Nat.{mod-eq_of_lt}
use sjasmplus.Relocation.{
  Relocation, is_active, add_offset_to_relocate, refresh_max_table_count, table_entry, table_words,
  relocate_table, relocation_init_pass,
}

-- The relocated spots of a part of a pass, one after the other.
unfoldable pub add_all : List ℕ → Relocation → Relocation
add_all [] r = r
add_all (o ∷ offsets) r = add_all offsets (add_offset_to_relocate o r)

get_elem?-length :
    (before after : List ℕ) (o : ℕ) → get_elem? (before ++ (o ∷ after)) (length before) ≡ some o
get_elem?-length [] after o = refl
get_elem?-length (x ∷ before) after o = get_elem?-length before after o

-- `r` in a pass that has `before` so far, after a pass with `all`.
abbrev in_pass : Relocation → List ℕ → List ℕ → Relocation
in_pass r before all = record r { offsets = before; offsets_previous = all }

add_offset-same :
    (r : Relocation) (before after : List ℕ) (o : ℕ)
    → o < 2 ^ 16
    → add_offset_to_relocate o (in_pass r before (before ++ (o ∷ after)))
      ≡ in_pass r (before ++ (o ∷ [])) (before ++ (o ∷ after))
unfolding add_offset_to_relocate
add_offset-same r before after o small = rw (
  add_offset_to_relocate,
  get_elem?-length before after o,
  ==-self o,
  no_warning r.warn_about_content_change,
  fits,
)
  where
    no_warning : (b : Bool) → (b && false) ≡ false
    no_warning true = refl
    no_warning false = refl

    fits : o % 2 ^ 16 ≡ o
    fits = mod-eq_of_lt small

add_all-same :
    (r : Relocation) (before middle after : List ℕ)
    → All (λ o. o < 2 ^ 16) middle
    → add_all middle (in_pass r before (before ++ (middle ++ after)))
      ≡ in_pass r (before ++ middle) (before ++ (middle ++ after))
unfolding add_all
add_all-same r before [] after small = rw (append-nil before)
add_all-same r before (o ∷ middle) after (fits, small) =
    let next = add_all-same r (before ++ (o ∷ [])) middle after small in
    let later =
      rw (append_assoc before (o ∷ []) (middle ++ after), append_assoc before (o ∷ []) middle) at
        next in
    rw (add_offset-same r before (middle ++ after) o fits) later

entry-none :
    (after : List ℕ) (i : ℕ) → elim (get_elem? after i) [ some o ↦ o | none ↦ 0 ] ≡ get_or after i 0
entry-none [] i = refl
entry-none (x ∷ after) zero = refl
entry-none (x ∷ after) (suc i) = entry-none after i

entry-get_or :
    (before after : List ℕ) (i : ℕ)
    → elim (get_elem? before i) [
      | some o ↦ o
      | none ↦ elim (get_elem? (before ++ after) i) [ some o ↦ o | none ↦ 0 ]
    ]
      ≡ get_or (before ++ after) i 0
entry-get_or [] after i = entry-none after i
entry-get_or (x ∷ before) after zero = refl
entry-get_or (x ∷ before) after (suc i) = entry-get_or before after i

-- A word of the table.
abbrev pub word_minus : ℕ → ℕ → ℕ
word_minus subtract offset = (offset + (2 ^ 32 - subtract)) % 2 ^ 16

table_words-map :
    (r : Relocation) (subtract i : ℕ) (xs : List ℕ)
    → ((j : ℕ) → table_entry r (i + j) ≡ get_or xs j 0)
    → table_words r subtract i (length xs) ≡ map (word_minus subtract) xs
unfolding table_words
table_words-map r subtract i [] h = refl
table_words-map r subtract i (x ∷ xs) h =
    let first : table_entry r i ≡ x = ap (table_entry r) (sum_zero i) ∙ h 0 in
    let later =
      table_words-map r subtract (suc i) xs (λ j. ap (table_entry r) (sum_suc i j) ∙ h (suc j)) in
    rw (first, later)
  where
    sum_zero : (i : ℕ) → i ≡ i + 0
    sum_zero i = omega arith

    sum_suc : (i j : ℕ) → suc i + j ≡ i + suc j
    sum_suc i j = omega arith

-- The fields that the count leaves, and the count.
record IsRefreshed (r r' : Relocation) : Type 0 where
  offsets_kept : r'.offsets ≡ r.offsets
  previous_kept : r'.offsets_previous ≡ r.offsets_previous
  messages_kept : r'.messages ≡ r.messages
  count : r'.max_table_count ≡ max r.max_table_count (length r.offsets)

refresh-IsRefreshed : (r : Relocation) → IsRefreshed r (refresh_max_table_count r)
unfolding refresh_max_table_count
refresh-IsRefreshed r =
    elim (Bool-cases (is_active r.type || not (max r.max_table_count (length r.offsets) == 0))) [
      | inl used ↦
          rw (refresh_max_table_count, used)
            (record {
              offsets_kept = refl;
              previous_kept = refl;
              messages_kept = refl;
              count = refl;
            })
      | inr unused ↦
          rw (refresh_max_table_count, unused)
            (record {
              offsets_kept = refl;
              previous_kept = refl;
              messages_kept = refl;
              count = refl;
            })
    ]

in_pass_self :
    (r : Relocation) (before all : List ℕ)
    → r.offsets ≡ before
    → r.offsets_previous ≡ all
    → r ≡ in_pass r before all
in_pass_self r before all e e' =
    ap (λ xs. record r { offsets = xs }) e
    ∙ ap (λ ys. record r { offsets = before; offsets_previous = ys }) e'

-- From a state that InitPass left.
module _ (before after : List ℕ) (small : All (λ o. o < 2 ^ 16) before)
    (small' : All (λ o. o < 2 ^ 16) after) (subtract : ℕ) (last_pass : Bool) (e : Relocation)
    (fresh : e.offsets ≡ []) (known : e.offsets_previous ≡ before ++ after)
    (counted : e.max_table_count ≡ length (before ++ after)) where
  midway : add_all before e ≡ in_pass e before (before ++ after)
  midway =
      ap (add_all before) (in_pass_self e [] (before ++ after) fresh known)
      ∙ add_all-same e [] before after small

  abbrev refreshed : Relocation
  refreshed = refresh_max_table_count (in_pass e before (before ++ after))

  kept : IsRefreshed (in_pass e before (before ++ after)) refreshed
  kept = refresh-IsRefreshed (in_pass e before (before ++ after))

  full_count : refreshed.max_table_count ≡ length (before ++ after)
  full_count = kept.count ∙ rw counted (omega (arith, length-append before after))

  entries : (j : ℕ) → table_entry refreshed (0 + j) ≡ get_or (before ++ after) j 0
  entries j =
      ap (table_entry refreshed) (sum j)
      ∙ ap (λ r. table_entry r j)
          (in_pass_self refreshed before (before ++ after) kept.offsets_kept kept.previous_kept)
      ∙ entry-get_or before after j
    where
      sum : (j : ℕ) → 0 + j ≡ j
      sum j = omega arith

  emitted-whole :
      (relocate_table subtract last_pass (add_all before e)).0
      ≡ map (word_minus subtract) (before ++ after)
  unfolding relocate_table
  emitted-whole =
      ap (λ r. (relocate_table subtract last_pass r).0) midway
      ∙ ap (table_words refreshed subtract 0) full_count
      ∙ table_words-map refreshed subtract 0 (before ++ after) entries

  all_nil : before ++ (after ++ []) ≡ before ++ after
  all_nil = ap (λ xs. before ++ xs) (append-nil after)

  abbrev warned : Relocation
  warned = record refreshed { warn_about_content_change = last_pass }

  at_end :
      add_all after (relocate_table subtract last_pass (add_all before e)).1
      ≡ in_pass warned (before ++ after) (before ++ after)
  unfolding relocate_table
  at_end =
      ap (λ r. add_all after (relocate_table subtract last_pass r).1) midway
      ∙ ap (add_all after) (
          in_pass_self warned before (before ++ (after ++ [])) kept.offsets_kept
            (kept.previous_kept ∙ sym all_nil))
      ∙ add_all-same warned before after [] small'
      ∙ ap (in_pass warned (before ++ after)) all_nil

init_pass-fields :
    (r : Relocation)
    → ((relocation_init_pass r).offsets ≡ [])
      × ((relocation_init_pass r).offsets_previous ≡ r.offsets)
      × ((relocation_init_pass r).max_table_count ≡ length r.offsets)
unfolding relocation_init_pass
init_pass-fields r = (refl, refl, refl)

-- The relocation table of a pass that repeats the offsets of the pass before, emitted after any part
-- of them: it is the whole table, each offset less the argument as a 16-bit word, no message is added,
-- and the pass ends with the same offsets. Offsets are 16-bit words.
pub relocate_table-repeated_pass :
    (before after : List ℕ) (subtract : ℕ) (last_pass : Bool) (r : Relocation)
    → All (λ o. o < 2 ^ 16) before
    → All (λ o. o < 2 ^ 16) after
    → r.offsets ≡ before ++ after
    → let entered = relocation_init_pass r in
      let emitted = relocate_table subtract last_pass (add_all before entered) in
      let ended = add_all after emitted.1 in
      (emitted.0 ≡ map (word_minus subtract) (before ++ after))
      × (ended.messages ≡ entered.messages)
      × (ended.offsets ≡ before ++ after)
relocate_table-repeated_pass before after subtract last_pass r small small' whole =
    let e = relocation_init_pass r in
    let (fresh, known, counted) = init_pass-fields r in
    let known' = known ∙ whole in
    let counted' = counted ∙ ap length whole in
    let end = at_end before after small small' subtract last_pass e fresh known' counted' in
    (
      emitted-whole before after small small' subtract last_pass e fresh known' counted',
      ap (λ q. q.messages) end
          ∙ (kept before after small small' subtract last_pass e fresh known'
              counted').messages_kept,
      ap (λ q. q.offsets) end,
    )
