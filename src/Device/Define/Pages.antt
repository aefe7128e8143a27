-- ===== src/Device/Define/Pages.antt =====
-- The initial pages of a user-defined device (dirDEFDEVICE of sjasm/directives.cpp).
use sjasmplus.Common.{
  ℕ, zero, suc, ◌+◌, ◌-◌, ◌*◌, ◌/◌, ◌^◌, ◌≤◌, ◌<◌, ◌≡◌, refl, sym, ap, ◌∙◌, inl, inr, Bool, true,
  false, not, ◌||◌, Option, none, some, List, [], ◌∷◌, ◌++◌, if◌then◌else◌, ltb, min, length,
  get_elem?, replicate, All, Bool-cases, lt→ltb, ltb→lt, ltb→le, subst, arith,
}
use sjasmplus.Common.Int.{ℤ, pos, negsuc, pos_part}
use sjasmplus.Device.{Device, below, max_page_n}
use sjasmplus.Device.Made.{count_beyond}
use sjasmplus.Device.Init.{IsInitialised, init_regular_slot_device-IsInitialised}
use sjasmplus.Device.Define.{
  get_int_arguments, default_args, default_optional, label_page_max_ram, following_page, slot_page,
  choose_pages, DeviceDef, syntax_error, invalid_size, defined, make_def, check_sizes, def_device,
  set_user_defined_device, is_zero,
}
use native.Mathlib.Nat.{mul-le-mul, div-lt_iff_lt-mul, le-div_iff_mul-le}

-- The page that follows `previous` if the device has one more.
abbrev start : Option ℕ → ℕ
start none = 0
start (some p) = p + 1

abbrev IsPage : ℕ → Option ℕ → Type 0
IsPage count none = 0 < count
IsPage count (some p) = p < count

following_page-min :
    (count : ℕ) (previous : Option ℕ)
    → IsPage count previous
    → following_page count previous ≡ min (start previous) (count - 1)
following_page-min count none h = ground arith
following_page-min count (some p) h = ground arith

following_page-IsPage :
    (count : ℕ) (previous : Option ℕ)
    → IsPage count previous
    → following_page count previous < count
following_page-IsPage count none h = h
following_page-IsPage count (some p) h = ground arith

step :
    (count i : ℕ) (previous : Option ℕ)
    → IsPage count previous
    → some (min (following_page count previous + 1 + i) (count - 1))
      ≡ some (min (start previous + suc i) (count - 1))
step count i none h = ap some (omega arith)
step count i (some p) h = ap some (ground arith)

choose_pages-unset :
    (slots count unset i : ℕ) (rest : List ℤ) (previous : Option ℕ)
    → IsPage count previous
    → i < unset
    → i < slots
    → get_elem? (choose_pages slots count (replicate unset (negsuc 0) ++ rest) previous) i
      ≡ some (min (start previous + i) (count - 1))
unfolding choose_pages
choose_pages-unset zero count unset i rest previous h le lt = absurd (omega arith)
choose_pages-unset (suc slots) count zero i rest previous h le lt = absurd (omega arith)
choose_pages-unset (suc slots) count (suc unset) zero rest previous h le lt =
    ap some (following_page-min count previous h ∙ omega arith)
choose_pages-unset (suc slots) count (suc unset) (suc i) rest previous h le lt =
    choose_pages-unset slots count unset i rest (some (following_page count previous))
      (following_page-IsPage count previous h) (omega arith) (omega arith)
    ∙ step count i previous h

choose_pages-zero :
    (slots count unset spare i : ℕ) (previous : Option ℕ)
    → 0 < count
    → unset ≤ i
    → i < unset + spare
    → i < slots
    → get_elem?
        (choose_pages slots count (replicate unset (negsuc 0) ++ replicate spare (pos 0)) previous)
        i
      ≡ some 0
unfolding choose_pages
choose_pages-zero zero count unset spare i previous h lo hi lt = absurd (omega arith)
choose_pages-zero (suc slots) count zero zero i previous h lo hi lt = absurd (omega arith)
choose_pages-zero (suc slots) count zero (suc spare) zero previous h lo hi lt = ground arith
choose_pages-zero (suc slots) count zero (suc spare) (suc i) previous h lo hi lt =
    choose_pages-zero slots count zero spare i _ h (omega arith) (omega arith) (omega arith)
choose_pages-zero (suc slots) count (suc unset) spare zero previous h lo hi lt =
    absurd (omega arith)
choose_pages-zero (suc slots) count (suc unset) spare (suc i) previous h lo hi lt =
    choose_pages-zero slots count unset spare i _ h (omega arith) (omega arith) (omega arith)

slot_page-IsPage :
    (count : ℕ) (a : ℤ) (previous : Option ℕ)
    → IsPage count previous
    → slot_page count a previous < count
slot_page-IsPage count (negsuc n) previous h = following_page-IsPage count previous h
slot_page-IsPage count (pos p) previous h = ground (arith, following_page-IsPage count previous h)

choose_pages-All :
    (slots count : ℕ) (args : List ℤ) (previous : Option ℕ)
    → IsPage count previous
    → slots ≤ length args
    → All (λ p. p < count) (choose_pages slots count args previous)
      × (length (choose_pages slots count args previous) ≡ slots)
unfolding choose_pages
choose_pages-All zero count args previous h le = (tt, refl)
choose_pages-All (suc slots) count [] previous h le = absurd (omega arith)
choose_pages-All (suc slots) count (a ∷ args) previous h le =
    let valid = slot_page-IsPage count a previous h in
    let (rest, size) =
      choose_pages-All slots count args (some (slot_page count a previous)) valid (omega arith) in
    ((valid, rest), ap suc size)

check_sizes-valid :
    (size count : ℕ) (initial : List ℤ)
    → 256 ≤ size
    → size ≤ 0x10000
    → 1 ≤ count
    → count ≤ label_page_max_ram
    → check_sizes (pos size ∷ pos count ∷ initial) ≡ defined (make_def size count initial)
unfolding check_sizes
check_sizes-valid size count initial hs hs' hc hc' = ground arith

abbrev preset : List ℤ
preset = replicate 254 (negsuc 0) ++ replicate 2 (pos 0)

def_device-sizes :
    (size count : ℕ)
    → def_device (some (pos size) ∷ some (pos count) ∷ [])
      ≡ check_sizes (pos size ∷ pos count ∷ preset)
unfolding def_device get_int_arguments
def_device-sizes size count = refl

implicit_page :
    (slots count i : ℕ)
    → 1 ≤ count
    → i < slots
    → slots ≤ 256
    → get_elem? (choose_pages slots count preset none) i
      ≡ some (if ltb i 254 then min i (count - 1) else 0)
implicit_page slots count i hc lt small = elim (Bool-cases (ltb i 254)) [
  | inl unset ↦ rw unset (
      choose_pages-unset slots count 254 i (replicate 2 (pos 0)) none hc (ltb→lt i 254 unset) lt
      ∙ ap (λ j. some (min j (count - 1))) (omega arith))
  | inr zeroed ↦
      rw zeroed
        (choose_pages-zero slots count 254 2 i none hc (ltb→le i 254 zeroed) (omega arith) lt)
]

slots_bound : (size : ℕ) → 256 ≤ size → (0x10000 + size - 1) / size ≤ 256
slots_bound size h = omega (arith, (div-lt_iff_lt-mul (positive h)).1 (bound h))
  where
    positive : 256 ≤ size → 0 < size
    positive h = omega arith

    bound : 256 ≤ size → 0x10000 + size - 1 < 257 * size
    bound h = omega arith

-- Without initial pages slot `i` of a user-defined device starts with page `i`, or with the last page
-- where there are fewer, for slot sizes from 256 to 65536 and 1 to 30000 pages; but slots 254 and 255,
-- which only a device with slots of 256 to 258 bytes has, start with page 0.
pub def_device-implicit_pages :
    (size count : ℕ)
    → 256 ≤ size
    → size ≤ 0x10000
    → 1 ≤ count
    → count ≤ label_page_max_ram
    → (def : DeviceDef) × (def_device (some (pos size) ∷ some (pos count) ∷ []) ≡ defined def)
      × (def.slots_count ≡ (0x10000 + size - 1) / size)
      × ((i : ℕ)
          → i < def.slots_count
          → get_elem? def.initial_pages i ≡ some (if ltb i 254 then min i (count - 1) else 0))
unfolding make_def
def_device-implicit_pages size count hs hs' hc hc' = (
  make_def size count preset,
  def_device-sizes size count ∙ check_sizes-valid size count preset hs hs' hc hc',
  refl,
  λ i lt. implicit_page ((0x10000 + size - 1) / size) count i hc lt (slots_bound size hs),
)

length-get_int_arguments :
    (first : Bool) (args : List ℤ) (optional : List Bool) (given : List (Option ℤ))
    → length (get_int_arguments first args optional given).0 ≡ length args
unfolding get_int_arguments
length-get_int_arguments first [] optional [] = refl
length-get_int_arguments first [] optional (g ∷ given) = refl
length-get_int_arguments first (a ∷ args) [] given = refl
length-get_int_arguments first (a ∷ args) (o ∷ optional) [] = refl
length-get_int_arguments first (a ∷ args) (o ∷ optional) (none ∷ given) = refl
length-get_int_arguments first (a ∷ args) (o ∷ optional) (some v ∷ given) =
    ap suc (length-get_int_arguments false args optional given)

-- What a definition that was accepted satisfies.
record IsValid (def : DeviceDef) : Type 0 where
  size_min : 256 ≤ def.slot_size
  size_max : def.slot_size ≤ 0x10000
  slots : def.slots_count ≡ (0x10000 + def.slot_size - 1) / def.slot_size
  count_min : 1 ≤ def.pages_count
  valid_pages : All (λ p. p < def.pages_count) def.initial_pages
  pages_given : length def.initial_pages ≡ def.slots_count

abbrev refused : ℤ → ℤ → Bool
refused size count =
    below size 256
    || not (below size 0x10001)
    || below count 1
    || not (below count (label_page_max_ram + 1))

in_range :
    (size count : ℤ)
    → refused size count ≡ false
    → (256 ≤ pos_part size) × (pos_part size ≤ 0x10000) × (1 ≤ pos_part count)
in_range (pos size) (pos count) h = ground (arith, h)
in_range (pos size) (negsuc count) h = ground (arith, h)
in_range (negsuc size) count h = absurd (cc h)

not_defined : {def : DeviceDef} → ¬ (invalid_size ≡ defined def)
not_defined e = cc e

same_def : {a b : DeviceDef} → defined a ≡ defined b → a ≡ b
same_def e = cc e

make_def-IsValid :
    (size count : ℕ) (initial : List ℤ)
    → 256 ≤ size
    → size ≤ 0x10000
    → 1 ≤ count
    → length initial ≡ 256
    → IsValid (make_def size count initial)
unfolding make_def
make_def-IsValid size count initial hs hs' hc h =
    let (all, size_kept) =
      choose_pages-All ((0x10000 + size - 1) / size) count initial none hc
        (omega (arith, slots_bound size hs)) in
    record {
      size_min = hs;
      size_max = hs';
      slots = refl;
      count_min = hc;
      valid_pages = all;
      pages_given = size_kept;
    }

check_sizes-IsValid :
    (args : List ℤ) (def : DeviceDef)
    → length args ≡ 258
    → check_sizes args ≡ defined def
    → IsValid def
unfolding check_sizes
check_sizes-IsValid [] def h e = absurd (cc e)
check_sizes-IsValid (a ∷ []) def h e = absurd (cc e)
check_sizes-IsValid (size ∷ count ∷ initial) def h e = elim (Bool-cases (refused size count)) [
  | inl bad ↦ absurd (not_defined (sym (rw bad) ∙ e))
  | inr good ↦
      let (zs, zs', zc) = in_range size count good in
      let made = same_def (sym (rw good) ∙ e) in
      subst IsValid made
        (make_def-IsValid (pos_part size) (pos_part count) initial zs zs' zc (omega arith))
]

def_device-IsValid :
    (given : List (Option ℤ)) (def : DeviceDef) → def_device given ≡ defined def → IsValid def
unfolding def_device
def_device-IsValid given def e =
    let filled = get_int_arguments true default_args default_optional given in
    elim (Bool-cases filled.1) [
      | inl ok ↦
          check_sizes-IsValid filled.0 def
            (length-get_int_arguments true default_args default_optional given) (sym (rw ok) ∙ e)
      | inr bad ↦ absurd (no_syntax (sym (rw bad) ∙ e))
    ]
  where
    no_syntax : ¬ (syntax_error ≡ defined def)
    no_syntax e = cc e

All-below : (m n : ℕ) (ps : List ℕ) → m ≤ n → All (λ p. p < m) ps → All (λ p. p < n) ps
All-below m n [] h all = tt
All-below m n (p ∷ ps) h (lt, all) = (omega (arith, lt), All-below m n ps h all)

count_beyond-zero :
    (count slots : ℕ) (ps : List ℕ) → All (λ p. p < count) ps → count_beyond count slots ps ≡ 0
count_beyond-zero count zero ps all = refl
count_beyond-zero count (suc slots) [] all = refl
count_beyond-zero count (suc slots) (p ∷ ps) (lt, all) =
    rw (lt→ltb p count lt) (count_beyond-zero count slots ps all)

-- A device of an accepted definition with at most 4096 pages: SetUserDefinedDevice makes it as
-- initRegularSlotDevice promises, from initial pages that the device has and without a report of a wrong
-- page; it warns exactly of a RAMTOP that is not 0.
pub set_user_defined_device-IsInitialised :
    (ramtop : ℤ) (given : List (Option ℤ)) (def : DeviceDef)
    → def_device given ≡ defined def
    → def.pages_count ≤ max_page_n
    → All (λ p. p < def.pages_count) def.initial_pages
      × (d : Device) × (set_user_defined_device ramtop def
          ≡ some (record { device = d; wrong_pages = 0; no_ramtop = not (is_zero ramtop) }))
      × IsInitialised def.slot_size def.slots_count def.pages_count def.initial_pages d
unfolding set_user_defined_device
set_user_defined_device-IsInitialised ramtop given def e few =
    let v = def_device-IsValid given def e in
    let bound = slots_bound def.slot_size v.size_min in
    let (d, made, initialised) =
      init_regular_slot_device-IsInitialised def.slot_size def.slots_count def.pages_count
        def.initial_pages (omega (arith, v.size_min)) (some_slot v) (omega (arith, v.slots))
        v.count_min few (slots_fit v) (pages_fit v) (omega (arith, v.pages_given))
        (All-below def.pages_count max_page_n def.initial_pages few v.valid_pages) in
    let clean = count_beyond-zero def.pages_count def.slots_count def.initial_pages v.valid_pages in
    (v.valid_pages, d, rw (made, clean), initialised)
  where
    slots_fit : IsValid def → def.slot_size * def.slots_count < 2 ^ 31
    slots_fit v =
        let few_slots : def.slots_count ≤ 256 =
          omega (arith, v.slots, slots_bound def.slot_size v.size_min) in
        omega (arith, mul-le-mul v.size_max few_slots)

    pages_fit : IsValid def → def.slot_size * def.pages_count < 2 ^ 31
    pages_fit v = omega (arith, mul-le-mul v.size_max few)

    some_slot : IsValid def → 0 < def.slots_count
    some_slot v = omega (arith, v.slots, (le-div_iff_mul-le positive).1 (one_slot v.size_min))
      where
        positive : 0 < def.slot_size
        positive = omega (arith, v.size_min)

        one_slot : 256 ≤ def.slot_size → 1 * def.slot_size ≤ 0x10000 + def.slot_size - 1
        one_slot h = omega arith
