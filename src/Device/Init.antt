-- ===== src/Device/Init.antt =====
-- initRegularSlotDevice of sjasm/devices.cpp: a device of equal slots over one block of memory.
use sjasmplus.Common.{
  Bool, true, not, ◌||◌, leb, ◌==◌, ◌^◌, All, ℕ, zero, suc, ◌+◌, ◌-◌, ◌*◌, ◌≤◌, ◌<◌, ◌≡◌, refl, ap,
  ◌∙◌, false, Option, none, some, List, [], ◌∷◌, ◌++◌, append_assoc, append-nil, if◌then◌else◌, ltb,
  length, length-append, get_elem?, Bool-cases, ltb→lt, ltb→le, inl, inr, get_elem?-lt,
  get_elem?-ge, arith,
}
use sjasmplus.Common.Int.{pos}
use sjasmplus.Device.{
  DevicePage, DeviceSlot, Device, o_none, max_slot_n, max_page_n, new_device, add_slot, add_page,
  get_page, set_slot,
}
use sjasmplus.Device.Slots.{IsRegular}
use sjasmplus.Device.Made.{
  fresh_slot, made_slots, made_pages, length-made_slots, length-made_pages, made_pages-at,
  valid_page, count_beyond, shown_slots, shown_slots-at, length-shown_slots, get_page_at,
  get_page_beyond,
}

infixl 5 ◌>>=◌
abbrev pub ◌>>=◌ {ℓ κ} : {A : Type ℓ} {B : Type κ} → Option A → (A → Option B) → Option B
none >>= f = none
some a >>= f = f a

-- `rounds` slots from the address `adr` on.
unfoldable pub init_slots : ℕ → ℕ → ℕ → Device → Option Device
init_slots zero adr size d = some d
init_slots (suc rounds) adr size d = do
  d' ← add_slot adr size d
  init_slots rounds (adr + size) size d'

unfoldable pub init_pages : ℕ → ℕ → ℕ → Device → Option Device
init_pages zero ram size d = some d
init_pages (suc rounds) ram size d = do
  d' ← add_page ram size d
  init_pages rounds (ram + size) size d'

-- slot->Page = GetPage(initialPages[i]); slot->InitialPage = slot->Page->Number
abbrev pub map_slot : DeviceSlot → DevicePage → DeviceSlot
map_slot s p = record s { page = some p.number; initial_page = some p.number }

-- The last loop, with the count of wrong page numbers; `none` is a read outside of `initialPages` or of the
-- pages.
unfoldable pub map_slots : Device → List DeviceSlot → List ℕ → Option (List DeviceSlot × ℕ)
map_slots d [] pages = some ([], 0)
map_slots d (s ∷ slots) [] = none
map_slots d (s ∷ slots) (p ∷ pages) = do
  (page, wrong) ← get_page p d
  (mapped, count) ← map_slots d slots pages
  some (map_slot s page ∷ mapped, if wrong then suc count else count)

-- How often a loop runs whose counter goes up by the size.
abbrev pub rounds_of : ℕ → ℕ → ℕ
rounds_of size count = if size == 0 then 0 else count

-- The device and the count of wrong page numbers; `none` is a FATAL error or undefined: a product of the
-- loops that is no int32_t, or a read outside of an array.
unfoldable pub init_regular_slot_device : ℕ → ℕ → ℕ → List ℕ → Device → Option (Device × ℕ)
init_regular_slot_device slot_size slot_count page_count initial_pages d =
    if leb (2 ^ 31) (slot_size * slot_count) || leb (2 ^ 31) (slot_size * page_count)
    then none
    else do
      d₁ ← init_slots (rounds_of slot_size slot_count) 0 slot_size d
      d₂ ← init_pages (rounds_of slot_size page_count) 0 slot_size d₁
      (slots, wrong) ← map_slots d₂ d₂.slots initial_pages
      let d₃ = record d₂ { slots = slots }
      some ((set_slot (pos (length d₃.slots - 1)) d₃).0, wrong)

add_slot_room :
    (adr size : ℕ) (d : Device)
    → length d.slots < max_slot_n
    → add_slot adr size d ≡ some (record d { slots = d.slots ++ (fresh_slot adr size ∷ []) })
unfolding add_slot
add_slot_room adr size d h = ground arith

init_slots-made_slots :
    (rounds adr size : ℕ) (d : Device)
    → length d.slots + rounds ≤ max_slot_n
    → init_slots rounds adr size d
      ≡ some (record d { slots = d.slots ++ made_slots rounds adr size })
unfolding init_slots
init_slots-made_slots zero adr size d h = rw append-nil
init_slots-made_slots (suc rounds) adr size d h = rw (add_slot_room adr size d (omega arith)) (
    init_slots-made_slots rounds (adr + size) size _
      (omega (arith, length-append d.slots (fresh_slot adr size ∷ [])))
    ∙ rw append_assoc)

add_page_room :
    (ram size : ℕ) (d : Device)
    → length d.pages < max_page_n
    → add_page ram size d
      ≡ some (record d {
        pages = d.pages ++ (record { size = size; number = length d.pages; ram = ram } ∷ []);
      })
unfolding add_page
add_page_room ram size d h = ground arith

init_pages-made_pages :
    (rounds ram size : ℕ) (d : Device)
    → length d.pages + rounds ≤ max_page_n
    → init_pages rounds ram size d
      ≡ some (record d { pages = d.pages ++ made_pages rounds (length d.pages) ram size })
unfolding init_pages
init_pages-made_pages zero ram size d h = rw append-nil
init_pages-made_pages (suc rounds) ram size d h =
    let page : DevicePage = record { size = size; number = length d.pages; ram = ram } in
    rw (add_page_room ram size d (omega arith)) (
      init_pages-made_pages rounds (ram + size) size _ (rw (number d.pages page) (omega arith))
      ∙ rw (number d.pages page, append_assoc))
  where
    number : (xs : List DevicePage) (p : DevicePage) → length (xs ++ (p ∷ [])) ≡ suc (length xs)
    number xs p = omega (arith, length-append xs (p ∷ []))

-- What initRegularSlotDevice promises: equal slots one after the other, pages that divide the memory,
-- slot `i` mapped to the page that the list names (page 0 where the device has no such page), and the
-- last slot as the current one.
pub record IsInitialised (size slot_count page_count : ℕ) (initial_pages : List ℕ) (d : Device)
    : Type 0 where
  pub regular : IsRegular size d.slots
  pub slots_made : length d.slots ≡ slot_count
  pub pages_made : length d.pages ≡ page_count
  pub page_at :
      (i : ℕ)
      → i < page_count
      → get_elem? d.pages i ≡ some (record { size = size; number = i; ram = i * size })
  pub mapped_at :
      (i p : ℕ)
      → i < slot_count
      → get_elem? initial_pages i ≡ some p
      → get_elem? d.slots i
        ≡ some (record {
          address = i * size;
          size = size;
          page = some (valid_page page_count p);
          initial_page = some (valid_page page_count p);
          option = o_none;
        })
  pub last_current : d.current_slot ≡ slot_count - 1

count_of : (b : Bool) (c : ℕ) → (if not b then suc c else c) ≡ (if b then c else suc c)
count_of true c = refl
count_of false c = refl

module _ (size n : ℕ) (d : Device) (some_page : 0 < n)
    (made : d.pages ≡ made_pages n 0 0 size) where
  pages_at :
      (i : ℕ)
      → i < n
      → get_elem? d.pages i ≡ some (record { size = size; number = i; ram = i * size })
  pages_at i h = rw made (made_pages-at n 0 0 size i h ∙ ground arith)

  get_page-valid_page :
      (p : ℕ)
      → p < max_page_n
      → let i = valid_page n p in
        get_page p d ≡ some (record { size = size; number = i; ram = i * size }, not (ltb p n))
  get_page-valid_page p few = elim (Bool-cases (ltb p n)) [
    | inl inside ↦ rw inside (get_page_at p d _ (pages_at p (ltb→lt p n inside)))
    | inr outside ↦ rw outside (get_page_beyond p d _ (beyond outside) few (pages_at 0 some_page))
  ]
    where
      beyond : ltb p n ≡ false → get_elem? d.pages p ≡ none
      beyond outside = rw made (
          get_elem?-ge (made_pages n 0 0 size) p
            (omega (arith, ltb→le p n outside, length-made_pages n 0 0 size)))

  map_slots-shown_slots :
      (slots : List DeviceSlot) (pages : List ℕ)
      → length slots ≤ length pages
      → All (λ p. p < max_page_n) pages
      → map_slots d slots pages
        ≡ some (shown_slots n slots pages, count_beyond n (length slots) pages)
  unfolding map_slots
  map_slots-shown_slots [] pages h few = refl
  map_slots-shown_slots (s ∷ slots) [] h few = elim h [ ]
  map_slots-shown_slots (s ∷ slots) (p ∷ pages) h (small, few) =
      rw
        (
          map_slots,
          get_page-valid_page p small,
          map_slots-shown_slots slots pages (omega arith) few,
        )
        (ap (λ count. some (shown_slots n (s ∷ slots) (p ∷ pages), count))
          (count_of (ltb p n) (count_beyond n (length slots) pages)))

module _ (size slot_count page_count : ℕ) (initial_pages : List ℕ) where
  abbrev paged : Device
  paged = record new_device { pages = made_pages page_count 0 0 size }

  abbrev initialised : Device
  initialised = record paged {
    slots = shown_slots page_count (made_slots slot_count 0 size) initial_pages;
    current_slot = slot_count - 1;
  }

  length-initialised : slot_count ≤ length initial_pages → length initialised.slots ≡ slot_count
  length-initialised named =
      length-shown_slots page_count (made_slots slot_count 0 size) initial_pages
        (omega (arith, length-made_slots slot_count 0 size))
      ∙ length-made_slots slot_count 0 size

  set_slot-last :
      0 < slot_count
      → slot_count ≤ length initial_pages
      → (set_slot
          (pos (length initialised.slots - 1))
          (record paged { slots = initialised.slots })).0
        ≡ initialised
  unfolding set_slot
  set_slot-last some_slot named = rw (length-initialised named) (ground arith)

  init_regular_slot_device-initialised :
      0 < size
      → 0 < slot_count
      → slot_count ≤ max_slot_n
      → 0 < page_count
      → page_count ≤ max_page_n
      → size * slot_count < 2 ^ 31
      → size * page_count < 2 ^ 31
      → slot_count ≤ length initial_pages
      → All (λ p. p < max_page_n) initial_pages
      → init_regular_slot_device size slot_count page_count initial_pages new_device
        ≡ some (initialised, count_beyond page_count slot_count initial_pages)
  unfolding init_regular_slot_device
  init_regular_slot_device-initialised positive some_slot hs some_page hp small_slots small_pages
        named few =
      let d : Device = record paged { slots = made_slots slot_count 0 size } in
      let slotted : Device = record new_device { slots = made_slots slot_count 0 size } in
      let fits : (leb (2 ^ 31) (size * slot_count) || leb (2 ^ 31) (size * page_count)) ≡ false =
        ground (arith, small_slots, small_pages) in
      let some_size : (size == 0) ≡ false = ground (arith, positive) in
      let shown =
        map_slots-shown_slots size page_count d some_page refl (made_slots slot_count 0 size)
          initial_pages (omega (arith, length-made_slots slot_count 0 size)) few in
      rw
        (
          fits,
          some_size,
          init_slots-made_slots slot_count 0 size new_device (omega arith),
          init_pages-made_pages page_count 0 size slotted (omega arith),
          shown,
        )
        (ap
            (λ k.
              let d = record paged { slots = initialised.slots } in
              some (
                (set_slot (pos (length initialised.slots - 1)) d).0,
                count_beyond page_count k initial_pages,
              ))
            (length-made_slots slot_count 0 size)
          ∙ ap (λ d. some (d, count_beyond page_count slot_count initial_pages))
              (set_slot-last some_slot named))

  -- On a device without slots and pages initRegularSlotDevice succeeds for 1 to 256 slots and 1 to 4096
  -- pages of one size that is not 0, if the sizes of all slots and of all pages fit an int32_t, and for a
  -- list with a number below 4096 for each slot. It makes equal slots one after the other and pages that
  -- divide the memory; slot `i` is mapped to the page that the list names, or to page 0 if the device has
  -- no such page, which is reported once for each such slot, and the last slot is the current one.
  pub init_regular_slot_device-IsInitialised :
      0 < size
      → 0 < slot_count
      → slot_count ≤ max_slot_n
      → 0 < page_count
      → page_count ≤ max_page_n
      → size * slot_count < 2 ^ 31
      → size * page_count < 2 ^ 31
      → slot_count ≤ length initial_pages
      → All (λ p. p < max_page_n) initial_pages
      → (d : Device) × (init_regular_slot_device size slot_count page_count initial_pages new_device
          ≡ some (d, count_beyond page_count slot_count initial_pages))
        × IsInitialised size slot_count page_count initial_pages d
  init_regular_slot_device-IsInitialised positive some_slot hs some_page hp small_slots small_pages
        named few =
      (
        initialised,
        init_regular_slot_device-initialised positive some_slot hs some_page hp small_slots
            small_pages named few,
        record {
          regular = record { positive = positive; slot_at = slot_at };
          slots_made = length-initialised named;
          pages_made = length-made_pages page_count 0 0 size;
          page_at = pages_at size page_count paged some_page refl;
          mapped_at = mapped_at;
          last_current = refl;
        },
      )
    where
      mapped_at :
          (i p : ℕ)
          → i < slot_count
          → get_elem? initial_pages i ≡ some p
          → get_elem? initialised.slots i
            ≡ some (record {
              address = i * size;
              size = size;
              page = some (valid_page page_count p);
              initial_page = some (valid_page page_count p);
              option = o_none;
            })
      mapped_at i p h e =
          shown_slots-at page_count slot_count 0 size i p initial_pages h e ∙ ground arith

      slot_at :
          (i : ℕ)
          → i < length initialised.slots
          → (s : DeviceSlot) × (get_elem? initialised.slots i ≡ some s)
            × (s.address ≡ i * size)
            × (s.size ≡ size)
      slot_at i h =
          let inside : i < slot_count = omega (arith, length-initialised named) in
          let (p, e) = get_elem?-lt initial_pages i (omega arith) in
          (_, mapped_at i p inside e, refl, refl)
