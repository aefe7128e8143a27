-- ===== src/Device/Made.antt =====
-- Equal slots and pages as lists, and the pages that GetPage finds among them (sjasm/devices.cpp).
use sjasmplus.Common.{
  true, lt→ltb, ℕ, zero, suc, ◌+◌, ◌*◌, ◌≤◌, ◌<◌, ◌≡◌, refl, ap, ◌∙◌, false, none, some, List, [],
  ◌∷◌, if◌then◌else◌, ltb, length, get_elem?, arith,
}
use sjasmplus.Device.{
  DevicePage, DeviceSlot, Device, o_none, max_page_n, get_page, entry_of, wrong_number,
}

abbrev pub fresh_slot : ℕ → ℕ → DeviceSlot
fresh_slot adr size = record {
  address = adr;
  size = size;
  page = none;
  initial_page = none;
  option = o_none;
}

abbrev pub made_slots : ℕ → ℕ → ℕ → List DeviceSlot
made_slots zero adr size = []
made_slots (suc rounds) adr size = fresh_slot adr size ∷ made_slots rounds (adr + size) size

abbrev pub made_pages : ℕ → ℕ → ℕ → ℕ → List DevicePage
made_pages zero number ram size = []
made_pages (suc rounds) number ram size =
    record { size = size; number = number; ram = ram }
    ∷ made_pages rounds (suc number) (ram + size) size

pub length-made_slots : (n adr size : ℕ) → length (made_slots n adr size) ≡ n
length-made_slots zero adr size = refl
length-made_slots (suc n) adr size = ap suc (length-made_slots n (adr + size) size)

pub length-made_pages : (n k ram size : ℕ) → length (made_pages n k ram size) ≡ n
length-made_pages zero k ram size = refl
length-made_pages (suc n) k ram size = ap suc (length-made_pages n (suc k) (ram + size) size)

pub made_pages-at :
    (n k ram size i : ℕ)
    → i < n
    → get_elem? (made_pages n k ram size) i
      ≡ some (record { size = size; number = k + i; ram = ram + i * size })
made_pages-at zero k ram size i h = elim h [ ]
made_pages-at (suc n) k ram size zero h = ground arith
made_pages-at (suc n) k ram size (suc i) h =
    made_pages-at n (suc k) (ram + size) size i (omega arith) ∙ ground arith

-- The page that a number of the list gives.
abbrev pub valid_page : ℕ → ℕ → ℕ
valid_page page_count p = if ltb p page_count then p else 0

-- How many of the first numbers of the list no page has.
abbrev pub count_beyond : ℕ → ℕ → List ℕ → ℕ
count_beyond page_count zero pages = 0
count_beyond page_count (suc slots) [] = 0
count_beyond page_count (suc slots) (p ∷ pages) =
    let rest = count_beyond page_count slots pages in if ltb p page_count then rest else suc rest

abbrev pub shown_slots : ℕ → List DeviceSlot → List ℕ → List DeviceSlot
shown_slots page_count [] pages = []
shown_slots page_count (s ∷ slots) [] = []
shown_slots page_count (s ∷ slots) (p ∷ pages) =
    let page = valid_page page_count p in
    record s { page = some page; initial_page = some page } ∷ shown_slots page_count slots pages

-- Slot `i` after the mapping: its own address and size, and the page that the list asks for.
pub shown_slots-at :
    (page_count n adr size i p : ℕ) (pages : List ℕ)
    → i < n
    → get_elem? pages i ≡ some p
    → let page = some (valid_page page_count p) in
      get_elem? (shown_slots page_count (made_slots n adr size) pages) i
      ≡ some (record (fresh_slot (adr + i * size) size) { page = page; initial_page = page })
shown_slots-at count zero adr size i p pages h e = elim h [ ]
shown_slots-at count (suc n) adr size i p [] h e = cc
shown_slots-at count (suc n) adr size zero p (q ∷ pages) h e = ground arith
shown_slots-at count (suc n) adr size (suc i) p (q ∷ pages) h e =
    shown_slots-at count n (adr + size) size i p pages (omega arith) e ∙ ground arith

pub length-shown_slots :
    (page_count : ℕ) (slots : List DeviceSlot) (pages : List ℕ)
    → length slots ≤ length pages
    → length (shown_slots page_count slots pages) ≡ length slots
length-shown_slots count [] pages h = refl
length-shown_slots count (s ∷ slots) [] h = elim h [ ]
length-shown_slots count (s ∷ slots) (p ∷ pages) h =
    ap suc (length-shown_slots count slots pages (omega arith))

pub get_page_at :
    (i : ℕ) (d : Device) (p : DevicePage)
    → get_elem? d.pages i ≡ some p
    → get_page i d ≡ some (p, false)
unfolding get_page
get_page_at i d p e = ap (entry_of (ltb i max_page_n) (get_elem? d.pages 0)) e

pub get_page_beyond :
    (i : ℕ) (d : Device) (p : DevicePage)
    → get_elem? d.pages i ≡ none
    → i < max_page_n
    → get_elem? d.pages 0 ≡ some p
    → get_page i d ≡ some (p, true)
unfolding get_page
get_page_beyond i d p e few first =
    ap (λ o. entry_of (ltb i max_page_n) (get_elem? d.pages 0) o) e
    ∙ ap (λ b. entry_of b (get_elem? d.pages 0) none) (lt→ltb i max_page_n few)
    ∙ ap wrong_number first
