-- ===== src/Device/CheckPage/Wrap.antt =====
-- The slot option O_NEXT in CheckPage (sjasm/devices.cpp): the page after the end of the slot.
use sjasmplus.Common.{
  ℕ, zero, suc, ◌+◌, ◌-◌, ◌≤◌, ◌<◌, ◌≡◌, refl, sym, ap, ◌∙◌, inl, inr, true, false, not, ◌&&◌, ◌||◌,
  some, List, [], ◌∷◌, ◌++◌, ltb, leb, ◌==◌, length, get_elem?, set, get_elem?-lt, append_assoc,
  get_elem?-some, Bool-cases, ==→eq, arith,
}
use sjasmplus.Common.Int.{pos}
use sjasmplus.Device.{DeviceSlot, Device, DevicePage, o_none, o_next, below, within_slot}
use sjasmplus.Device.CheckPage.{
  CheckLevel, check_reset, check_no_emit, check_emit, refresh_slot, disp_none, Emission,
  long_address, is_reset, wrap_displaced, point_at, find_start, low_word, no_next_page, wrap_around,
  leave_next, leave_slot, enter_slot, scan_slots, check_wrapped, check_page, next_page,
  no_more_pages, size_boundary_flow, notify, set_option, set_page,
}
use sjasmplus.Device.CheckPage.Pointer.{find_start-at, minus_end, same_slot}

find_start-first :
    (slots : List DeviceSlot) (first : DeviceSlot) (a n : ℕ)
    → get_elem? slots 0 ≡ some first
    → first.address ≡ 0
    → n < length slots
    → (i : ℕ) × (s : DeviceSlot) × (find_start slots a (suc n) ≡ some (i, s))
unfolding find_start
find_start-first slots first a zero at start h =
    (0, first, rw (find_start, at) (rw start (ground arith)))
find_start-first slots first a (suc n) at start h =
    let (s, e) = get_elem?-lt slots (suc n) h in
    let (i, t, earlier) = find_start-first slots first a n at start (omega arith) in
    elim (Bool-cases (ltb a s.address)) [
      | inl lower ↦ (i, t, rw (find_start, e, lower) earlier)
      | inr here ↦ (suc n, s, rw (find_start, e, here))
    ]

-- What holds when a byte is about to be emitted at the end of a slot with the option O_NEXT; `first` is
-- the slot that starts the address space.
pub record IsAtEnd (level : CheckLevel) (e : Emission) (prev first : DeviceSlot) (n : ℕ)
    : Type 0 where
  pub checks : is_reset level ≡ false
  pub plain : e.pseudo_org ≡ disp_none
  pub before : get_elem? e.device.slots e.device.previous_slot ≡ some prev
  pub next_option : e.device.previous_option ≡ o_next
  pub at_end : e.cur_address ≡ pos (prev.address + prev.size)
  pub starts : get_elem? e.device.slots 0 ≡ some first
  pub from_zero : first.address ≡ 0
  pub page_of : prev.page ≡ some n

refresh_slot-slots :
    (level : CheckLevel) (i : ℕ) (s : DeviceSlot) (e : Emission)
    → ((refresh_slot level i s e).device.slots ≡ e.device.slots)
      × ((refresh_slot level i s e).notices ≡ e.notices)
      × ((refresh_slot level i s e).cur_address ≡ e.cur_address)
unfolding refresh_slot
refresh_slot-slots check_reset i s e = (refl, refl, refl)
refresh_slot-slots check_no_emit i s e = (refl, refl, refl)
refresh_slot-slots check_emit i s e = (refl, refl, refl)

module _ (level : CheckLevel) (e : Emission) (prev first : DeviceSlot) (n : ℕ)
    (h : IsAtEnd level e prev first n) where
  long_address-end : long_address e ≡ pos (prev.address + prev.size)
  long_address-end = rw h.plain h.at_end

  outside : within_slot prev (long_address e) ≡ false
  outside = rw long_address-end (past prev.address prev.size)
    where
      past : (a n : ℕ) → (not (below (pos (a + n)) a) && below (pos (a + n)) (a + n)) ≡ false
      past a n = ground arith

  not_displaced : wrap_displaced level e ≡ e
  unfolding wrap_displaced
  not_displaced = rw (wrap_displaced, h.plain)

  to_scan : check_wrapped level e ≡ scan_slots level e
  unfolding check_wrapped
  to_scan = rw (check_wrapped, h.before, h.checks, outside)

  to_start :
      (i : ℕ) × (s : DeviceSlot) × (find_start e.device.slots
          (low_word (long_address e))
          (length e.device.slots)
        ≡ some (i, s))
  to_start = rw_count (
      find_start-first e.device.slots first (low_word (long_address e)) (length e.device.slots - 1)
        h.starts h.from_zero (omega (arith, get_elem?-some e.device.slots 0 first h.starts)))
    where
      same : suc (length e.device.slots - 1) ≡ length e.device.slots
      same = omega (arith, get_elem?-some e.device.slots 0 first h.starts)

      rw_count :
          (i : ℕ) × (s : DeviceSlot) × (find_start e.device.slots
                (low_word (long_address e))
                (suc (length e.device.slots - 1))
              ≡ some (i, s))
          → (i : ℕ) × (s : DeviceSlot) × (find_start e.device.slots
                (low_word (long_address e))
                (length e.device.slots)
              ≡ some (i, s))
      rw_count (i, s, found) = (i, s, rw same at found)

  not_inside :
      (i : ℕ) (s : DeviceSlot)
      → get_elem? e.device.slots i ≡ some s
      → (i == e.device.previous_slot && within_slot s (long_address e)) ≡ false
  not_inside i s at = elim (Bool-cases (i == e.device.previous_slot)) [
    | inr other ↦ rw other
    | inl same ↦
        let index : i ≡ e.device.previous_slot = ==→eq i e.device.previous_slot same in
        let slot : s ≡ prev = same_slot (sym at ∙ ap (get_elem? e.device.slots) index ∙ h.before) in
        rw same (ap (λ t. within_slot t (long_address e)) slot ∙ outside)
  ]

  check_page-leave_next :
      (i : ℕ) × (s : DeviceSlot) × (get_elem? e.device.slots i ≡ some s)
      × (check_page level e ≡ leave_next level i s (point_at s e))
  unfolding check_page leave_slot point_at scan_slots enter_slot
  check_page-leave_next =
      let (i, s, start) = to_start in
      let at =
        find_start-at e.device.slots (low_word (long_address e)) (length e.device.slots) i s
          start in
      (i, s, at, ap (check_wrapped level) not_displaced ∙ to_scan ∙ entered i s start ∙ left i s at)
    where
      entered :
          (i : ℕ) (s : DeviceSlot)
          → find_start e.device.slots (low_word (long_address e)) (length e.device.slots)
            ≡ some (i, s)
          → scan_slots level e ≡ enter_slot level i s e
      entered i s start = rw (scan_slots, start)

      left :
          (i : ℕ) (s : DeviceSlot)
          → get_elem? e.device.slots i ≡ some s
          → enter_slot level i s e ≡ leave_next level i s (point_at s e)
      left i s at = rw (enter_slot, h.checks, not_inside i s at, h.next_option)

  exact :
      (below (long_address e) (prev.address + prev.size)
        || not (below (long_address e) (prev.address + prev.size + 1)))
      ≡ false
  exact = rw long_address-end (at_bound (prev.address + prev.size))
    where
      at_bound : (n : ℕ) → (below (pos n) n || not (below (pos n) (n + 1))) ≡ false
      at_bound n = ground arith

  next_page-suc : next_page prev ≡ suc n
  next_page-suc = rw h.page_of

  abbrev next_mapped : Device
  next_mapped = record e.device {
    slots = set e.device.slots e.device.previous_slot (set_page (some (suc n)) prev);
  }

  -- An emission at the end of a slot with the option O_NEXT, with the first slot at address 0 and
  -- outside of DISP, maps the next page of the device into that slot and continues at the start of the
  -- slot and of the page; nothing is reported but the boundary of the SIZEOF counts.
  pub check_page-next_page :
      (page : DevicePage)
      → get_elem? e.device.pages (suc n) ≡ some page
      → (e' : Emission) × (check_page level e ≡ some e')
        × (e'.cur_address ≡ pos prev.address)
        × (e'.memory_pointer ≡ some page.ram)
        × (e'.page ≡ some (suc n))
        × (e'.device ≡ next_mapped)
        × (e'.notices ≡ e.notices ++ (size_boundary_flow ∷ []))
  unfolding leave_next point_at wrap_around
  check_page-next_page page further =
      let (i, s, at, same) = check_page-leave_next in
      (
        _,
        same ∙ leaves i s,
        rw (h.plain, h.at_end) (minus_end prev.address prev.size),
        pointer s,
        refl,
        refl,
        rw h.plain,
      )
    where
      leaves :
          (i : ℕ) (s : DeviceSlot)
          → leave_next level i s (point_at s e)
            ≡ some (wrap_around prev (suc n) (notify (size_boundary_flow ∷ []) (point_at s e)))
      leaves i s = rw (leave_next, h.before, next_page-suc, more, exact)
        where
          more : leb (length e.device.pages) (suc n) ≡ false
          more = ground (arith, get_elem?-some e.device.pages (suc n) page further)

      pointer :
          (s : DeviceSlot)
          → (wrap_around prev
              (suc n)
              (notify (size_boundary_flow ∷ []) (point_at s e))).memory_pointer
            ≡ some page.ram
      pointer s = rw (wrap_around, further)

  -- An emission at the end of a slot with the option O_NEXT, with the first slot at address 0 and
  -- outside of DISP, that has no next page in the device: an error is reported, the option is taken off
  -- the slot, and the address stays.
  pub check_page-no_more_pages :
      length e.device.pages ≤ suc n
      → (e' : Emission) × (check_page level e ≡ some e')
        × (e'.cur_address ≡ e.cur_address)
        × (e'.device.slots ≡ set e.device.slots e.device.previous_slot (set_option o_none prev))
        × (e'.notices ≡ e.notices ++ (size_boundary_flow ∷ no_more_pages ∷ []))
  unfolding leave_next point_at no_next_page
  check_page-no_more_pages none_left =
      let (i, s, at, same) = check_page-leave_next in
      let (slots, notices, address) = refresh_slot-slots level i _ _ in
      (_, same ∙ leaves i s, address, slots, notices ∙ append_assoc e.notices _ _)
    where
      leaves :
          (i : ℕ) (s : DeviceSlot)
          → leave_next level i s (point_at s e)
            ≡ some (no_next_page level i s prev (notify (size_boundary_flow ∷ []) (point_at s e)))
      leaves i s = rw (leave_next, h.before, next_page-suc, last)
        where
          last : leb (length e.device.pages) (suc n) ≡ true
          last = ground arith
