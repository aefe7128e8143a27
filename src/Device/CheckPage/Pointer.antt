-- ===== src/Device/CheckPage/Pointer.antt =====
-- The memory pointer that CheckPage leaves (sjasm/devices.cpp).
use sjasmplus.Common.{
  ℕ, zero, suc, ◌+◌, ◌-◌, ◌<◌, ◌≡◌, subst, sym, ap, ◌∙◌, inl, inr, true, false, not, ◌&&◌, ◌||◌,
  Option, none, some, List, [], ◌∷◌, ◌++◌, if◌then◌else◌, ltb, leb, ◌==◌, length, get_elem?, set,
  get_elem?-set_self, get_elem?-set_ne, get_elem?-some, Bool-cases, Option-cases, ==→eq, ==→ne,
  arith,
}
use sjasmplus.Common.Int.{ℤ, pos, negsuc}
use sjasmplus.Device.{
  DeviceSlot, Device, DevicePage, SlotOption, o_none, o_error, o_warning, o_next, below,
  within_slot,
}
use sjasmplus.Device.CheckPage.{
  CheckLevel, write_outside_device, write_outside_slot, warn_outside_slot, check_reset,
  check_no_emit, check_emit, Emission, Notice, long_address, ram_at, is_reset, is_disp, is_emit,
  is_no_emit, wrap_displaced, report_once, refresh_slot, point_at, find_start, low_word,
  no_next_page, wrap_around, leave_plain, leave_next, leave_slot, enter_slot, scan_slots,
  check_wrapped, check_page, notify, minus, next_page, size_boundary_flow, set_option,
}

-- The pointer `p` is that of the current address in a slot which holds this address.
abbrev pub IsPointing : Emission → ℕ → Type 0
IsPointing e p =
    (i : ℕ) × (s : DeviceSlot) × (get_elem? e.device.slots i ≡ some s)
    × (within_slot s (long_address e) ≡ true)
    × (ram_at e.device s (long_address e) ≡ some p)

abbrev pub IsSound : Emission → Type 0
IsSound e = (p : ℕ) → e.memory_pointer ≡ some p → IsPointing e p

find_start-missing :
    (slots : List DeviceSlot) (a n : ℕ)
    → get_elem? slots n ≡ none
    → find_start slots a (suc n) ≡ none
unfolding find_start
find_start-missing slots a n e = rw (e, find_start)

find_start-found :
    (slots : List DeviceSlot) (a n : ℕ) (t : DeviceSlot)
    → get_elem? slots n ≡ some t
    → find_start slots a (suc n) ≡ (if ltb a t.address then find_start slots a n else some (n, t))
unfolding find_start
find_start-found slots a n t e = rw (e, find_start)

pub find_start-at :
    (slots : List DeviceSlot) (a n i : ℕ) (s : DeviceSlot)
    → find_start slots a n ≡ some (i, s)
    → get_elem? slots i ≡ some s
find_start-at slots a zero i s h = unfold find_start in cc h
find_start-at slots a (suc n) i s h = elim (Option-cases (get_elem? slots n)) [
  | inl e ↦ cc (h, find_start-missing slots a n e)
  | inr (t, e) ↦
      let eq = find_start-found slots a n t e in
      elim (Bool-cases (ltb a t.address)) [
        | inl lower ↦ find_start-at slots a n i s (sym (eq ∙ rw lower) ∙ h)
        | inr start ↦ same (n, t) (sym (eq ∙ rw start) ∙ h) e
      ]
]
  where
    same :
        (x : ℕ × DeviceSlot)
        → some x ≡ some (i, s)
        → get_elem? slots x.0 ≡ some x.1
        → get_elem? slots i ≡ some s
    same x q e = cc (q, e)

none≢some : {p : ℕ} → ¬ (none ≡ some p)
none≢some e = cc e

point_at-IsSound :
    (e : Emission) (i : ℕ) (s : DeviceSlot)
    → get_elem? e.device.slots i ≡ some s
    → IsSound (point_at s e)
unfolding point_at ram_at
point_at-IsSound e i s at p h = elim (Bool-cases (within_slot s (long_address e))) [
  | inl inside ↦ (i, s, at, inside, sym (pointer_inside inside) ∙ h)
  | inr outside ↦ absurd (none≢some (sym (pointer_outside outside) ∙ h))
]
  where
    pointer_inside :
        within_slot s (long_address e) ≡ true
        → (point_at s e).memory_pointer ≡ ram_at e.device s (long_address e)
    pointer_inside inside = rw inside

    pointer_outside : within_slot s (long_address e) ≡ false → (point_at s e).memory_pointer ≡ none
    pointer_outside outside = rw outside

refresh_slot-IsSound :
    (level : CheckLevel) (i : ℕ) (s : DeviceSlot) (e : Emission)
    → IsSound e
    → IsSound (refresh_slot level i s e)
unfolding refresh_slot ram_at
refresh_slot-IsSound check_reset i s e h = h
refresh_slot-IsSound check_no_emit i s e h = h
refresh_slot-IsSound check_emit i s e h = h

report_once-IsSound :
    (level : CheckLevel) (n : Notice) (e : Emission) → IsSound e → IsSound (report_once level n e)
unfolding report_once ram_at
report_once-IsSound level n e h =
    elim (Bool-cases (e.last_pass && (is_emit level && not e.device.limit_exceeded))) [
      | inl reported ↦ subst IsSound (sym (step_reported reported)) h
      | inr silent ↦ subst IsSound (sym (step_silent silent)) h
    ]
  where
    step_silent :
        (e.last_pass && (is_emit level && not e.device.limit_exceeded)) ≡ false
        → report_once level n e ≡ e
    step_silent silent = rw (silent, report_once)

    step_reported :
        (e.last_pass && (is_emit level && not e.device.limit_exceeded)) ≡ true
        → report_once level n e
          ≡ notify (n ∷ []) (record e { device = record e.device { limit_exceeded = true } })
    step_reported reported = rw (reported, report_once)

leave_plain-IsSound :
    (level : CheckLevel) (i : ℕ) (s : DeviceSlot) (e : Emission) (pointer : Option ℕ)
    → IsSound e
    → IsSound (leave_plain level i s e pointer)
unfolding leave_plain ram_at
leave_plain-IsSound level i s e (some p) h = refresh_slot-IsSound level i s e h
leave_plain-IsSound level i s e none h =
    elim (Bool-cases (e.last_pass && (is_emit level && not e.device.limit_exceeded))) [
      | inl reported ↦ rw reported (refresh_slot-IsSound level i s told h)
      | inr silent ↦ rw silent (refresh_slot-IsSound level i s e h)
    ]
  where
    told : Emission
    told = record e {
      notices = e.notices ++ (write_outside_device ∷ []);
      device = record e.device { limit_exceeded = true; previous_slot = i };
    }

pub minus_end : (a n : ℕ) → minus (pos (a + n)) n ≡ pos a
minus_end a n = ground arith

pub same_slot : {s t : DeviceSlot} → some s ≡ some t → s ≡ t
same_slot e = cc e

no_next_page-IsSound :
    (level : CheckLevel) (i : ℕ) (s prev : DeviceSlot) (e : Emission)
    → get_elem? e.device.slots e.device.previous_slot ≡ some prev
    → IsSound e
    → IsSound (no_next_page level i s prev e)
unfolding no_next_page ram_at
no_next_page-IsSound level i s prev e before h = refresh_slot-IsSound level i _ _ taken_off
  where
    taken_off :
        (p : ℕ)
        → e.memory_pointer ≡ some p
        → (i : ℕ) × (s : DeviceSlot) × (get_elem?
              (set e.device.slots e.device.previous_slot (set_option o_none prev))
              i
            ≡ some s)
          × (within_slot s (long_address e) ≡ true)
          × (ram_at e.device s (long_address e) ≡ some p)
    taken_off p eq =
        let (j, t, at, inside, ram) = h p eq in
        elim (Bool-cases (e.device.previous_slot == j)) [
          | inl same ↦
              let at_j : e.device.previous_slot ≡ j = ==→eq e.device.previous_slot j same in
              let t_prev : prev ≡ t = same_slot (sym before ∙ rw at_j at) in
              (
                e.device.previous_slot,
                set_option o_none prev,
                get_elem?-set_self e.device.slots e.device.previous_slot _
                    (get_elem?-some e.device.slots e.device.previous_slot prev before),
                rw t_prev inside,
                rw t_prev ram,
              )
          | inr other ↦ (
            j,
            t,
            get_elem?-set_ne e.device.slots e.device.previous_slot j _
                  (==→ne e.device.previous_slot j other)
                ∙ at,
            inside,
            ram,
          )
        ]

start_within : (a n : ℕ) → 0 < n → (not (below (pos a) a) && below (pos a) (a + n)) ≡ true
start_within a n positive = ground arith

wrap_around_address :
    (prev : DeviceSlot) (next : ℕ) (e : Emission)
    → long_address e ≡ pos (prev.address + prev.size)
    → long_address (wrap_around prev next e) ≡ pos prev.address
unfolding wrap_around
wrap_around_address prev next e end = elim (Bool-cases (is_disp e.pseudo_org)) [
  | inl disp ↦
      let at_end : e.adrdisp ≡ pos (prev.address + prev.size) = sym (rw disp) ∙ end in
      rw (disp, disp, at_end) (minus_end prev.address prev.size)
  | inr plain ↦
      let at_end : e.cur_address ≡ pos (prev.address + prev.size) = sym (rw plain) ∙ end in
      rw (plain, plain, at_end) (minus_end prev.address prev.size)
]

wrap_around-IsSound :
    (prev : DeviceSlot) (next : ℕ) (e : Emission)
    → get_elem? e.device.slots e.device.previous_slot ≡ some prev
    → 0 < prev.size
    → long_address e ≡ pos (prev.address + prev.size)
    → IsSound (wrap_around prev next e)
unfolding wrap_around ram_at
wrap_around-IsSound prev next e before positive end p eq =
    let back = wrap_around_address prev next e end in
    (
      e.device.previous_slot,
      record prev { page = some next },
      get_elem?-set_self e.device.slots e.device.previous_slot _
          (get_elem?-some e.device.slots e.device.previous_slot prev before),
      rw back (start_within prev.address prev.size positive),
      rw back (elim (Option-cases (get_elem? e.device.pages next)) [
        | inl missing ↦ absurd (none≢some (sym (no_page missing) ∙ eq))
        | inr (q, found) ↦
            let first_byte : q.ram + (prev.address - prev.address) ≡ q.ram = omega arith in
            rw (ram_at, found, first_byte) (sym (page_start q found) ∙ eq)
      ]),
    )
  where
    no_page : get_elem? e.device.pages next ≡ none → (wrap_around prev next e).memory_pointer ≡ none
    no_page missing = rw (wrap_around, missing)

    page_start :
        (q : DevicePage)
        → get_elem? e.device.pages next ≡ some q
        → (wrap_around prev next e).memory_pointer ≡ some q.ram
    page_start q found = rw (wrap_around, found)

-- Every result of a fallible step is sound.
abbrev pub AreSound : Option Emission → Type 0
AreSound o = (e : Emission) → o ≡ some e → IsSound e

sound_some : (e : Emission) → IsSound e → AreSound (some e)
sound_some e h e' eq = subst IsSound (same eq) h
  where
    same : some e ≡ some e' → e ≡ e'
    same eq = cc eq

sound_none : AreSound none
sound_none e eq = absurd (cc eq)

abbrev HasSize : Device → Type 0
HasSize d = (i : ℕ) (s : DeviceSlot) → get_elem? d.slots i ≡ some s → 0 < s.size

exactly : (a : ℤ) (n : ℕ) → (below a n || not (below a (n + 1))) ≡ false → a ≡ pos n
exactly (pos a) n h = ap pos (ground arith)
exactly (negsuc a) n h = absurd (cc h)

leave_next-AreSound :
    (level : CheckLevel) (i : ℕ) (s : DeviceSlot) (e : Emission)
    → HasSize e.device
    → IsSound e
    → AreSound (leave_next level i s e)
unfolding leave_next
leave_next-AreSound level i s e sized h =
    elim (Option-cases (get_elem? e.device.slots e.device.previous_slot)) [
      | inl missing ↦ rw (leave_next, missing) sound_none
      | inr (prev, before) ↦ elim (Bool-cases (leb (length e.device.pages) (next_page prev))) [
        | inl last ↦
            rw (leave_next, before, last)
              (sound_some _ (no_next_page-IsSound level i s prev noted before h))
        | inr further ↦
            let end = prev.address + prev.size in
            elim (Bool-cases
              (below (long_address e) end || not (below (long_address e) (end + 1)))) [
                | inl late ↦ rw (leave_next, before, further, late) sound_none
                | inr exact ↦
                    rw (leave_next, before, further, exact)
                      (sound_some _ (
                        wrap_around-IsSound prev (next_page prev) noted before
                          (sized e.device.previous_slot prev before)
                          (exactly (long_address e) end exact)))
              ]
      ]
    ]
  where
    noted : Emission
    noted = record e { notices = e.notices ++ (size_boundary_flow ∷ []) }

leave_slot-AreSound :
    (level : CheckLevel) (i : ℕ) (s : DeviceSlot) (e : Emission) (o : SlotOption)
    → HasSize e.device
    → IsSound e
    → AreSound (leave_slot level i s e o)
unfolding leave_slot
leave_slot-AreSound level i s e o_error sized h =
    sound_some _
      (refresh_slot-IsSound level i s _ (report_once-IsSound level write_outside_slot e h))
leave_slot-AreSound level i s e o_warning sized h =
    sound_some _
      (refresh_slot-IsSound level i s _ (report_once-IsSound level warn_outside_slot e h))
leave_slot-AreSound level i s e o_next sized h = leave_next-AreSound level i s e sized h
leave_slot-AreSound level i s e o_none sized h =
    sound_some _ (leave_plain-IsSound level i s e e.memory_pointer h)

enter_slot-AreSound :
    (level : CheckLevel) (i : ℕ) (s : DeviceSlot) (e : Emission)
    → HasSize e.device
    → get_elem? e.device.slots i ≡ some s
    → AreSound (enter_slot level i s e)
unfolding enter_slot point_at ram_at
enter_slot-AreSound level i s e sized at =
    let pointed = point_at-IsSound e i s at in
    elim (Bool-cases (is_reset level)) [
      | inl reset ↦ rw (enter_slot, reset) (sound_some _ pointed)
      | inr checked ↦
          elim (Bool-cases (i == e.device.previous_slot && within_slot s (long_address e))) [
            | inl stays ↦ rw (enter_slot, checked, stays) (sound_some _ pointed)
            | inr leaves ↦
                rw (enter_slot, checked, leaves)
                  (leave_slot-AreSound level i s (point_at s e) e.device.previous_option sized
                    pointed)
          ]
    ]

scan_slots-AreSound :
    (level : CheckLevel) (e : Emission) → HasSize e.device → AreSound (scan_slots level e)
unfolding scan_slots
scan_slots-AreSound level e sized =
    let address = low_word (long_address e) in
    let count = length e.device.slots in
    elim (Option-cases (find_start e.device.slots address count)) [
      | inl missing ↦ rw (scan_slots, missing) sound_none
      | inr (found, start) ↦
          rw (scan_slots, start)
            (enter_slot-AreSound level found.0 found.1 e sized
              (find_start-at e.device.slots address count found.0 found.1 start))
    ]

check_wrapped-AreSound :
    (level : CheckLevel) (e : Emission) → HasSize e.device → AreSound (check_wrapped level e)
unfolding check_wrapped ram_at
check_wrapped-AreSound level e sized =
    elim (Option-cases (get_elem? e.device.slots e.device.previous_slot)) [
      | inl missing ↦ rw (check_wrapped, missing) sound_none
      | inr (prev, before) ↦
          elim (Bool-cases (not (is_reset level) && within_slot prev (long_address e))) [
            | inl stays ↦
                rw (check_wrapped, before, stays)
                  (sound_some _
                    (λ p eq. (e.device.previous_slot, prev, before, inside prev stays, eq)))
            | inr leaves ↦ rw (check_wrapped, before, leaves) (scan_slots-AreSound level e sized)
          ]
    ]
  where
    inside :
        (s : DeviceSlot)
        → (not (is_reset level) && within_slot s (long_address e)) ≡ true
        → within_slot s (long_address e) ≡ true
    inside s both = ground (arith, both)

-- Where CheckPage leaves a memory pointer, in checks of every level and with every slot option, some
-- slot holds the address of the next byte and the pointer is that address in the page that is mapped
-- there; the slots have sizes above zero.
pub check_page-IsPointing :
    (level : CheckLevel) (e e' : Emission) (p : ℕ)
    → HasSize e.device
    → check_page level e ≡ some e'
    → e'.memory_pointer ≡ some p
    → IsPointing e' p
unfolding check_page wrap_displaced
check_page-IsPointing level e e' p sized eq pointer =
    check_wrapped-AreSound level (wrap_displaced level e) (kept sized) e' eq p pointer
  where
    same : (wrap_displaced level e).device ≡ e.device
    same =
        elim (Bool-cases
          (is_disp e.pseudo_org && (not (is_no_emit level) && not (below e.cur_address 0x10000)))) [
            | inl wraps ↦ rw wraps
            | inr stays ↦ rw stays
          ]

    kept : HasSize e.device → HasSize (wrap_displaced level e).device
    kept h = rw same h
