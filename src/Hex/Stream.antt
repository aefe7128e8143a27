-- ===== src/Hex/Stream.antt =====
-- The buffered HEX writer over a whole run: EmitToHex for each byte, then CloseHex.
use sjasmplus.Common.{
  ℕ, ◌+◌, ◌^◌, ◌≤◌, ◌<◌, ◌≡◌, refl, sym, ◌∙◌, ◌⊎◌, inl, inr, Option, none, some, List, [], ◌∷◌,
  ◌++◌, append_assoc, append-nil, if◌then◌else◌, ◌==◌, Bool-cases, ==→eq, ==→ne, length,
  length-append, All, All-append, arith,
}
use sjasmplus.Common.Int.{ℤ, pos, negsuc, pos_part}
use sjasmplus.Hex.{
  HexOut, hex_record_max, write_hex_record, open_hex, flush_hex_buffer, follow_address, put_byte,
  emit_to_hex, emit_all, start_bytes, start_record, close_hex,
}
use sjasmplus.Hex.Reader.{
  Image, ◌>>=◌, split_lines, addressed, big_endian, load_block, load_lines, load,
}
use sjasmplus.Hex.Line.{IsByte, split_lines-write_hex_record}

abbrev load_text : List ℕ → Option Image
load_text text = load_lines (split_lines text)

abbrev prepend : List (ℕ × ℕ) → Option Image → Option Image
prepend cells o = o >>= (λ i. some (record i { content = cells ++ i.content }))

-- The text begins with records that load as these cells, whatever follows.
abbrev Loads : List ℕ → List (ℕ × ℕ) → Type 0
Loads file cells = (rest : List ℕ) → load_text (file ++ rest) ≡ prepend cells (load_text rest)

load_text-data :
    (adr : ℕ) (bs rest : List ℕ)
    → adr < 2 ^ 16
    → length bs ≤ hex_record_max
    → All IsByte bs
    → load_text (write_hex_record 0 adr bs ++ rest) ≡ prepend (addressed adr bs) (load_text rest)
unfolding load_lines load_block
load_text-data adr bs rest ha hl hb =
    let (line, first, read) = split_lines-write_hex_record 0 adr bs rest (omega arith) ha hl hb in
    rw (first, read)

prepend-append :
    (xs ys : List (ℕ × ℕ)) (o : Option Image) → prepend xs (prepend ys o) ≡ prepend (xs ++ ys) o
prepend-append xs ys none = refl
prepend-append xs ys (some i) = simp append_assoc

prepend-nil : (o : Option Image) → prepend [] o ≡ o
prepend-nil none = refl
prepend-nil (some i) = refl

addressed-append :
    (a : ℕ) (xs : List ℕ) (m : ℕ)
    → addressed a (xs ++ (m ∷ [])) ≡ addressed a xs ++ ((a + length xs, m) ∷ [])
unfolding addressed
addressed-append a [] m = ground arith
addressed-append a (x ∷ xs) m = ground (arith, addressed-append (a + 1) xs m)

-- The file loads as `done`, and `done` with the buffer makes `cells`; the buffer has at most `k`
-- bytes, and its addresses stay within 64 KiB.
record IsBuffered (k : ℕ) (h : HexOut) (cells : List (ℕ × ℕ)) : Type 0 where
  small : length h.bytes ≤ k
  bytes : All IsByte h.bytes
  within : (length h.bytes ≡ 0) ⊎ (h.address + length h.bytes ≤ 2 ^ 16)
  done : List (ℕ × ℕ)
  loads : Loads h.file done
  whole : done ++ addressed h.address h.bytes ≡ cells

abbrev Flushed : HexOut → List (ℕ × ℕ) → Type 0
Flushed h cells = Loads h.file cells × (h.bytes ≡ [])

flush-nil :
    (a : ℕ) (f : List ℕ) (cells : List (ℕ × ℕ))
    → IsBuffered hex_record_max (record { address = a; bytes = []; file = f }) cells
    → Flushed (flush_hex_buffer (record { address = a; bytes = []; file = f })) cells
unfolding flush_hex_buffer addressed
flush-nil a f cells v = (rw (← whole) v.loads, refl)
  where
    whole : v.done ≡ cells
    whole = rw append-nil at v.whole

flush_cons_eq :
    (a b : ℕ) (bs f : List ℕ)
    → flush_hex_buffer (record { address = a; bytes = b ∷ bs; file = f })
      ≡ record { address = a; bytes = []; file = f ++ write_hex_record 0 a (b ∷ bs) }
unfolding flush_hex_buffer
flush_cons_eq a b bs f = ground arith

flush-cons :
    (a b : ℕ) (bs f : List ℕ) (cells : List (ℕ × ℕ))
    → IsBuffered hex_record_max (record { address = a; bytes = b ∷ bs; file = f }) cells
    → Flushed (flush_hex_buffer (record { address = a; bytes = b ∷ bs; file = f })) cells
flush-cons a b bs f cells v = rw (flush_cons_eq a b bs f) (loads, refl)
  where
    low : a < 2 ^ 16
    low = ground (arith, v.within)

    loads : Loads (f ++ write_hex_record 0 a (b ∷ bs)) cells
    loads rest =
        rw (append_assoc, v.loads _, load_text-data a (b ∷ bs) rest low v.small v.bytes)
          (prepend-append v.done (addressed a (b ∷ bs)) (load_text rest) ∙ rw v.whole)

flush-Flushed :
    (h : HexOut) (cells : List (ℕ × ℕ))
    → IsBuffered hex_record_max h cells
    → Flushed (flush_hex_buffer h) cells
flush-Flushed h cells v = by_bytes h.address h.bytes h.file v
  where
    by_bytes :
        (a : ℕ) (bs f : List ℕ)
        → IsBuffered hex_record_max (record { address = a; bytes = bs; file = f }) cells
        → Flushed (flush_hex_buffer (record { address = a; bytes = bs; file = f })) cells
    by_bytes a [] f w = flush-nil a f cells w
    by_bytes a (b ∷ bs) f w = flush-cons a b bs f cells w

-- A flushed writer has an empty buffer, which stands for no cell.
Flushed-IsBuffered :
    (k : ℕ) (h : HexOut) (cells : List (ℕ × ℕ)) → Flushed h cells → IsBuffered k h cells
unfolding addressed
Flushed-IsBuffered k h cells (loads, empty) = record {
  small = rw empty (omega arith);
  bytes = rw empty tt;
  within = inl (rw empty);
  done = cells;
  loads = loads;
  whole = rw empty (append-nil cells);
}

-- After follow_address the buffer is empty, or ends where the new byte goes.
follow_address-IsBuffered :
    (adr : ℕ) (h : HexOut) (cells : List (ℕ × ℕ))
    → IsBuffered 15 h cells
    → IsBuffered 15 (follow_address adr h) cells
      × (((follow_address adr h).bytes ≡ [])
          ⊎ ((follow_address adr h).address + length (follow_address adr h).bytes ≡ adr))
unfolding follow_address
follow_address-IsBuffered adr h cells v = elim (Bool-cases (h.address + length h.bytes == adr)) [
  | inl same ↦ rw same (v, inr (==→eq _ _ same))
  | inr jump ↦ rw jump (Flushed-IsBuffered 15 _ cells flushed, inl flushed.1)
]
  where
    flushed : Flushed (flush_hex_buffer h) cells
    flushed = flush-Flushed h cells (record {
      small = omega (arith, v.small);
      bytes = v.bytes;
      within = v.within;
      done = v.done;
      loads = v.loads;
      whole = v.whole;
    })

-- The new byte's address follows from that of the buffer, whether the buffer was empty or not.
put_address :
    (adr a : ℕ) (bs : List ℕ)
    → (bs ≡ []) ⊎ (a + length bs ≡ adr)
    → let first = if length bs == 0 then adr else a in
      (first + length bs ≡ adr) × (addressed first bs ≡ addressed a bs)
unfolding addressed
put_address adr a [] h = (omega arith, refl)
put_address adr a (b ∷ bs) (inl e) = cc
put_address adr a (b ∷ bs) (inr e) = (ground arith, ground arith)

put_byte-IsBuffered :
    (adr mc : ℕ) (h : HexOut) (cells : List (ℕ × ℕ))
    → adr < 2 ^ 16
    → IsByte mc
    → IsBuffered 15 h cells
    → (h.bytes ≡ []) ⊎ (h.address + length h.bytes ≡ adr)
    → IsBuffered hex_record_max (put_byte adr mc h) (cells ++ ((adr, mc) ∷ []))
unfolding put_byte
put_byte-IsBuffered adr mc h cells ha hm v follows =
    let (ends, same) = put_address adr h.address h.bytes follows in
    record {
      small = omega (arith, v.small, length-append h.bytes (mc ∷ []));
      bytes = All-append IsByte h.bytes (mc ∷ []) v.bytes (hm, tt);
      within = inr (omega (arith, ends, length-append h.bytes (mc ∷ [])));
      done = v.done;
      loads = v.loads;
      whole = rw (addressed-append, ends, same, ← append_assoc) (rw v.whole);
    }

-- The buffer is full at 16 bytes and is then written out.
emit_to_hex-IsBuffered :
    (adr mc : ℕ) (h : HexOut) (cells : List (ℕ × ℕ))
    → adr < 2 ^ 16
    → IsByte mc
    → IsBuffered 15 h cells
    → IsBuffered 15 (emit_to_hex adr mc h) (cells ++ ((adr, mc) ∷ []))
unfolding emit_to_hex
emit_to_hex-IsBuffered adr mc h cells ha hm v =
    let (kept, follows) = follow_address-IsBuffered adr h cells v in
    let w = put_byte-IsBuffered adr mc _ cells ha hm kept follows in
    let h' : HexOut = put_byte adr mc (follow_address adr h) in
    elim (Bool-cases (hex_record_max == length h'.bytes)) [
      | inl full ↦ rw full (Flushed-IsBuffered 15 _ _ (flush-Flushed _ _ w))
      | inr room ↦ rw room (record {
        small = omega (arith, w.small, ==→ne _ _ room);
        bytes = w.bytes;
        within = w.within;
        done = w.done;
        loads = w.loads;
        whole = w.whole;
      })
    ]

-- A byte and the address that it is emitted at.
abbrev pub IsCell : ℕ × ℕ → Type 0
IsCell (adr, mc) = (adr < 2 ^ 16) × IsByte mc

emit_all-IsBuffered :
    (run : List (ℕ × ℕ)) (h : HexOut) (cells : List (ℕ × ℕ))
    → All IsCell run
    → IsBuffered 15 h cells
    → IsBuffered 15 (emit_all run h) (cells ++ run)
unfolding emit_all
emit_all-IsBuffered [] h cells hs v = rw append-nil v
emit_all-IsBuffered ((adr, mc) ∷ run) h cells ((ha, hm), hs) v =
    let w = emit_to_hex-IsBuffered adr mc h cells ha hm v in
    let whole = emit_all-IsBuffered run _ _ hs w in rw append_assoc at whole

open_hex-IsBuffered : (adr : ℕ) → IsBuffered 15 (open_hex adr) []
unfolding open_hex addressed
open_hex-IsBuffered adr = record {
  small = omega arith;
  bytes = tt;
  within = inl refl;
  done = [];
  loads = λ rest. sym (prepend-nil _);
  whole = refl;
}

-- The assertion of EmitToHex (`0 <= hexCnt && hexCnt < HEX_RECORD_MAX`) holds after every run of
-- bytes at 16-bit addresses.
pub emit_all-small :
    (run : List (ℕ × ℕ)) (adr : ℕ)
    → All IsCell run
    → length (emit_all run (open_hex adr)).bytes < hex_record_max
emit_all-small run adr hs =
    let v = emit_all-IsBuffered run (open_hex adr) [] hs (open_hex-IsBuffered adr) in
    omega (arith, v.small)

-- The entry point is the start address that the file was closed with, if it is not negative.
abbrev pub entry_of : ℤ → Option ℕ
entry_of (pos start) = some start
entry_of (negsuc n) = none

abbrev end_record : List ℕ
end_record = write_hex_record 1 0 []

load_text-end_record : load_text end_record ≡ some (record { content = []; entry = none })
unfolding load_lines
load_text-end_record =
    let (line, first, read) =
      split_lines-write_hex_record 1 0 [] [] (omega arith) (omega arith) (omega arith) tt in
    rw (rw append-nil at first, read, split_lines-nil)
  where
    split_lines-nil : split_lines [] ≡ []
    split_lines-nil = unfold split_lines in refl

big_endian_four : (s : ℕ) → s < 2 ^ 32 → big_endian 0 (start_bytes s) ≡ s
unfolding big_endian
big_endian_four s h = omega arith

load_text-start_record :
    (start : ℤ)
    → pos_part start < 2 ^ 31
    → load_text (start_record start ++ end_record)
      ≡ some (record { content = []; entry = entry_of start })
unfolding start_record load_lines load_block
load_text-start_record (pos s) h =
    let (line, first, read) =
      split_lines-write_hex_record 3 0 (start_bytes s) end_record (omega arith) (omega arith)
        (omega arith) (omega arith, (omega arith, (omega arith, (omega arith, tt)))) in
    rw (first, read, load_text-end_record, big_endian_four s (omega arith))
load_text-start_record (negsuc n) h = load_text-end_record

-- Any run of bytes at 16-bit addresses, written by EmitToHex and CloseHex, loads as exactly these
-- bytes at these addresses, in the order of emission, with the start address as the entry point.
pub load-close_hex :
    (run : List (ℕ × ℕ)) (start : ℤ) (adr : ℕ)
    → All IsCell run
    → pos_part start < 2 ^ 31
    → load (close_hex start (emit_all run (open_hex adr)))
      ≡ some (record { content = run; entry = entry_of start })
unfolding load close_hex
load-close_hex run start adr hs h =
    let v = emit_all-IsBuffered run (open_hex adr) [] hs (open_hex-IsBuffered adr) in
    let (loads, empty) = flush-Flushed _ _ (widen v) in
    rw (loads _, load_text-start_record start h, append-nil)
  where
    widen :
        {h : HexOut} {cells : List (ℕ × ℕ)}
        → IsBuffered 15 h cells
        → IsBuffered hex_record_max h cells
    widen v = record {
      small = omega (arith, v.small);
      bytes = v.bytes;
      within = v.within;
      done = v.done;
      loads = v.loads;
      whole = v.whole;
    }
