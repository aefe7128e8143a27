-- ===== src/Hex/Line.antt =====
-- One record of the HEX writer (WriteHexRecord) is one line of the reader.
use sjasmplus.Common.{
  ℕ, ◌+◌, ◌*◌, ◌/◌, ◌%◌, ◌^◌, ◌≤◌, ◌<◌, ◌≡◌, ◌≢◌, refl, ap, ◌∙◌, some, List, [], ◌∷◌, ◌++◌,
  append_assoc, length, take, length-append, All, All-append, arith,
}
use sjasmplus.Hex.{
  hex_digit, print_hex, sub8, print_bytes, checksum, write_hex_record, hex_record_max,
}
use sjasmplus.Hex.Reader.{
  ◌>>=◌, split_lines, digit_value, read_bytes, byte_sum, block_of_bytes, read_line,
}
use mathlib.Core.List.{foldl}

abbrev pub IsByte : ℕ → Type 0
IsByte b = b < 256

abbrev IsInLine : ℕ → Type 0
IsInLine c = c ≢ 10

-- A text without line ends, ended by one, is the first line.
split_lines-append :
    (a b : List ℕ) → All IsInLine a → split_lines (a ++ (10 ∷ b)) ≡ a ∷ split_lines b
unfolding split_lines
split_lines-append [] b h = refl
split_lines-append (c ∷ cs) b (h, hs) = rw (split_lines-append cs b hs) (ground arith)

digit_value-hex_digit : (d : ℕ) → d < 16 → digit_value (hex_digit d) ≡ some d
unfolding digit_value hex_digit
digit_value-hex_digit d h = ground arith

print_hex_two : (v : ℕ) → print_hex 2 v ≡ hex_digit (v / 16 % 16) ∷ hex_digit (v % 16) ∷ []
unfolding print_hex
print_hex_two v = refl

print_hex_four :
    (v : ℕ) → v < 2 ^ 16 → print_hex 4 v ≡ print_hex 2 (v / 256) ++ print_hex 2 (v % 256)
unfolding print_hex
print_hex_four v h = ground arith

-- Two printed digits are read back as the byte.
read_bytes-print_hex :
    (b : ℕ) (cs : List ℕ)
    → IsByte b
    → read_bytes (print_hex 2 b ++ cs) ≡ (read_bytes cs >>= (λ bs. some (b ∷ bs)))
unfolding read_bytes
read_bytes-print_hex b cs h = rw (
  print_hex_two,
  digit_value-hex_digit (b / 16 % 16) (omega arith),
  digit_value-hex_digit (b % 16) (omega arith),
  byte,
)
  where
    byte : b / 16 % 16 * 16 + b % 16 ≡ b
    byte = omega arith

read_bytes-print_bytes : (bs : List ℕ) → All IsByte bs → read_bytes (print_bytes bs) ≡ some bs
unfolding print_bytes
read_bytes-print_bytes [] h = unfold read_bytes in refl
read_bytes-print_bytes (b ∷ bs) (h, hs) =
    read_bytes-print_hex b (print_bytes bs) h ∙ rw (read_bytes-print_bytes bs hs)

print_bytes-append : (xs bs : List ℕ) → print_bytes (xs ++ bs) ≡ print_bytes xs ++ print_bytes bs
unfolding print_bytes
print_bytes-append [] bs = refl
print_bytes-append (x ∷ xs) bs = simp (print_bytes-append xs bs, append_assoc)

print_bytes-cons : (b : ℕ) (bs : List ℕ) → print_bytes (b ∷ bs) ≡ print_hex 2 b ++ print_bytes bs
unfolding print_bytes
print_bytes-cons b bs = refl

print_bytes-nil : print_bytes [] ≡ []
unfolding print_bytes
print_bytes-nil = refl

hex_digit-IsInLine : (d : ℕ) → d < 16 → IsInLine (hex_digit d)
unfolding hex_digit
hex_digit-IsInLine d h = ground arith

print_bytes-IsInLine : (bs : List ℕ) → All IsInLine (print_bytes bs)
unfolding print_bytes
print_bytes-IsInLine [] = tt
print_bytes-IsInLine (b ∷ bs) = rw print_hex_two (
  hex_digit-IsInLine (b / 16 % 16) (omega arith),
  (hex_digit-IsInLine (b % 16) (omega arith), print_bytes-IsInLine bs),
)

-- The bytes that one record prints.
abbrev record_bytes : ℕ → ℕ → List ℕ → List ℕ
record_bytes kind adr bs =
    length bs ∷ adr / 256 ∷ adr % 256 ∷ kind ∷ (bs ++ (checksum kind adr (length bs) bs ∷ []))

write_hex_record-record_bytes :
    (kind adr : ℕ) (bs : List ℕ)
    → adr < 2 ^ 16
    → write_hex_record kind adr bs ≡ b':' ∷ (print_bytes (record_bytes kind adr bs) ++ (10 ∷ []))
unfolding write_hex_record
write_hex_record-record_bytes kind adr bs h =
    let cut : adr % 2 ^ 16 ≡ adr = omega arith in
    simp (
      cut,
      print_hex_four adr h,
      print_bytes-cons,
      print_bytes-nil,
      print_bytes-append,
      append_assoc,
    )

checksum-IsByte : (kind adr len : ℕ) (bs : List ℕ) → IsByte (checksum kind adr len bs)
unfolding checksum
checksum-IsByte kind adr len bs = folded-IsByte bs _ (omega arith)
  where
    folded-IsByte : (bs : List ℕ) (c : ℕ) → IsByte c → IsByte (foldl sub8 c bs)
    folded-IsByte [] c h = h
    folded-IsByte (b ∷ bs) c h = folded-IsByte bs (sub8 c b) (omega arith)

foldl-sub8 : (bs : List ℕ) (c : ℕ) → All IsByte bs → (foldl sub8 c bs + byte_sum bs) % 256 ≡ c % 256
unfolding byte_sum
foldl-sub8 [] c h = omega arith
foldl-sub8 (b ∷ bs) c (h, hs) = omega (arith, foldl-sub8 bs (sub8 c b) hs)

byte_sum-append : (xs ys : List ℕ) → byte_sum (xs ++ ys) ≡ byte_sum xs + byte_sum ys
unfolding byte_sum
byte_sum-append [] ys = omega arith
byte_sum-append (x ∷ xs) ys = omega (arith, byte_sum-append xs ys)

take-append : (xs ys : List ℕ) → take (length xs) (xs ++ ys) ≡ xs
take-append [] ys = refl
take-append (x ∷ xs) ys = ap (λ l. x ∷ l) (take-append xs ys)

foldl-sub8_closes :
    (c head : ℕ) (bs : List ℕ)
    → (c + head) % 256 ≡ 0
    → All IsByte bs
    → (head + byte_sum (bs ++ (foldl sub8 c bs ∷ []))) % 256 ≡ 0
foldl-sub8_closes c head bs h hb =
    rw (byte_sum-append bs) (unfold byte_sum in omega (arith, foldl-sub8 bs c hb))

-- The checksum makes all bytes of the record add up to 0 modulo 256.
checksum-byte_sum :
    (kind adr : ℕ) (bs : List ℕ)
    → IsByte kind
    → adr < 2 ^ 16
    → length bs ≤ hex_record_max
    → All IsByte bs
    → (length bs
          + adr / 256
          + adr % 256
          + kind
          + byte_sum (bs ++ (checksum kind adr (length bs) bs ∷ [])))
        % 256
      ≡ 0
unfolding checksum
checksum-byte_sum kind adr bs hk ha hl hb =
    foldl-sub8_closes _ (length bs + adr / 256 + adr % 256 + kind) bs (omega arith) hb

block_of_bytes-record_bytes :
    (kind adr : ℕ) (bs : List ℕ)
    → IsByte kind
    → adr < 2 ^ 16
    → length bs ≤ hex_record_max
    → All IsByte bs
    → block_of_bytes (record_bytes kind adr bs)
      ≡ some (record { kind = kind; address = adr; payload = bs })
unfolding block_of_bytes
block_of_bytes-record_bytes kind adr bs hk ha hl hb =
    let crc = checksum kind adr (length bs) bs in
    ground (
      arith,
      checksum-byte_sum kind adr bs hk ha hl hb,
      length-append bs (crc ∷ []),
      take-append bs (crc ∷ []),
    )

-- A written record is a line of its own, and read back as the block that it stands for.
pub split_lines-write_hex_record :
    (kind adr : ℕ) (bs rest : List ℕ)
    → IsByte kind
    → adr < 2 ^ 16
    → length bs ≤ hex_record_max
    → All IsByte bs
    → (line : List ℕ) × (split_lines (write_hex_record kind adr bs ++ rest)
        ≡ line ∷ split_lines rest)
      × (read_line line ≡ some (record { kind = kind; address = adr; payload = bs }))
split_lines-write_hex_record kind adr bs rest hk ha hl hb = (
  b':' ∷ print_bytes (record_bytes kind adr bs),
  rw (write_hex_record-record_bytes kind adr bs ha, append_assoc)
      (split_lines-append (b':' ∷ _) rest ((λ e. omega arith), print_bytes-IsInLine _)),
  unfold read_line in
      rw (read_bytes-print_bytes (record_bytes kind adr bs) bytes)
        (block_of_bytes-record_bytes kind adr bs hk ha hl hb),
)
  where
    bytes : All IsByte (record_bytes kind adr bs)
    bytes =
        let tail = All-append IsByte bs _ hb (checksum-IsByte kind adr (length bs) bs, tt) in
        (omega arith, (omega arith, (omega arith, (hk, tail))))
