-- ===== src/Hex/Reader.antt =====
-- An independent reader of Intel HEX files: what a loader makes of a text.
use sjasmplus.Common.{
  ℕ, ◌+◌, ◌-◌, ◌*◌, ◌%◌, ◌&&◌, Option, none, some, List, [], ◌∷◌, ◌++◌, if◌then◌else◌, ltb, leb,
  ◌==◌, length, take,
}

pub record Image : Type 0 where
  -- each byte with its address, in the order of the file
  pub content : List (ℕ × ℕ)
  pub entry : Option ℕ

pub record Block : Type 0 where
  pub kind : ℕ
  pub address : ℕ
  pub payload : List ℕ

infixl 5 ◌>>=◌
abbrev pub ◌>>=◌ {ℓ κ} : {A : Type ℓ} {B : Type κ} → Option A → (A → Option B) → Option B
none >>= f = none
some a >>= f = f a

abbrev pub cons_head : ℕ → List (List ℕ) → List (List ℕ)
cons_head c [] = (c ∷ []) ∷ []
cons_head c (l ∷ ls) = (c ∷ l) ∷ ls

unfoldable pub split_lines : List ℕ → List (List ℕ)
split_lines [] = []
split_lines (c ∷ cs) = let rest = split_lines cs in if c == 10 then [] ∷ rest else cons_head c rest

unfoldable pub digit_value : ℕ → Option ℕ
digit_value c =
    if leb 48 c && ltb c 58
    then some (c - 48)
    else if leb 65 c && ltb c 71
    then some (c - 55)
    else none

unfoldable pub read_bytes : List ℕ → Option (List ℕ)
read_bytes [] = some []
read_bytes (_ ∷ []) = none
read_bytes (hi ∷ lo ∷ cs) = do
  h ← digit_value hi
  l ← digit_value lo
  bs ← read_bytes cs
  some ((h * 16 + l) ∷ bs)

unfoldable pub byte_sum : List ℕ → ℕ
byte_sum [] = 0
byte_sum (x ∷ xs) = x + byte_sum xs

-- Length, address, kind, payload and a checksum that makes the sum of all bytes 0 modulo 256.
unfoldable pub block_of_bytes : List ℕ → Option Block
block_of_bytes (len ∷ hi ∷ lo ∷ kind ∷ rest) =
    if length rest == len + 1 && (len + hi + lo + kind + byte_sum rest) % 256 == 0
    then some (record { kind = kind; address = hi * 256 + lo; payload = take len rest })
    else none
block_of_bytes _ = none

unfoldable pub read_line : List ℕ → Option Block
read_line [] = none
read_line (c ∷ cs) = if c == b':' then read_bytes cs >>= block_of_bytes else none

unfoldable pub addressed : ℕ → List ℕ → List (ℕ × ℕ)
addressed a [] = []
addressed a (b ∷ bs) = (a, b) ∷ addressed (a + 1) bs

unfoldable pub big_endian : ℕ → List ℕ → ℕ
big_endian acc [] = acc
big_endian acc (b ∷ bs) = big_endian (acc * 256 + b) bs

-- Kind 0 holds bytes, 3 the entry point, 1 ends the file; any other is refused.
unfoldable pub load_block : Block → Option Image → Option Image
load_block b rest =
    if b.kind == 0
    then rest >>= (λ i. some (record i { content = addressed b.address b.payload ++ i.content }))
    else if b.kind == 3
    then rest >>= (λ i. some (record i { entry = some (big_endian 0 b.payload) }))
    else none

unfoldable pub load_lines : List (List ℕ) → Option Image
load_lines [] = none
load_lines (l ∷ ls) =
    let rest = load_lines ls in
    read_line l >>= (λ b.
      if b.kind == 1 && length ls == 0
      then some (record { content = []; entry = none })
      else load_block b rest)

unfoldable pub load : List ℕ → Option Image
load text = load_lines (split_lines text)
