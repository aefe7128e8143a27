-- ===== src/Z80/Decoder.antt =====
-- An independent reading of Z80 machine code, by the fields x, y and z of an opcode byte.
use sjasmplus.Common.{
  ℕ, ◌/◌, ◌%◌, Option, none, some, List, [], ◌∷◌, if◌then◌else◌, ◌==◌, ◌&&◌, ◌||◌,
}

-- An 8-bit operand: a register by its number in three bits, where 6 is (HL); a half of an index register
-- or the memory at it, by the prefix; or a byte.
pub data Target : Type 0 where
  plain : ℕ → Target
  half : ℕ → ℕ → Target
  indexed : ℕ → ℕ → Target
  byte : ℕ → Target

-- A group of instructions with its number: ALU operations, rotations, BIT, RES and SET with the bit, INC and
-- DEC.
pub data Operation : Type 0 where
  alu rotate test_bit reset_bit set_bit : ℕ → Operation
  increment decrement : Operation

abbrev x_field : ℕ → ℕ
x_field b = b / 64

abbrev y_field : ℕ → ℕ
y_field b = b / 8 % 8

abbrev z_field : ℕ → ℕ
z_field b = b % 8

-- The opcodes that name an 8-bit operand by its number.
unfoldable pub operation : ℕ → Option (Operation × ℕ)
operation b =
    if x_field b == 2
    then some (alu (y_field b), z_field b)
    else if x_field b == 0
    then if z_field b == 4
      then some (increment, y_field b)
      else if z_field b == 5
      then some (decrement, y_field b)
      else none
    else none

-- The opcodes behind CB.
unfoldable pub bit_operation : ℕ → Operation × ℕ
bit_operation b =
    if x_field b == 0
    then (rotate (y_field b), z_field b)
    else if x_field b == 1
    then (test_bit (y_field b), z_field b)
    else if x_field b == 2
    then (reset_bit (y_field b), z_field b)
    else (set_bit (y_field b), z_field b)

-- With an index prefix the numbers 4 and 5 are its halves and 6 is the memory at it.
abbrev pub indexed_target : ℕ → Option (Operation × ℕ) → List ℕ → Option (Operation × Target)
indexed_target prefix none rest = none
indexed_target prefix (some (o, n)) [] = if n == 4 || n == 5 then some (o, half prefix n) else none
indexed_target prefix (some (o, n)) (d ∷ []) = if n == 6 then some (o, indexed prefix d) else none
indexed_target prefix (some (o, n)) rest = none

abbrev pub plain_target : Option (Operation × ℕ) → Option (Operation × Target)
plain_target none = none
plain_target (some (o, n)) = some (o, plain n)

-- The operation and the operand of one instruction; `none` is any other code.
unfoldable pub decode : List ℕ → Option (Operation × Target)
decode [] = none
decode (b ∷ []) = plain_target (operation b)
decode (b ∷ c ∷ d ∷ e ∷ []) =
    if b == 0xdd || b == 0xfd
    then if c == 0xcb && z_field e == 6 then some ((bit_operation e).0, indexed b d) else none
    else none
decode (b ∷ c ∷ rest) =
    if b == 0xdd || b == 0xfd
    then indexed_target b (operation c) rest
    else if b == 0xcb
    then plain_target (some (bit_operation c))
    else if x_field b == 3
    then if z_field b == 6 then some (alu (y_field b), byte c) else none
    else none
