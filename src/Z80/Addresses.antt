-- ===== src/Z80/Addresses.antt =====
-- The readers of words, ports and addresses in sjasm/z80.cpp.
use sjasmplus.Common.{ℕ, ◌%◌, ◌^◌, false, if◌then◌else◌, ◌==◌}
use sjasmplus.Reader.Outcome.{Outcome, parsed, failed, out_of_fuel}
use sjasmplus.Relocation.{Relocation}
use sjasmplus.Expression.Arithmetic.{check16}
use sjasmplus.Expression.Entry.{
  parse_expression, parse_expression_mem_access, Operand, value_operand, memory_operand, no_operand,
}
use sjasmplus.Z80.{
  Cpu, operand_expected, cannot_access_memory, square_brackets_expected, word_truncated, Line,
  report,
}
use sjasmplus.Z80.Operands.{after_operand, byte_check}

abbrev pub word_check : ℕ → Line → Line
word_check v l = if check16 v then l else report (word_truncated v) l

abbrev pub word_of : Line → Outcome × Relocation → ℕ × Line
word_of l (parsed v p ms, r) = (v % 2 ^ 16, word_check v (after_operand l r p ms))
word_of l (failed p ms, r) = (0, report operand_expected (after_operand l r p ms))
word_of l (out_of_fuel, r) = (0, l)

-- GetWord.
unfoldable pub get_word : Line → ℕ × Line
get_word l = word_of l (parse_expression l.state l.text)

abbrev pub word_no_mem : Line → Operand × Relocation → ℕ × Line
word_no_mem l (value_operand v p ms, r) = (v % 2 ^ 16, word_check v (after_operand l r p ms))
word_no_mem l (memory_operand v p ms, r) = (0, report cannot_access_memory (after_operand l r p ms))
word_no_mem l (no_operand p ms, r) = (0, report operand_expected (after_operand l r p ms))

-- GetWordNoMem.
unfoldable pub get_word_no_mem : Cpu → Line → ℕ × Line
get_word_no_mem cpu l =
    if cpu.memory_brackets == 0
    then get_word l
    else word_no_mem l (parse_expression_mem_access l.state cpu.memory_brackets l.text)

abbrev pub port_of : Cpu → Line → Operand × Relocation → ℕ × Line
port_of cpu l (value_operand v p ms, r) =
    if cpu.memory_brackets == 2
    then (0, report square_brackets_expected (after_operand l r p ms))
    else (v % 2 ^ 8, byte_check false v (after_operand l r p ms))
port_of cpu l (memory_operand v p ms, r) = (v % 2 ^ 8, byte_check false v (after_operand l r p ms))
port_of cpu l (no_operand p ms, r) = (0, report operand_expected (after_operand l r p ms))

-- GetIoPort.
unfoldable pub get_io_port : Cpu → Line → ℕ × Line
get_io_port cpu l = port_of cpu l (parse_expression_mem_access l.state cpu.memory_brackets l.text)
