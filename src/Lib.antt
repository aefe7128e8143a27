-- ===== src/Lib.antt =====
-- A model of the assembler core of sjasmplus (directory sjasm/) and the theorems about it.
--
-- The program reads source lines, evaluates expressions and labels in several passes, and emits bytes
-- at the current address. Each byte passes CDevice::CheckPage, which maps the address to the memory of
-- the virtual device, and in the last pass goes to the output buffer, to a TAPOUT block and to an Intel
-- HEX file. The modules follow these parts:
--
-- - Common: lists, options, Boolean tests and integers that all parts share.
-- - Hex (sjasm/sjio.cpp): the Intel HEX writer. The record HexOut is the buffer hexBytes with hexCnt
--   and hexAddress and the text written so far; emit_to_hex is EmitToHex, flush_hex_buffer
--   FlushHexBuffer, write_hex_record WriteHexRecord, close_hex CloseHex. Hex/Reader is an independent
--   loader of such files, Hex/Line and Hex/Stream relate the two.
-- - Reader/Literal (sjasm/reader.cpp): numbers in the source text. get_numeric_value_two_based and
--   get_numeric_value_int_based are GetNumericValue_TwoBased and GetNumericValue_IntBased, get_constant
--   is GetConstant with its formats; the text behind the pointer is a list of character codes, and a
--   result holds the value, the rest of the text and what is reported.
-- - Reader (sjasm/reader.cpp): the small readers. Reader/Words has cmphstr, need, needa, the commas and
--   names, Reader/CharConst the string literals; a result is an Outcome, which is a value or a failure
--   with the rest of the text and the reports. Reader/Progress and Reader/Within show what each leaves.
-- - Expression (sjasm/parser.cpp): the evaluator. The record State is what it reads of the globals,
--   with the label table behind its functions; Expression/Operators has the operators of each level,
--   with the arithmetic of Expression/Arithmetic, Expression/Parse the levels and ParseExpPrim, and
--   Expression/Entry ParseExpUnair, ParseExpressionEntry, ParseExpression and the functions over them.
--   Relocation::areLabelsOffset, which the code sets and restores, is the argument `offset`.
--   Expression/Levels, Values, Numbered, Primary and Termination show that the evaluator ends,
--   Expression/Printed relates it to expression trees, Expression/Relocated to the relocation.
-- - Z80 (sjasm/z80.cpp): a part of the instruction encoder. The record Line is the line from lp on with
--   the state of the expressions, and Cpu the options. Z80/Registers is GetRegister, Z80/Operands and
--   Z80/Addresses have the conditions, bytes, words, ports and displacements, Z80/Alu CommonAluOpcode
--   and Z80/Bits the CB family, INC and DEC; they return the bytes of one argument. Z80/Decoder is an
--   independent reading of the machine code, Z80/Printed relates the texts of operands to it, and
--   Z80/Fuel shows that GetRegister ends.
-- - Device (sjasm/devices.cpp, sjasm/devices.h): the slots, pages and memory of CDevice. A page is
--   named by its number, and its RAM pointer is an offset into the memory. Device/Init is
--   initRegularSlotDevice, for which Device/Made has equal slots and pages as lists, Device/Memory
--   reads and writes through the mapping (MemGetByte of sjasm/sjio.cpp), Device/Define is dirDEFDEVICE
--   of sjasm/directives.cpp, and Device/CheckPage is CDevice::CheckPage with the globals CurAddress,
--   adrdisp, PseudoORG, Page and MemoryPointer in the record Emission.
-- - Tape (sjasm/sjio.cpp): WriteDest, OpenTapFile and CloseTapFile on the output buffer, with
--   Tape/Reader as an independent reader of TAP blocks.
-- - Tzx (sjasm/io_tzx.cpp): the TZX files, with Tzx/Reader as an independent reader.
-- - TemporaryLabels (sjasm/tables.cpp): CTemporaryLabelTable over the passes, and in
--   TemporaryLabels/Read GetTemporaryLabelValue.
-- - Defines (sjasm/tables.cpp): CDefineTable, the 128 lists of DEFINEs; Defines/Dynamic has the names
--   __COUNTER__ and __LINE__, which Get prints itself, Defines/Lookup relates the table to a map,
--   Defines/Copy has operator=, which starts each pass from the DEFINEs of the command line.
-- - Relocation (sjasm/relocate.cpp): the namespace Relocation, its variables as a record;
--   Relocation/Bounds has its operations as the steps of a run.
--
-- Numbers: characters and bytes are natural numbers below 256. An aint is its 32-bit pattern, with the
-- wrap-around written out, where the code relies on it (the literals and the evaluator); addresses of
-- CheckPage are integers. The loops of the evaluator and of the string literals and the nested calls of
-- GetRegister run on fuel, the length of the text and one more, since each round takes a character, and
-- decimal printing on the number and one more; Expression/Termination, Z80/Fuel and Defines/Dynamic
-- show that it is enough. All other loops run over lists or count down. Signed overflow of `+`, `-`,
-- `*` and `<<` wraps around; what C++ leaves undefined besides (a shift by 32 or more, -2147483648 /
-- -1, abs(-2147483648)) is a parameter.
--
-- Error paths: a FATAL error, which ends the program, is the result `none`, and so are a read outside
-- of the arrays of a device and an int32_t overflow in initRegularSlotDevice, which C++ leaves
-- undefined; other reports are kept in the state or the result, without their texts.
--
-- Not modelled: the label table (the evaluator takes its functions as parameters), macros, structures,
-- the rest of the Z80 encoder (the loops over the arguments with EmitBytes, LD, jumps and calls, 16-bit
-- arithmetic, the fixed opcodes, fake and Z80N instructions) and most directives. Outside of the model:
-- the file system, the command line, listings, and the copies of Lua and crc32c in lua5.5/ and crc32c/,
-- which the modelled code does not call.
pub mod Common
pub mod Hex
pub mod Reader
pub mod Device
pub mod Tape
pub mod TemporaryLabels
pub mod Relocation
pub mod Defines
pub mod Tzx
pub mod Expression
pub mod Z80
