-- ===== src/Reader/Outcome.antt =====
-- What a reader of sjasm/reader.cpp or sjasm/parser.cpp leaves: its value and the pointer, with the
-- errors and warnings that it reports.
use sjasmplus.Common.{ℕ, Bool, true, false, List, ◌++◌}
use sjasmplus.Reader.Literal.{Report}

pub data Message : Type 0 where
  literal : Report → Message
  unknown_escape unclosed_string nothing_to_patch empty_segment string_expected empty_string
        long_string :
      Message
  missing_label parenthesis_expected brace_expected outside_of_memory deprecated_operator
        syntax_error division_by_zero :
      Message
  truncated_to_8bit unreadable_address : ℕ → Message
  of_label : List ℕ → Message
  relocatable_align illegal_align fill_expected illegal_fill : Message

-- `parsed` is a result that is not zero, with the value; `failed` is the result zero. `out_of_fuel` is
-- no behaviour of the code.
pub data Outcome : Type 0 where
  parsed : ℕ → List ℕ → List Message → Outcome
  failed : List ℕ → List Message → Outcome
  out_of_fuel : Outcome

-- Reports that came before.
abbrev pub after : List Message → Outcome → Outcome
after ms (parsed v p later) = parsed v p (ms ++ later)
after ms (failed p later) = failed p (ms ++ later)
after ms out_of_fuel = out_of_fuel

-- `if (!read(p, v)) return 0;` and what follows.
abbrev pub and_then : Outcome → (ℕ → List ℕ → Outcome) → Outcome
and_then (parsed v p ms) next = after ms (next v p)
and_then (failed p ms) next = failed p ms
and_then out_of_fuel next = out_of_fuel

-- `if (read(p, v)) return 1; p = oldP;` and what follows.
abbrev pub or_else : Outcome → Outcome → Outcome
or_else (parsed v p ms) next = parsed v p ms
or_else (failed p ms) next = after ms next
or_else out_of_fuel next = out_of_fuel

-- A failure that sets the pointer back.
abbrev pub back_to : List ℕ → Outcome → Outcome
back_to old_p (parsed v p ms) = parsed v p ms
back_to old_p (failed p ms) = failed old_p ms
back_to old_p out_of_fuel = out_of_fuel

abbrev pub succeeds : Outcome → Bool
succeeds (parsed v p ms) = true
succeeds (failed p ms) = false
succeeds out_of_fuel = false

abbrev pub Parser : Type 0
Parser = List ℕ → Outcome
