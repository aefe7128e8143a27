-- ===== src/Expression.antt =====
-- The expression evaluator of sjasm/parser.cpp: what it reads of the assembler's state, and the
-- operators of each precedence.
pub mod Arithmetic
pub mod Operators
pub mod Parse
pub mod Entry
pub mod Levels
pub mod Values
pub mod Numbered
pub mod Primary
pub mod Termination
pub mod Printed
pub mod Relocated
mod Examples
use sjasmplus.Common.{ℕ, Bool, List, Option}
use sjasmplus.Device.{Device}
use sjasmplus.Relocation.{Relocation}
use sjasmplus.TemporaryLabels.{Table}
use sjasmplus.Reader.Outcome.{Parser}

-- EDispMode.
pub data DispMode : Type 0 where
  disp_none disp_active disp_inside_relocate : DispMode

-- The state that an expression reads. `page_number` is Page->Number, `disp_page_num` is `none` for
-- LABEL_PAGE_UNDEFINED and `adrdisp` and `cur_address` are in the bits of an aint. The label table is
-- behind its functions, whose argument is Relocation::areLabelsOffset. `undefined` gives, for an operator
-- and its operands, what the compiled program computes where C++ leaves it undefined.
pub record State : Type 0 where
  pub device : Option Device
  pub page_number : ℕ
  pub is_last_pass : Bool
  pub cur_address : ℕ
  pub pseudo_org : DispMode
  pub adrdisp : ℕ
  pub disp_page_num : Option ℕ
  pub relocation : Relocation
  pub temporary_labels : Table
  pub synerr : Bool
  pub get_label_value : Bool → Parser
  pub get_label_page : Bool → Parser
  pub get_label_ph_page : Bool → Parser
  pub get_label_ph_value : Bool → Parser
  pub label_exist : Bool → Parser
  pub get_label_size : Bool → Parser
  pub undefined : ℕ → ℕ → ℕ → ℕ
