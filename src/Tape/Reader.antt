-- ===== src/Tape/Reader.antt =====
-- An independent reader of a TAP block: its length in two bytes, then the flag, the data and the xor of
-- these.
use sjasmplus.Common.{
  ℕ, zero, suc, ◌+◌, ◌-◌, ◌*◌, ◌%◌, Option, none, some, List, [], ◌∷◌, if◌then◌else◌, ◌==◌, bit_xor,
}

pub record Block : Type 0 where
  pub flag : ℕ
  pub data_bytes : List ℕ
  pub rest : List ℕ

-- The xor of a start value and bytes.
unfoldable pub checksum_of : ℕ → List ℕ → ℕ
checksum_of start [] = start
checksum_of start (b ∷ bytes) = checksum_of (bit_xor start b) bytes

-- The first `n` bytes and those behind them.
unfoldable pub split_at : ℕ → List ℕ → Option (List ℕ × List ℕ)
split_at zero bytes = some ([], bytes)
split_at (suc n) [] = none
split_at (suc n) (b ∷ bytes) = elim (split_at n bytes) [
  | none ↦ none
  | some (xs, ys) ↦ some (b ∷ xs, ys)
]

unfoldable pub check_parity : ℕ → List ℕ → List ℕ → Option Block
check_parity flag data_bytes [] = none
check_parity flag data_bytes (parity ∷ rest) =
    if checksum_of flag data_bytes % 256 == parity
    then some (record { flag = flag; data_bytes = data_bytes; rest = rest })
    else none

unfoldable pub read_body : ℕ → List ℕ → Option Block
read_body size [] = none
read_body size (flag ∷ bytes) = elim (split_at (size - 2) bytes) [
  | none ↦ none
  | some (data_bytes, more) ↦ check_parity flag data_bytes more
]

unfoldable pub read_block : List ℕ → Option Block
read_block (lo ∷ hi ∷ bytes) = read_body (lo + hi * 256) bytes
read_block bytes = none
