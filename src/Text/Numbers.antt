-- ===== src/Text/Numbers.antt =====
-- Numbers as text: what the code uses of `atoi`, of `%u` in `sscanf` and in `snprintf`.
use distributed_storage_syst.Prelude.{
  ℕ, zero, suc, ◌+◌, ◌-◌, ◌*◌, ◌/◌, ◌%◌, ◌^◌, Bool, true, false, ◌&&◌, ◌||◌, List, [], ◌∷◌, Option,
  none, some, ◌==◌, if◌then◌else◌, ltb, leb,
}

-- An `int`: `negsuc n` is -1 - n.
pub data ℤ : Type 0 where
  pos : ℕ → ℤ
  negsuc : ℕ → ℤ

unfoldable pub is_digit : ℕ → Bool
is_digit c = leb 48 c && leb c 57

-- `isspace`: the blank, and tab, newline, vertical tab, form feed and carriage return.
unfoldable pub is_space : ℕ → Bool
is_space c = (c == 32) || (leb 9 c && leb c 13)

unfoldable pub skip_space : List ℕ → List ℕ
unfolding is_space
skip_space [] = []
skip_space (c ∷ cs) = elim (is_space c) [ true ↦ skip_space cs | false ↦ c ∷ cs ]

-- The value of the digits at the front, behind those that make up `n`, and what follows them.
unfoldable pub scan_digits : ℕ → List ℕ → ℕ × List ℕ
unfolding is_digit
scan_digits n [] = (n, [])
scan_digits n (c ∷ cs) = elim (is_digit c) [
  | true ↦ scan_digits (n * 10 + (c - 48)) cs
  | false ↦ (n, c ∷ cs)
]

-- A number with its sign, if there is one; `mismatch` where no digit follows.
pub data Scan : Type 0 where
  mismatch : Scan
  scanned : (is_negative : Bool) (value : ℕ) (rest : List ℕ) → Scan

unfoldable pub scan_unsigned : Bool → List ℕ → Scan
unfolding scan_digits is_digit
scan_unsigned is_negative [] = mismatch
scan_unsigned is_negative (c ∷ cs) =
    if is_digit c
    then (let (value, rest) = scan_digits 0 (c ∷ cs) in scanned is_negative value rest)
    else mismatch

unfoldable pub scan_signed : List ℕ → Scan
unfolding scan_unsigned
scan_signed [] = mismatch
scan_signed (c ∷ cs) =
    if c == b'-'
    then scan_unsigned true cs
    else if c == b'+'
    then scan_unsigned false cs
    else scan_unsigned false (c ∷ cs)

unfoldable pub scan_number : List ℕ → Scan
unfolding scan_signed skip_space
scan_number cs = scan_signed (skip_space cs)

-- `atoi`: 0 where there is no number; the behaviour at a value that an `int` does not hold is not
-- defined.
unfoldable pub atoi : List ℕ → Option ℤ
unfolding scan_number
atoi cs = elim (scan_number cs) [
  | mismatch ↦ some (pos 0)
  | scanned is_negative value rest ↦
      if is_negative && ltb 0 value
      then (if leb value (2 ^ 31) then some (negsuc (value - 1)) else none)
      else if ltb value (2 ^ 31)
      then some (pos value)
      else none
]

-- The decimal digits of a number in front of a text; `fuel` bounds their number, and ten are enough
-- for an `unsigned int`.
unfoldable pub print_digits : (fuel : ℕ) → ℕ → List ℕ → List ℕ
print_digits zero n rest = rest
print_digits (suc fuel) n rest = elim (n / 10 == 0) [
  | true ↦ (48 + n % 10) ∷ rest
  | false ↦ print_digits fuel (n / 10) ((48 + n % 10) ∷ rest)
]

-- `%u`
unfoldable pub print_uint : ℕ → List ℕ → List ℕ
unfolding print_digits
print_uint n rest = print_digits 10 n rest
