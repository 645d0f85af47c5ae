-- ===== src/Text/Decimal.antt =====
-- A number that is printed is scanned again.
use distributed_storage_syst.Prelude.{
  ℕ, zero, suc, ◌+◌, ◌-◌, ◌*◌, ◌/◌, ◌%◌, ◌^◌, ◌<◌, ◌≤◌, ◌≡◌, ◌≢◌, ◌∙◌, inl, inr, refl, ap, true,
  false, List, [], ◌∷◌, ◌++◌, some, arith, ◌==◌, length, Bool-cases, lt→ltb,
}
use native.Mathlib.Nat.{mod-lt, div-add-mod, pow-suc}
use distributed_storage_syst.Text.Numbers.{
  pos, is_digit, skip_space, is_space, scan_digits, scan_unsigned, scan_signed, scan_number,
  scanned, atoi, print_digits, print_uint,
}

digit_is_digit : (n : ℕ) → is_digit (48 + n % 10) ≡ true
unfolding is_digit
digit_is_digit n = let small : n % 10 < 10 = mod-lt n (omega arith) in ground arith

scan_digits-cons :
    (a n : ℕ) (rest : List ℕ)
    → scan_digits a ((48 + n % 10) ∷ rest) ≡ scan_digits (a * 10 + n % 10) rest
unfolding scan_digits
scan_digits-cons a n rest =
    let digit : 48 + n % 10 - 48 ≡ n % 10 = omega arith in
    rw (scan_digits, digit_is_digit n, digit) refl

pub print_digits-append :
    (fuel n : ℕ) (rest more : List ℕ)
    → print_digits fuel n (rest ++ more) ≡ print_digits fuel n rest ++ more
unfolding print_digits
print_digits-append zero n rest more = refl
print_digits-append (suc fuel) n rest more = elim (Bool-cases (n / 10 == 0)) [
  | inl last ↦ rw (print_digits, last) refl
  | inr before ↦
      rw (print_digits, before) (print_digits-append fuel (n / 10) ((48 + n % 10) ∷ rest) more)
]

fuel_pos : (fuel n : ℕ) → n ≢ 0 → n < 10 ^ fuel → 0 < fuel
fuel_pos zero n more small = absurd (more (omega arith))
fuel_pos (suc fuel) n more small = omega arith

-- With fuel for all digits, and one at least.
pub scan_digits-print_digits :
    (fuel n : ℕ) (rest : List ℕ)
    → n < 10 ^ fuel
    → 0 < fuel
    → scan_digits 0 (print_digits fuel n rest) ≡ scan_digits n rest
unfolding print_digits scan_digits
scan_digits-print_digits zero n rest enough pos' = absurd (omega arith)
scan_digits-print_digits (suc fuel) n rest enough pos' = elim (Bool-cases (n / 10 == 0)) [
  | inl last ↦
      let one : 0 * 10 + n % 10 ≡ n = ground arith in
      rw (print_digits, last) (scan_digits-cons 0 n rest ∙ ap (λ a. scan_digits a rest) one)
  | inr before ↦
      let whole : n / 10 * 10 + n % 10 ≡ n = omega (arith, div-add-mod n 10) in
      let more : n / 10 ≢ 0 = ground arith in
      let fuel_left : n / 10 < 10 ^ fuel = omega (arith, pow-suc 10 fuel, div-add-mod n 10) in
      let some_fuel : 0 < fuel = fuel_pos fuel (n / 10) more fuel_left in
      rw (print_digits, before)
        (scan_digits-print_digits fuel (n / 10) ((48 + n % 10) ∷ rest) fuel_left some_fuel
          ∙ scan_digits-cons (n / 10) n rest
          ∙ ap (λ a. scan_digits a rest) whole)
]

-- The characters of addresses but the colon: digits and the dot.
abbrev pub IsPlain : List ℕ → Type 0
IsPlain [] = Unit {0}
IsPlain (c ∷ cs) = (46 ≤ c) × (c ≤ 57) × IsPlain cs

pub print_digits-IsPlain :
    (fuel n : ℕ) (rest : List ℕ) → IsPlain rest → IsPlain (print_digits fuel n rest)
unfolding print_digits
print_digits-IsPlain zero n rest plain = plain
print_digits-IsPlain (suc fuel) n rest plain =
    let small : n % 10 < 10 = mod-lt n (omega arith) in
    let more : IsPlain ((48 + n % 10) ∷ rest) = (omega arith, omega arith, plain) in
    elim (Bool-cases (n / 10 == 0)) [
      | inl last ↦ rw (print_digits, last) more
      | inr before ↦
          rw (print_digits, before) (print_digits-IsPlain fuel (n / 10) ((48 + n % 10) ∷ rest) more)
    ]

-- `k` digits at most, below 10 ^ k.
pub length-print_digits-le :
    (fuel k n : ℕ) (rest : List ℕ)
    → n < 10 ^ k
    → 0 < k
    → length (print_digits fuel n rest) ≤ k + length rest
unfolding print_digits
length-print_digits-le zero k n rest small some_digits = omega arith
length-print_digits-le (suc fuel) zero n rest small some_digits = absurd (omega arith)
length-print_digits-le (suc fuel) (suc k) n rest small some_digits =
    elim (Bool-cases (n / 10 == 0)) [
      | inl last ↦ rw (print_digits, last) (omega arith)
      | inr before ↦
          let more : n / 10 ≢ 0 = ground arith in
          let fewer : n / 10 < 10 ^ k = omega (arith, pow-suc 10 k, div-add-mod n 10) in
          rw (print_digits, before)
            (omega (
              arith,
              length-print_digits-le fuel k (n / 10) ((48 + n % 10) ∷ rest) fewer
                  (fuel_pos k (n / 10) more fewer),
            ))
    ]

-- The first character is a digit.
abbrev pub StartsWithDigit : List ℕ → Type 0
StartsWithDigit [] = ⊥
StartsWithDigit (c ∷ cs) = is_digit c ≡ true

print_digits-StartsWithDigit :
    (fuel n : ℕ) (rest : List ℕ) → StartsWithDigit (print_digits (suc fuel) n rest)
unfolding print_digits
print_digits-StartsWithDigit zero n rest = elim (Bool-cases (n / 10 == 0)) [
  | inl last ↦ rw (print_digits, last) (digit_is_digit n)
  | inr before ↦ rw (print_digits, before) (digit_is_digit n)
]
print_digits-StartsWithDigit (suc fuel) n rest = elim (Bool-cases (n / 10 == 0)) [
  | inl last ↦ rw (print_digits, last) (digit_is_digit n)
  | inr before ↦
      rw (print_digits, before) (print_digits-StartsWithDigit fuel (n / 10) ((48 + n % 10) ∷ rest))
]

pub print_uint-StartsWithDigit : (n : ℕ) (rest : List ℕ) → StartsWithDigit (print_uint n rest)
unfolding print_uint
print_uint-StartsWithDigit n rest = print_digits-StartsWithDigit 9 n rest

-- A text that starts with a digit is scanned without a sign.
scan_number-digit :
    (cs : List ℕ)
    → StartsWithDigit cs
    → scan_number cs ≡ (let (value, rest) = scan_digits 0 cs in scanned false value rest)
unfolding scan_number skip_space scan_signed scan_unsigned is_digit is_space
scan_number-digit [] digit = absurd digit
scan_number-digit (c ∷ cs) digit = ground arith

-- What stands behind the number is no digit.
abbrev pub Ends : List ℕ → Type 0
Ends [] = Unit {0}
Ends (c ∷ cs) = is_digit c ≡ false

scan_digits-Ends : (n : ℕ) (rest : List ℕ) → Ends rest → scan_digits n rest ≡ (n, rest)
unfolding scan_digits
scan_digits-Ends n [] ends = refl
scan_digits-Ends n (c ∷ cs) ends = rw (scan_digits, ends) refl

pub scan_number-print_uint :
    (n : ℕ) (rest : List ℕ)
    → n < 10 ^ 10
    → Ends rest
    → scan_number (print_uint n rest) ≡ scanned false n rest
unfolding print_uint
scan_number-print_uint n rest small ends =
    scan_number-digit (print_uint n rest) (print_uint-StartsWithDigit n rest)
    ∙ rw (scan_digits-print_digits 10 n rest small (omega arith), scan_digits-Ends n rest ends) refl

pub atoi-print_uint :
    (n : ℕ) (rest : List ℕ) → n < 2 ^ 31 → Ends rest → atoi (print_uint n rest) ≡ some (pos n)
unfolding atoi
atoi-print_uint n rest small ends =
    rw (atoi, scan_number-print_uint n rest (omega arith) ends, lt→ltb n (2 ^ 31) small) refl
