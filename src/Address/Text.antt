-- ===== src/Address/Text.antt =====
-- lib/nettypes.c: addresses as text.
use distributed_storage_syst.Prelude.{
  ℕ, zero, suc, ◌>>=◌, ◌+◌, ◌-◌, ◌%◌, ◌^◌, Bool, true, false, ◌||◌, List, [], ◌∷◌, ◌++◌, Option,
  none, some, ◌==◌, if◌then◌else◌, ltb, length, take, drop, set,
}
use distributed_storage_syst.Address.{IPv4, Address}
use distributed_storage_syst.Text.{cstr, strncpy, strcmp_eq}
use distributed_storage_syst.Text.Numbers.{
  ℤ, pos, negsuc, mismatch, scanned, scan_number, atoi, print_uint,
}

abbrev pub localhost_name : List ℕ
localhost_name = b'l' ∷ b'o' ∷ b'c' ∷ b'a' ∷ b'l' ∷ b'h' ∷ b'o' ∷ b's' ∷ b't' ∷ []

-- How far `sscanf` comes: it stops, it meets a value that an `unsigned int` does not hold, whose
-- behaviour is not defined, or it has the numbers.
pub data Fields : Type 0 where
  stopped : Fields
  overflow : Fields
  numbers : List ℕ → Fields

-- A `.` of the format: the last number has none behind it.
unfoldable pub after_dot : ℕ → List ℕ → Option (List ℕ)
after_dot zero cs = some cs
after_dot (suc count) [] = none
after_dot (suc count) (c ∷ cs) = if c == b'.' then some cs else none

unfoldable pub add_field : ℕ → Fields → Fields
add_field n stopped = stopped
add_field n overflow = overflow
add_field n (numbers ns) = numbers (n ∷ ns)

-- `%u` `count` times, with dots between them; a sign negates modulo 2^32.
unfoldable pub scan_fields : ℕ → List ℕ → Fields
unfolding scan_number after_dot add_field
scan_fields zero cs = numbers []
scan_fields (suc count) cs = elim (scan_number cs) [
  | mismatch ↦ stopped
  | scanned is_negative value rest ↦
      if ltb value (2 ^ 32)
      then elim (after_dot count rest) [
        | none ↦ stopped
        | some rest' ↦
            add_field (if is_negative then (2 ^ 32 - value) % 2 ^ 32 else value)
              (scan_fields count rest')
      ]
      else overflow
]

-- The casts to `uint8_t`; with fewer than four numbers the address stays as it was.
unfoldable pub octets_of : IPv4 → List ℕ → IPv4
octets_of ip (a ∷ b ∷ c ∷ d ∷ []) = record {
  octet0 = a % 2 ^ 8;
  octet1 = b % 2 ^ 8;
  octet2 = c % 2 ^ 8;
  octet3 = d % 2 ^ 8;
}
octets_of ip ns = ip

-- `ipv4_from_string` at a string that is not null: it returns 1 whatever the string is. The outcome
-- is `none` where the behaviour is not defined.
unfoldable pub ipv4_from_string : IPv4 → List ℕ → Option IPv4
unfolding scan_fields octets_of
ipv4_from_string ip str =
    if strcmp_eq str [] || strcmp_eq str localhost_name
    then some (record { octet0 = 127; octet1 = 0; octet2 = 0; octet3 = 1 })
    else elim (scan_fields 4 (cstr str)) [
      | stopped ↦ some ip
      | overflow ↦ none
      | numbers ns ↦ some (octets_of ip ns)
    ]

-- `snprintf(out, size, ...)`: what fits, a terminator, and the rest of `out`.
unfoldable pub snprintf : List ℕ → List ℕ → List ℕ
snprintf out text =
    let kept = take (length out - 1) text in kept ++ (0 ∷ drop (length kept + 1) out)

-- The text of an address, in front of what follows it.
unfoldable pub ipv4_text : IPv4 → List ℕ → List ℕ
unfolding print_uint
ipv4_text ip rest =
    print_uint ip.octet0
      (b'.' ∷ print_uint ip.octet1 (b'.' ∷ print_uint ip.octet2 (b'.' ∷ print_uint ip.octet3 rest)))

-- `ipv4_to_string`; `out` is the array of `size` characters.
unfoldable pub ipv4_to_string : IPv4 → List ℕ → List ℕ
unfolding ipv4_text snprintf
ipv4_to_string ip out = if ltb (length out) 16 then out else snprintf out (ipv4_text ip [])

-- The part before the first `:`, and what follows it, if there is one.
unfoldable pub strchr_colon : List ℕ → List ℕ × Option (List ℕ)
strchr_colon [] = ([], none)
strchr_colon (c ∷ cs) =
    let (before, behind) = strchr_colon cs in
    elim (c == b':') [ true ↦ ([], some cs) | false ↦ (c ∷ before, behind) ]

-- `(uint16_t)atoi(...)`
unfoldable pub port_of : ℤ → ℕ
port_of (pos n) = n % 2 ^ 16
port_of (negsuc n) = 2 ^ 16 - 1 - n % 2 ^ 16

-- Without a colon the port is 0.
unfoldable pub read_port : Option (List ℕ) → Option ℕ
unfolding atoi port_of
read_port none = some 0
read_port (some text) = do n ← atoi text; some (port_of n)

-- `address_from_string`; `memory` is the array `buf` on the stack. A null string gives 0 and leaves
-- the address.
unfoldable pub address_from_string :
    (memory : List ℕ) → Address → Option (List ℕ) → Option (Bool × Address)
unfolding strchr_colon read_port ipv4_from_string
address_from_string memory addr none = some (false, addr)
address_from_string memory addr (some str) =
    let buf = set (strncpy memory str 31) 31 0 in
    let (before, behind) = strchr_colon (cstr buf) in
    (do
      port ← read_port behind
      ip ← ipv4_from_string addr.ip before
      some (true, record { ip = ip; port = port }))

-- `address_to_string`
unfoldable pub address_to_string : Address → List ℕ → List ℕ
unfolding ipv4_text print_uint snprintf
address_to_string addr out =
    if ltb (length out) 22
    then out
    else snprintf out (ipv4_text addr.ip (b':' ∷ print_uint addr.port []))
