-- ===== src/Address/Printed.antt =====
-- lib/nettypes.c: the text of an address.
use distributed_storage_syst.Prelude.{
  ℕ, suc, ◌+◌, ◌^◌, ◌<◌, ◌≤◌, ◌≡◌, ◌∙◌, refl, ap, List, [], ◌∷◌, ◌++◌, arith, length, lt→ltb,
}
use distributed_storage_syst.Address.{IPv4, Address}
use distributed_storage_syst.Address.Text.{numbers, scan_fields, after_dot, add_field, ipv4_text}
use distributed_storage_syst.Text.Numbers.{print_uint}
use distributed_storage_syst.Text.Decimal.{
  IsPlain, print_digits-append, print_digits-IsPlain, length-print_digits-le,
  scan_number-print_uint,
}

-- The fields of an address hold what their types do.
pub record IsAddress (a : Address) : Type 0 where
  pub octet0_small : a.ip.octet0 < 2 ^ 8
  pub octet1_small : a.ip.octet1 < 2 ^ 8
  pub octet2_small : a.ip.octet2 < 2 ^ 8
  pub octet3_small : a.ip.octet3 < 2 ^ 8
  pub port_small : a.port < 2 ^ 16

scan_fields-last : (n : ℕ) → n < 2 ^ 8 → scan_fields 1 (print_uint n []) ≡ numbers (n ∷ [])
unfolding scan_fields
scan_fields-last n small =
    rw (scan_fields, scan_number-print_uint n [] (omega arith) tt, lt→ltb n (2 ^ 32) (omega arith))
      refl

scan_fields-dot :
    (count n : ℕ) (rest : List ℕ)
    → n < 2 ^ 8
    → scan_fields (suc (suc count)) (print_uint n (b'.' ∷ rest))
      ≡ add_field n (scan_fields (suc count) rest)
unfolding scan_fields after_dot
scan_fields-dot count n rest small =
    rw
      (
        scan_fields,
        scan_number-print_uint n (b'.' ∷ rest) (omega arith) refl,
        lt→ltb n (2 ^ 32) (omega arith),
      )
      refl

-- The text of an address is scanned as its octets.
pub scan_fields-ipv4_text :
    (a : Address)
    → IsAddress a
    → scan_fields 4 (ipv4_text a.ip [])
      ≡ numbers (a.ip.octet0 ∷ a.ip.octet1 ∷ a.ip.octet2 ∷ a.ip.octet3 ∷ [])
unfolding ipv4_text add_field
scan_fields-ipv4_text a v =
    scan_fields-dot 2 a.ip.octet0 _ v.octet0_small
    ∙ ap (add_field a.ip.octet0) (
        scan_fields-dot 1 a.ip.octet1 _ v.octet1_small
        ∙ ap (add_field a.ip.octet1) (
            scan_fields-dot 0 a.ip.octet2 _ v.octet2_small
            ∙ ap (add_field a.ip.octet2) (scan_fields-last a.ip.octet3 v.octet3_small)))

print_uint-append :
    (n : ℕ) (rest more : List ℕ) → print_uint n (rest ++ more) ≡ print_uint n rest ++ more
unfolding print_uint
print_uint-append n rest more = print_digits-append 10 n rest more

pub ipv4_text-append : (ip : IPv4) (rest : List ℕ) → ipv4_text ip rest ≡ ipv4_text ip [] ++ rest
unfolding ipv4_text
ipv4_text-append ip rest =
    ap (λ t. print_uint ip.octet0 (b'.' ∷ t))
      (ap (λ t. print_uint ip.octet1 (b'.' ∷ t))
          (ap (λ t. print_uint ip.octet2 (b'.' ∷ t)) (print_uint-append ip.octet3 [] rest)
            ∙ print_uint-append ip.octet2 (b'.' ∷ print_uint ip.octet3 []) rest)
        ∙ print_uint-append ip.octet1 _ rest)
    ∙ print_uint-append ip.octet0 _ rest

pub ipv4_text-IsPlain : (ip : IPv4) → IsPlain (ipv4_text ip [])
unfolding ipv4_text print_uint
ipv4_text-IsPlain ip =
    field ip.octet0 _
      (dot _ (field ip.octet1 _ (dot _ (field ip.octet2 _ (dot _ (field ip.octet3 [] tt))))))
  where
    field : (n : ℕ) (rest : List ℕ) → IsPlain rest → IsPlain (print_uint n rest)
    field n rest plain = print_digits-IsPlain 10 n rest plain

    dot : (rest : List ℕ) → IsPlain rest → IsPlain (b'.' ∷ rest)
    dot rest plain = (omega arith, omega arith, plain)

length-print_uint-le :
    (n : ℕ) (rest : List ℕ) → n < 2 ^ 8 → length (print_uint n rest) ≤ 3 + length rest
unfolding print_uint
length-print_uint-le n rest small = length-print_digits-le 10 3 n rest (omega arith) (omega arith)

length-port-le : (n : ℕ) → n < 2 ^ 16 → length (print_uint n []) ≤ 5
unfolding print_uint
length-port-le n small = length-print_digits-le 10 5 n [] (omega arith) (omega arith)

-- `%u.%u.%u.%u:%u`
abbrev pub text_of : Address → List ℕ
text_of a = ipv4_text a.ip (b':' ∷ print_uint a.port [])

pub length-text_of-le : (a : Address) → IsAddress a → length (text_of a) ≤ 21
unfolding ipv4_text
length-text_of-le a v =
    let port : ℕ = length (print_uint a.port []) in
    omega (
      arith,
      length-print_uint-le a.ip.octet0 _ v.octet0_small,
      length-print_uint-le a.ip.octet1 _ v.octet1_small,
      length-print_uint-le a.ip.octet2 _ v.octet2_small,
      length-print_uint-le a.ip.octet3 (b':' ∷ print_uint a.port []) v.octet3_small,
      length-port-le a.port v.port_small,
    )
