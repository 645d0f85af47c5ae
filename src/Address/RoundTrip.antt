-- ===== src/Address/RoundTrip.antt =====
-- An address that is written as text is read again.
use distributed_storage_syst.Prelude.{
  ℕ, suc, ◌-◌, ◌%◌, ◌^◌, ◌<◌, ◌≤◌, ◌≡◌, ◌∙◌, refl, sym, ap, true, false, List, [], ◌∷◌, ◌++◌, some,
  arith, length, ne→==, ge→ltb, take, take_all, take-length, set,
}
use distributed_storage_syst.Address.{IPv4, Address}
use distributed_storage_syst.Address.Text.{
  localhost_name, octets_of, ipv4_from_string, snprintf, ipv4_text, strchr_colon, read_port,
  port_of, address_from_string, address_to_string,
}
use distributed_storage_syst.Text.{
  cstr, strncpy, strcmp_eq, same_bytes, cstr-set_last, length-strncpy, cstr-cstr, cstr-take_append,
}
use distributed_storage_syst.Text.Numbers.{print_uint, print_digits, is_digit}
use distributed_storage_syst.Text.Decimal.{
  IsPlain, StartsWithDigit, print_digits-IsPlain, print_uint-StartsWithDigit, atoi-print_uint,
}
use distributed_storage_syst.Address.Printed.{
  IsAddress, scan_fields-ipv4_text, ipv4_text-append, ipv4_text-IsPlain, text_of, length-text_of-le,
}

strchr_colon-plain :
    (xs ys : List ℕ) → IsPlain xs → strchr_colon (xs ++ (b':' ∷ ys)) ≡ (xs, some ys)
unfolding strchr_colon
strchr_colon-plain [] ys plain = refl
strchr_colon-plain (x ∷ xs) ys (low, high, plain) =
    rw (strchr_colon, ne→== x b':' (omega arith), strchr_colon-plain xs ys plain) refl

cstr-plain : (xs zs : List ℕ) → IsPlain xs → cstr (xs ++ zs) ≡ xs ++ cstr zs
unfolding cstr
cstr-plain [] zs plain = refl
cstr-plain (x ∷ xs) zs (low, high, plain) =
    rw (cstr, ne→== x 0 (omega arith)) (ap (◌∷◌ x) (cstr-plain xs zs plain))

-- A plain text that starts with a digit is not one of the two names of this host.
not_a_name :
    (cs : List ℕ)
    → StartsWithDigit cs
    → (strcmp_eq cs [] ≡ false) × (strcmp_eq cs localhost_name ≡ false)
unfolding strcmp_eq same_bytes cstr is_digit
not_a_name [] digit = absurd digit
not_a_name (c ∷ cs) digit = (ground arith, ground arith)

-- A text without a terminator in it is read up to the one behind it.
cstr-terminated : (text rest : List ℕ) → cstr text ≡ text → cstr (text ++ (0 ∷ rest)) ≡ text
cstr-terminated text rest plain =
    let e : take (length text) (cstr text) ≡ text =
      ap (take (length text)) plain ∙ take-length text in
    ap (λ x. cstr (x ++ (0 ∷ rest))) (sym e) ∙ cstr-take_append (length text) text rest ∙ e

cstr-copy : (memory str : List ℕ) → length (cstr str) < 31 → cstr (strncpy memory str 31) ≡ cstr str
unfolding strncpy
cstr-copy memory str short =
    let whole : take 31 (cstr str) ≡ cstr str = take_all 31 (cstr str) (omega arith) in
    let zeros : 31 - length (cstr str) ≡ suc (30 - length (cstr str)) = omega arith in
    rw (strncpy, whole, zeros) (cstr-terminated (cstr str) _ (cstr-cstr str))

-- `strncpy` into an array of 32 and the terminator behind it keep a string of fewer than 31.
copied :
    (memory str : List ℕ)
    → length memory ≡ 32
    → length (cstr str) < 31
    → cstr (set (strncpy memory str 31) 31 0) ≡ cstr str
copied memory str sized short =
    cstr-set_last 31 (strncpy memory str 31) (length-strncpy memory str 31 (omega arith) ∙ sized)
    ∙ ap (take 31) (cstr-copy memory str short)
    ∙ take_all 31 (cstr str) (omega arith)

read_back :
    (text out : List ℕ)
    → length text < length out
    → cstr text ≡ text
    → cstr (snprintf out text) ≡ text
unfolding snprintf
read_back text out room plain =
    let whole : take (length out - 1) text ≡ text = take_all (length out - 1) text (omega arith) in
    rw (snprintf, whole) (cstr-terminated text _ plain)

plain_text : (cs : List ℕ) → IsPlain cs → cstr cs ≡ cs
unfolding cstr
plain_text [] plain = refl
plain_text (c ∷ cs) (low, high, plain) =
    rw (cstr, ne→== c 0 (omega arith)) (ap (◌∷◌ c) (plain_text cs plain))

cstr-print_uint : (n : ℕ) → cstr (print_uint n []) ≡ print_uint n []
unfolding print_uint
cstr-print_uint n = plain_text (print_digits 10 n []) (print_digits-IsPlain 10 n [] tt)

pub ipv4_text-StartsWithDigit : (ip : IPv4) (rest : List ℕ) → StartsWithDigit (ipv4_text ip rest)
unfolding ipv4_text
ipv4_text-StartsWithDigit ip rest = print_uint-StartsWithDigit ip.octet0 _

cstr-text_of : (a : Address) → cstr (text_of a) ≡ text_of a
unfolding cstr
cstr-text_of a =
    let port : List ℕ = print_uint a.port [] in
    ap cstr (ipv4_text-append a.ip (b':' ∷ port))
    ∙ cstr-plain (ipv4_text a.ip []) (b':' ∷ port) (ipv4_text-IsPlain a.ip)
    ∙ ap (λ t. ipv4_text a.ip [] ++ (b':' ∷ t)) (cstr-print_uint a.port)
    ∙ sym (ipv4_text-append a.ip (b':' ∷ port))

ipv4_round :
    (ip : IPv4) (a : Address) → IsAddress a → ipv4_from_string ip (ipv4_text a.ip []) ≡ some a.ip
unfolding ipv4_from_string octets_of
ipv4_round ip a v =
    let text : List ℕ = ipv4_text a.ip [] in
    let e0 : a.ip.octet0 % 2 ^ 8 ≡ a.ip.octet0 = omega (arith, v.octet0_small) in
    let e1 : a.ip.octet1 % 2 ^ 8 ≡ a.ip.octet1 = omega (arith, v.octet1_small) in
    let e2 : a.ip.octet2 % 2 ^ 8 ≡ a.ip.octet2 = omega (arith, v.octet2_small) in
    let e3 : a.ip.octet3 % 2 ^ 8 ≡ a.ip.octet3 = omega (arith, v.octet3_small) in
    let (no_name, no_host) = not_a_name text (ipv4_text-StartsWithDigit a.ip []) in
    rw
      (
        ipv4_from_string,
        no_name,
        no_host,
        plain_text text (ipv4_text-IsPlain a.ip),
        scan_fields-ipv4_text a v,
        e0,
        e1,
        e2,
        e3,
      )
      refl

read_port-print_uint : (n : ℕ) → n < 2 ^ 16 → read_port (some (print_uint n [])) ≡ some n
unfolding read_port port_of
read_port-print_uint n small =
    let same : n % 2 ^ 16 ≡ n = omega arith in
    rw (read_port, atoi-print_uint n [] (omega arith) tt) (ap some same)

-- Any string with the text of the address is read as the address.
pub address_from_string-text_of :
    (a b : Address) (memory str : List ℕ)
    → IsAddress a
    → length memory ≡ 32
    → cstr str ≡ text_of a
    → address_from_string memory b (some str) ≡ some (true, a)
unfolding address_from_string
address_from_string-text_of a b memory str v sized text =
    let short : length (cstr str) < 31 =
      omega (arith, length-text_of-le a v, ap (λ (x : List ℕ). length x) text) in
    rw
      (
        address_from_string,
        copied memory str sized short ∙ text,
        ipv4_text-append a.ip (b':' ∷ print_uint a.port []),
        strchr_colon-plain (ipv4_text a.ip []) (print_uint a.port []) (ipv4_text-IsPlain a.ip),
        read_port-print_uint a.port v.port_small,
        ipv4_round b.ip a v,
      )
      refl

-- An address whose fields hold what their types do, written by address_to_string into an array of
-- 22 characters or more, is read back by address_from_string, whatever was in the arrays and in
-- the address before.
pub address_from_string-to_string :
    (a b : Address) (memory out : List ℕ)
    → IsAddress a
    → length memory ≡ 32
    → 22 ≤ length out
    → address_from_string memory b (some (address_to_string a out)) ≡ some (true, a)
unfolding address_to_string
address_from_string-to_string a b memory out v sized room =
    rw (address_to_string, ge→ltb (length out) 22 room)
      (address_from_string-text_of a b memory (snprintf out (text_of a)) v sized
        (read_back (text_of a) out (omega (arith, length-text_of-le a v)) (cstr-text_of a)))
