-- ===== src/Text.antt =====
-- C strings in `char` arrays, as lists of bytes: what the code uses of <string.h>.
pub mod Numbers
pub mod Decimal
use distributed_storage_syst.Prelude.{
  ℕ, zero, suc, ◌-◌, ◌≤◌, ◌≡◌, refl, ◌↔◌, Bool, true, false, ◌&&◌, List, [], ◌∷◌, ◌++◌, arith, ◌==◌,
  if◌then◌else◌, length, set, take, drop, replicate, length-append, length-take, length-drop,
  length-replicate, take-append_left, take_all, ap, sym, ◌∙◌,
}
use mathlib.Core.List.{append-nil}

-- The characters before the terminator, or all of them where the array has none.
unfoldable pub cstr : List ℕ → List ℕ
cstr [] = []
cstr (c ∷ cs) = if c == 0 then [] else c ∷ cstr cs

-- `strncpy(dst, src, n)`: at most `n` characters of `src`, zeros up to `n`, and the rest of `dst`.
unfoldable pub strncpy : List ℕ → List ℕ → ℕ → List ℕ
unfolding cstr
strncpy dst src n =
    let copied = take n (cstr src) in copied ++ (replicate (n - length copied) 0 ++ drop n dst)

unfoldable pub same_bytes : List ℕ → List ℕ → Bool
same_bytes [] [] = true
same_bytes [] (d ∷ ds) = false
same_bytes (c ∷ cs) [] = false
same_bytes (c ∷ cs) (d ∷ ds) = (c == d) && same_bytes cs ds

-- `strcmp(a, b) == 0`
unfoldable pub strcmp_eq : List ℕ → List ℕ → Bool
unfolding cstr same_bytes
strcmp_eq a b = same_bytes (cstr a) (cstr b)

pub same_bytes_iff : (a b : List ℕ) → (same_bytes a b ≡ true) ↔ (a ≡ b)
unfolding same_bytes
same_bytes_iff [] [] = (λ _. refl, λ _. refl)
same_bytes_iff [] (d ∷ ds) = (λ h. cc, λ h. cc)
same_bytes_iff (c ∷ cs) [] = (λ h. cc, λ h. cc)
same_bytes_iff (c ∷ cs) (d ∷ ds) = ground (arith, same_bytes_iff cs ds)

pub strcmp_eq_iff : (a b : List ℕ) → (strcmp_eq a b ≡ true) ↔ (cstr a ≡ cstr b)
unfolding strcmp_eq
strcmp_eq_iff a b = same_bytes_iff (cstr a) (cstr b)

pub cstr-cstr : (a : List ℕ) → cstr (cstr a) ≡ cstr a
unfolding cstr
cstr-cstr [] = refl
cstr-cstr (c ∷ cs) = ground (arith, cstr-cstr cs)

pub length-cstr-le : (a : List ℕ) → length (cstr a) ≤ length a
unfolding cstr
length-cstr-le [] = omega arith
length-cstr-le (c ∷ cs) = ground (arith, length-cstr-le cs)

pub length-strncpy :
    (dst src : List ℕ) (n : ℕ) → n ≤ length dst → length (strncpy dst src n) ≡ length dst
unfolding strncpy
length-strncpy dst src n h = omega (
  arith,
  length-append (take n (cstr src)) (replicate (n - length (take n (cstr src))) 0 ++ drop n dst),
  length-append {0} {A = ℕ} (replicate (n - length (take n (cstr src))) 0) (drop n dst),
  length-replicate {0} {A = ℕ} (n - length (take n (cstr src))) 0,
  length-take n (cstr src),
  length-drop n dst,
)

-- A prefix of a string, behind which a terminator stands, reads back as that prefix.
pub cstr-take_append :
    (n : ℕ) (a ys : List ℕ) → cstr (take n (cstr a) ++ (0 ∷ ys)) ≡ take n (cstr a)
unfolding cstr
cstr-take_append zero a ys = refl
cstr-take_append (suc n) [] ys = refl
cstr-take_append (suc n) (c ∷ cs) ys = ground (arith, cstr-take_append n cs ys)

cstr-zeros :
    (n m : ℕ) (a ys : List ℕ)
    → cstr (take n (cstr a) ++ (replicate m 0 ++ (0 ∷ ys))) ≡ take n (cstr a)
cstr-zeros n zero a ys = cstr-take_append n a ys
cstr-zeros n (suc m) a ys = cstr-take_append n a (replicate m 0 ++ (0 ∷ ys))

-- With a zero behind the first `n` cells the copy reads back as at most `n` characters of `src`.
pub cstr-strncpy :
    (dst src ys : List ℕ) (n : ℕ)
    → drop n dst ≡ 0 ∷ ys
    → cstr (strncpy dst src n) ≡ take n (cstr src)
unfolding strncpy
cstr-strncpy dst src ys n e = rw e (cstr-zeros n (n - length (take n (cstr src))) src ys)

-- A terminator forced into the last cell.
pub cstr-set_last : (n : ℕ) (a : List ℕ) → length a ≡ suc n → cstr (set a n 0) ≡ take n (cstr a)
unfolding cstr
cstr-set_last n [] e = absurd (omega arith)
cstr-set_last zero (c ∷ cs) e = refl
cstr-set_last (suc n) (c ∷ cs) e = ground (arith, cstr-set_last n cs (omega arith))

cstr-prefix_append :
    (n : ℕ) (a ys : List ℕ) → cstr (take n (cstr a) ++ ys) ≡ take n (cstr a) ++ cstr ys
unfolding cstr
cstr-prefix_append zero a ys = refl
cstr-prefix_append (suc n) [] ys = refl
cstr-prefix_append (suc n) (c ∷ cs) ys = ground (arith, cstr-prefix_append n cs ys)

-- With room for a terminator behind the `n` cells, where one is put: at most `n` characters of `src`.
pub cstr-set-strncpy :
    (n : ℕ) (dst src : List ℕ)
    → length dst ≡ suc n
    → cstr (set (strncpy dst src n) n 0) ≡ take n (cstr src)
unfolding strncpy cstr
cstr-set-strncpy n dst src sized =
    let kept : List ℕ = take n (cstr src) in
    let short : length kept ≤ n = omega (arith, length-take n (cstr src)) in
    let behind : List ℕ = drop n dst in
    cstr-set_last n (strncpy dst src n) (length-strncpy dst src n (omega arith) ∙ sized)
    ∙ ap (take n) (cstr-prefix_append n src (replicate (n - length kept) 0 ++ behind))
    ∙ fill (n - length kept) behind refl
  where
    fill :
        (m : ℕ) (behind : List ℕ)
        → m ≡ n - length (take n (cstr src))
        → take n (take n (cstr src) ++ cstr (replicate m 0 ++ behind)) ≡ take n (cstr src)
    fill zero behind full =
        let whole : length (take n (cstr src)) ≡ n = omega (arith, length-take n (cstr src)) in
        ap (λ k. take k (take n (cstr src) ++ cstr behind)) (sym whole)
        ∙ take-append_left (take n (cstr src)) (cstr behind)
    fill (suc m) behind room =
        ap (take n) (append-nil (take n (cstr src)))
        ∙ take_all n (take n (cstr src)) (omega (arith, length-take n (cstr src)))
