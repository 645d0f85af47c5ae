-- ===== src/Prelude/Slices.antt =====
-- Parts of parts of a buffer.
use Prim.Native.Nat.{ℕ, zero, suc, ◌+◌, ◌≤◌}
use mathlib.Core.Path.{◌≡◌, refl, ap, ◌∙◌}
use mathlib.Core.List.{List, [], ◌∷◌}
use native.Mathlib.Omega.{arith}
use distributed_storage_syst.Prelude.Lists.{length, take, drop}
use distributed_storage_syst.Prelude.Blocks.{slice}

pub drop-drop {ℓ} : {A : Type ℓ} (n m : ℕ) (xs : List A) → drop n (drop m xs) ≡ drop (m + n) xs
drop-drop n zero xs = ap (λ k. drop k xs) (omega arith)
drop-drop zero (suc m) [] = let e : suc m + 0 ≡ suc m = omega arith in rw e refl
drop-drop (suc n) (suc m) [] = let e : suc m + suc n ≡ suc (m + suc n) = omega arith in rw e refl
drop-drop n (suc m) (x ∷ xs) =
    let e : suc m + n ≡ suc (m + n) = omega arith in rw e (drop-drop n m xs)

pub take-slice {ℓ} :
    {A : Type ℓ} (n k off : ℕ) (xs : List A) → k ≤ n → take k (slice off n xs) ≡ slice off k xs
take-slice n k off xs h = take-take n k (drop off xs) h
  where
    take-take : {A : Type ℓ} (n k : ℕ) (xs : List A) → k ≤ n → take k (take n xs) ≡ take k xs
    take-take n zero xs h = refl
    take-take zero (suc k) xs h = absurd (omega arith)
    take-take (suc n) (suc k) [] h = refl
    take-take (suc n) (suc k) (x ∷ xs) h = ap (◌∷◌ x) (take-take n k xs (omega arith))

pub drop-take {ℓ} :
    {A : Type ℓ} (n k : ℕ) (xs : List A) → drop k (take (k + n) xs) ≡ take n (drop k xs)
drop-take n zero xs = ap (λ j. take j xs) (omega arith)
drop-take {A = A} n (suc k) [] = let e : suc k + n ≡ suc (k + n) = omega arith in rw e (drop-nil n)
  where
    drop-nil : (n : ℕ) → ◌≡◌ {A = List A} [] (take n [])
    drop-nil zero = refl
    drop-nil (suc n) = refl
drop-take n (suc k) (x ∷ xs) =
    let e : suc k + n ≡ suc (k + n) = omega arith in rw e (drop-take n k xs)

pub drop-slice {ℓ} :
    {A : Type ℓ} (n k off : ℕ) (xs : List A) → drop k (slice off (k + n) xs) ≡ slice (off + k) n xs
drop-slice n k off xs = drop-take n k (drop off xs) ∙ ap (take n) (drop-drop k off xs)

pub drop_all {ℓ} : {A : Type ℓ} (xs : List A) (n : ℕ) → length xs ≤ n → drop n xs ≡ []
drop_all [] zero h = refl
drop_all [] (suc n) h = refl
drop_all (x ∷ xs) zero h = elim h [ ]
drop_all (x ∷ xs) (suc n) h = drop_all xs n (omega arith)
