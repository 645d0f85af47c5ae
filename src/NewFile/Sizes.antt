-- ===== src/NewFile/Sizes.antt =====
-- The sizes of the fragments: together they are the file.
use distributed_storage_syst.Prelude.{
  ℕ, zero, suc, ◌+◌, ◌*◌, ◌/◌, ◌<◌, ◌≤◌, ◌≡◌, arith, ◌⊎◌, inl, inr, ◌≢◌, ap, ==_iff, ℕ_discrete,
}
use native.Mathlib.Nat.{div-add-mod, div-le_self}
use distributed_storage_syst.NewFile.{fragment_size}

inner : (sz count i : ℕ) → i + 1 ≢ count → fragment_size sz count i ≡ sz / count
unfolding fragment_size
inner sz count i h = ground arith

final : (sz count i : ℕ) → i + 1 ≡ count → sz / count * i + fragment_size sz count i ≡ sz
unfolding fragment_size
final sz count i e =
    rw ((==_iff (i + 1) count).1 e)
      (omega (arith, div-add-mod sz count, ap (λ (k : ℕ). sz / count * k) e))

-- The fragments before the `n`-th.
abbrev total_size : ℕ → ℕ → ℕ → ℕ
total_size sz count zero = 0
total_size sz count (suc n) = total_size sz count n + fragment_size sz count n

total_size_before : (sz count n : ℕ) → n < count → total_size sz count n ≡ sz / count * n
unfolding fragment_size
total_size_before sz count zero h = omega arith
total_size_before sz count (suc n) h = ground (arith, total_size_before sz count n (omega arith))

-- A fragment ends where the next begins, and the last one at the end of the file.
pub fragment_size_lem :
    (sz count i : ℕ)
    → i < count
    → ((i + 1 < count) × (fragment_size sz count i ≡ sz / count))
      ⊎ ((i + 1 ≡ count) × (sz / count * i + fragment_size sz count i ≡ sz))
fragment_size_lem sz count i h = elim (ℕ_discrete (i + 1) count) [
  | no more ↦ inl (omega arith, inner sz count i more)
  | yes end ↦ inr (end, final sz count i end)
]

-- The sizes of the fragments that a file is cut into, one at least, add up to the size of the
-- file.
total_size_lem : (sz count : ℕ) → 0 < count → total_size sz count count ≡ sz
total_size_lem sz zero h = absurd (omega arith)
total_size_lem sz (suc n) h =
    omega (arith, total_size_before sz (suc n) n (omega arith), final sz (suc n) n (omega arith))

pub fragment_size-le : (sz count i : ℕ) → i < count → fragment_size sz count i ≤ sz
fragment_size-le sz count i h = ground (arith, fragment_size_lem sz count i h, div-le_self sz count)
