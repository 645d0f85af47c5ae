-- ===== src/Prelude/Blocks.antt =====
-- Blocks of memory: `memcpy` out of a buffer and into one, which fault outside the buffer.
use Prim.Native.Nat.{ℕ, zero, suc, ◌+◌, ◌<◌, ◌≤◌}
use mathlib.Core.Path.{◌≡◌, refl, ap, ◌∙◌}
use mathlib.Core.List.{List, [], ◌∷◌, ◌++◌}
use mathlib.Core.Option.{Option, none, some}
use native.Mathlib.Omega.{arith}
use distributed_storage_syst.Prelude.Tests.{leb, if◌then◌else◌, le→leb}
use distributed_storage_syst.Prelude.Lists.{
  length, get_elem?, take, drop, length-append, length-take, length-drop, get_elem?-append_left,
  get_elem?-append_right, get_elem?-take_lt, get_elem?-drop,
}

module _ {ℓ} {A : Type ℓ} where
  -- The `n` items from `off` on.
  abbrev pub slice : ℕ → ℕ → List A → List A
  slice off n xs = take n (drop off xs)

  -- `memcpy(out, xs + off, n)`, as the bytes that reach `out`.
  unfoldable pub read_block : ℕ → ℕ → List A → Option (List A)
  read_block off n xs = if leb (off + n) (length xs) then some (slice off n xs) else none

  -- `memcpy(xs + off, block, length block)`, as the buffer that results.
  unfoldable pub write_block : ℕ → List A → List A → Option (List A)
  write_block off block xs =
      if leb (off + length block) (length xs)
      then some (take off xs ++ (block ++ drop (off + length block) xs))
      else none

  pub length-slice : (off n : ℕ) (xs : List A) → off + n ≤ length xs → length (slice off n xs) ≡ n
  length-slice off n xs h = omega (arith, length-take n (drop off xs), length-drop off xs)

  pub get_elem?-slice :
      (off n i : ℕ) (xs : List A) → i < n → get_elem? (slice off n xs) i ≡ get_elem? xs (off + i)
  get_elem?-slice off n i xs h = get_elem?-take_lt n i (drop off xs) h ∙ get_elem?-drop off i xs

  pub read_block_in_range :
      (off n : ℕ) (xs : List A) → off + n ≤ length xs → read_block off n xs ≡ some (slice off n xs)
  unfolding read_block
  read_block_in_range off n xs h = rw (le→leb _ _ h)

  -- What a write inside the buffer leaves.
  abbrev pub spliced : ℕ → List A → List A → List A
  spliced off block xs = take off xs ++ (block ++ drop (off + length block) xs)

  pub write_block_in_range :
      (off : ℕ) (block xs : List A)
      → off + length block ≤ length xs
      → write_block off block xs ≡ some (spliced off block xs)
  unfolding write_block
  write_block_in_range off block xs h = rw (le→leb _ _ h)

  pub length-spliced :
      (off : ℕ) (block xs : List A)
      → off + length block ≤ length xs
      → length (spliced off block xs) ≡ length xs
  length-spliced off block xs h = omega (
    arith,
    length-append (take off xs) (block ++ drop (off + length block) xs),
    length-append block (drop (off + length block) xs),
    length-take off xs,
    length-drop (off + length block) xs,
  )

  -- Before the block, in it, and behind it.
  pub get_elem?-spliced_before :
      (off i : ℕ) (block xs : List A)
      → off + length block ≤ length xs
      → i < off
      → get_elem? (spliced off block xs) i ≡ get_elem? xs i
  get_elem?-spliced_before off i block xs h lt =
      get_elem?-append_left (take off xs) _ i (omega (arith, length-take off xs))
      ∙ get_elem?-take_lt off i xs lt

  pub get_elem?-spliced_inside :
      (off i : ℕ) (block xs : List A)
      → off + length block ≤ length xs
      → i < length block
      → get_elem? (spliced off block xs) (off + i) ≡ get_elem? block i
  get_elem?-spliced_inside off i block xs h lt =
      let e : off + i ≡ length (take off xs) + i = omega (arith, length-take off xs) in
      rw e (
        get_elem?-append_right (take off xs) (block ++ drop (off + length block) xs) i
        ∙ get_elem?-append_left block _ i lt)

  pub get_elem?-spliced_behind :
      (off i : ℕ) (block xs : List A)
      → off + length block ≤ length xs
      → get_elem? (spliced off block xs) (off + length block + i)
        ≡ get_elem? xs (off + length block + i)
  get_elem?-spliced_behind off i block xs h =
      let e : off + length block + i ≡ length (take off xs) + (length block + i) =
        omega (arith, length-take off xs) in
      ap (get_elem? (spliced off block xs)) e
      ∙ get_elem?-append_right (take off xs) (block ++ drop (off + length block) xs)
          (length block + i)
      ∙ get_elem?-append_right block (drop (off + length block) xs) i
      ∙ get_elem?-drop (off + length block) i xs

  pub take-append_left : (xs ys : List A) → take (length xs) (xs ++ ys) ≡ xs
  take-append_left [] ys = refl
  take-append_left (x ∷ xs) ys = ap (◌∷◌ x) (take-append_left xs ys)

  pub drop-append_left : (xs ys : List A) (n : ℕ) → drop (length xs + n) (xs ++ ys) ≡ drop n ys
  drop-append_left [] ys n = ap (λ k. drop k ys) (omega arith)
  drop-append_left (x ∷ xs) ys n =
      let e : suc (length xs) + n ≡ suc (length xs + n) = omega arith in
      rw e (drop-append_left xs ys n)

  pub take_all : (n : ℕ) (xs : List A) → length xs ≤ n → take n xs ≡ xs
  take_all zero [] h = refl
  take_all (suc n) [] h = refl
  take_all zero (x ∷ xs) h = absurd (omega arith)
  take_all (suc n) (x ∷ xs) h = ap (◌∷◌ x) (take_all n xs (omega arith))

  pub take-length : (xs : List A) → take (length xs) xs ≡ xs
  take-length [] = refl
  take-length (x ∷ xs) = ap (◌∷◌ x) (take-length xs)

  -- A write behind a filled part of the buffer.
  pub write_block-append :
      (pre block hole : List A)
      → length block ≤ length hole
      → write_block (length pre) block (pre ++ hole)
        ≡ some (pre ++ (block ++ drop (length block) hole))
  write_block-append pre block hole h =
      write_block_in_range (length pre) block (pre ++ hole) (omega (arith, length-append pre hole))
      ∙ ap some (rw (take-append_left pre hole, drop-append_left pre hole (length block)) refl)
