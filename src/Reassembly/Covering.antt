-- ===== src/Reassembly/Covering.antt =====
-- The fragments of a file cover it without overlap, so that every order of arrival rebuilds it.
use distributed_storage_syst.Prelude.{
  ℕ, ◌+◌, ◌-◌, ◌*◌, ◌/◌, ◌%◌, ◌<◌, ◌≤◌, ◌≡◌, ◌≢◌, ◌∙◌, inl, inr, sym, List, arith, get_elem?,
  get_elem?_of_ge, slice, length, length-slice, get_elem?-slice, spliced, get_elem?-spliced_before,
  get_elem?-spliced_inside, get_elem?-spliced_behind, ext_get_elem?, dec_lt,
}
use native.Mathlib.Nat.{mod-lt, div-add-mod}
use distributed_storage_syst.NewFile.{fragment_size}
use distributed_storage_syst.NewFile.Sizes.{fragment_size_lem}

-- Fragment `k + 1` of a file.
abbrev pub piece : List ℕ → ℕ → ℕ → List ℕ
piece file w k = slice (length file / w * k) (fragment_size (length file) w k) file

mul_mono : (q j k : ℕ) → j ≤ k → q * j ≤ q * k
mul_mono q j k h = grind arith

-- A fragment ends inside the file, and before any later one begins.
pub fragment_end : (sz w k : ℕ) → k < w → sz / w * k + fragment_size sz w k ≤ sz
fragment_end sz w k h = elim (fragment_size_lem sz w k h) [
  | inl (more, e) ↦ omega (arith, mul_mono (sz / w) (k + 1) w (omega arith), div-add-mod sz w)
  | inr (end, e) ↦ omega arith
]

fragment_before : (sz w j k : ℕ) → j < k → k < w → sz / w * j + fragment_size sz w j ≤ sz / w * k
fragment_before sz w j k lt h = elim (fragment_size_lem sz w j (omega arith)) [
  | inl (more, e) ↦ omega (arith, mul_mono (sz / w) (j + 1) k (omega arith))
  | inr (end, e) ↦ absurd (omega arith)
]

-- Every position of the file lies in a fragment.
owner :
    (sz w p : ℕ)
    → 0 < w
    → p < sz
    → (k i : ℕ) × (k < w) × (i < fragment_size sz w k) × (p ≡ sz / w * k + i)
owner sz w p pos lt = elim (dec_lt p (q * (w - 1))) [
  | yes early ↦
      let wide : 0 < q = grind arith in
      let whole : q * (p / q) + p % q ≡ p = div-add-mod p q in
      let inside : p / q < w - 1 = elim (dec_lt (p / q) (w - 1)) [
        | yes l ↦ l
        | no g ↦ absurd (omega (arith, mul_mono q (w - 1) (p / q) (omega arith)))
      ] in
      (p / q, p % q, omega arith, size_at (p / q) (omega arith) (mod-lt p wide), sym whole)
  | no late ↦ (
    w - 1,
    p - q * (w - 1),
    omega arith,
    elim (fragment_size_lem sz w (w - 1) (omega arith)) [
      | inl (more, e) ↦ absurd (omega arith)
      | inr (end, e) ↦ omega arith
    ],
    omega arith,
  )
]
  where
    q : ℕ
    q = sz / w

    size_at : (k : ℕ) → k + 1 < w → {i : ℕ} → i < q → i < fragment_size sz w k
    size_at k h {i} l = elim (fragment_size_lem sz w k (omega arith)) [
      | inl (more, e) ↦ omega arith
      | inr (end, e) ↦ absurd (omega arith)
    ]

-- The buffer holds the bytes of fragment `k + 1`.
abbrev pub HasPiece : List ℕ → ℕ → ℕ → List ℕ → Type 0
HasPiece file w k buffer =
    (i : ℕ)
    → i < fragment_size (length file) w k
    → get_elem? buffer (length file / w * k + i) ≡ get_elem? file (length file / w * k + i)

module _ (file : List ℕ) (w : ℕ) where
  abbrev pub base : ℕ
  base = length file / w

  abbrev pub size_of : ℕ → ℕ
  size_of k = fragment_size (length file) w k

  pub length-piece : (k : ℕ) → k < w → length (piece file w k) ≡ size_of k
  length-piece k h = length-slice (base * k) (size_of k) file (fragment_end (length file) w k h)

  -- Writing a piece puts it in place and leaves the other pieces.
  abbrev pub written : ℕ → List ℕ → List ℕ
  written k buffer = spliced (base * k) (piece file w k) buffer

  pub room :
      (k : ℕ) (buffer : List ℕ)
      → k < w
      → length buffer ≡ length file
      → base * k + length (piece file w k) ≤ length buffer
  room k buffer h e = omega (arith, length-piece k h, fragment_end (length file) w k h)

  pub written_self :
      (k : ℕ) (buffer : List ℕ)
      → k < w
      → length buffer ≡ length file
      → HasPiece file w k (written k buffer)
  written_self k buffer h e i lt =
      get_elem?-spliced_inside (base * k) i (piece file w k) buffer (room k buffer h e)
        (omega (arith, length-piece k h))
      ∙ get_elem?-slice (base * k) (size_of k) i file lt

  pub written_other :
      (j k : ℕ) (buffer : List ℕ)
      → j < w
      → k < w
      → j ≢ k
      → length buffer ≡ length file
      → HasPiece file w j buffer
      → HasPiece file w j (written k buffer)
  written_other j k buffer hj hk ne e has i lt = elim (dec_lt j k) [
    | yes before ↦
        get_elem?-spliced_before (base * k) (base * j + i) (piece file w k) buffer
          (room k buffer hk e) (omega (arith, fragment_before (length file) w j k before hk))
        ∙ has i lt
    | no behind ↦
        let start : ℕ = base * k + length (piece file w k) in
        let past : start ≤ base * j =
          omega (arith, length-piece k hk, fragment_before (length file) w k j (omega arith) hj) in
        let at : base * j + i ≡ start + (base * j + i - start) = omega arith in
        rw at (
          get_elem?-spliced_behind (base * k) (base * j + i - start) (piece file w k) buffer
            (room k buffer hk e))
        ∙ has i lt
  ]

  -- With all pieces in place the buffer is the file.
  pub complete :
      (buffer : List ℕ)
      → 0 < w
      → length buffer ≡ length file
      → ((k : ℕ) → k < w → HasPiece file w k buffer)
      → buffer ≡ file
  complete buffer pos e all = ext_get_elem? buffer file λ p. elim (dec_lt p (length file)) [
    | yes lt ↦
        let (k, i, k_lt, i_lt, at) = owner (length file) w p pos lt in rw at (all k k_lt i i_lt)
    | no ge ↦ get_elem?_of_ge buffer p (omega arith) ∙ sym (get_elem?_of_ge file p (omega arith))
  ]
