-- ===== src/Rebuild/Entries.antt =====
-- A ring of at least three live nodes: the entries that the reports rebuild are those that were made
-- when the file was stored, for the nodes that report, in whatever order they do.
use distributed_storage_syst.Prelude.{
  ℕ, ◌+◌, ◌-◌, ◌*◌, ◌/◌, ◌%◌, ◌<◌, ◌≤◌, ◌≡◌, ◌∙◌, refl, ap, Bool, true, false, ◌||◌, List, [], ◌∷◌,
  Option, some, arith, ◌==◌, if◌then◌else◌, ◌>>=◌, >>=-some, get_elem?, get_elem?-set, store?_of_lt,
  get_elem?_of_lt, set, length, length-set, replicate, length-replicate, get_elem?-replicate,
}
use distributed_storage_syst.NetIndex.{FragmentPointer, no_pointer}
use distributed_storage_syst.NewFile.{redundancy}
use distributed_storage_syst.Rebuild.{Report, update_entries}

merge :
    (f : ℕ → FragmentPointer) (a b p : ℕ) (rest : Option FragmentPointer)
    → (if a == p then some (f a) else if b == p then some (f b) else rest)
      ≡ (if a == p || b == p then some (f p) else rest)
merge f a b p rest = ground arith

either {ℓ} :
    {A : Type ℓ} (a b : Bool) (x y : A)
    → (if a then x else if b then x else y) ≡ (if b || a then x else y)
either true true x y = refl
either true false x y = refl
either false true x y = refl
either false false x y = refl

inside {ℓ} :
    {A : Type ℓ} (b : Bool) (x y : A) → (if b then some x else some y) ≡ some (if b then x else y)
inside true x y = refl
inside false x y = refl

module _ (n : ℕ) (many : 3 ≤ n) (size : ℕ → ℕ) (name : List ℕ) (file_size file_id : ℕ) where
  -- The node at entry `p`: fragment `k + 1` stands at the nodes `k + 1` and `k + 2`, round the ring.
  abbrev pub holder : ℕ → ℕ
  holder p = if p % 2 == 0 then p / 2 + 1 else if (p + 1) == 2 * n then 1 else p / 2 + 2

  abbrev pub original : ℕ → FragmentPointer
  original p = record { fragment = p / 2 + 1; size = size (p / 2); node_id = holder p }

  -- What node `j` reports: its two fragments in the order in which it got them.
  abbrev pub first_entry : ℕ → ℕ
  first_entry j = if j == 1 then 0 else 2 * j - 3

  abbrev pub second_entry : ℕ → ℕ
  second_entry j = if j == 1 then 2 * n - 1 else 2 * j - 2

  abbrev pub report_of : ℕ → Report
  report_of j = record {
    file_name = name;
    file_size = file_size;
    file_id = file_id;
    frag_count = n;
    fragment0 = original (first_entry j);
    fragment1 = original (second_entry j);
  }

  holder_iff :
      (j p : ℕ)
      → 0 < j
      → j ≤ n
      → p < 2 * n
      → (holder p == j) ≡ (second_entry j == p || first_entry j == p)
  holder_iff j p pos le lt = ground arith

  update_entries_lem :
      (j : ℕ) (entries : List FragmentPointer)
      → 0 < j
      → j ≤ n
      → length entries ≡ 2 * n
      → update_entries (report_of j) entries
        ≡ some (
            set
              (set entries (first_entry j) (original (first_entry j)))
              (second_entry j)
              (original (second_entry j)))
  unfolding update_entries
  update_entries_lem j entries pos le len = ground (
    arith,
    store?_of_lt entries (first_entry j) (original (first_entry j)),
    store?_of_lt (set entries (first_entry j) (original (first_entry j))) (second_entry j)
        (original (second_entry j)),
    length-set entries (first_entry j) (original (first_entry j)),
    get_elem?_of_lt entries 0,
  )

  -- One report puts the entries of its node in place, and changes no other.
  entry_after :
      (j p : ℕ) (entries : List FragmentPointer)
      → 0 < j
      → j ≤ n
      → length entries ≡ 2 * n
      → p < 2 * n
      → get_elem?
          (set
            (set entries (first_entry j) (original (first_entry j)))
            (second_entry j)
            (original (second_entry j)))
          p
        ≡ (if holder p == j then some (original p) else get_elem? entries p)
  entry_after j p entries pos le len lt =
      let first : List FragmentPointer = set entries (first_entry j) (original (first_entry j)) in
      rw (holder_iff j p pos le lt) (
        get_elem?-set first (second_entry j) p (original (second_entry j))
          (ground (arith, length-set entries (first_entry j) (original (first_entry j))))
        ∙ (rw (get_elem?-set entries (first_entry j) p (original (first_entry j)) (ground arith))
            (merge original (second_entry j) (first_entry j) p (get_elem? entries p))))

  -- The reports of some nodes, one after the other.
  abbrev pub update_all : List ℕ → List FragmentPointer → Option (List FragmentPointer)
  update_all [] entries = some entries
  update_all (j ∷ js) entries = update_entries (report_of j) entries >>= update_all js

  abbrev pub AllNodes : List ℕ → Type 0
  AllNodes [] = Unit {0}
  AllNodes (j ∷ js) = (0 < j) × (j ≤ n) × AllNodes js

  abbrev pub reported : ℕ → List ℕ → Bool
  reported j [] = false
  reported j (i ∷ js) = (j == i) || reported j js

  -- After the reports of the nodes `js` the entries of those nodes stand as they were made, and every
  -- other entry is as before. So it is for any order, and for nodes that report twice.
  pub update_all_lem :
      (js : List ℕ) (entries : List FragmentPointer)
      → AllNodes js
      → length entries ≡ 2 * n
      → (entries' : List FragmentPointer) × (update_all js entries ≡ some entries')
        × (length entries' ≡ 2 * n)
        × ((p : ℕ)
            → p < 2 * n
            → get_elem? entries' p
              ≡ (if reported (holder p) js then some (original p) else get_elem? entries p))
  update_all_lem [] entries all len = (entries, refl, len, λ p lt. refl)
  update_all_lem (j ∷ js) entries (pos, le, all) len =
      let next : List FragmentPointer =
        set (set entries (first_entry j) (original (first_entry j))) (second_entry j)
          (original (second_entry j)) in
      let len' : length next ≡ 2 * n =
        length-set (set entries (first_entry j) (original (first_entry j))) (second_entry j)
          (original (second_entry j))
        ∙ length-set entries (first_entry j) (original (first_entry j))
        ∙ len in
      let (entries', run, len'', holds) = update_all_lem js next all len' in
      (
        entries',
        >>=-some _ (update_entries_lem j entries pos le len) run,
        len'',
        λ p lt.
            holds p lt
            ∙ ap (λ rest. if reported (holder p) js then some (original p) else rest)
                (entry_after j p entries pos le len lt)
            ∙ either (reported (holder p) js) (holder p == j) (some (original p))
                (get_elem? entries p),
      )

  -- For a file of n fragments (3 <= n) that the new index does not know, the reports of the nodes
  -- js, in that order, fill every entry of these nodes as place_fragments makes it, with fragment
  -- k at the nodes k and k + 1 round the ring, and leave every entry of another node blank.
  pub rebuilds :
      (js : List ℕ) (p : ℕ)
      → AllNodes js
      → p < 2 * n
      → (entries : List FragmentPointer) × (update_all js (replicate (n * redundancy) no_pointer)
          ≡ some entries)
        × (length entries ≡ 2 * n)
        × (get_elem? entries p ≡ some (if reported (holder p) js then original p else no_pointer))
  rebuilds js p all lt =
      let blank : List FragmentPointer = replicate (n * redundancy) no_pointer in
      let (entries, run, len, holds) =
        update_all_lem js blank all (length-replicate (n * redundancy) no_pointer ∙ omega arith) in
      (
        entries,
        run,
        len,
        holds p lt
            ∙ ap (λ rest. if reported (holder p) js then some (original p) else rest)
                (get_elem?-replicate (n * redundancy) p no_pointer (omega arith))
            ∙ inside (reported (holder p) js) (original p) no_pointer,
      )
