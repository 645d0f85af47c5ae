-- ===== src/FileServer/Table.antt =====
-- The array of containers: what adding and finding do to the files that it holds.
use distributed_storage_syst.Prelude.{
  ℕ, zero, suc, ◌+◌, ◌%◌, ◌^◌, ◌<◌, ◌≤◌, ◌≡◌, refl, ◌∙◌, Bool, true, List, [], ◌∷◌, ◌++◌, Option,
  none, some, arith, ◌==◌, if◌then◌else◌, get_elem?, set, replicate, take, length, length-set,
  store?_of_lt, store?_of_ge, Bool-cases, inl, inr, ==_iff, length-take, take-suc-set, sym, ◌↔◌,
  dec_lt,
}
use distributed_storage_syst.Text.{
  cstr, strncpy, strcmp_eq, strcmp_eq_iff, cstr-strncpy, cstr-set_last,
}
use distributed_storage_syst.FileServer.{
  FileServer, FileContainer, max_files, init, add_file, new_container, find_from, find_file,
  find_file_by_name,
}

-- The array has its length, and the count stays in it.
pub record IsValid (fs : FileServer) : Type 0 where
  pub allocated : length fs.files ≡ max_files
  pub counted : fs.file_count ≤ max_files

-- The files that are stored, oldest first.
abbrev pub contents : FileServer → List FileContainer
contents fs = take fs.file_count fs.files

pub length-contents : {fs : FileServer} → IsValid fs → length (contents fs) ≡ fs.file_count
length-contents {fs} v = omega (arith, length-take fs.file_count fs.files)

-- xfileserver_init over an array of max_files containers gives a valid server with no file.
pub init-IsValid :
    (memory : List FileContainer)
    → length memory ≡ max_files
    → IsValid (init memory) × (contents (init memory) ≡ [])
unfolding init
init-IsValid memory e = (record { allocated = e; counted = omega arith }, refl)

abbrev after_add : FileServer → FileContainer → FileServer
after_add fs f = record {
  file_count = (fs.file_count + 1) % 2 ^ 16;
  files = set fs.files fs.file_count f;
}

-- While there is room on a valid file server, xfileserver_add_file succeeds, keeps it valid,
-- appends one container to the stored files and returns its index.
pub add_file-contents :
    (fs : FileServer) (name : List ℕ) (id total_size count : ℕ)
    → IsValid fs
    → fs.file_count < max_files
    → (fs' : FileServer) × (add_file fs name id total_size count ≡ some (fs.file_count, fs'))
      × IsValid fs'
      × (contents fs' ≡ contents fs ++ (new_container name id total_size count ∷ []))
unfolding add_file
add_file-contents fs name id total_size count v room = (
  after_add fs new,
  rw (store?_of_lt fs.files fs.file_count new (omega arith)) refl,
  record {
    allocated = omega (arith, length-set fs.files fs.file_count new);
    counted = omega arith;
  },
  rw next (take-suc-set fs.file_count fs.files new (omega arith)),
)
  where
    open v use {allocated, counted}

    new : FileContainer
    new = new_container name id total_size count

    next : (fs.file_count + 1) % 2 ^ 16 ≡ suc fs.file_count
    next = omega arith

-- On a valid file server with max_files files, xfileserver_add_file writes behind the end of the
-- array.
pub add_file_full :
    (fs : FileServer) (name : List ℕ) (id total_size count : ℕ)
    → IsValid fs
    → fs.file_count ≡ max_files
    → add_file fs name id total_size count ≡ none
unfolding add_file
add_file_full fs name id total_size count v full =
    rw (store?_of_ge fs.files fs.file_count (new_container name id total_size count) (omega arith))
      refl

-- Position of the first file that passes the test, counted from `i`.
abbrev pub first_match : (FileContainer → Bool) → List FileContainer → ℕ → Option ℕ
first_match test [] i = none
first_match test (f ∷ fs) i = if test f then some i else first_match test fs (i + 1)

abbrev pub or_else : Option ℕ → Option ℕ → Option ℕ
or_else none b = b
or_else (some a) b = some a

find_from-first_match :
    (test : FileContainer → Bool) (files : List FileContainer) (n i : ℕ)
    → find_from test files n i ≡ first_match test (take n files) i
unfolding find_from
find_from-first_match test files zero i = refl
find_from-first_match test [] (suc n) i = refl
find_from-first_match test (f ∷ files) (suc n) i =
    rw (find_from-first_match test files n (i + 1)) refl

first_match-append :
    (test : FileContainer → Bool) (xs : List FileContainer) (f : FileContainer) (i j : ℕ)
    → i + length xs ≡ j
    → first_match test (xs ++ (f ∷ [])) i
      ≡ or_else (first_match test xs i) (if test f then some j else none)
first_match-append test [] f i j e = let e' : i ≡ j = omega arith in rw e' refl
first_match-append test (x ∷ xs) f i j e = elim (Bool-cases (test x)) [
  | inl h ↦ rw h refl
  | inr h ↦ rw h (first_match-append test xs f (i + 1) j (omega arith))
]

-- What a search over `xs` returns, when it counts from `i`: the first item with the property, or
-- `none` where no item has it.
abbrev pub Finds : (FileContainer → Type 0) → List FileContainer → ℕ → Option ℕ → Type 0
Finds P xs i none = (q : ℕ) (g : FileContainer) → q < length xs → get_elem? xs q ≡ some g → ¬ P g
Finds P xs i (some p) =
    (k : ℕ) × (p ≡ i + k)
    × (f : FileContainer) × (get_elem? xs k ≡ some f)
    × P f
    × ((q : ℕ) (g : FileContainer) → q < k → get_elem? xs q ≡ some g → ¬ P g)

module _ (P : FileContainer → Type 0) (test : FileContainer → Bool)
    (decides : (f : FileContainer) → (test f ≡ true) ↔ P f) where
  none_below-cons :
      (x : FileContainer) (xs : List FileContainer) (k : ℕ)
      → ¬ P x
      → ((q : ℕ) (g : FileContainer) → q < k → get_elem? xs q ≡ some g → ¬ P g)
      → (q : ℕ) (g : FileContainer) → q < suc k
      → get_elem? (x ∷ xs) q ≡ some g
      → ¬ P g
  none_below-cons x xs k h b zero g lt e = let e' : x ≡ g = cc in rw (← e') h
  none_below-cons x xs k h b (suc q) g lt e = b q g (omega arith) e

  Finds-cons :
      (x : FileContainer) (xs : List FileContainer) (i : ℕ) (r : Option ℕ)
      → ¬ P x
      → Finds P xs (i + 1) r
      → Finds P (x ∷ xs) i r
  Finds-cons x xs i none h b = none_below-cons x xs (length xs) h b
  Finds-cons x xs i (some p) h (k, e, f, at, pass, b) =
      (suc k, omega arith, f, at, pass, none_below-cons x xs k h b)

  first_match-Finds : (xs : List FileContainer) (i : ℕ) → Finds P xs i (first_match test xs i)
  first_match-Finds [] i = λ q g lt e. absurd (omega arith)
  first_match-Finds (x ∷ xs) i = elim (Bool-cases (test x)) [
    | inl h ↦ rw h (0, omega arith, x, refl, (decides x).0 h, λ q g lt e. absurd (omega arith))
    | inr h ↦
        let fails : ¬ P x = λ px. let t : test x ≡ true = (decides x).1 px in cc in
        rw h (Finds-cons x xs i (first_match test xs (i + 1)) fails (first_match-Finds xs (i + 1)))
  ]

-- xfileserver_find_file returns the index of the first stored file with the id, and null exactly
-- where no stored file has it.
pub find_file-Finds :
    (fs : FileServer) (id : ℕ) → Finds (λ f. f.file_id ≡ id) (contents fs) 0 (find_file fs id)
unfolding find_file
find_file-Finds fs id = rw (find_from-first_match (λ f. f.file_id == id) fs.files fs.file_count 0) (
    first_match-Finds (λ f. f.file_id ≡ id) (λ f. f.file_id == id) (λ f. ==_iff f.file_id id)
      (contents fs) 0)

-- For a name in an array of 200 bytes xfileserver_find_file_by_name returns the index of the first
-- stored file with that name, of which it reads 199 characters, and null exactly where no stored
-- file has it.
pub find_file_by_name-Finds :
    (fs : FileServer) (name : List ℕ)
    → length name ≡ 200
    → Finds
        (λ f. cstr f.file_name ≡ take 199 (cstr name))
        (contents fs)
        0
        (find_file_by_name fs name)
unfolding find_file_by_name
find_file_by_name-Finds fs name len =
    rw
      (find_from-first_match (λ f. strcmp_eq f.file_name (set name 199 0)) fs.files fs.file_count 0)
      (first_match-Finds (λ f. cstr f.file_name ≡ take 199 (cstr name))
        (λ f. strcmp_eq f.file_name (set name 199 0))
        (λ f. rw (← cstr-set_last 199 name len) (strcmp_eq_iff f.file_name (set name 199 0)))
        (contents fs) 0)

module _ (fs fs' : FileServer) (name : List ℕ) (id total_size count p : ℕ) (valid : IsValid fs)
    (added : add_file fs name id total_size count ≡ some (p, fs')) where
  -- A successful call had room, and returned the old count.
  pub added_parts :
      (p ≡ fs.file_count)
      × IsValid fs'
      × (contents fs' ≡ contents fs ++ (new_container name id total_size count ∷ []))
  added_parts = elim (dec_lt fs.file_count max_files) [
    | yes room ↦
        let parts = add_file-contents fs name id total_size count valid room in
        let same : ◌≡◌ {A = Option (ℕ × FileServer)} (some (fs.file_count, parts.0))
            (some (p, fs')) =
          sym parts.1 ∙ added in
        let at : fs.file_count ≡ p = cc in
        let state : parts.0 ≡ fs' = cc in rw (← state) (sym at, parts.2, parts.3)
    | no full ↦
        let over : add_file fs name id total_size count ≡ none =
          add_file_full fs name id total_size count valid
            (let c : fs.file_count ≤ max_files = valid.counted in omega arith) in
        cc
  ]

  find-add :
      (test : FileContainer → Bool)
      → find_from test fs'.files fs'.file_count 0
        ≡ or_else
            (find_from test fs.files fs.file_count 0)
            (if test (new_container name id total_size count) then some p else none)
  find-add test =
      let (at, v', c) = added_parts in
      rw
        (
          find_from-first_match test fs'.files fs'.file_count 0,
          find_from-first_match test fs.files fs.file_count 0,
          c,
          at,
        )
        (first_match-append test (contents fs) (new_container name id total_size count) 0
          fs.file_count (omega (arith, length-contents valid)))

  -- After a successful add_file on a valid file server, a search by id finds what it found before,
  -- and otherwise the new file where its id, cut to 16 bits, is the one that is sought.
  pub find_file-add_file :
      (j : ℕ)
      → find_file fs' j ≡ or_else (find_file fs j) (if id % 2 ^ 16 == j then some p else none)
  unfolding find_file new_container
  find_file-add_file j = find-add (λ f. f.file_id == j)

  -- A file that is added to a valid file server, under a name in an array of 200 bytes that no
  -- file had, is then found under that name, also where the name fills its array and is cut to
  -- 199.
  pub find_file_by_name-add_file :
      length name ≡ 200 → find_file_by_name fs name ≡ none → find_file_by_name fs' name ≡ some p
  unfolding find_file_by_name new_container
  find_file_by_name-add_file len fresh =
      find-add (λ f. strcmp_eq f.file_name (set name 199 0)) ∙ rw (fresh, stored) refl
    where
      stored : strcmp_eq (new_container name id total_size count).file_name (set name 199 0) ≡ true
      stored =
          (strcmp_eq_iff (strncpy (replicate 200 0) name 199) (set name 199 0)).1
            (cstr-strncpy (replicate 200 0) name [] 199 refl ∙ sym (cstr-set_last 199 name len))
