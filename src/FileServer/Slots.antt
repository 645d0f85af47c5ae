-- ===== src/FileServer/Slots.antt =====
-- The two fragment slots of a container, and what freeing the containers does.
use distributed_storage_syst.Prelude.{
  ℕ, zero, suc, ◌%◌, ◌^◌, ◌<◌, ◌≤◌, ◌≡◌, ◌≢◌, refl, inl, inr, Bool-cases, Option, Bool, true, false,
  ◌&&◌, ◌++◌, leb, if◌then◌else◌, replicate, drop, List, [], ◌∷◌, none, some, arith, get_elem?, set,
  take, length, length-set, store?_of_lt, read_block_in_range, get_elem?-set_self,
}
use distributed_storage_syst.FileServer.{
  FileServer, FileContainer, FileFragment, frag_ok, put_fragment, add_fragment, free_fs, free_files,
  free_file, free_fragments, fragment_at, zero_file,
}

-- A fragment with its first `size` bytes, under its id cut to 8 bits.
abbrev pub stored : ℕ → List ℕ → ℕ → FileFragment
stored id bytes size = record {
  fragment_id = id % 2 ^ 8;
  fragment_bytes = some (take size bytes);
  fragment_size = size;
}

-- Into a container whose first slot is free the fragment goes there.
pub put_fragment_first :
    (file : FileContainer) (id size : ℕ) (bytes : List ℕ)
    → file.slot0.fragment_id ≡ 0
    → size ≤ length bytes
    → put_fragment true file id bytes size
      ≡ some (frag_ok, record file { slot0 = stored id bytes size })
unfolding put_fragment
put_fragment_first file id size bytes free h =
    rw (read_block_in_range 0 size bytes (omega arith)) (ground arith)

-- Into any other it goes to the second slot, whether or not a fragment is there already.
pub put_fragment_second :
    (file : FileContainer) (id size : ℕ) (bytes : List ℕ)
    → file.slot0.fragment_id ≢ 0
    → size ≤ length bytes
    → put_fragment true file id bytes size
      ≡ some (frag_ok, record file { slot1 = stored id bytes size })
unfolding put_fragment
put_fragment_second file id size bytes taken h =
    rw (read_block_in_range 0 size bytes (omega arith)) (ground arith)

pub get_elem?-lt {ℓ} :
    {A : Type ℓ} (xs : List A) (i : ℕ) {a : A} → get_elem? xs i ≡ some a → i < length xs
get_elem?-lt [] i e = cc
get_elem?-lt (x ∷ xs) zero e = omega arith
get_elem?-lt (x ∷ xs) (suc i) e = omega (arith, get_elem?-lt xs i e)

pub add_fragment-put_fragment :
    (fs : FileServer) (p id size : ℕ) (bytes : List ℕ) (file file' : FileContainer)
    → get_elem? fs.files p ≡ some file
    → put_fragment true file id bytes size ≡ some (frag_ok, file')
    → add_fragment true fs (some p) id bytes size
      ≡ some (frag_ok, record fs { files = set fs.files p file' })
unfolding add_fragment
add_fragment-put_fragment fs p id size bytes file file' at put =
    rw (at, put, store?_of_lt fs.files p file' (get_elem?-lt fs.files p at)) refl

-- Of three fragments that are added to a container whose first slot is free, the first with a
-- non-zero id, the first and the third are kept: the second call fills the second slot, and the
-- third call overwrites it.
pub add_fragment_thrice :
    (fs : FileServer) (p : ℕ) (file : FileContainer) (id1 id2 id3 : ℕ) (b1 b2 b3 : List ℕ)
    → get_elem? fs.files p ≡ some file
    → file.slot0.fragment_id ≡ 0
    → id1 % 2 ^ 8 ≢ 0
    → (fs1 fs2 fs3 : FileServer) × (add_fragment true fs (some p) id1 b1 (length b1)
        ≡ some (frag_ok, fs1))
      × (add_fragment true fs1 (some p) id2 b2 (length b2) ≡ some (frag_ok, fs2))
      × (add_fragment true fs2 (some p) id3 b3 (length b3) ≡ some (frag_ok, fs3))
      × (get_elem? fs2.files p
          ≡ some (record file {
            slot0 = stored id1 b1 (length b1);
            slot1 = stored id2 b2 (length b2);
          }))
      × (get_elem? fs3.files p
          ≡ some (record file {
            slot0 = stored id1 b1 (length b1);
            slot1 = stored id3 b3 (length b3);
          }))
add_fragment_thrice fs p file id1 id2 id3 b1 b2 b3 at free ne =
    let lt : p < length fs.files = get_elem?-lt fs.files p at in
    let f1 : FileContainer = record file { slot0 = stored id1 b1 (length b1) } in
    let f2 : FileContainer = record f1 { slot1 = stored id2 b2 (length b2) } in
    let f3 : FileContainer = record f1 { slot1 = stored id3 b3 (length b3) } in
    let s1 : FileServer = record fs { files = set fs.files p f1 } in
    let s2 : FileServer = record fs { files = set s1.files p f2 } in
    let s3 : FileServer = record fs { files = set s2.files p f3 } in
    let lt1 : p < length s1.files = omega (arith, length-set fs.files p f1) in
    let lt2 : p < length s2.files = omega (arith, length-set s1.files p f2) in
    (
      s1,
      s2,
      s3,
      add_fragment-put_fragment fs p id1 (length b1) b1 file f1 at
          (put_fragment_first file id1 (length b1) b1 free (omega arith)),
      add_fragment-put_fragment s1 p id2 (length b2) b2 f1 f2 (get_elem?-set_self fs.files p f1 lt)
          (put_fragment_second f1 id2 (length b2) b2 ne (omega arith)),
      add_fragment-put_fragment s2 p id3 (length b3) b3 f2 f3 (get_elem?-set_self s1.files p f2 lt1)
          (put_fragment_second f2 id3 (length b3) b3 ne (omega arith)),
      get_elem?-set_self s1.files p f2 lt1,
      get_elem?-set_self s2.files p f3 lt2,
    )

-- Whether the first `n` files lie in the array and have no more fragments than there are slots.
abbrev pub all_fit : ℕ → List FileContainer → Bool
all_fit zero files = true
all_fit (suc n) [] = false
all_fit (suc n) (f ∷ files) = leb f.fragment_count_total 2 && all_fit n files

-- The bytes in the first slots of the first `n` files, as many slots as each has fragments.
abbrev pub blocks : ℕ → List FileContainer → List (Option (List ℕ))
blocks zero files = []
blocks (suc n) [] = []
blocks (suc n) (f ∷ files) =
    take f.fragment_count_total (f.slot0.fragment_bytes ∷ f.slot1.fragment_bytes ∷ [])
    ++ blocks n files

free_fragments_lem :
    (n : ℕ) (f : FileContainer)
    → free_fragments n 0 f ≡ (
        if leb n 2
        then some (take n (f.slot0.fragment_bytes ∷ f.slot1.fragment_bytes ∷ []))
        else none)
unfolding free_fragments fragment_at
free_fragments_lem zero f = refl
free_fragments_lem (suc zero) f = refl
free_fragments_lem (suc (suc zero)) f = refl
free_fragments_lem (suc (suc (suc n))) f =
    let more : leb (suc (suc (suc n))) 2 ≡ false = ground arith in rw more refl

free_file_lem :
    (f : FileContainer)
    → free_file f ≡ (
        if leb f.fragment_count_total 2
        then some (
          take f.fragment_count_total (f.slot0.fragment_bytes ∷ f.slot1.fragment_bytes ∷ []),
          zero_file,
        )
        else none)
unfolding free_file
free_file_lem f =
    let frees = free_fragments_lem f.fragment_count_total f in
    elim (Bool-cases (leb f.fragment_count_total 2)) [
      | inl fits ↦ rw (frees, fits) refl
      | inr many ↦ rw (frees, many) refl
    ]

free_files_lem :
    (n : ℕ) (files : List FileContainer)
    → free_files n files ≡ (
        if all_fit n files
        then some (blocks n files, replicate n zero_file ++ drop n files)
        else none)
unfolding free_files
free_files_lem zero files = refl
free_files_lem (suc n) [] = refl
free_files_lem (suc n) (f ∷ files) = elim (Bool-cases (leb f.fragment_count_total 2)) [
  | inr many ↦ rw (free_file_lem f, many) refl
  | inl fits ↦ elim (Bool-cases (all_fit n files)) [
    | inl all ↦ rw (free_file_lem f, free_files_lem n files, fits, all) refl
    | inr some_many ↦ rw (free_file_lem f, free_files_lem n files, fits, some_many) refl
  ]
]

-- xfileserver_free_fs, whatever is in the container array: where the stored files lie in the array
-- and none of them has more than two fragments, it frees the bytes of the fragments that each file
-- counts, in their order, and clears the stored files alone; otherwise it leaves its arrays.
pub free_fs_lem :
    (fs : FileServer)
    → free_fs fs ≡ (
        if all_fit fs.file_count fs.files
        then some (
          blocks fs.file_count fs.files,
          replicate fs.file_count zero_file ++ drop fs.file_count fs.files,
        )
        else none)
unfolding free_fs
free_fs_lem fs = free_files_lem fs.file_count fs.files
