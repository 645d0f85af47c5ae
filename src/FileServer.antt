-- ===== src/FileServer.antt =====
-- lib/fileserver/fs.h and fs.c: the file containers that a node keeps in memory.
pub mod Table
pub mod Slots
use distributed_storage_syst.Prelude.{
  ℕ, zero, suc, ◌+◌, ◌-◌, ◌*◌, ◌%◌, ◌^◌, ◌<◌, ◌≤◌, ◌≡◌, Bool, true, false, List, [], ◌∷◌, Option,
  none, some, ◌==◌, if◌then◌else◌, ltb, ◌>>=◌, get_elem?, read_block, set, store?, replicate, take,
  ◌++◌, length,
}
use distributed_storage_syst.Text.{strncpy, strcmp_eq}

-- FILE_SERVER_MAX_FILES
abbrev pub max_files : ℕ
max_files = 100

-- `fragment_bytes` is `none` for a null pointer. A `fragment_id` of 0 marks an empty slot.
pub record FileFragment : Type 0 where
  pub fragment_id : ℕ
  pub fragment_bytes : Option (List ℕ)
  pub fragment_size : ℕ

-- `file_name` is the whole array of 200 bytes; `slot0` and `slot1` are `fragments[0]` and `[1]`.
pub record FileContainer : Type 0 where
  pub file_name : List ℕ
  pub file_id : ℕ
  pub size : ℕ
  pub fragment_count_total : ℕ
  pub slot0 : FileFragment
  pub slot1 : FileFragment

-- `files` is the array of `max_files` containers that `xfileserver_init` allocates.
pub record FileServer : Type 0 where
  pub file_count : ℕ
  pub files : List FileContainer

pub data AddFragStatus : Type 0 where
  frag_ok frag_err_invalid_file frag_err_invalid_index frag_err_invalid_bytes : AddFragStatus

-- What `memset(p, 0, n)` leaves.
abbrev pub no_fragment : FileFragment
no_fragment = record { fragment_id = 0; fragment_bytes = none; fragment_size = 0 }

abbrev pub zero_file : FileContainer
zero_file = record {
  file_name = replicate 200 0;
  file_id = 0;
  size = 0;
  fragment_count_total = 0;
  slot0 = no_fragment;
  slot1 = no_fragment;
}

-- `memory` is what `malloc` returns: an array that holds anything.
unfoldable pub init : List FileContainer → FileServer
init memory = record { file_count = 0; files = memory }

-- The container that `xfileserver_add_file` writes.
unfoldable pub new_container : List ℕ → ℕ → ℕ → ℕ → FileContainer
unfolding strncpy
new_container name id total_size count = record zero_file {
  file_name = strncpy (replicate 200 0) name 199;
  file_id = id % 2 ^ 16;
  size = total_size;
  fragment_count_total = count % 2 ^ 8;
}

-- The pointer that it returns is an index into `files`. The source does not compare `file_count`
-- with the length of the array: behind the end it is a fault.
unfoldable pub add_file : FileServer → List ℕ → ℕ → ℕ → ℕ → Option (ℕ × FileServer)
unfolding new_container
add_file fs name id total_size count = do
  files' ← store? fs.files fs.file_count (new_container name id total_size count)
  some (fs.file_count, record { file_count = (fs.file_count + 1) % 2 ^ 16; files = files' })

-- What `xfileserver_add_fragment` does to the container: the slot is 0 if that is free, and 1
-- otherwise, which is not tested. `memory` is whether `malloc` succeeds.
unfoldable pub put_fragment :
    Bool → FileContainer → ℕ → List ℕ → ℕ → Option (AddFragStatus × FileContainer)
put_fragment memory file frag_id bytes size =
    let id = frag_id % 2 ^ 8 in
    let old = if file.slot0.fragment_id == 0 then file.slot0 else file.slot1 in
    let put = λ (frag : FileFragment).
      if file.slot0.fragment_id == 0
      then record file { slot0 = frag }
      else record file { slot1 = frag } in
    if memory
    then (do
      copied ← read_block 0 size bytes
      some (
        frag_ok,
        put (record { fragment_id = id; fragment_bytes = some copied; fragment_size = size }),
      ))
    else some (frag_err_invalid_bytes, put (record old { fragment_id = id; fragment_bytes = none }))

-- The file is a pointer into `files`, null where it is `none`.
unfoldable pub add_fragment :
    Bool → FileServer → Option ℕ → ℕ → List ℕ → ℕ → Option (AddFragStatus × FileServer)
unfolding put_fragment
add_fragment memory fs none frag_id bytes size = some (frag_err_invalid_file, fs)
add_fragment memory fs (some p) frag_id bytes size = do
  file ← get_elem? fs.files p
  done ← put_fragment memory file frag_id bytes size
  files' ← store? fs.files p done.1
  some (done.0, record fs { files = files' })

-- The loop of `xfileserver_find_file` and `_by_name`: `n` rounds from index `i` on.
unfoldable pub find_from : (FileContainer → Bool) → List FileContainer → ℕ → ℕ → Option ℕ
find_from test files zero i = none
find_from test [] (suc n) i = none
find_from test (f ∷ files) (suc n) i = if test f then some i else find_from test files n (i + 1)

unfoldable pub find_file : FileServer → ℕ → Option ℕ
unfolding find_from
find_file fs id = find_from (λ f. f.file_id == id) fs.files fs.file_count 0

-- `name[199] = '\0'` comes first; the array has 200 bytes.
unfoldable pub find_file_by_name : FileServer → List ℕ → Option ℕ
unfolding find_from strcmp_eq
find_file_by_name fs name =
    find_from (λ f. strcmp_eq f.file_name (set name 199 0)) fs.files fs.file_count 0

-- `file->fragments[i]`: there are two slots.
unfoldable pub fragment_at : FileContainer → ℕ → Option FileFragment
fragment_at file zero = some file.slot0
fragment_at file (suc zero) = some file.slot1
fragment_at file (suc (suc i)) = none

-- The blocks that the loop over the fragments frees, from `i` on, for `rounds` rounds.
unfoldable pub free_fragments : ℕ → ℕ → FileContainer → Option (List (Option (List ℕ)))
unfolding fragment_at
free_fragments zero i file = some []
free_fragments (suc rounds) i file = do
  fragment ← fragment_at file i
  rest ← free_fragments rounds (i + 1) file
  some (fragment.fragment_bytes ∷ rest)

-- The blocks that are freed, and what is left of the container.
unfoldable pub free_file : FileContainer → Option (List (Option (List ℕ)) × FileContainer)
unfolding free_fragments
free_file file = do
  blocks ← free_fragments file.fragment_count_total 0 file
  some (blocks, zero_file)

unfoldable pub free_files :
    ℕ → List FileContainer → Option (List (Option (List ℕ)) × List FileContainer)
unfolding free_file
free_files zero files = some ([], files)
free_files (suc n) [] = none
free_files (suc n) (f ∷ files) = do
  (blocks, f') ← free_file f
  (rest, files') ← free_files n files
  some (blocks ++ rest, f' ∷ files')

-- `xfileserver_free_fs`, as the blocks that its loop frees and what it leaves of the array, which are
-- then freed too.
unfoldable pub free_fs : FileServer → Option (List (Option (List ℕ)) × List FileContainer)
unfolding free_files
free_fs fs = free_files fs.file_count fs.files
