-- ===== src/Examples/Storage.antt =====
-- The theorems on the two indexes at concrete inputs.
use distributed_storage_syst.Prelude.{
  ℕ, ◌≡◌, if◌then◌else◌, ◌++◌, drop, refl, List, [], ◌∷◌, none, some, true, arith, replicate,
  length-replicate, get_elem?,
}
use distributed_storage_syst.FileServer
use distributed_storage_syst.FileServer.{
  FileServer, FileContainer, max_files, zero_file, frag_ok, new_container, add_fragment, free_fs,
}
use distributed_storage_syst.FileServer.Table.{
  IsValid, contents, or_else, init-IsValid, add_file_full, find_file-add_file,
  find_file_by_name-add_file,
}
use distributed_storage_syst.FileServer.Slots.{
  all_fit, blocks, stored, add_fragment_thrice, free_fs_lem,
}
use distributed_storage_syst.NetIndex
use distributed_storage_syst.NetIndex.{NetIndex, insert, blank_node}
use distributed_storage_syst.NetIndex.Chain.{init-IsList}
use distributed_storage_syst.NetIndex.Lookup.{
  Appended, first_with, find_file-first_with, insert-Appended,
}
use distributed_storage_syst.Examples.{no_files}

no_files-IsValid : IsValid no_files × (contents no_files ≡ [])
no_files-IsValid =
    init-IsValid (replicate max_files zero_file) (length-replicate max_files zero_file)

-- "a.txt" in its array
abbrev name : List ℕ
name = 97 ∷ 46 ∷ 116 ∷ 120 ∷ 116 ∷ replicate 195 0

abbrev full : FileServer
full = record { file_count = 100; files = replicate 100 zero_file }

add_file_full_example : FileServer.add_file full name 1 300 3 ≡ none
add_file_full_example =
    add_file_full full name 1 300 3
      (record { allocated = length-replicate max_files zero_file; counted = omega arith }) refl

abbrev one_file : FileServer
one_file = record { file_count = 1; files = new_container name 1 300 3 ∷ replicate 99 zero_file }

first_added : FileServer.add_file no_files name 1 300 3 ≡ some (0, one_file)
unfolding FileServer.init FileServer.add_file
first_added = refl

none_named : FileServer.find_file_by_name no_files name ≡ none
unfolding FileServer.init FileServer.find_file_by_name
none_named = refl

find_file-add_file_example :
    FileServer.find_file one_file 1 ≡ or_else (FileServer.find_file no_files 1) (some 0)
find_file-add_file_example =
    find_file-add_file no_files one_file name 1 300 3 0 no_files-IsValid.0 first_added 1

find_file_by_name-add_file_example : FileServer.find_file_by_name one_file name ≡ some 0
find_file_by_name-add_file_example =
    find_file_by_name-add_file no_files one_file name 1 300 3 0 no_files-IsValid.0 first_added refl
      none_named

add_fragment_thrice_example :
    (fs1 fs2 fs3 : FileServer) × (add_fragment true one_file (some 0) 1 (7 ∷ []) 1
      ≡ some (frag_ok, fs1))
    × (add_fragment true fs1 (some 0) 2 (8 ∷ []) 1 ≡ some (frag_ok, fs2))
    × (add_fragment true fs2 (some 0) 3 (9 ∷ []) 1 ≡ some (frag_ok, fs3))
    × (get_elem? fs2.files 0
        ≡ some (record (new_container name 1 300 3) {
          slot0 = stored 1 (7 ∷ []) 1;
          slot1 = stored 2 (8 ∷ []) 1;
        }))
    × (get_elem? fs3.files 0
        ≡ some (record (new_container name 1 300 3) {
          slot0 = stored 1 (7 ∷ []) 1;
          slot1 = stored 3 (9 ∷ []) 1;
        }))
unfolding new_container
add_fragment_thrice_example =
    add_fragment_thrice one_file 0 (new_container name 1 300 3) 1 2 3 (7 ∷ []) (8 ∷ []) (9 ∷ [])
      refl refl (λ e. omega arith)

free_fs_lem_example : free_fs one_file ≡ (
    if all_fit 1 one_file.files
    then some (blocks 1 one_file.files, replicate 1 zero_file ++ drop 1 one_file.files)
    else none)
free_fs_lem_example = free_fs_lem one_file

insert-Appended_example :
    (net' : NetIndex) × (insert NetIndex.init 1 6 ≡ some net')
    × Appended NetIndex.init [] (blank_node 1 6) net'
insert-Appended_example = insert-Appended NetIndex.init [] 1 6 init-IsList

abbrev one_node : NetIndex
one_node = record { heap = blank_node 1 6 ∷ []; files = some 0; tail = some 0; file_count = 1 }

find_file-first_with_example :
    NetIndex.find_file one_node 65537 ≡ some (first_with one_node.heap 1 (0 ∷ []))
find_file-first_with_example = find_file-first_with one_node (0 ∷ []) 65537 (record {
  chain = (blank_node 1 6, refl, omega arith, refl, refl);
  ends = refl;
  counted = refl;
})
