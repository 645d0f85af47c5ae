-- ===== src/Examples/Rebuilding.antt =====
-- The reports of a file of three fragments at concrete inputs.
use distributed_storage_syst.Prelude.{
  List, zero, suc, ◌<◌, ◌≤◌, ℕ, ◌≡◌, refl, [], ◌∷◌, none, some, arith, map, replicate,
  length-replicate, get_elem?,
}
use distributed_storage_syst.FileServer
use distributed_storage_syst.FileServer.{FileServer, FileContainer, max_files, zero_file}
use distributed_storage_syst.FileServer.Table.{init-IsValid}
use distributed_storage_syst.NetIndex
use distributed_storage_syst.NetIndex.{NetIndex, FileInNetwork, FragmentPointer, no_pointer}
use distributed_storage_syst.NetIndex.Chain.{init-IsList}
use distributed_storage_syst.Rebuild.{report_file, save_all}
use distributed_storage_syst.Rebuild.Entries.{report_of, original}
use distributed_storage_syst.NewFile.{fragment_size, place_fragments}
use distributed_storage_syst.NewFile.Replicas.{IsLive}
use distributed_storage_syst.Server.{is_valid_node}
use distributed_storage_syst.Rebuild.Originals.{place_fragments-original}
use distributed_storage_syst.Rebuild.Index.{index_rebuilt}
use distributed_storage_syst.Rebuild.Reports.{report_file-report_of}
use distributed_storage_syst.Examples.{node, no_files, index_node, addresses}

abbrev sizes : ℕ → ℕ
sizes k = 100

unknown : FileServer.find_file no_files 1 ≡ none
unfolding FileServer.init FileServer.find_file
unknown = refl

index_rebuilt_example :
    (fs' : FileServer) × (net' : NetIndex) × (entered : FileInNetwork) × (save_all no_files
        NetIndex.init
        (map (report_of 3 (omega arith) sizes [] 300 1) (2 ∷ 1 ∷ []))
      ≡ some (fs', net'))
    × (FileServer.find_file fs' 1 ≡ some 0)
    × (NetIndex.find_file net' 1 ≡ some (some 0))
    × (get_elem? net'.heap 0 ≡ some entered)
    × (entered.file_id ≡ 1)
    × (entered.total_fragments ≡ 6)
    × (get_elem? entered.fragments 1 ≡ some (original 3 (omega arith) sizes [] 300 1 1))
unfolding FileServer.init NetIndex.init
index_rebuilt_example =
    index_rebuilt 3 (omega arith) sizes [] 300 1 2 (1 ∷ []) 1 no_files NetIndex.init []
      (omega arith, omega arith, (omega arith, omega arith, tt)) (omega arith)
      (init-IsValid (replicate max_files zero_file) (length-replicate max_files zero_file)).0
      (omega arith) init-IsList (omega arith) refl unknown

abbrev held : FileContainer
held = record {
  file_name = [];
  file_id = 1;
  size = 300;
  fragment_count_total = 3;
  slot0 = record { fragment_id = 1; fragment_bytes = none; fragment_size = 100 };
  slot1 = record { fragment_id = 2; fragment_bytes = none; fragment_size = 100 };
}

report_file-report_of_example :
    report_file (node 2 1 3) held ≡ report_of 3 (omega arith) sizes [] 300 1 2
report_file-report_of_example =
    report_file-report_of 3 (omega arith) sizes [] 300 1 (node 2 1 3) held 2 (omega arith)
      (omega arith) refl refl refl refl refl (refl, refl) (refl, refl)

all-IsLive : (n : ℕ) → 0 < n → n ≤ 3 → IsLive index_node n
unfolding is_valid_node
all-IsLive zero pos le = absurd (omega arith)
all-IsLive (suc zero) pos le = refl
all-IsLive (suc (suc zero)) pos le = refl
all-IsLive (suc (suc (suc zero))) pos le = refl
all-IsLive (suc (suc (suc (suc n)))) pos le = absurd (omega arith)

place_fragments-original_example :
    (entries : List FragmentPointer) × (place_fragments 3 index_node addresses 301 3 0 0
        (replicate 6 no_pointer)
      ≡ some entries)
    × (get_elem? entries 5 ≡ some (original 3 (omega arith) (fragment_size 301 3) [] 301 1 5))
place_fragments-original_example =
    place_fragments-original index_node addresses 3
      (record { present = refl; original = refl; some_node = omega arith; addresses = refl })
      (omega arith) (omega arith) refl refl all-IsLive [] 301 1 (omega arith) 5 (omega arith)
