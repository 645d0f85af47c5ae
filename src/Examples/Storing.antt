-- ===== src/Examples/Storing.antt =====
-- The theorems on what a node stores at concrete inputs.
use distributed_storage_syst.Prelude.{
  ℕ, ◌≡◌, refl, List, [], ◌∷◌, none, some, arith, map, replicate, length-replicate,
}
use distributed_storage_syst.Server.{Server, ServerState, is_index}
use distributed_storage_syst.FileServer
use distributed_storage_syst.FileServer.{FileServer, max_files, zero_file, new_container}
use distributed_storage_syst.FileServer.Table.{init-IsValid}
use distributed_storage_syst.FileServer.Slots.{stored}
use distributed_storage_syst.FanOut.{FragmentCreation}
use distributed_storage_syst.Transfer.{done, packets, send_large_buffer_to}
use distributed_storage_syst.Store.{begin_create, wait_raw_packets}
use distributed_storage_syst.Store.Fragments.{Stores, first_fragment-Stores, second_fragment-Stores}
use distributed_storage_syst.Store.Relay.{create_file_relayed}
use distributed_storage_syst.Examples.{node, index_node, no_files}

abbrev text : List ℕ
text = 10 ∷ 20 ∷ 30 ∷ []

abbrev name : List ℕ
name = replicate 200 0

abbrev creation : FragmentCreation
creation = record {
  file_name = name;
  file_size = 9;
  file_id = 1;
  fragment_count_total = 3;
  ptr_index = 2;
  frag_id = 2;
  frag_size = 3;
}

none_known : FileServer.find_file no_files 1 ≡ none
unfolding FileServer.init FileServer.find_file
none_known = refl

first_fragment-Stores_example :
    Stores
      (node 1 3 2)
      no_files
      creation
      9
      7
      text
      (replicate 3 0)
      0
      (record (new_container name 1 9 3) { slot0 = stored 2 text 3 })
unfolding FileServer.init
first_fragment-Stores_example =
    first_fragment-Stores (node 1 3 2) no_files creation 9 7 text (replicate 3 0) refl refl
      (omega arith) (λ e. omega arith)
      (init-IsValid (replicate max_files zero_file) (length-replicate max_files zero_file)).0
      (omega arith) none_known (omega arith)

abbrev one_file : FileServer
one_file = record {
  file_count = 1;
  files = record (new_container name 1 9 3) { slot0 = stored 1 text 3 } ∷ [];
}

one_known : FileServer.find_file one_file 1 ≡ some 0
unfolding new_container FileServer.find_file
one_known = refl

second_fragment-Stores_example :
    Stores
      (node 1 3 2)
      one_file
      creation
      9
      7
      text
      (replicate 3 0)
      0
      (record (new_container name 1 9 3) { slot0 = stored 1 text 3; slot1 = stored 2 text 3 })
second_fragment-Stores_example =
    second_fragment-Stores (node 1 3 2) one_file creation 9 7 text (replicate 3 0) refl refl
      (omega arith) (λ e. omega arith) 0
      (record (new_container name 1 9 3) { slot0 = stored 1 text 3 }) one_known refl
      (λ e. omega arith)

create_file_relayed_example :
    (bs : List (List ℕ)) × (sent : List (List ℕ)) × (sv' index' : Server) × (send_large_buffer_to 3
        text
      ≡ some bs)
    × (wait_raw_packets
          (begin_create (node 1 3 2) name 3 8 7).0
          (begin_create (node 1 3 2) name 3 8 7).1
          (packets bs)
          (replicate 3 0)
          7
        ≡ done (sv', text, sent))
    × (wait_raw_packets
          (begin_create index_node name 3 9 7).0
          (begin_create index_node name 3 9 7).1
          (map some sent)
          (replicate 3 1)
          7
        ≡ done (index', text, []))
    × (sv'.state ≡ ServerState.idle)
    × (index'.state ≡ ServerState.index_handle_new_file)
unfolding is_index
create_file_relayed_example =
    create_file_relayed (node 1 3 2) index_node name text (replicate 3 0) (replicate 3 1) 8 9 7 refl
      refl refl refl (omega arith) (λ e. omega arith)
