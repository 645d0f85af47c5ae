-- ===== src/Rebuild.antt =====
-- How a new index learns what the nodes hold: the reports of main.c (SERVER_BEGIN_OPERATION and
-- SERVER_REPORT_KNOWLEDGE_TO_INDEX), and lib/machine/procedures.c `xprocedure_save_file_to_index`.
pub mod Entries
pub mod Index
pub mod Reports
pub mod Originals
use distributed_storage_syst.Prelude.{
  ℕ, zero, suc, ◌+◌, ◌-◌, ◌*◌, ◌%◌, ◌^◌, Bool, true, false, ◌&&◌, List, [], ◌∷◌, Option, none, some,
  ◌==◌, if◌then◌else◌, ltb, ◌>>=◌, get_elem?, store?, take,
}
use distributed_storage_syst.Server.{Server}
use distributed_storage_syst.FileServer
use distributed_storage_syst.FileServer.{FileServer, FileContainer, FileFragment}
use distributed_storage_syst.NetIndex
use distributed_storage_syst.NetIndex.{NetIndex, FileInNetwork, FragmentPointer, no_pointer}
use distributed_storage_syst.NewFile.{redundancy}

-- `xReportFileKnowledge`; `fragment0` and `fragment1` are `fragments[0]` and `[1]`.
pub record Report : Type 0 where
  pub file_name : List ℕ
  pub file_size : ℕ
  pub file_id : ℕ
  pub frag_count : ℕ
  pub fragment0 : FragmentPointer
  pub fragment1 : FragmentPointer

-- A slot that is empty is reported as zeros.
unfoldable pub report_slot : Server → FileFragment → FragmentPointer
report_slot sv slot =
    if slot.fragment_id == 0
    then no_pointer
    else record { fragment = slot.fragment_id; size = slot.fragment_size; node_id = sv.me.node_id }

unfoldable pub report_file : Server → FileContainer → Report
unfolding report_slot
report_file sv f = record {
  file_name = f.file_name;
  file_size = f.size;
  file_id = f.file_id;
  frag_count = f.fragment_count_total;
  fragment0 = report_slot sv f.slot0;
  fragment1 = report_slot sv f.slot1;
}

-- The reports of all files of a node, in the order of its array.
unfoldable pub report_files : Server → ℕ → List FileContainer → List Report
report_files sv zero files = []
report_files sv (suc n) [] = []
report_files sv (suc n) (f ∷ files) = report_file sv f ∷ report_files sv n files

-- A file of one fragment: the node with the smaller id comes first.
unfoldable pub update_single : Report → List FragmentPointer → Option (List FragmentPointer)
update_single r entries = do
  first ← get_elem? entries 0
  if first.fragment == 0
      then store? entries 0 r.fragment0
      else (if ltb first.node_id r.fragment0.node_id
          then store? entries 1 r.fragment0
          else (do entries' ← store? entries 1 first; store? entries' 0 r.fragment0))

-- The first entry and the last, which are those of node 1.
unfoldable pub update_border : Report → List FragmentPointer → Option (List FragmentPointer)
update_border r entries = do
  entries' ← store? entries 0 r.fragment0
  store? entries' (r.frag_count * redundancy - 1) r.fragment1

-- `place = (frags[1] - 1) * REDUNDANCY`, and the entry before it: below 0 both are faults.
unfoldable pub update_inner : Report → List FragmentPointer → Option (List FragmentPointer)
update_inner r entries =
    let place = (r.fragment1.fragment - 1) * redundancy in
    if ltb r.fragment1.fragment 2
    then none
    else (do entries' ← store? entries (place - 1) r.fragment0; store? entries' place r.fragment1)

-- What a report changes in the entries of its file. `diff > 1` compares signed numbers.
unfoldable pub update_entries : Report → List FragmentPointer → Option (List FragmentPointer)
unfolding update_single update_border update_inner
update_entries r entries =
    if r.frag_count == 1
    then update_single r entries
    else (if ltb (r.fragment0.fragment + 1) r.fragment1.fragment
        then update_border r entries
        else (do
          first ← get_elem? entries 0
          if r.frag_count == 2 && first.fragment == 0
              then update_border r entries
              else update_inner r entries))

-- The node of the file in the index; it is inserted where there is none.
unfoldable pub find_or_insert : NetIndex → Report → Option (ℕ × NetIndex)
find_or_insert net r = do
  found ← NetIndex.find_file net r.file_id
  elim found [
    | some p ↦ some (p, net)
    | none ↦ (do
      let made = NetIndex.new_file true true net r.file_id (r.frag_count * redundancy)
      p ← made.0
      net' ← NetIndex.add_file made.1 (some p)
      some (p, net'))
  ]

-- The container of the file; it is added where there is none.
unfoldable pub ensure_container : FileServer → Report → Option FileServer
ensure_container fs r = elim (FileServer.find_file fs r.file_id) [
  | some p ↦ some fs
  | none ↦ (do
    (p, fs') ← FileServer.add_file fs r.file_name r.file_id r.file_size r.frag_count
    some fs')
]

unfoldable pub save_file_to_index : FileServer → NetIndex → Report → Option (FileServer × NetIndex)
unfolding find_or_insert ensure_container
save_file_to_index fs net r = do
  (p, net') ← find_or_insert net r
  fs' ← ensure_container fs r
  node ← get_elem? net'.heap p
  entries ← update_entries r node.fragments
  heap' ← store? net'.heap p (record node { fragments = entries })
  some (fs', record net' { heap = heap' })

-- The index takes its own files first, in the order of its array.
unfoldable pub save_all : FileServer → NetIndex → List Report → Option (FileServer × NetIndex)
unfolding save_file_to_index
save_all fs net [] = some (fs, net)
save_all fs net (r ∷ rs) = do (fs', net') ← save_file_to_index fs net r; save_all fs' net' rs
