-- ===== src/FanOut.antt =====
-- main.c, SERVER_INDEX_FANOUT_FRAGMENTS: the index keeps its own fragments of a new file and sends the
-- others to their nodes.
pub mod Shares
pub mod NewFiles
use distributed_storage_syst.Prelude.{
  ℕ, zero, suc, ◌+◌, ◌-◌, ◌*◌, ◌/◌, ◌%◌, ◌^◌, Bool, true, false, List, [], ◌∷◌, Option, none, some,
  ◌==◌, if◌then◌else◌, ltb, ◌>>=◌, to_int, read_block, get_elem?, store?, drop, length,
}
use distributed_storage_syst.Address.{Address}
use distributed_storage_syst.Server.{Server, ServerState, IndexData, set_state}
use distributed_storage_syst.FileServer.{FileServer, FileContainer, FileFragment}
use distributed_storage_syst.NetIndex
use distributed_storage_syst.NetIndex.{NetIndex, FragmentPointer}
use distributed_storage_syst.NewFile.{redundancy}
use distributed_storage_syst.Transfer.{send_large_buffer_to}

-- `xRequestFragmentCreation`
pub record FragmentCreation : Type 0 where
  pub file_name : List ℕ
  pub file_size : ℕ
  pub file_id : ℕ
  pub fragment_count_total : ℕ
  pub ptr_index : ℕ
  pub frag_id : ℕ
  pub frag_size : ℕ

-- `xreqfragcreation_new`
unfoldable pub new_creation : FileContainer → FragmentPointer → ℕ → FragmentCreation
new_creation fc frag ptr_index = record {
  file_name = fc.file_name;
  file_size = fc.size;
  file_id = fc.file_id;
  fragment_count_total = fc.fragment_count_total;
  ptr_index = ptr_index % 2 ^ 16;
  frag_id = frag.fragment;
  frag_size = frag.size;
}

-- What goes out on one connection, behind the presentation: the announcement and the buckets.
pub record Delivery : Type 0 where
  pub to : Address
  pub creation : FragmentCreation
  pub buckets : List (List ℕ)

-- A fragment of the index itself goes to its first slot if that is free, and to the second otherwise.
unfoldable pub keep_own : FileContainer → FragmentPointer → List ℕ → FileContainer
keep_own fc frag bytes =
    let own : FileFragment = record {
      fragment_id = frag.fragment % 2 ^ 8;
      fragment_bytes = some bytes;
      fragment_size = frag.size;
    } in
    if fc.slot0.fragment_id == 0 then record fc { slot0 = own } else record fc { slot1 = own }

-- The rounds of the loop from entry `i` on. An entry that was never filled, with the fragment 0, has
-- a negative offset and is a fault.
unfoldable pub fan_out_from :
    List FragmentPointer
    → ℕ
    → Server
    → IndexData
    → ℕ
    → List ℕ
    → FileContainer
    → Option (FileContainer × List Delivery)
unfolding keep_own new_creation
fan_out_from [] i sv d base buffer fc = some (fc, [])
fan_out_from (frag ∷ frags) i sv d base buffer fc = do
  offset ← (if frag.fragment == 0 then none else to_int (base * (frag.fragment - 1)))
  elim (frag.node_id == sv.me.node_id) [
    | true ↦ (do
      bytes ← read_block offset frag.size buffer
      fan_out_from frags (i + 1) sv d base buffer (keep_own fc frag bytes))
    | false ↦ (do
      to ← (if frag.node_id == 0 then none else get_elem? d.peer_ips (frag.node_id - 1))
      buckets ← send_large_buffer_to frag.size (drop offset buffer)
      (fc', rest) ← fan_out_from frags (i + 1) sv d base buffer fc
      some (fc', record { to = to; creation = new_creation fc frag i; buckets = buckets } ∷ rest))
  ]

-- The state: `file` is the pointer that the state before it leaves.
unfoldable pub fan_out :
    Server → FileServer → NetIndex → ℕ → List ℕ → ℕ → Option (Server × FileServer × List Delivery)
fan_out sv fs net file buffer now = do
  fc ← get_elem? fs.files file
  found ← NetIndex.find_file net fc.file_id
  p ← found
  f ← get_elem? net.heap p
  base ←
      (if f.total_fragments / redundancy == 0
        then none
        else to_int (fc.size / (f.total_fragments / redundancy)))
  d ← sv.index_data
  (fc', deliveries) ← fan_out_from f.fragments 0 sv d base buffer fc
  files' ← store? fs.files file fc'
  some (set_state sv ServerState.idle now, record fs { files = files' }, deliveries)
