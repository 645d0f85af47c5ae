-- ===== src/NewFile.antt =====
-- main.c, SERVER_INDEX_HANDLE_NEW_FILE: the index cuts a new file into fragments and chooses two
-- nodes for each.
pub mod Sizes
pub mod Placement
pub mod Handle
pub mod Replicas
use distributed_storage_syst.Prelude.{
  ℕ, zero, suc, ◌+◌, ◌-◌, ◌*◌, ◌/◌, ◌%◌, ◌^◌, Bool, true, false, ◌||◌, List, [], ◌∷◌, Option, none,
  some, ◌==◌, if◌then◌else◌, ltb, leb, ◌>>=◌, get_elem?, store?, to_int,
}
use distributed_storage_syst.Address.{Address}
use distributed_storage_syst.Server.{Server, ServerState, IndexData, is_valid_node, set_state}
use distributed_storage_syst.FileServer
use distributed_storage_syst.FileServer.{FileServer}
use distributed_storage_syst.NetIndex
use distributed_storage_syst.NetIndex.{NetIndex, FragmentPointer, FileInNetwork}

-- MINIMAL_SIZE_FOR_SPLIT and REDUNDANCY of lib/defines.h
abbrev pub minimal_size_for_split : ℕ
minimal_size_for_split = 100

abbrev pub redundancy : ℕ
redundancy = 2

-- `fragcount`
unfoldable pub fragment_count : Server → ℕ → ℕ
fragment_count sv sz =
    if leb sz sv.net_size || leb sz minimal_size_for_split then 1 else sv.net_size

-- `fragmentsz`: the last fragment takes the rest.
unfoldable pub fragment_size : ℕ → ℕ → ℕ → ℕ
fragment_size sz count i = if (i + 1) == count then sz / count + sz % count else sz / count

-- The first `while`: the offset grows past the addresses with port 0. `fuel` bounds its rounds.
unfoldable pub skip_dead : ℕ → IndexData → ℕ → ℕ → Option ℕ
skip_dead zero d i offset = none
skip_dead (suc fuel) d i offset =
    let rest = skip_dead fuel d i (offset + 1) in
    if leb d.known_peers (i + offset)
    then some offset
    else (do a ← get_elem? d.peer_ips (i + offset); if a.port == 0 then rest else some offset)

-- The node that a try goes to; the modulus is the original number of nodes.
unfoldable pub candidate : Server → ℕ → ℕ → Option ℕ
candidate sv node tries =
    let count = (sv.net_size + sv.death_count) % 2 ^ 64 in
    if count == 0 then none else some ((node + tries) % count + 1)

-- The second `while`, with `left` tries left of `known_peers + 1`.
unfoldable pub choose_nodes :
    ℕ → Server → ℕ → ℕ → ℕ → ℕ → ℕ → List FragmentPointer → Option (List FragmentPointer)
unfolding candidate
choose_nodes zero sv node i size tries j frags = some frags
choose_nodes (suc left) sv node i size tries j frags = elim (ltb j redundancy) [
  | false ↦ some frags
  | true ↦ (do
    nid ← candidate sv node tries
    valid ← is_valid_node sv nid
    elim valid [
      | false ↦ choose_nodes left sv node i size (tries + 1) j frags
      | true ↦ (do
        frags' ←
            store? frags (i * redundancy + j)
              (record { fragment = (i + 1) % 2 ^ 16; size = size; node_id = nid })
        choose_nodes left sv node i size (tries + 1) (j + 1) frags')
    ])
]

-- The `for` loop, with `rounds` fragments left.
unfoldable pub place_fragments :
    ℕ → Server → IndexData → ℕ → ℕ → ℕ → ℕ → List FragmentPointer → Option (List FragmentPointer)
place_fragments zero sv d sz count i offset frags = some frags
place_fragments (suc rounds) sv d sz count i offset frags = do
  size ← to_int (fragment_size sz count i)
  offset' ← skip_dead (d.known_peers + 1) d i offset
  frags' ← choose_nodes (d.known_peers + 1) sv (i + offset') i size 0 0 frags
  place_fragments rounds sv d sz count (i + 1) offset' frags'

-- What the state leaves: the server, the container of the new file, which goes into
-- `StateHandleNewFile` beside the buffer that was received, its node, and the two indexes.
pub record Placed : Type 0 where
  pub server : Server
  pub file : ℕ
  pub files : FileServer
  pub node : ℕ
  pub net : NetIndex

unfoldable pub handle_new_file : Server → FileServer → NetIndex → List ℕ → ℕ → ℕ → Option Placed
handle_new_file sv fs net name sz now = do
  let count = fragment_count sv sz
  let id = fs.file_count + 1
  (file, fs') ← FileServer.add_file fs name id sz count
  let made = NetIndex.new_file true true net id (count * redundancy)
  q ← made.0
  base ← (if count == 0 then none else to_int (sz / count))
  rest ← to_int (sz % count)
  d ← sv.index_data
  node ← get_elem? made.1.heap q
  frags ← place_fragments count sv d sz count 0 0 node.fragments
  heap' ← store? made.1.heap q (record node { fragments = frags })
  net' ← NetIndex.add_file (record (made.1) { heap = heap' }) (some q)
  some (record {
    server = set_state sv ServerState.index_fanout_fragments now;
    file = file;
    files = fs';
    node = q;
    net = net';
  })
