-- ===== src/NetIndex.antt =====
-- lib/fileserver/fni.c and the types of fs.h: the index of the files in the network, a linked list
-- with a pointer to its last node. Nodes live on a heap; a pointer is a position in it.
pub mod Chain
pub mod Lookup
use distributed_storage_syst.Prelude.{
  ℕ, zero, suc, ◌+◌, ◌%◌, ◌^◌, Bool, true, false, List, [], ◌∷◌, ◌++◌, Option, none, some, ◌==◌,
  if◌then◌else◌, ◌>>=◌, get_elem?, store?, replicate, length,
}

pub record FragmentPointer : Type 0 where
  pub fragment : ℕ
  pub size : ℕ
  pub node_id : ℕ

-- `fragments` is the array that `xfilenetindex_new_file` allocates.
pub record FileInNetwork : Type 0 where
  pub file_id : ℕ
  pub total_fragments : ℕ
  pub fragments : List FragmentPointer
  pub next : Option ℕ

-- `heap` holds the nodes in the order in which they were allocated.
pub record NetIndex : Type 0 where
  pub file_count : ℕ
  pub files : Option ℕ
  pub tail : Option ℕ
  pub heap : List FileInNetwork

abbrev pub no_pointer : FragmentPointer
no_pointer = record { fragment = 0; size = 0; node_id = 0 }

unfoldable pub init : NetIndex
init = record { file_count = 0; files = none; tail = none; heap = [] }

abbrev pub blank_node : ℕ → ℕ → FileInNetwork
blank_node file_id fragment_count = record {
  file_id = file_id % 2 ^ 16;
  total_fragments = fragment_count;
  fragments = replicate fragment_count no_pointer;
  next = none;
}

-- `node_memory` and `array_memory` are whether the two calls of `calloc` succeed.
unfoldable pub new_file : Bool → Bool → NetIndex → ℕ → ℕ → Option ℕ × NetIndex
new_file node_memory array_memory net file_id fragment_count =
    let allocated = record net { heap = net.heap ++ (blank_node file_id fragment_count ∷ []) } in
    if node_memory
    then (if fragment_count == 0
        then (some (length net.heap), allocated)
        else (if array_memory then (some (length net.heap), allocated) else (none, net)))
    else (none, net)

-- `p->next = q`
unfoldable pub link : List FileInNetwork → ℕ → ℕ → Option (List FileInNetwork)
link heap p q = do node ← get_elem? heap p; store? heap p (record node { next = some q })

-- The list is empty where `files` is null; otherwise the last node is linked to the new one.
unfoldable pub add_file : NetIndex → Option ℕ → Option NetIndex
unfolding link
add_file net none = some net
add_file net (some p) =
    let count = (net.file_count + 1) % 2 ^ 16 in
    elim net.files [
      | none ↦ some (record net { file_count = count; files = some p; tail = some p })
      | some first ↦ (do
        last ← net.tail
        heap' ← link net.heap last p
        some (record net { file_count = count; tail = some p; heap = heap' }))
    ]

-- `while (curr)`: the outer `none` is a dangling pointer, or a walk longer than its fuel.
unfoldable pub find_walk : ℕ → List FileInNetwork → Option ℕ → ℕ → Option (Option ℕ)
find_walk fuel heap none id = some none
find_walk zero heap (some p) id = none
find_walk (suc fuel) heap (some p) id = do
  node ← get_elem? heap p
  elim (node.file_id == id) [ true ↦ some (some p) | false ↦ find_walk fuel heap node.next id ]

-- The parameter has the type `uint16_t`. No list is longer than the heap.
unfoldable pub find_file : NetIndex → ℕ → Option (Option ℕ)
unfolding find_walk
find_file net file_id = find_walk (length net.heap) net.heap net.files (file_id % 2 ^ 16)

-- What both callers do for an unknown file: allocate a node and append it.
unfoldable pub insert : NetIndex → ℕ → ℕ → Option NetIndex
unfolding new_file add_file
insert net file_id fragment_count =
    let made = new_file true true net file_id fragment_count in add_file made.1 made.0
