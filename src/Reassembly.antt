-- ===== src/Reassembly.antt =====
-- main.c, SERVER_WAIT_REQUEST_FRAGMENTS: a node puts the fragments of a requested file together.
pub mod Covering
pub mod Arrival
pub mod Serve
pub mod Sent
pub mod Delivery
pub mod Download
use distributed_storage_syst.Prelude.{
  ℕ, zero, suc, ◌+◌, ◌-◌, ◌*◌, ◌/◌, Bool, true, false, ◌||◌, List, [], ◌∷◌, Option, none, some,
  ◌==◌, if◌then◌else◌, ltb, ◌>>=◌, to_int, replicate, read_block, write_block, get_elem?, length,
}
use distributed_storage_syst.FileServer
use distributed_storage_syst.FileServer.{FileServer, FileFragment, FileContainer}

-- The fields of `StateRequestedFile` that this state uses.
pub record Request : Type 0 where
  pub file_id : ℕ
  pub file_size : ℕ
  pub fragment_count : ℕ
  pub fragment_found : ℕ
  pub buffer : List ℕ

-- As SERVER_RECEIVED_PACKET leaves it: the buffer is filled with dots.
unfoldable pub new_request : ℕ → ℕ → ℕ → Request
new_request file_id file_size fragment_count = record {
  file_id = file_id;
  file_size = file_size;
  fragment_count = fragment_count;
  fragment_found = 0;
  buffer = replicate file_size b'.';
}

-- `size / w * (frag_id - 1)` in `int`: the fault of a division by 0, a negative offset or an overflow.
unfoldable pub offset_of : ℕ → ℕ → ℕ → Option ℕ
offset_of size w frag_id =
    if w == 0 || frag_id == 0 then none else to_int (size / w * (frag_id - 1))

-- `memcpy(buf + offset, bytes, size)`, and one more fragment found.
unfoldable pub copy_fragment : Request → ℕ → List ℕ → ℕ → Option Request
copy_fragment r offset bytes size = do
  piece ← read_block 0 size bytes
  buffer' ← write_block offset piece r.buffer
  some (record r { fragment_found = r.fragment_found + 1; buffer = buffer' })

-- A fragment that another node delivers, with the bytes that were received for it.
unfoldable pub deliver : Request → ℕ → List ℕ → ℕ → Option Request
unfolding offset_of copy_fragment
deliver r frag_id bytes size = do
  offset ← offset_of r.file_size r.fragment_count frag_id
  copy_fragment r offset bytes size

-- TYPE_DECLARE_USE_LOCAL: the first slot if it has the id, otherwise the second, whatever that holds.
-- Where the file is unknown nothing is counted.
unfoldable pub use_local : FileServer → Request → ℕ → Option Request
unfolding offset_of copy_fragment
use_local fs r frag_id = elim (FileServer.find_file fs r.file_id) [
  | none ↦ some r
  | some p ↦ (do
    fc ← get_elem? fs.files p
    let fp = if fc.slot0.fragment_id == frag_id then fc.slot0 else fc.slot1
    offset ← offset_of fc.size r.fragment_count fp.fragment_id
    bytes ← fp.fragment_bytes
    copy_fragment r offset bytes fp.fragment_size)
]

-- The state goes on to send the buffer once as many fragments have come as the file has.
unfoldable pub is_complete : Request → Bool
is_complete r = r.fragment_count == r.fragment_found

-- The fragments that come, in their order: an id with its bytes.
unfoldable pub deliver_all : Request → List (ℕ × List ℕ) → Option Request
unfolding deliver
deliver_all r [] = some r
deliver_all r ((frag_id, bytes) ∷ rest) = do
  r' ← deliver r frag_id bytes (length bytes)
  deliver_all r' rest
