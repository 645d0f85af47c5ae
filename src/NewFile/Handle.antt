-- ===== src/NewFile/Handle.antt =====
-- The whole state: the file is entered in both indexes, with two live nodes for every fragment.
use distributed_storage_syst.Prelude.{
  ℕ, ◌+◌, ◌*◌, ◌/◌, ◌%◌, ◌^◌, ◌<◌, ◌≤◌, ◌≡◌, ◌≢◌, refl, true, List, [], ◌∷◌, ◌++◌, none, some,
  arith, ◌==◌, if◌then◌else◌, store?, length, length-replicate, replicate, >>=-some, ne→==, to_int,
  to_int_lem,
}
use native.Mathlib.Nat.{div-le_self}
use distributed_storage_syst.Server.{Server, ServerState, IndexData, set_state}
use distributed_storage_syst.FileServer.{FileServer, new_container, max_files}
use distributed_storage_syst.FileServer.Table
use distributed_storage_syst.NetIndex
use distributed_storage_syst.NetIndex.{
  NetIndex, FileInNetwork, FragmentPointer, blank_node, no_pointer,
}
use distributed_storage_syst.NetIndex.Chain.{IsList, get_elem?-new, new_file_lem}
use distributed_storage_syst.NetIndex.Lookup.{Appended, add_file-Appended}
use distributed_storage_syst.NewFile.{
  Placed, redundancy, fragment_count, fragment_size, handle_new_file,
}
use distributed_storage_syst.NewFile.Replicas.{HasTable, IsLive}
use distributed_storage_syst.NewFile.Placement.{TwoReplicas, place_fragments-Filled}

-- The node that a new file gets in the network index.
abbrev pub file_node : Server → ℕ → ℕ → List FragmentPointer → FileInNetwork
file_node sv id sz frags = record {
  file_id = id % 2 ^ 16;
  total_fragments = fragment_count sv sz * redundancy;
  fragments = frags;
  next = none;
}

-- What the state leaves behind, with the entries of the file.
pub record Handled (sv : Server) (fs : FileServer) (net : NetIndex) (ps : List ℕ) (name : List ℕ)
    (sz now : ℕ) (entries : List FragmentPointer) (r : Placed) : Type 0 where
  pub goes_on : r.server ≡ set_state sv ServerState.index_fanout_fragments now
  pub file_at : r.file ≡ fs.file_count
  pub node_at : r.node ≡ length net.heap
  pub files_valid : Table.IsValid r.files
  pub files_added :
      Table.contents r.files
      ≡ Table.contents fs ++ (new_container name (fs.file_count + 1) sz (fragment_count sv sz) ∷ [])
  pub net_added : Appended net ps (file_node sv (fs.file_count + 1) sz entries) r.net
  pub entries_sized : length entries ≡ fragment_count sv sz * redundancy

set-append_end {ℓ} :
    {A : Type ℓ} (xs : List A) (x y : A)
    → store? (xs ++ (x ∷ [])) (length xs) y ≡ some (xs ++ (y ∷ []))
set-append_end [] x y = refl
set-append_end (z ∷ xs) x y = rw (set-append_end xs x y) refl

pub fragment_count-pos : (sv : Server) (sz : ℕ) → 0 < sv.net_size → 0 < fragment_count sv sz
unfolding fragment_count
fragment_count-pos sv sz h = ground arith

module _ (sv : Server) (d : IndexData) (m : ℕ) (table : HasTable sv d m)
    (reported : d.known_peers + 1 ≡ m) (a b : ℕ) (a_in : 0 < a) (a_le : a ≤ m) (b_in : 0 < b)
    (b_le : b ≤ m) (apart : a ≢ b) (a_live : IsLive sv a) (b_live : IsLive sv b) (fs : FileServer)
    (room : fs.file_count < max_files) (fs_valid : Table.IsValid fs) (net : NetIndex) (ps : List ℕ)
    (net_valid : IsList net ps) (name : List ℕ) (sz : ℕ) (fits : sz < 2 ^ 31)
    (sized : 0 < sv.net_size) where
  pub handle_new_file_lem :
      (now : ℕ)
      → (r : Placed) × (entries : List FragmentPointer) × (handle_new_file sv fs net name sz now
          ≡ some r)
        × Handled sv fs net ps name sz now entries r
        × ((k : ℕ)
            → k < fragment_count sv sz
            → TwoReplicas sv k (fragment_size sz (fragment_count sv sz) k) entries)
  unfolding handle_new_file set_state
  handle_new_file_lem now =
      let count : ℕ = fragment_count sv sz in
      let pos : 0 < count = fragment_count-pos sv sz sized in
      let id : ℕ = fs.file_count + 1 in
      let (fs', added, valid', grown) = Table.add_file-contents fs name id sz count fs_valid room in
      let blank : FileInNetwork = blank_node id (count * redundancy) in
      let (frags, placed, (len, replicas, before)) =
        place_fragments-Filled sv d m table reported a b a_in a_le b_in b_le apart a_live b_live sz
          count fits count 0 0 (replicate (count * redundancy) no_pointer) (omega arith)
          (length-replicate (count * redundancy) no_pointer) in
      let node : FileInNetwork = file_node sv id sz frags in
      let (net', appended, after) = add_file-Appended net ps node net_valid refl in
      let cut : (if count == 0 then none else to_int (sz / count)) ≡ some (sz / count) =
        rw (ne→== count 0 (omega arith))
          (to_int_lem (sz / count) (omega (arith, div-le_self sz count))) in
      let rest : to_int (sz % count) ≡ some (sz % count) = to_int_lem (sz % count) (omega arith) in
      let made : NetIndex.new_file true true net id (count * redundancy)
          ≡ (some (length net.heap), record net { heap = net.heap ++ (blank ∷ []) }) =
        new_file_lem net id (count * redundancy) in
      (
        record {
          server = set_state sv ServerState.index_fanout_fragments now;
          file = fs.file_count;
          files = fs';
          node = length net.heap;
          net = net';
        },
        frags,
        rw made (
            >>=-some _ added (
              >>=-some _ cut (
                >>=-some _ rest (
                  >>=-some _ table.present (
                    >>=-some _ (get_elem?-new net.heap blank) (
                      >>=-some _ placed (
                        >>=-some _ (set-append_end net.heap blank node)
                          (>>=-some _ appended refl)))))))),
        record {
          goes_on = refl;
          file_at = refl;
          node_at = refl;
          files_valid = valid';
          files_added = grown;
          net_added = after;
          entries_sized = len;
        },
        λ k lt. replicas k (omega arith) lt,
      )
