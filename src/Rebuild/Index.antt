-- ===== src/Rebuild/Index.antt =====
-- The reports at the new index: the network index gets one node for the file, with the entries that
-- the reports rebuild.
use distributed_storage_syst.Prelude.{
  ℕ, zero, suc, ◌*◌, ◌%◌, ◌^◌, ◌<◌, ◌≤◌, ◌≡◌, ◌∙◌, replicate, refl, sym, ap, true, false, List, [],
  ◌∷◌, ◌++◌, map, Option, none, some, arith, ◌==◌, ==_refl, if◌then◌else◌, >>=-some, >>=-eq-some,
  get_elem?, get_elem?-set_self, get_elem?-set_ne, store?_of_lt, set, length, length-set,
  ℕ_discrete, Option-cases, inl, inr,
}
use distributed_storage_syst.FileServer
use distributed_storage_syst.FileServer.{FileServer, new_container, max_files}
use distributed_storage_syst.FileServer.Table
use distributed_storage_syst.FileServer.Slots.{get_elem?-lt}
use distributed_storage_syst.NetIndex
use distributed_storage_syst.NetIndex.{
  NetIndex, FileInNetwork, FragmentPointer, blank_node, no_pointer, find_walk, insert,
}
use distributed_storage_syst.NetIndex.Chain.{IsList, new_file_lem}
use distributed_storage_syst.NetIndex.Lookup.{first_with, find_file-first_with, insert-Appended}
use distributed_storage_syst.NewFile.{redundancy}
use distributed_storage_syst.Rebuild.Entries.{
  report_of, update_all, AllNodes, holder, original, reported, rebuilds,
}
use distributed_storage_syst.Rebuild.{
  Report, update_entries, find_or_insert, ensure_container, save_file_to_index, save_all,
}

-- Other entries at a node change no search.
find_walk-set :
    (fuel : ℕ) (heap : List FileInNetwork) (p id : ℕ) (node : FileInNetwork)
    (entries : List FragmentPointer) (start : Option ℕ)
    → get_elem? heap p ≡ some node
    → find_walk fuel (set heap p (record node { fragments = entries })) start id
      ≡ find_walk fuel heap start id
unfolding find_walk
find_walk-set zero heap p id node entries none at = refl
find_walk-set zero heap p id node entries (some q) at = refl
find_walk-set (suc fuel) heap p id node entries none at = refl
find_walk-set (suc fuel) heap p id node entries (some q) at = elim (ℕ_discrete p q) [
  | yes same ↦ rw (← same) (
      rw
        (
          get_elem?-set_self heap p (record node { fragments = entries }) (get_elem?-lt heap p at),
          at,
        )
        (ap (λ rest. elim (node.file_id == id) [ true ↦ some (some q) | false ↦ rest ])
          (find_walk-set fuel heap p id node entries node.next at)))
  | no other ↦
      rw (get_elem?-set_ne heap p q (record node { fragments = entries }) other)
        (elim (Option-cases (get_elem? heap q)) [
          | inl e ↦ rw e refl
          | inr (found, e) ↦ rw e (
              ap (λ rest. elim (found.file_id == id) [ true ↦ some (some q) | false ↦ rest ])
                (find_walk-set fuel heap p id node entries found.next at))
        ])
]

abbrev pub with_entries : NetIndex → ℕ → FileInNetwork → List FragmentPointer → NetIndex
with_entries net p node entries = record net {
  heap = set net.heap p (record node { fragments = entries });
}

find_file-set_entries :
    (net : NetIndex) (p id : ℕ) (node : FileInNetwork) (entries : List FragmentPointer)
    → get_elem? net.heap p ≡ some node
    → NetIndex.find_file (with_entries net p node entries) id ≡ NetIndex.find_file net id
unfolding NetIndex.find_file
find_file-set_entries net p id node entries at =
    ap
      (λ n.
        find_walk n (set net.heap p (record node { fragments = entries })) net.files (id % 2 ^ 16))
      (length-set net.heap p (record node { fragments = entries }))
    ∙ find_walk-set (length net.heap) net.heap p (id % 2 ^ 16) node entries net.files at

known_node :
    (net : NetIndex) (r : Report) (p : ℕ)
    → NetIndex.find_file net r.file_id ≡ some (some p)
    → find_or_insert net r ≡ some (p, net)
unfolding find_or_insert
known_node net r p e = rw (find_or_insert, e) refl

known_container :
    (fs : FileServer) (r : Report) (q : ℕ)
    → FileServer.find_file fs r.file_id ≡ some q
    → ensure_container fs r ≡ some fs
unfolding ensure_container
known_container fs r q e = rw (ensure_container, e) refl

-- A report of a file for which there is a node and a container, once they are there.
save_at :
    (fs fs' : FileServer) (net net' : NetIndex) (r : Report) (p : ℕ) (node : FileInNetwork)
    (entries : List FragmentPointer)
    → find_or_insert net r ≡ some (p, net')
    → ensure_container fs r ≡ some fs'
    → get_elem? net'.heap p ≡ some node
    → update_entries r node.fragments ≡ some entries
    → save_file_to_index fs net r ≡ some (fs', with_entries net' p node entries)
unfolding save_file_to_index
save_at fs fs' net net' r p node entries in_net in_fs at run = >>=-some _ in_net (
    >>=-some _ in_fs (
      >>=-some _ at (
        >>=-some _ run (
          >>=-some _
            (store?_of_lt net'.heap p (record node { fragments = entries })
              (get_elem?-lt net'.heap p at))
            refl))))

new_node :
    (net net' : NetIndex) (r : Report)
    → NetIndex.find_file net r.file_id ≡ some none
    → insert net r.file_id (r.frag_count * redundancy) ≡ some net'
    → find_or_insert net r ≡ some (length net.heap, net')
unfolding find_or_insert insert
new_node net net' r absent inserted =
    let count : ℕ = r.frag_count * redundancy in
    let made = new_file_lem net r.file_id count in
    let appended : NetIndex.add_file
          (record net { heap = net.heap ++ (blank_node r.file_id count ∷ []) })
          (some (length net.heap))
        ≡ some net' =
      ap (λ (m : Option ℕ × NetIndex). NetIndex.add_file m.1 m.0) (sym made) ∙ inserted in
    rw (find_or_insert, absent, made, appended) refl

new_container_lem :
    (fs fs' : FileServer) (r : Report) (q : ℕ)
    → FileServer.find_file fs r.file_id ≡ none
    → FileServer.add_file fs r.file_name r.file_id r.file_size r.frag_count ≡ some (q, fs')
    → ensure_container fs r ≡ some fs'
unfolding ensure_container
new_container_lem fs fs' r q absent added = rw (ensure_container, absent, added) refl

module _ (n : ℕ) (many : 3 ≤ n) (size : ℕ → ℕ) (name : List ℕ) (file_size file_id : ℕ) where
  -- Further reports of a file that has its node.
  save_all_known :
      (js : List ℕ) (fs : FileServer) (net : NetIndex) (p q : ℕ) (node : FileInNetwork)
      (entries : List FragmentPointer)
      → NetIndex.find_file net file_id ≡ some (some p)
      → FileServer.find_file fs file_id ≡ some q
      → get_elem? net.heap p ≡ some node
      → update_all n many size name file_size file_id js node.fragments ≡ some entries
      → (net' : NetIndex) × (save_all fs net (map (report_of n many size name file_size file_id) js)
          ≡ some (fs, net'))
        × (NetIndex.find_file net' file_id ≡ some (some p))
        × (get_elem? net'.heap p ≡ some (record node { fragments = entries }))
  unfolding save_all
  save_all_known [] fs net p q node entries found known at run =
      let e : node.fragments ≡ entries = cc in (net, refl, found, rw (← e) at)
  save_all_known (j ∷ js) fs net p q node entries found known at run =
      let r : Report = report_of n many size name file_size file_id j in
      let (mid, first, rest) =
        >>=-eq-some (update_entries r node.fragments)
          (update_all n many size name file_size file_id js) run in
      let net1 : NetIndex = with_entries net p node mid in
      let (net', later, found', at') =
        save_all_known js fs net1 p q (record node { fragments = mid }) entries
          (find_file-set_entries net p file_id node mid at ∙ found) known
          (get_elem?-set_self net.heap p (record node { fragments = mid })
            (get_elem?-lt net.heap p at))
          rest in
      (
        net',
        >>=-some _
            (save_at fs fs net net r p node mid (known_node net r p found)
              (known_container fs r q known) at first)
            later,
        found',
        at',
      )

  -- At a valid file server with room and a well-formed network index, neither of which has the id
  -- (below 2^16) of a file of n fragments (3 <= n), the reports of that file from the nodes j and
  -- then js, each of the fragments j - 1 and j round the ring that place_fragments gives it, are
  -- saved without a fault by xprocedure_save_file_to_index: the file is then found in both
  -- indexes, and of the entries of its node those of the nodes that reported are as
  -- place_fragments makes them, and every other one is blank.
  pub index_rebuilt :
      (j : ℕ) (js : List ℕ) (p : ℕ) (fs : FileServer) (net : NetIndex) (ps : List ℕ)
      → AllNodes n many size name file_size file_id (j ∷ js)
      → p < 2 * n
      → Table.IsValid fs
      → fs.file_count < max_files
      → IsList net ps
      → file_id < 2 ^ 16
      → first_with net.heap file_id ps ≡ none
      → FileServer.find_file fs file_id ≡ none
      → (fs' : FileServer) × (net' : NetIndex) × (node : FileInNetwork) × (save_all fs net
            (map (report_of n many size name file_size file_id) (j ∷ js))
          ≡ some (fs', net'))
        × (FileServer.find_file fs' file_id ≡ some fs.file_count)
        × (NetIndex.find_file net' file_id ≡ some (some (length net.heap)))
        × (get_elem? net'.heap (length net.heap) ≡ some node)
        × (node.file_id ≡ file_id)
        × (node.total_fragments ≡ n * redundancy)
        × (get_elem? node.fragments p
            ≡ some (
                if reported n many size name file_size file_id
                  (holder n many size name file_size file_id p)
                  (j ∷ js)
                then original n many size name file_size file_id p
                else no_pointer))
  unfolding save_all
  index_rebuilt j js p fs net ps all lt valid room shape small absent unknown =
      let r : Report = report_of n many size name file_size file_id j in
      let cut : file_id % 2 ^ 16 ≡ file_id = omega arith in
      let (fs', added, valid', grown) =
        Table.add_file-contents fs name file_id file_size n valid room in
      let (net1, inserted, after) = insert-Appended net ps file_id (n * redundancy) shape in
      let missing : NetIndex.find_file net file_id ≡ some none =
        find_file-first_with net ps file_id shape ∙ rw (cut, absent) refl in
      let found : NetIndex.find_file net1 file_id ≡ some (some (length net.heap)) =
        after.finds file_id ∙ rw (cut, absent, ==_refl file_id) refl in
      let known : FileServer.find_file fs' file_id ≡ some fs.file_count =
        Table.find_file-add_file fs fs' name file_id file_size n fs.file_count valid added file_id
        ∙ rw (cut, unknown, ==_refl file_id) refl in
      let (entries, run, len, entry) =
        rebuilds n many size name file_size file_id (j ∷ js) p all lt in
      let (mid, first, rest) =
        >>=-eq-some (update_entries r (replicate (n * redundancy) no_pointer))
          (update_all n many size name file_size file_id js) run in
      let node : FileInNetwork = blank_node file_id (n * redundancy) in
      let net2 : NetIndex = with_entries net1 (length net.heap) node mid in
      let (net', later, found', at') =
        save_all_known js fs' net2 (length net.heap) fs.file_count (record node { fragments = mid })
          entries
          (find_file-set_entries net1 (length net.heap) file_id node mid after.holds ∙ found) known
          (get_elem?-set_self net1.heap (length net.heap) (record node { fragments = mid })
            (get_elem?-lt net1.heap (length net.heap) after.holds))
          rest in
      (
        fs',
        net',
        record node { fragments = entries },
        >>=-some _
            (save_at fs fs' net net1 r (length net.heap) node mid
              (new_node net net1 r missing inserted)
              (new_container_lem fs fs' r fs.file_count unknown added) after.holds first)
            later,
        known,
        found',
        at',
        cut,
        refl,
        entry,
      )
