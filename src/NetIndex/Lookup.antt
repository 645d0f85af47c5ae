-- ===== src/NetIndex/Lookup.antt =====
-- `xfilenetindex_find_file` against the list of pointers that the links lead through.
use distributed_storage_syst.Prelude.{
  ℕ, zero, suc, ◌+◌, ◌%◌, ◌^◌, ◌<◌, ◌≤◌, ◌≡◌, ◌∙◌, refl, List, [], ◌∷◌, ◌++◌, Option, none, some,
  arith, ◌==◌, if◌then◌else◌, get_elem?, length, length-append, get_elem?-set_self,
  get_elem?-set_ne, get_elem?-append_left, ap, ℕ_discrete,
}
use distributed_storage_syst.NetIndex.{
  NetIndex, FileInNetwork, FragmentPointer, blank_node, add_file, insert, find_walk, find_file,
}
use distributed_storage_syst.NetIndex.Chain.{
  Chain, IsList, length-Chain-le, insert-IsList, add_file-IsList, InsertedHeap, get_elem?-new,
  lt_of_get_elem?, last,
}

-- The id of the node at a pointer, 0 behind the heap.
abbrev pub id_at : List FileInNetwork → ℕ → ℕ
id_at heap p = elim (get_elem? heap p) [ none ↦ 0 | some node ↦ node.file_id ]

abbrev pub or_else : Option ℕ → Option ℕ → Option ℕ
or_else none b = b
or_else (some a) b = some a

-- The first pointer of the list at which the id stands.
abbrev pub first_with : List FileInNetwork → ℕ → List ℕ → Option ℕ
first_with heap id [] = none
first_with heap id (p ∷ ps) = if id_at heap p == id then some p else first_with heap id ps

find_walk-first_with :
    (fuel : ℕ) (heap : List FileInNetwork) (lo id : ℕ) (start : Option ℕ) (ps : List ℕ)
    → Chain heap lo start ps
    → length ps ≤ fuel
    → find_walk fuel heap start id ≡ some (first_with heap id ps)
unfolding find_walk
find_walk-first_with zero heap lo id start [] c h = rw c refl
find_walk-first_with (suc fuel) heap lo id start [] c h = rw c refl
find_walk-first_with zero heap lo id start (p ∷ ps) c h = absurd (omega arith)
find_walk-first_with (suc fuel) heap lo id start (p ∷ ps) (node, e, le, at, c) h =
    ground (arith, find_walk-first_with fuel heap (suc p) id node.next ps c)

-- On a well-formed network index the search ends, follows no dangling pointer, and returns the
-- first node with the id, cut to 16 bits, or null where there is none.
pub find_file-first_with :
    (net : NetIndex) (ps : List ℕ) (id : ℕ)
    → IsList net ps
    → find_file net id ≡ some (first_with net.heap (id % 2 ^ 16) ps)
unfolding find_file
find_file-first_with net ps id v =
    find_walk-first_with (length net.heap) net.heap 0 (id % 2 ^ 16) net.files ps v.chain
      (omega (arith, length-Chain-le net.heap 0 net.files ps (omega arith) v.chain))

-- All of a node but its link.
abbrev pub payload : FileInNetwork → ℕ × ℕ × List FragmentPointer
payload node = (node.file_id, node.total_fragments, node.fragments)

-- What a lookup of the node at a pointer gives.
abbrev pub payload_at : List FileInNetwork → ℕ → Option (ℕ × ℕ × List FragmentPointer)
payload_at heap p = elim (get_elem? heap p) [ none ↦ none | some node ↦ some (payload node) ]

inserted-old :
    (net : NetIndex) (ps : List ℕ) (new : FileInNetwork) (heap' : List FileInNetwork) (p : ℕ)
    → InsertedHeap net ps new heap'
    → p < length net.heap
    → payload_at heap' p ≡ payload_at net.heap p
inserted-old net [] new heap' p e lt =
    rw e (rw (get_elem?-append_left net.heap (new ∷ []) p lt, payload_at) refl)
inserted-old net (q ∷ qs) new heap' p (end, found, e) lt =
    let grown : List FileInNetwork = net.heap ++ (new ∷ []) in
    let linked : FileInNetwork = record end { next = some (length net.heap) } in
    let long : length grown ≡ length net.heap + 1 = length-append net.heap (new ∷ []) in
    rw e (elim (ℕ_discrete (last q qs) p) [
      | yes same ↦
          rw (← same)
            (rw (get_elem?-set_self grown (last q qs) linked (omega arith), found, payload_at) refl)
      | no other ↦
          rw (get_elem?-set_ne grown (last q qs) p linked other, payload_at)
            (rw (get_elem?-append_left net.heap (new ∷ []) p lt, payload_at) refl)
    ])

inserted-new :
    (net : NetIndex) (ps : List ℕ) (new : FileInNetwork) (heap' : List FileInNetwork)
    → IsList net ps
    → InsertedHeap net ps new heap'
    → get_elem? heap' (length net.heap) ≡ some new
inserted-new net [] new heap' v e = rw e (get_elem?-new net.heap new)
inserted-new net (q ∷ qs) new heap' v (end, found, e) =
    let linked : FileInNetwork = record end { next = some (length net.heap) } in
    rw e (
      get_elem?-set_ne (net.heap ++ (new ∷ [])) (last q qs) (length net.heap) linked
        (let lt = lt_of_get_elem? net.heap (last q qs) found in omega arith)
      ∙ get_elem?-new net.heap new)

id_at-payload_at :
    (heap heap' : List FileInNetwork) (p : ℕ)
    → payload_at heap' p ≡ payload_at heap p
    → id_at heap' p ≡ id_at heap p
id_at-payload_at heap heap' p e = ground arith

first_with-append :
    (heap heap' : List FileInNetwork) (id lo : ℕ) (start : Option ℕ) (ps : List ℕ) (q : ℕ)
    → Chain heap lo start ps
    → ((p : ℕ) → p < length heap → payload_at heap' p ≡ payload_at heap p)
    → first_with heap' id (ps ++ (q ∷ []))
      ≡ or_else (first_with heap id ps) (if id_at heap' q == id then some q else none)
first_with-append heap heap' id lo start [] q c keep = refl
first_with-append heap heap' id lo start (p ∷ ps) q (node, e, le, at, c) keep =
    let same : id_at heap' p ≡ id_at heap p =
      id_at-payload_at heap heap' p (keep p (lt_of_get_elem? heap p at)) in
    rw same (ground (arith, first_with-append heap heap' id (suc p) node.next ps q c keep))

-- What an appended node changes: a search finds what it found before, and otherwise the new node
-- where its id is the one that is sought; the older nodes hold what they held.
pub record Appended (net : NetIndex) (ps : List ℕ) (new : FileInNetwork) (net' : NetIndex)
    : Type 0 where
  pub shape : IsList net' (ps ++ (length net.heap ∷ []))
  pub finds :
      (j : ℕ)
      → find_file net' j
        ≡ some (
            or_else
              (first_with net.heap (j % 2 ^ 16) ps)
              (if new.file_id == j % 2 ^ 16 then some (length net.heap) else none))
  pub holds : get_elem? net'.heap (length net.heap) ≡ some new
  pub keeps : (p : ℕ) → p < length net.heap → payload_at net'.heap p ≡ payload_at net.heap p

inserted-Appended :
    (net net' : NetIndex) (ps : List ℕ) (new : FileInNetwork)
    → IsList net ps
    → IsList net' (ps ++ (length net.heap ∷ []))
    → InsertedHeap net ps new net'.heap
    → Appended net ps new net'
inserted-Appended net net' ps new v v' shape =
    let stands = inserted-new net ps new net'.heap v shape in
    let keep : (p : ℕ) → p < length net.heap → payload_at net'.heap p ≡ payload_at net.heap p =
      λ p lt. inserted-old net ps new net'.heap p shape lt in
    record {
      shape = v';
      finds = λ j.
          find_file-first_with net' (ps ++ (length net.heap ∷ [])) j v'
          ∙ ap some (
              first_with-append net.heap net'.heap (j % 2 ^ 16) 0 net.files ps (length net.heap)
                v.chain keep
              ∙ rw (stands, id_at) refl);
      holds = stands;
      keeps = keep;
    }

-- Appending the node that was allocated last, with whatever entries it has by then.
pub add_file-Appended :
    (net : NetIndex) (ps : List ℕ) (new : FileInNetwork)
    → IsList net ps
    → new.next ≡ none
    → (net' : NetIndex) × (add_file
          (record net { heap = net.heap ++ (new ∷ []) })
          (some (length net.heap))
        ≡ some net')
      × Appended net ps new net'
add_file-Appended net ps new v fresh =
    let (net', ran, v', shape) = add_file-IsList net ps new v fresh in
    (net', ran, inserted-Appended net net' ps new v v' shape)

-- Inserting a file into a well-formed network index succeeds and keeps it well-formed; the file is
-- found under its id, cut to 16 bits, unless an older one has that id, with the given number of
-- empty entries; every other search and every older node is as before.
pub insert-Appended :
    (net : NetIndex) (ps : List ℕ) (file_id count : ℕ)
    → IsList net ps
    → (net' : NetIndex) × (insert net file_id count ≡ some net')
      × Appended net ps (blank_node file_id count) net'
insert-Appended net ps file_id count v =
    let (net', ran, v', shape) = insert-IsList net ps file_id count v in
    (net', ran, inserted-Appended net net' ps (blank_node file_id count) v v' shape)
