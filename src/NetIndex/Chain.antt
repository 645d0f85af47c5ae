-- ===== src/NetIndex/Chain.antt =====
-- The shape of the linked list, and that appending keeps it.
use distributed_storage_syst.Prelude.{
  true, ℕ, zero, suc, ◌+◌, ◌%◌, ◌^◌, ◌<◌, ◌≤◌, ◌≡◌, ◌∙◌, ap, refl, List, [], ◌∷◌, ◌++◌, Option,
  none, some, arith, get_elem?, set, length, length-append, store?_of_lt, get_elem?-set_self,
  get_elem?-set_ne, get_elem?-append_left, get_elem?-append_right,
}
use distributed_storage_syst.NetIndex.{
  NetIndex, FileInNetwork, init, blank_node, new_file, add_file, link, insert,
}

-- The pointers from `start` on are `ps`. They rise along the list, since a node is appended as soon
-- as it is allocated, and are at least `lo`.
abbrev pub Chain : List FileInNetwork → ℕ → Option ℕ → List ℕ → Type 0
Chain heap lo start [] = start ≡ none
Chain heap lo start (p ∷ ps) =
    (node : FileInNetwork) × (start ≡ some p)
    × (lo ≤ p)
    × (get_elem? heap p ≡ some node)
    × Chain heap (suc p) node.next ps

abbrev pub last : ℕ → List ℕ → ℕ
last p [] = p
last p (q ∷ qs) = last q qs

abbrev pub EndsAt : Option ℕ → List ℕ → Type 0
EndsAt tail [] = Unit {0}
EndsAt tail (p ∷ ps) = tail ≡ some (last p ps)

-- `files` and the links lead through `ps`, `TAIL` is the last of them, and `file_count` counts them
-- modulo 2 ^ 16.
pub record IsList (net : NetIndex) (ps : List ℕ) : Type 0 where
  pub chain : Chain net.heap 0 net.files ps
  pub ends : EndsAt net.tail ps
  pub counted : net.file_count ≡ length ps % 2 ^ 16

pub lt_of_get_elem? {ℓ} :
    {A : Type ℓ} (xs : List A) (i : ℕ) {a : A} → get_elem? xs i ≡ some a → i < length xs
lt_of_get_elem? [] i e = cc
lt_of_get_elem? (x ∷ xs) zero e = omega arith
lt_of_get_elem? (x ∷ xs) (suc i) e = omega (arith, lt_of_get_elem? xs i e)

-- A chain is no longer than the heap from its bound on.
pub length-Chain-le :
    (heap : List FileInNetwork) (lo : ℕ) (start : Option ℕ) (ps : List ℕ)
    → lo ≤ length heap
    → Chain heap lo start ps
    → lo + length ps ≤ length heap
length-Chain-le heap lo start [] h c = omega arith
length-Chain-le heap lo start (p ∷ ps) h (node, e, le, at, c) = omega (
  arith,
  lt_of_get_elem? heap p at,
  length-Chain-le heap (suc p) node.next ps (lt_of_get_elem? heap p at) c,
)

last-bounds :
    (heap : List FileInNetwork) (lo p : ℕ) (start : Option ℕ) (ps : List ℕ)
    → Chain heap lo start (p ∷ ps)
    → (lo ≤ last p ps) × (last p ps < length heap)
last-bounds heap lo p start [] (node, e, le, at, c) = (le, lt_of_get_elem? heap p at)
last-bounds heap lo p start (q ∷ qs) (node, e, le, at, c) =
    let below = last-bounds heap (suc p) q node.next qs c in (omega arith, below.1)

-- The node at the end of the list.
last-node :
    (heap : List FileInNetwork) (lo p : ℕ) (start : Option ℕ) (ps : List ℕ)
    → Chain heap lo start (p ∷ ps)
    → (node : FileInNetwork) × (get_elem? heap (last p ps) ≡ some node) × (node.next ≡ none)
last-node heap lo p start [] (node, e, le, at, c) = (node, at, c)
last-node heap lo p start (q ∷ qs) (node, e, le, at, c) = last-node heap (suc p) q node.next qs c

pub get_elem?-new {ℓ} :
    {A : Type ℓ} (heap : List A) (new : A) → get_elem? (heap ++ (new ∷ [])) (length heap) ≡ some new
get_elem?-new heap new =
    let e : length heap ≡ length heap + 0 = omega arith in
    ap (get_elem? (heap ++ (new ∷ []))) e ∙ get_elem?-append_right heap (new ∷ []) 0

module _ (heap : List FileInNetwork) (new : FileInNetwork) (fresh : new.next ≡ none) where
  abbrev grown : List FileInNetwork
  grown = heap ++ (new ∷ [])

  get_elem?-grown :
      (p : ℕ) {node : FileInNetwork} → get_elem? heap p ≡ some node → get_elem? grown p ≡ some node
  get_elem?-grown p at = get_elem?-append_left heap (new ∷ []) p (lt_of_get_elem? heap p at) ∙ at

  -- Linking the last node to the new one lengthens the chain by it.
  Chain-link :
      (lo p : ℕ) (start : Option ℕ) (ps : List ℕ) (end : FileInNetwork)
      → Chain heap lo start (p ∷ ps)
      → get_elem? heap (last p ps) ≡ some end
      → Chain
          (set grown (last p ps) (record end { next = some (length heap) }))
          lo
          start
          ((p ∷ ps) ++ (length heap ∷ []))
  Chain-link lo p start [] end (node, e, le, at, c) found =
      let lt : p < length heap = lt_of_get_elem? heap p at in
      let linked : FileInNetwork = record end { next = some (length heap) } in
      (
        linked,
        e,
        le,
        get_elem?-set_self grown p linked (omega (arith, length-append heap (new ∷ []))),
        (
          new,
          refl,
          lt,
          get_elem?-set_ne grown p (length heap) linked (omega arith) ∙ get_elem?-new heap new,
          fresh,
        ),
      )
  Chain-link lo p start (q ∷ qs) end (node, e, le, at, c) found =
      let linked : FileInNetwork = record end { next = some (length heap) } in
      let later = last-bounds heap (suc p) q node.next qs c in
      (
        node,
        e,
        le,
        get_elem?-set_ne grown (last q qs) p linked (omega arith) ∙ get_elem?-grown p at,
        Chain-link (suc p) q node.next qs end c found,
      )

last-append : (p : ℕ) (ps : List ℕ) (q : ℕ) → last p (ps ++ (q ∷ [])) ≡ q
last-append p [] q = refl
last-append p (x ∷ xs) q = last-append x xs q

-- `xfilenetindex_init` gives the empty list.
pub init-IsList : IsList init []
unfolding init
init-IsList = record { chain = refl; ends = tt; counted = refl }

-- The heap after an insertion: the node is allocated at its end, and the last node of the list, if
-- there is one, leads to it.
abbrev pub InsertedHeap : NetIndex → List ℕ → FileInNetwork → List FileInNetwork → Type 0
InsertedHeap net [] new heap' = heap' ≡ net.heap ++ (new ∷ [])
InsertedHeap net (p ∷ ps) new heap' =
    (end : FileInNetwork) × (get_elem? net.heap (last p ps) ≡ some end)
    × (heap'
        ≡ set (net.heap ++ (new ∷ [])) (last p ps) (record end { next = some (length net.heap) }))

-- A node that is allocated stands at the end of the heap.
pub new_file_lem :
    (net : NetIndex) (id count : ℕ)
    → new_file true true net id count
      ≡ (some (length net.heap), record net { heap = net.heap ++ (blank_node id count ∷ []) })
unfolding new_file
new_file_lem net id count = ground arith

-- Appending the node that was allocated last keeps the shape and puts it at the end of the list.
pub add_file-IsList :
    (net : NetIndex) (ps : List ℕ) (new : FileInNetwork)
    → IsList net ps
    → new.next ≡ none
    → (net' : NetIndex) × (add_file
          (record net { heap = net.heap ++ (new ∷ []) })
          (some (length net.heap))
        ≡ some net')
      × IsList net' (ps ++ (length net.heap ∷ []))
      × InsertedHeap net ps new net'.heap
unfolding add_file link
add_file-IsList net [] new v fresh =
    let heap' : List FileInNetwork = net.heap ++ (new ∷ []) in
    (
      record {
        file_count = (net.file_count + 1) % 2 ^ 16;
        files = some (length net.heap);
        tail = some (length net.heap);
        heap = heap';
      },
      rw (v.chain) (ground arith),
      record {
        chain = (new, refl, omega arith, get_elem?-new net.heap new, fresh);
        ends = refl;
        counted = omega arith;
      },
      refl,
    )
add_file-IsList net (p ∷ ps) new v fresh =
    let (end, found, final) = last-node net.heap 0 p net.files ps v.chain in
    let (first, starts, low, at, rest) = v.chain in
    let grown' : List FileInNetwork = net.heap ++ (new ∷ []) in
    let linked : FileInNetwork = record end { next = some (length net.heap) } in
    let e = last p ps in
    let reached : get_elem? grown' e ≡ some end = get_elem?-grown net.heap new fresh e found in
    (
      record {
        file_count = (net.file_count + 1) % 2 ^ 16;
        files = net.files;
        tail = some (length net.heap);
        heap = set grown' e linked;
      },
      ground (
        arith,
        starts,
        v.ends,
        reached,
        store?_of_lt grown' e linked (lt_of_get_elem? grown' e reached),
      ),
      record {
        chain = Chain-link net.heap new fresh 0 p net.files ps end v.chain found;
        ends = rw (last-append p ps (length net.heap)) refl;
        counted = omega (arith, v.counted, length-append {0} {A = ℕ} ps (length net.heap ∷ []));
      },
      (end, found, refl),
    )

-- Inserting into a well-formed network index succeeds, its list of nodes grows by the new one at
-- the end, and of the other nodes only the link of the last changes.
pub insert-IsList :
    (net : NetIndex) (ps : List ℕ) (file_id count : ℕ)
    → IsList net ps
    → (net' : NetIndex) × (insert net file_id count ≡ some net')
      × IsList net' (ps ++ (length net.heap ∷ []))
      × InsertedHeap net ps (blank_node file_id count) net'.heap
unfolding insert new_file
insert-IsList net ps file_id count v =
    let done = add_file-IsList net ps (blank_node file_id count) v refl in
    (done.0, ground (arith, done.1), done.2, done.3)
