-- ===== src/NewFile/Replicas.antt =====
-- The two nodes of a fragment: the first two live ones from the starting node on, round the ring.
use distributed_storage_syst.Prelude.{
  ℕ, zero, suc, ◌+◌, ◌-◌, ◌*◌, ◌%◌, ◌^◌, ◌<◌, ◌≤◌, ◌≡◌, ◌≢◌, ◌∙◌, ap, refl, Bool, true, false, List,
  some, arith, ◌==◌, if◌then◌else◌, inl, inr, set, length, length-set, store?_of_lt,
  get_elem?_of_lt, dec_lt, not, Bool-cases,
}
use native.Mathlib.Nat.{mod-lt, mod-add-mod, add-mod-mod, mod-eq_of_lt, mod-eq-sub-mod}
use distributed_storage_syst.Server.{Server, IndexData, is_valid_node}
use distributed_storage_syst.NetIndex.{FragmentPointer}
use distributed_storage_syst.NewFile.{redundancy, candidate, choose_nodes}

-- The index has the address table of the `m` nodes that the network started with.
pub record HasTable (sv : Server) (d : IndexData) (m : ℕ) : Type 0 where
  pub present : sv.index_data ≡ some d
  pub original : (sv.net_size + sv.death_count) % 2 ^ 64 ≡ m
  pub some_node : 0 < m
  pub addresses : length d.peer_ips ≡ m

-- The node with this id is the index itself, or its address has a port.
abbrev pub IsLive : Server → ℕ → Type 0
IsLive sv n = is_valid_node sv n ≡ some true

abbrev pub entry : ℕ → ℕ → ℕ → FragmentPointer
entry i size nid = record { fragment = (i + 1) % 2 ^ 16; size = size; node_id = nid }

-- Every node is reached, and less than `m` tries apart no node comes twice.
abbrev pub ring_node : ℕ → ℕ → ℕ → ℕ
ring_node m node t = (node + t) % m + 1

pub ring_reaches : (m node n : ℕ) → 0 < n → n ≤ m → (t : ℕ) × (t < m) × (ring_node m node t ≡ n)
ring_reaches m node n pos h =
    let back : ℕ = m - node % m + (n - 1) in
    (
      back % m,
      omega (arith, mod-lt back {m = m} (omega arith)),
      rw (add-mod-mod, ← mod-add-mod) (round (node % m) (mod-lt node (omega arith))),
    )
  where
    round : (r : ℕ) → r < m → (r + (m - r + (n - 1))) % m + 1 ≡ n
    round r lt =
        let e : r + (m - r + (n - 1)) ≡ m + (n - 1) = omega arith in
        rw e (
          omega (
            arith,
            mod-eq-sub-mod {n = m + (n - 1)} {m = m} (omega arith),
            mod-eq_of_lt {n = m + (n - 1) - m} {m = m} (omega arith),
          ))

pub ring-ne : (m node t k : ℕ) → 0 < k → k < m → ring_node m node t ≢ ring_node m node (t + k)
ring-ne m node t k pos h e =
    go ((node + t) % m) (mod-lt (node + t) (omega arith))
      (omega (arith, e, ap (λ (x : ℕ). x % m) assoc, mod-add-mod (node + t) m k))
  where
    assoc : node + (t + k) ≡ node + t + k
    assoc = omega arith

    go : (r : ℕ) → r < m → r ≡ (r + k) % m → ⊥
    go r lt same = elim (dec_lt (r + k) m) [
      | yes p ↦ omega (arith, mod-eq_of_lt p)
      | no p ↦ omega (
        arith,
        mod-eq-sub-mod {n = r + k} {m = m} (omega arith),
        mod-eq_of_lt {n = r + k - m} {m = m} (omega arith),
      )
    ]

module _ (sv : Server) (d : IndexData) (m : ℕ) (table : HasTable sv d m) where
  -- `server_is_valid_node` stays inside the table.
  pub is_valid_node_total : (n : ℕ) → n ≤ m → (b : Bool) × (is_valid_node sv n ≡ some b)
  unfolding is_valid_node
  is_valid_node_total zero h = (false, refl)
  is_valid_node_total (suc n) h =
      let (a, at) = get_elem?_of_lt d.peer_ips n (let l = table.addresses in omega arith) in
      (
        (if suc n == sv.me.node_id then true else not (a.port == 0)),
        ground (arith, table.present, at),
      )

  module _ (node i size : ℕ) where
    abbrev nid : ℕ → ℕ
    nid t = (node + t) % m + 1

    candidate_lem : (t : ℕ) → candidate sv node t ≡ some (nid t)
    unfolding candidate
    candidate_lem t = ground (arith, table.original, table.some_node)

    nid-le : (t : ℕ) → nid t ≤ m
    nid-le t = omega (arith, mod-lt (node + t) table.some_node)

    -- One round at a live node, and at a dead one.
    choose_live :
        (left t j : ℕ) (frags : List FragmentPointer)
        → IsLive sv (nid t)
        → j < redundancy
        → i * redundancy + j < length frags
        → choose_nodes (suc left) sv node i size t j frags
          ≡ choose_nodes left sv node i size
              (t + 1)
              (j + 1)
              (set frags (i * redundancy + j) (entry i size (nid t)))
    unfolding choose_nodes
    choose_live left t j frags live more room = ground (
      arith,
      candidate_lem t,
      store?_of_lt frags (i * redundancy + j) (entry i size (nid t)) room,
    )

    choose_dead :
        (left t j : ℕ) (frags : List FragmentPointer)
        → is_valid_node sv (nid t) ≡ some false
        → j < redundancy
        → choose_nodes (suc left) sv node i size t j frags
          ≡ choose_nodes left sv node i size (t + 1) j frags
    unfolding choose_nodes
    choose_dead left t j frags dead more = ground (arith, candidate_lem t)

    choose_done :
        (left t : ℕ) (frags : List FragmentPointer)
        → choose_nodes left sv node i size t 2 frags ≡ some frags
    unfolding choose_nodes
    choose_done zero t frags = refl
    choose_done (suc left) t frags = refl

    -- The loop goes on from the try `t` and enters the live node of some try up to `t'`.
    abbrev Enters : ℕ → ℕ → ℕ → ℕ → List FragmentPointer → Type 0
    Enters left t j t' frags =
        (t1 left1 : ℕ) × (t ≤ t1)
        × (t1 ≤ t')
        × (left1 + (t1 + 1) ≡ left + t)
        × IsLive sv (nid t1)
        × (choose_nodes left sv node i size t j frags
            ≡ choose_nodes left1 sv node i size (t1 + 1) (j + 1)
                (set frags (i * redundancy + j) (entry i size (nid t1))))

    Enters-later :
        (left t j t' : ℕ) (frags : List FragmentPointer)
        → choose_nodes (suc left) sv node i size t j frags
          ≡ choose_nodes left sv node i size (t + 1) j frags
        → Enters left (t + 1) j t' frags
        → Enters (suc left) t j t' frags
    Enters-later left t j t' frags e (t1, left1, le, le', count, live, run) =
        (t1, left1, omega arith, le', omega arith, live, e ∙ run)

    choose_next :
        (left t j t' : ℕ) (frags : List FragmentPointer)
        → t ≤ t'
        → t' < t + left
        → IsLive sv (nid t')
        → j < redundancy
        → i * redundancy + j < length frags
        → Enters left t j t' frags
    choose_next zero t j t' frags le lt live more room = absurd (omega arith)
    choose_next (suc left) t j t' frags le lt live more room =
        let (b, e) = is_valid_node_total (nid t) (nid-le t) in
        elim (Bool-cases b) [
          | inl here ↦
              let now : IsLive sv (nid t) = e ∙ ap some here in
              (t, left, omega arith, le, omega arith, now, choose_live left t j frags now more room)
          | inr dead ↦
              let gone : is_valid_node sv (nid t) ≡ some false = e ∙ ap some dead in
              let apart : t ≢ t' =
                λ same. let also : is_valid_node sv (nid t) ≡ some true = rw same live in cc in
              Enters-later left t j t' frags (choose_dead left t j frags gone more)
                (choose_next left (t + 1) j t' frags (omega arith) (omega arith) live more room)
        ]

    -- Two entries are made where two of the tries go to live nodes, for two tries in order.
    pub choose_two :
        (left ta tb : ℕ) (frags : List FragmentPointer)
        → ta < tb
        → tb < left
        → IsLive sv (nid ta)
        → IsLive sv (nid tb)
        → i * redundancy + 1 < length frags
        → (t1 t2 : ℕ) × (t1 < t2)
          × (t2 ≤ tb)
          × IsLive sv (nid t1)
          × IsLive sv (nid t2)
          × (choose_nodes left sv node i size 0 0 frags
              ≡ some (
                  set
                    (set frags (i * redundancy + 0) (entry i size (nid t1)))
                    (i * redundancy + 1)
                    (entry i size (nid t2))))
    choose_two left ta tb frags lt in_time live_a live_b room =
        let (t1, left1, le, le', count, live1, run1) =
          choose_next left 0 0 ta frags (omega arith) (omega arith) live_a (omega arith)
            (omega arith) in
        let frags1 : List FragmentPointer =
          set frags (i * redundancy + 0) (entry i size (nid t1)) in
        let (t2, left2, after, le'', count', live2, run2) =
          choose_next left1 (t1 + 1) 1 tb frags1 (omega arith) (omega arith) live_b (omega arith)
            (omega (arith, length-set frags (i * redundancy + 0) (entry i size (nid t1)))) in
        (
          t1,
          t2,
          omega arith,
          le'',
          live1,
          live2,
          run1
              ∙ run2
              ∙ choose_done left2 (t2 + 1)
                  (set frags1 (i * redundancy + 1) (entry i size (nid t2))),
        )
