-- ===== src/NewFile/Placement.antt =====
-- Every fragment of a new file is entered twice, at two live nodes.
use distributed_storage_syst.Prelude.{
  ℕ, zero, suc, ◌+◌, ◌-◌, ◌*◌, ◌^◌, ◌<◌, ◌≤◌, ◌≡◌, ◌≢◌, ◌∙◌, ap, sym, refl, List, some, arith, ◌==◌,
  inl, inr, get_elem?, set, length, length-set, get_elem?_of_lt, dec_lt, ℕ_discrete, Bool-cases,
  leb, get_elem?-set_self, get_elem?-set_ne, to_int, to_int_lem, subst,
}
use native.Mathlib.Nat.{add-zero}
use distributed_storage_syst.Server.{Server, IndexData}
use distributed_storage_syst.NetIndex.{FragmentPointer}
use distributed_storage_syst.NewFile.{
  redundancy, fragment_size, skip_dead, choose_nodes, place_fragments,
}
use distributed_storage_syst.NewFile.Sizes.{fragment_size-le}
use distributed_storage_syst.NewFile.Replicas.{
  HasTable, IsLive, entry, ring_node, ring_reaches, ring-ne, choose_two,
}

-- The first loop ends, and reads addresses of the table alone.
skip_dead_total :
    (fuel : ℕ) (d : IndexData) (i offset : ℕ)
    → d.known_peers ≤ length d.peer_ips
    → d.known_peers < i + offset + fuel
    → 0 < fuel
    → (offset' : ℕ) × (skip_dead fuel d i offset ≡ some offset')
unfolding skip_dead
skip_dead_total zero d i offset known h pos = absurd (omega arith)
skip_dead_total (suc fuel) d i offset known h pos =
    elim (Bool-cases (leb d.known_peers (i + offset))) [
      | inl over ↦ (offset, rw over refl)
      | inr inside ↦
          let (a, at) = get_elem?_of_lt d.peer_ips (i + offset) (ground arith) in
          let (later, found) =
            skip_dead_total fuel d i (offset + 1) known (omega arith) (ground arith) in
          elim (Bool-cases (a.port == 0)) [
            | inl dead ↦ (later, rw (inside, at, dead) found)
            | inr live ↦ (offset, rw (inside, at, live) refl)
          ]
    ]

-- The two entries of fragment `k`, both live and not the same node.
abbrev pub TwoReplicas : Server → ℕ → ℕ → List FragmentPointer → Type 0
TwoReplicas sv k size frags =
    (n1 n2 : ℕ) × (n1 ≢ n2)
    × IsLive sv n1
    × IsLive sv n2
    × (get_elem? frags (k * redundancy) ≡ some (entry k size n1))
    × (get_elem? frags (k * redundancy + 1) ≡ some (entry k size n2))

module _ (sv : Server) (d : IndexData) (m : ℕ) (table : HasTable sv d m)
    (reported : d.known_peers + 1 ≡ m) (a b : ℕ) (a_in : 0 < a) (a_le : a ≤ m) (b_in : 0 < b)
    (b_le : b ≤ m) (apart : a ≢ b) (a_live : IsLive sv a) (b_live : IsLive sv b) where
  -- One fragment: two entries are written, and no other.
  abbrev Entered : ℕ → ℕ → ℕ → List FragmentPointer → Type 0
  Entered node i size frags =
      (n1 n2 : ℕ) × (n1 ≢ n2)
      × IsLive sv n1
      × IsLive sv n2
      × (choose_nodes (d.known_peers + 1) sv node i size 0 0 frags
          ≡ some (
              set (set frags (i * redundancy) (entry i size n1)) (i * redundancy + 1)
                (entry i size n2)))

  choose_in_order :
      (node i size ta tb : ℕ) (frags : List FragmentPointer)
      → ta < tb
      → tb < m
      → IsLive sv (ring_node m node ta)
      → IsLive sv (ring_node m node tb)
      → i * redundancy + 1 < length frags
      → Entered node i size frags
  choose_in_order node i size ta tb frags lt in_time live_a live_b room =
      let (t1, t2, order, bound, live1, live2, run) =
        choose_two sv d m table node i size (d.known_peers + 1) ta tb frags lt (omega arith) live_a
          live_b room in
      let later : t2 ≡ t1 + (t2 - t1) = omega arith in
      (
        ring_node m node t1,
        ring_node m node t2,
        rw later (ring-ne m node t1 (t2 - t1) (omega arith) (omega arith)),
        live1,
        live2,
        rw (add-zero (i * redundancy)) at run,
      )

  choose_fragment :
      (node i size : ℕ) (frags : List FragmentPointer)
      → i * redundancy + 1 < length frags
      → Entered node i size frags
  choose_fragment node i size frags room =
      let (ta, ta_lt, ta_at) = ring_reaches m node a a_in a_le in
      let (tb, tb_lt, tb_at) = ring_reaches m node b b_in b_le in
      let live_a : IsLive sv (ring_node m node ta) = rw ta_at a_live in
      let live_b : IsLive sv (ring_node m node tb) = rw tb_at b_live in
      elim (dec_lt ta tb) [
        | yes lt ↦ choose_in_order node i size ta tb frags lt tb_lt live_a live_b room
        | no ge ↦
            let ne : ta ≢ tb = λ e. apart (sym ta_at ∙ ap (ring_node m node) e ∙ tb_at) in
            choose_in_order node i size tb ta frags (omega arith) ta_lt live_b live_a room
      ]

  -- What the loop from fragment `i` on leaves.
  abbrev pub Filled : ℕ → ℕ → ℕ → List FragmentPointer → List FragmentPointer → Type 0
  Filled sz count i frags frags' =
      (length frags' ≡ count * redundancy)
      × ((k : ℕ) → i ≤ k → k < count → TwoReplicas sv k (fragment_size sz count k) frags')
      × ((p : ℕ) → p < i * redundancy → get_elem? frags' p ≡ get_elem? frags p)

  module _ (sz count : ℕ) (fits : sz < 2 ^ 31) where
    Filled-step :
        (i n1 n2 : ℕ) (frags frags' : List FragmentPointer)
        → i < count
        → length frags ≡ count * redundancy
        → n1 ≢ n2
        → IsLive sv n1
        → IsLive sv n2
        → Filled sz count
            (i + 1)
            (set
              (set frags (i * redundancy) (entry i (fragment_size sz count i) n1))
              (i * redundancy + 1)
              (entry i (fragment_size sz count i) n2))
            frags'
        → Filled sz count i frags frags'
    Filled-step i n1 n2 frags frags' lt len ne live1 live2 (len', rest, before) =
        let size : ℕ = fragment_size sz count i in
        let f1 : List FragmentPointer = set frags (i * redundancy) (entry i size n1) in
        let f2 : List FragmentPointer = set f1 (i * redundancy + 1) (entry i size n2) in
        let len1 : length f1 ≡ count * redundancy =
          length-set frags (i * redundancy) (entry i size n1) ∙ len in
        let own : TwoReplicas sv i size frags' = (
          n1,
          n2,
          ne,
          live1,
          live2,
          before (i * redundancy) (omega arith)
              ∙ get_elem?-set_ne f1 (i * redundancy + 1) (i * redundancy) (entry i size n2)
                  (omega arith)
              ∙ get_elem?-set_self frags (i * redundancy) (entry i size n1) (omega arith),
          before (i * redundancy + 1) (omega arith)
              ∙ get_elem?-set_self f1 (i * redundancy + 1) (entry i size n2) (omega arith),
        ) in
        (
          len',
          λ k le k_lt. elim (ℕ_discrete i k) [
            | yes same ↦ subst (λ x. TwoReplicas sv x (fragment_size sz count x) frags') same own
            | no other ↦ rest k (omega arith) k_lt
          ],
          λ p p_lt.
              before p (omega arith)
              ∙ get_elem?-set_ne f1 (i * redundancy + 1) p (entry i size n2) (omega arith)
              ∙ get_elem?-set_ne frags (i * redundancy) p (entry i size n1) (omega arith),
        )

    pub place_fragments-Filled :
        (rounds i offset : ℕ) (frags : List FragmentPointer)
        → i + rounds ≡ count
        → length frags ≡ count * redundancy
        → (frags' : List FragmentPointer) × (place_fragments rounds sv d sz count i offset frags
            ≡ some frags')
          × Filled sz count i frags frags'
    unfolding place_fragments
    place_fragments-Filled zero i offset frags e len =
        (frags, refl, (len, λ k le lt. absurd (omega arith), λ p lt. refl))
    place_fragments-Filled (suc rounds) i offset frags e len =
        let size : ℕ = fragment_size sz count i in
        let (offset', skipped) =
          skip_dead_total (d.known_peers + 1) d i offset (let l = table.addresses in omega arith)
            (omega arith) (omega arith) in
        let (n1, n2, ne, live1, live2, run) =
          choose_fragment (i + offset') i size frags (omega arith) in
        let f2 : List FragmentPointer =
          set (set frags (i * redundancy) (entry i size n1)) (i * redundancy + 1)
            (entry i size n2) in
        let len2 : length f2 ≡ count * redundancy =
          length-set (set frags (i * redundancy) (entry i size n1)) (i * redundancy + 1)
            (entry i size n2)
          ∙ length-set frags (i * redundancy) (entry i size n1)
          ∙ len in
        let (frags', later, filled) =
          place_fragments-Filled rounds (i + 1) offset' f2 (omega arith) len2 in
        let held : to_int size ≡ some size =
          to_int_lem size (omega (arith, fragment_size-le sz count i (omega arith))) in
        (
          frags',
          rw (held, skipped, run) later,
          Filled-step i n1 n2 frags frags' (omega arith) len ne live1 live2 filled,
        )
