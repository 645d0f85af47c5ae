-- ===== src/Rebuild/Originals.antt =====
-- The entries that the index makes for a file while all nodes of the ring are alive.
use distributed_storage_syst.Prelude.{
  ℕ, zero, suc, ◌+◌, ◌*◌, ◌/◌, ◌%◌, ◌^◌, ◌<◌, ◌≤◌, ◌≡◌, ◌∙◌, refl, ap, ap₂, true, false, List, some,
  arith, ◌==◌, leb, if◌then◌else◌, >>=-some, get_elem?, get_elem?_of_lt, get_elem?-set, set, length,
  length-set, replicate, length-replicate, to_int_lem, ℕ_discrete, dec_lt, Bool-cases, inl, inr,
}
use native.Mathlib.Numerals.{add-one}
use native.Mathlib.Nat.{mod-eq_of_lt, mod_self, mod-lt}
use distributed_storage_syst.Address.{Address}
use distributed_storage_syst.Server.{Server, IndexData, is_valid_node}
use distributed_storage_syst.NetIndex.{FragmentPointer, no_pointer}
use distributed_storage_syst.NewFile.{
  redundancy, fragment_size, skip_dead, choose_nodes, place_fragments,
}
use distributed_storage_syst.NewFile.Sizes.{fragment_size-le}
use distributed_storage_syst.NewFile.Replicas.{HasTable, IsLive, entry, choose_two, ring_node}
use distributed_storage_syst.Rebuild.Entries.{original, holder}

module _ (sv : Server) (d : IndexData) (m : ℕ) (table : HasTable sv d m) (many : 3 ≤ m)
    (small : m < 2 ^ 16) (reported : d.known_peers + 1 ≡ m) (last : sv.me.node_id ≡ m)
    (live : (n : ℕ) → 0 < n → n ≤ m → IsLive sv n) (name : List ℕ) (sz file_id : ℕ)
    (fits : sz < 2 ^ 31) where
  port_live :
      (q : ℕ) (a : Address) → q + 1 < m → get_elem? d.peer_ips q ≡ some a → (a.port == 0) ≡ false
  unfolding is_valid_node
  port_live q a lt at =
      let valid : is_valid_node sv (suc q) ≡ some true = live (suc q) (omega arith) (omega arith) in
      elim (Bool-cases (a.port == 0)) [
        | inr e ↦ e
        | inl e ↦
            let dead : is_valid_node sv (suc q) ≡ some false =
              ground (arith, table.present, at, e) in
            cc
      ]

  skip_none : (i : ℕ) → skip_dead (d.known_peers + 1) d i 0 ≡ some 0
  unfolding skip_dead
  skip_none i = elim (Bool-cases (leb d.known_peers (i + 0))) [
    | inl over ↦ rw (add-one d.known_peers) (rw over refl)
    | inr inside ↦
        let (a, at) =
          get_elem?_of_lt d.peer_ips (i + 0) (let l = table.addresses in ground arith) in
        rw (add-one d.known_peers) (rw (inside, at, port_live (i + 0) a (ground arith) at) refl)
  ]

  chosen :
      (i size : ℕ) (frags : List FragmentPointer)
      → i < m
      → length frags ≡ m * redundancy
      → choose_nodes (d.known_peers + 1) sv (i + 0) i size 0 0 frags
        ≡ some (
            set
              (set frags (i * redundancy + 0) (entry i size (ring_node m (i + 0) 0)))
              (i * redundancy + 1)
              (entry i size (ring_node m (i + 0) 1)))
  chosen i size frags lt len =
      let (t1, t2, order, bound, live1, live2, run) =
        choose_two sv d m table (i + 0) i size (d.known_peers + 1) 0 1 frags (omega arith)
          (omega arith)
          (live ((i + 0 + 0) % m + 1) (omega arith)
            (omega (arith, mod-lt (i + 0 + 0) {m = m} (omega arith))))
          (live ((i + 0 + 1) % m + 1) (omega arith)
            (omega (arith, mod-lt (i + 0 + 1) {m = m} (omega arith))))
          (omega arith) in
      let first : t1 ≡ 0 = omega arith in
      let second : t2 ≡ 1 = omega arith in
      run
      ∙ ap₂
          (λ a b. some (
            set (set frags (i * redundancy + 0) (entry i size (ring_node m (i + 0) a)))
              (i * redundancy + 1) (entry i size (ring_node m (i + 0) b))))
          first second

  abbrev pub made : ℕ → FragmentPointer
  made = original m many (fragment_size sz m) name sz file_id

  holder_first :
      (i : ℕ)
      → i < m
      → ring_node m (i + 0) 0 ≡ holder m many (fragment_size sz m) name sz file_id (i * 2 + 0)
  holder_first i lt =
      let e : (i + 0 + 0) % m ≡ i = ap (λ (k : ℕ). k % m) (omega arith) ∙ mod-eq_of_lt lt in
      rw e (ground arith)

  holder_second :
      (i : ℕ)
      → i < m
      → ring_node m (i + 0) 1 ≡ holder m many (fragment_size sz m) name sz file_id (i * 2 + 1)
  holder_second i lt = elim (dec_lt (i + 1) m) [
    | yes more ↦
        let e : (i + 0 + 1) % m ≡ i + 1 = ap (λ (k : ℕ). k % m) (omega arith) ∙ mod-eq_of_lt more in
        rw e (ground arith)
    | no end ↦
        let e : (i + 0 + 1) % m ≡ 0 = ap (λ (k : ℕ). k % m) (omega arith) ∙ mod_self m in
        rw e (ground arith)
  ]

  entry-made :
      (i p node : ℕ)
      → i < m
      → p / 2 ≡ i
      → node ≡ holder m many (fragment_size sz m) name sz file_id p
      → entry i (fragment_size sz m i) node ≡ made p
  entry-made i p node lt half at =
      let wide : (i + 1) % 2 ^ 16 ≡ i + 1 = omega arith in rw (wide, at, ← half) refl

  place_made :
      (rounds i p : ℕ) (frags : List FragmentPointer)
      → i + rounds ≡ m
      → length frags ≡ m * redundancy
      → p < m * redundancy
      → (frags' : List FragmentPointer) × (place_fragments rounds sv d sz m i 0 frags ≡ some frags')
        × (get_elem? frags' p ≡ (if leb (2 * i) p then some (made p) else get_elem? frags p))
  unfolding place_fragments
  place_made zero i p frags e len lt = (frags, refl, ground arith)
  place_made (suc rounds) i p frags e len lt =
      let f1 : List FragmentPointer = set frags (i * redundancy + 0) (made (i * 2 + 0)) in
      let f2 : List FragmentPointer = set f1 (i * redundancy + 1) (made (i * 2 + 1)) in
      let len1 = length-set frags (i * redundancy + 0) (made (i * 2 + 0)) in
      let len2 = length-set f1 (i * redundancy + 1) (made (i * 2 + 1)) in
      let (frags', run, at) = place_made rounds (i + 1) p f2 (omega arith) (omega arith) lt in
      let placed : choose_nodes (d.known_peers + 1) sv (i + 0) i (fragment_size sz m i) 0 0 frags
          ≡ some f2 =
        chosen i (fragment_size sz m i) frags (omega arith) len
        ∙ ap₂ (λ a b. some (set (set frags (i * redundancy + 0) a) (i * redundancy + 1) b))
            (entry-made i (i * 2 + 0) (ring_node m (i + 0) 0) (omega arith) (omega arith)
              (holder_first i (omega arith)))
            (entry-made i (i * 2 + 1) (ring_node m (i + 0) 1) (omega arith) (omega arith)
              (holder_second i (omega arith))) in
      let two : get_elem? f2 p ≡ (
          if i * redundancy + 1 == p
          then some (made (i * 2 + 1))
          else if i * redundancy + 0 == p
          then some (made (i * 2 + 0))
          else get_elem? frags p) =
        get_elem?-set f1 (i * redundancy + 1) p (made (i * 2 + 1)) (omega arith)
        ∙ ap (λ rest. if i * redundancy + 1 == p then some (made (i * 2 + 1)) else rest)
            (get_elem?-set frags (i * redundancy + 0) p (made (i * 2 + 0)) (omega arith)) in
      (
        frags',
        >>=-some _
            (to_int_lem (fragment_size sz m i)
              (omega (arith, fragment_size-le sz m i (omega arith))))
            (>>=-some _ (skip_none i) (>>=-some _ placed run)),
        elim (ℕ_discrete (i * redundancy + 1) p) [
          | yes e2 ↦
              let same : made (i * 2 + 1) ≡ made p = ap made e2 in ground (arith, at, two, same)
          | no n2 ↦ elim (ℕ_discrete (i * redundancy + 0) p) [
            | yes e1 ↦
                let same : made (i * 2 + 0) ≡ made p = ap made e1 in ground (arith, at, two, same)
            | no n1 ↦ ground (arith, at, two)
          ]
        ],
      )

  -- In a network of m nodes (3 <= m < 2^16) that all are live, with node m for the index and every
  -- other node reported, the loop over the m fragments of a file of less than 2^31 bytes ends
  -- without a fault, and makes the entries that put fragment k at the nodes k and k + 1, round the
  -- ring.
  pub place_fragments-original :
      (p : ℕ)
      → p < m * redundancy
      → (entries : List FragmentPointer) × (place_fragments m sv d sz m 0 0
            (replicate (m * redundancy) no_pointer)
          ≡ some entries)
        × (get_elem? entries p ≡ some (made p))
  place_fragments-original p lt =
      let (entries, run, at) =
        place_made m 0 p (replicate (m * redundancy) no_pointer) (omega arith)
          (length-replicate (m * redundancy) no_pointer) lt in
      (entries, run, at ∙ ground arith)
