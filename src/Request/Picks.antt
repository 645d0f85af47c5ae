-- ===== src/Request/Picks.antt =====
-- The entries that the index picks are at nodes that it takes for alive.
use distributed_storage_syst.Prelude.{
  ℕ, zero, suc, ◌+◌, ◌*◌, ◌%◌, ◌^◌, ◌<◌, ◌≡◌, ◌≢◌, ◌∙◌, ◌⊎◌, inl, inr, refl, false, List, [], ◌∷◌,
  some, arith, ◌==◌, ==_refl, ne→==, if◌then◌else◌, >>=-some, get_elem?, length, ℕ_discrete,
}
use distributed_storage_syst.Server.{Server, is_valid_node}
use distributed_storage_syst.NetIndex.{FragmentPointer}
use distributed_storage_syst.NewFile.{redundancy}
use distributed_storage_syst.NewFile.Replicas.{IsLive, entry}
use distributed_storage_syst.NewFile.Placement.{TwoReplicas}
use distributed_storage_syst.Request.{pick_first, pick_valid, pick, pick_all}

-- Fragment `k` is at a node that the index takes for alive: that of the first entry, or that of the
-- second while the index looks for it there.
abbrev pub Survives : Server → ℕ → List FragmentPointer → ℕ → Type 0
Survives sv count entries k =
    (e1 e2 : FragmentPointer) × (get_elem? entries (k * redundancy) ≡ some e1)
    × (get_elem? entries (k * redundancy + 1) ≡ some e2)
    × (e1.fragment ≡ k + 1)
    × (e2.fragment ≡ k + 1)
    × (IsLive sv e1.node_id
        ⊎ ((sv.death_count ≢ 0)
            × (count ≢ sv.net_size * redundancy % 2 ^ 64)
            × (is_valid_node sv e1.node_id ≡ some false)
            × IsLive sv e2.node_id))

-- What is picked for fragment `k`.
abbrev pub IsPicked : Server → ℕ → FragmentPointer → Type 0
IsPicked sv k e = (e.fragment ≡ k + 1) × IsLive sv e.node_id

pick-IsPicked :
    (sv : Server) (count : ℕ) (entries : List FragmentPointer) (k : ℕ)
    → Survives sv count entries k
    → (e : FragmentPointer) × (pick sv count entries k ≡ some e) × IsPicked sv k e
unfolding pick pick_first pick_valid
pick-IsPicked sv count entries k (e1, e2, at1, at2, f1, f2, inl live) =
    (e1, ground (arith, at1, live), (f1, live))
pick-IsPicked sv count entries k (e1, e2, at1, at2, f1, f2, inr (dead, old, gone, live)) =
    (e2, ground (arith, at1, at2, gone), (f2, live))

pick_all-IsPicked :
    (rounds : ℕ) (sv : Server) (count : ℕ) (entries : List FragmentPointer) (i : ℕ)
    → ((k : ℕ) → k < i + rounds → Survives sv count entries k)
    → (frags : List FragmentPointer) × (pick_all rounds sv count entries i ≡ some frags)
      × (length frags ≡ rounds)
      × ((k : ℕ)
          → k < rounds
          → (e : FragmentPointer) × (get_elem? frags k ≡ some e) × IsPicked sv (i + k) e)
unfolding pick_all
pick_all-IsPicked zero sv count entries i survives = ([], refl, refl, λ k lt. absurd (omega arith))
pick_all-IsPicked (suc rounds) sv count entries i survives =
    let (e, run, picked) = pick-IsPicked sv count entries i (survives i (omega arith)) in
    let (frags, rest, len, all) =
      pick_all-IsPicked rounds sv count entries (i + 1) (λ k lt. survives k (omega arith)) in
    (e ∷ frags, >>=-some _ run (>>=-some _ rest refl), omega arith, go e frags picked all)
  where
    go :
        (e : FragmentPointer) (frags : List FragmentPointer)
        → IsPicked sv i e
        → ((k : ℕ)
            → k < rounds
            → (e' : FragmentPointer) × (get_elem? frags k ≡ some e') × IsPicked sv (i + 1 + k) e')
        → (k : ℕ) → k < suc rounds
        → (e' : FragmentPointer) × (get_elem? (e ∷ frags) k ≡ some e') × IsPicked sv (i + k) e'
    go e frags (f, live) all zero lt = (e, refl, (omega arith, live))
    go e frags picked all (suc k) lt =
        let (e', at, (f, live)) = all k (omega arith) in (e', at, (omega arith, live))

-- All of them are picked.
pick_all-Survives :
    (sv : Server) (count : ℕ) (entries : List FragmentPointer) (k : ℕ)
    → ((j : ℕ) → j < count → Survives sv count entries j)
    → k < count
    → (frags : List FragmentPointer) × (e : FragmentPointer) × (pick_all count sv count entries 0
        ≡ some frags)
      × (length frags ≡ count)
      × (get_elem? frags k ≡ some e)
      × (e.fragment ≡ k + 1)
      × IsLive sv e.node_id
pick_all-Survives sv count entries k survives lt =
    let (frags, run, len, all) =
      pick_all-IsPicked count sv count entries 0 (λ j h. survives j (omega arith)) in
    let (e, at, (f, live)) = all k lt in (frags, e, run, len, at, omega arith, live)

-- Of the two nodes of a fragment one is left when a node has died.
TwoReplicas-Survives :
    (sv sv' : Server) (entries : List FragmentPointer) (count k size dead : ℕ)
    → TwoReplicas sv k size entries
    → (k + 1) % 2 ^ 16 ≡ k + 1
    → sv'.death_count ≢ 0
    → count ≢ sv'.net_size * redundancy % 2 ^ 64
    → ((id : ℕ) → is_valid_node sv' id ≡ (if id == dead then some false else is_valid_node sv id))
    → Survives sv' count entries k
TwoReplicas-Survives sv sv' entries count k size dead (n1, n2, apart, live1, live2, at1, at2) small
      died old after =
    elim (ℕ_discrete n1 dead) [
      | yes gone ↦
          let other : n2 ≢ dead = λ e. apart (omega arith) in
          (
            entry k size n1,
            entry k size n2,
            at1,
            at2,
            small,
            small,
            inr (
              died,
              old,
              after n1 ∙ rw (gone, ==_refl dead) refl,
              after n2 ∙ rw (ne→== n2 dead other) live2,
            ),
          )
      | no left ↦ (
        entry k size n1,
        entry k size n2,
        at1,
        at2,
        small,
        small,
        inl (after n1 ∙ rw (ne→== n1 dead left) live1),
      )
    ]

-- Where each of the count fragments of a file (count < 2^16) has its two entries at two nodes that
-- were valid, and one node has died since, the index picks, with a count other than twice its size
-- of the network modulo 2^64, count entries without a fault, and the one for each fragment is of
-- that fragment and at a node that is valid.
pub picked_after_death :
    (sv sv' : Server) (entries : List FragmentPointer) (count k dead : ℕ) (size : ℕ → ℕ)
    → ((j : ℕ) → j < count → TwoReplicas sv j (size j) entries)
    → count < 2 ^ 16
    → sv'.death_count ≢ 0
    → count ≢ sv'.net_size * redundancy % 2 ^ 64
    → ((id : ℕ) → is_valid_node sv' id ≡ (if id == dead then some false else is_valid_node sv id))
    → k < count
    → (frags : List FragmentPointer) × (e : FragmentPointer) × (pick_all count sv' count entries 0
        ≡ some frags)
      × (length frags ≡ count)
      × (get_elem? frags k ≡ some e)
      × (e.fragment ≡ k + 1)
      × IsLive sv' e.node_id
picked_after_death sv sv' entries count k dead size placed small died old after lt =
    pick_all-Survives sv' count entries k
      (λ j h.
        TwoReplicas-Survives sv sv' entries count j (size j) dead (placed j h) (omega arith) died
          old after)
      lt
