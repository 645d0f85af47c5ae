-- ===== src/Examples/Placing.antt =====
-- The theorems on new files and on reports at concrete inputs.
use distributed_storage_syst.Prelude.{
  ℕ, ◌≡◌, refl, List, [], ◌∷◌, some, arith, replicate, length, get_elem?,
}
use distributed_storage_syst.Server.{Server}
use distributed_storage_syst.FileServer
use distributed_storage_syst.FileServer.{FileServer}
use distributed_storage_syst.NetIndex
use distributed_storage_syst.NetIndex.{FragmentPointer, no_pointer}
use distributed_storage_syst.NewFile.Replicas.{HasTable}
use distributed_storage_syst.Rebuild.Entries.{original, update_all, rebuilds}
use distributed_storage_syst.Examples.{addresses, index_node}

abbrev name : List ℕ
name = replicate 200 0

abbrev table : HasTable index_node addresses 3
table = record { present = refl; original = refl; some_node = omega arith; addresses = refl }

rebuilds_example :
    (entries : List FragmentPointer) × (update_all 3
        (omega arith)
        (λ k. 100)
        name
        300
        1
        (2 ∷ 1 ∷ [])
        (replicate 6 no_pointer)
      ≡ some entries)
    × (length entries ≡ 6)
    × (get_elem? entries 1 ≡ some (original 3 (omega arith) (λ k. 100) name 300 1 1))
rebuilds_example =
    rebuilds 3 (omega arith) (λ k. 100) name 300 1 (2 ∷ 1 ∷ []) 1
      (omega arith, omega arith, (omega arith, omega arith, tt)) (omega arith)

abbrev text : List ℕ
text = 10 ∷ 20 ∷ 30 ∷ 40 ∷ 50 ∷ []
