-- ===== src/Rebuild/Reports.antt =====
-- What a node reports of a file of which it was sent its two fragments.
use distributed_storage_syst.Prelude.{
  ℕ, ◌+◌, ◌/◌, ◌<◌, ◌≤◌, ◌≡◌, ◌∙◌, refl, sym, List, arith, ne→==,
}
use distributed_storage_syst.Server.{Server}
use distributed_storage_syst.FileServer.{FileContainer, FileFragment}
use distributed_storage_syst.Rebuild.{report_slot, report_file}
use distributed_storage_syst.Rebuild.Entries.{
  holder, original, first_entry, second_entry, report_of,
}

-- The fragment of entry `p` in a slot.
abbrev pub HoldsEntry : (ℕ → ℕ) → ℕ → FileFragment → Type 0
HoldsEntry size p slot = (slot.fragment_id ≡ p / 2 + 1) × (slot.fragment_size ≡ size (p / 2))

module _ (n : ℕ) (many : 3 ≤ n) (size : ℕ → ℕ) (name : List ℕ) (file_size file_id : ℕ) where
  holder_lem :
      (j : ℕ)
      → 0 < j
      → j ≤ n
      → (holder n many size name file_size file_id
            (first_entry n many size name file_size file_id j)
          ≡ j)
        × (holder n many size name file_size file_id
              (second_entry n many size name file_size file_id j)
            ≡ j)
  holder_lem j pos le = (ground arith, ground arith)

  slot_lem :
      (sv : Server) (p : ℕ) (slot : FileFragment)
      → sv.me.node_id ≡ holder n many size name file_size file_id p
      → HoldsEntry size p slot
      → report_slot sv slot ≡ original n many size name file_size file_id p
  unfolding report_slot
  slot_lem sv p slot me (id, sized) =
      rw (ne→== slot.fragment_id 0 (omega arith), id, sized, me) refl

  -- A node j of the ring that has a container of a file of n fragments (3 <= n) with its two
  -- fragments of the file, in the order in which they were sent, in its slots, reports the name,
  -- size, id and number of fragments of the file, and with its own id the entries that put
  -- fragment k at the nodes k and k + 1 round the ring.
  pub report_file-report_of :
      (sv : Server) (f : FileContainer) (j : ℕ)
      → 0 < j
      → j ≤ n
      → sv.me.node_id ≡ j
      → f.file_name ≡ name
      → f.size ≡ file_size
      → f.file_id ≡ file_id
      → f.fragment_count_total ≡ n
      → HoldsEntry size (first_entry n many size name file_size file_id j) f.slot0
      → HoldsEntry size (second_entry n many size name file_size file_id j) f.slot1
      → report_file sv f ≡ report_of n many size name file_size file_id j
  unfolding report_file
  report_file-report_of sv f j pos le me named sized numbered counted first second =
      let (one, two) = holder_lem j pos le in
      rw
        (
          named,
          sized,
          numbered,
          counted,
          slot_lem sv (first_entry n many size name file_size file_id j) f.slot0 (me ∙ sym one)
              first,
          slot_lem sv (second_entry n many size name file_size file_id j) f.slot1 (me ∙ sym two)
              second,
        )
        refl
