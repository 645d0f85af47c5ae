-- ===== src/Store/Fragments.antt =====
-- The fragment that the index sends is the fragment that the node stores.
use distributed_storage_syst.Prelude.{
  ℕ, zero, suc, ◌+◌, ◌/◌, ◌%◌, ◌^◌, ◌<◌, ◌≡◌, ◌≢◌, ◌∙◌, ap, refl, Bool, true, List, [], ◌∷◌, none,
  some, arith, ◌==◌, length, store?_of_lt, set, get_elem?, get_elem?-set_self, ==_refl,
}
use distributed_storage_syst.Server.{Server, ServerState, set_state}
use distributed_storage_syst.FileServer
use distributed_storage_syst.FileServer.{
  FileServer, FileContainer, AddFragStatus, frag_ok, max_files, new_container, zero_file, find_from,
  put_fragment,
}
use distributed_storage_syst.FileServer.Table
use distributed_storage_syst.FileServer.Slots.{
  stored, put_fragment_first, put_fragment_second, add_fragment-put_fragment, get_elem?-lt,
}
use distributed_storage_syst.FanOut.{FragmentCreation}
use distributed_storage_syst.Transfer.{
  done, packets, bucket_size, wait_large_buffer_from, send_large_buffer_to,
}
use distributed_storage_syst.Transfer.Buckets.{large_buffer_arrives}
use distributed_storage_syst.Store.{
  store_fragment, RawPackets, known_file, begin_store, forwards, after_raw, wait_raw_packets,
  received_fragment,
}
use distributed_storage_syst.Store.Packets.{wait_raw_done}

-- The containers after a fragment of a file that the node did not know.
abbrev pub with_file : FileServer → FragmentCreation → FileServer
with_file fs c = record {
  file_count = fs.file_count + 1;
  files =
      set fs.files fs.file_count
        (new_container c.file_name c.file_id c.file_size c.fragment_count_total);
}

added_new :
    (fs : FileServer) (c : FragmentCreation)
    → Table.IsValid fs
    → fs.file_count < max_files
    → FileServer.add_file fs c.file_name c.file_id c.file_size c.fragment_count_total
      ≡ some (fs.file_count, with_file fs c)
unfolding FileServer.add_file
added_new fs c valid room =
    let wide : (fs.file_count + 1) % 2 ^ 16 ≡ fs.file_count + 1 = omega arith in
    let len : length fs.files ≡ 100 = valid.allocated in
    let file : FileContainer =
      new_container c.file_name c.file_id c.file_size c.fragment_count_total in
    rw (store?_of_lt fs.files fs.file_count file (omega arith), wide) refl

known_file_new :
    (fs : FileServer) (c : FragmentCreation)
    → Table.IsValid fs
    → fs.file_count < max_files
    → FileServer.find_file fs c.file_id ≡ none
    → known_file fs c ≡ some (with_file fs c)
unfolding known_file
known_file_new fs c valid room new = rw (known_file, new, added_new fs c valid room) refl

-- A fragment goes into the slot that is free.
received_lem :
    (sv : Server) (fs : FileServer) (c : FragmentCreation) (bytes : List ℕ) (now p : ℕ)
    (file file' : FileContainer)
    → FileServer.find_file fs c.file_id ≡ some p
    → FileServer.add_fragment true fs (some p) c.frag_id bytes c.frag_size
      ≡ some (frag_ok, record fs { files = set fs.files p file' })
    → received_fragment sv fs c bytes now
      ≡ some (set_state sv ServerState.idle now, record fs { files = set fs.files p file' })
unfolding received_fragment
received_lem sv fs c bytes now p file file' found added = rw (received_fragment, found, added) refl

find_from-set :
    (test : FileContainer → Bool) (files : List FileContainer) (p : ℕ) (f f' : FileContainer)
    (n i : ℕ)
    → get_elem? files p ≡ some f
    → test f' ≡ test f
    → find_from test (set files p f') n i ≡ find_from test files n i
unfolding find_from
find_from-set test [] p f f' n i at same = refl
find_from-set test (x ∷ files) p f f' zero i at same = refl
find_from-set test (x ∷ files) zero f f' (suc n) i at same = let e : x ≡ f = cc in rw (e, same) refl
find_from-set test (x ∷ files) (suc p) f f' (suc n) i at same =
    rw (find_from-set test files p f f' n (i + 1) at same) refl

-- Replacing a container by one of the same id changes no search by id.
find_file-set :
    (fs : FileServer) (p : ℕ) (f f' : FileContainer) (id : ℕ)
    → get_elem? fs.files p ≡ some f
    → f'.file_id ≡ f.file_id
    → FileServer.find_file (record fs { files = set fs.files p f' }) id ≡ FileServer.find_file fs id
unfolding FileServer.find_file
find_file-set fs p f f' id at same =
    find_from-set (λ g. g.file_id == id) fs.files p f f' fs.file_count 0 at (ap (λ k. k == id) same)

-- A fragment that goes from `server_send_large_buffer_to` through the three states, at a node whose
-- containers are `fs'` once the file is known: it ends in the container at `p`, as `file'`.
abbrev pub Stores :
    Server → FileServer → FragmentCreation → ℕ → ℕ → List ℕ → List ℕ → ℕ → FileContainer → Type 0
Stores sv fs c fd now bytes memory p file' =
    (bs : List (List ℕ)) × (sv1 sv2 sv3 : Server) × (fs1 fs3 : FileServer) × (raw : RawPackets)
    × (send_large_buffer_to c.frag_size bytes ≡ some bs)
    × (begin_store sv fs c fd now ≡ some (sv1, fs1, raw))
    × (wait_raw_packets sv1 raw (packets bs) memory now ≡ done (sv2, bytes, []))
    × (received_fragment sv2 fs1 c bytes now ≡ some (sv3, fs3))
    × (sv3.state ≡ ServerState.idle)
    × (FileServer.find_file fs3 c.file_id ≡ some p)
    × (get_elem? fs3.files p ≡ some file')

module _ (sv : Server) (fs : FileServer) (c : FragmentCreation) (fd now : ℕ) (bytes memory : List ℕ)
    (sized : c.frag_size ≡ length bytes) (allocated : length memory ≡ length bytes)
    (fits : length bytes + bucket_size < 2 ^ 31) (partial : length bytes % bucket_size ≢ 0) where
  store_steps :
      (fs1 : FileServer) (p : ℕ) (file file' : FileContainer)
      → known_file fs c ≡ some fs1
      → FileServer.find_file fs1 c.file_id ≡ some p
      → get_elem? fs1.files p ≡ some file
      → file'.file_id ≡ file.file_id
      → put_fragment true file c.frag_id bytes c.frag_size ≡ some (frag_ok, file')
      → Stores sv fs c fd now bytes memory p file'
  unfolding begin_store after_raw forwards set_state
  store_steps fs1 p file file' known found at same put =
      let (bs, cut, arrives) = large_buffer_arrives bytes memory allocated fits partial in
      let sv1 : Server = set_state sv ServerState.waiting_raw_packets now in
      let sv2 : Server = set_state sv1 ServerState.received_fragment now in
      let raw : RawPackets = record {
        trigger = store_fragment c;
        n_pkts = c.frag_size / 4096 + 1;
        total_size = c.frag_size;
        client_fd = fd;
      } in
      let added = add_fragment-put_fragment fs1 p c.frag_id c.frag_size bytes file file' at put in
      (
        bs,
        sv1,
        sv2,
        set_state sv2 ServerState.idle now,
        fs1,
        record fs1 { files = set fs1.files p file' },
        raw,
        ap (λ n. send_large_buffer_to n bytes) sized ∙ cut,
        rw known refl,
        wait_raw_done sv1 raw (packets bs) memory bytes now (omega arith) refl
            (ap (λ n. wait_large_buffer_from (packets bs) n memory) sized ∙ arrives),
        received_lem sv2 fs1 c bytes now p file file' found added,
        refl,
        find_file-set fs1 p file file' c.file_id at same ∙ found,
        get_elem?-set_self fs1.files p file' (get_elem?-lt fs1.files p at),
      )

  -- A fragment of a file of an id below 2^16 that the node does not know and has room for, of a
  -- size of less than 2^31 - 4096 bytes that is no multiple of 4096, goes through
  -- server_send_large_buffer_to at the sender and through TYPE_STORE_FRAGMENT,
  -- SERVER_WAITING_RAW_PACKETS and SERVER_RECEIVED_FRAGMENT at the node without a fault, where the
  -- network keeps the packets apart; the node is then idle, and a search for the file finds a new
  -- container with the fragment and its bytes in the first slot.
  pub first_fragment-Stores :
      Table.IsValid fs
      → fs.file_count < max_files
      → FileServer.find_file fs c.file_id ≡ none
      → c.file_id < 2 ^ 16
      → Stores sv fs c fd now bytes memory fs.file_count
          (record (new_container c.file_name c.file_id c.file_size c.fragment_count_total) {
            slot0 = stored c.frag_id bytes c.frag_size;
          })
  unfolding new_container
  first_fragment-Stores valid room new small =
      let file : FileContainer =
        new_container c.file_name c.file_id c.file_size c.fragment_count_total in
      let fits_id : c.file_id % 2 ^ 16 ≡ c.file_id = omega arith in
      let len : length fs.files ≡ 100 = valid.allocated in
      let lookup : FileServer.find_file (with_file fs c) c.file_id ≡ some fs.file_count =
        Table.find_file-add_file fs (with_file fs c) c.file_name c.file_id c.file_size
          c.fragment_count_total fs.file_count valid (added_new fs c valid room) c.file_id
        ∙ rw (new, fits_id, ==_refl c.file_id) refl in
      store_steps (with_file fs c) fs.file_count file
        (record file { slot0 = stored c.frag_id bytes c.frag_size })
        (known_file_new fs c valid room new) lookup
        (get_elem?-set_self fs.files fs.file_count file (omega arith)) refl
        (put_fragment_first file c.frag_id c.frag_size bytes refl (omega arith))

  -- A fragment of a file that the node knows and of which its first slot holds one, of a size of
  -- less than 2^31 - 4096 bytes that is no multiple of 4096, goes through
  -- server_send_large_buffer_to at the sender and the three states at the node without a fault,
  -- where the network keeps the packets apart; the node is then idle, and a search for the file
  -- finds its container with the fragment and its bytes in the second slot.
  pub second_fragment-Stores :
      (p : ℕ) (file : FileContainer)
      → FileServer.find_file fs c.file_id ≡ some p
      → get_elem? fs.files p ≡ some file
      → file.slot0.fragment_id ≢ 0
      → Stores sv fs c fd now bytes memory p
          (record file { slot1 = stored c.frag_id bytes c.frag_size })
  unfolding known_file
  second_fragment-Stores p file found at taken =
      store_steps fs p file (record file { slot1 = stored c.frag_id bytes c.frag_size })
        (rw (known_file, found) refl) found at refl
        (put_fragment_second file c.frag_id c.frag_size bytes taken (omega arith))
