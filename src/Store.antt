-- ===== src/Store.antt =====
-- main.c, how a node stores what is sent to it: TYPE_STORE_FRAGMENT and the end of TYPE_CREATE_FILE in
-- SERVER_RECEIVED_PACKET, SERVER_WAITING_RAW_PACKETS and SERVER_RECEIVED_FRAGMENT.
pub mod Packets
pub mod Fragments
pub mod Relay
use distributed_storage_syst.Prelude.{
  ℕ, zero, suc, ◌+◌, ◌-◌, ◌/◌, ◌%◌, ◌^◌, Bool, true, false, ◌&&◌, not, List, [], ◌∷◌, Option, none,
  some, ◌==◌, if◌then◌else◌, ltb, ◌>>=◌, length, write_block,
}
use distributed_storage_syst.Server.{Server, ServerState, set_state, is_index}
use distributed_storage_syst.FileServer
use distributed_storage_syst.FileServer.{FileServer, AddFragStatus}
use distributed_storage_syst.FanOut.{FragmentCreation}
use distributed_storage_syst.Transfer.{Wait, done, blocked, fault}

-- `trigger_pkt` of `StateRawPackets` with the request that goes with it: `fc` or `fragc`.
pub data Trigger : Type 0 where
  create_file : List ℕ → ℕ → Trigger
  store_fragment : FragmentCreation → Trigger

-- The other members of `StateRawPackets`, but the buffer.
pub record RawPackets : Type 0 where
  pub trigger : Trigger
  pub n_pkts : ℕ
  pub total_size : ℕ
  pub client_fd : ℕ

-- A file of which a fragment comes is added if it is unknown.
unfoldable pub known_file : FileServer → FragmentCreation → Option FileServer
known_file fs c = elim (FileServer.find_file fs c.file_id) [
  | some p ↦ some fs
  | none ↦ (do
    (p, fs') ← FileServer.add_file fs c.file_name c.file_id c.file_size c.fragment_count_total
    some fs')
]

-- TYPE_STORE_FRAGMENT on the connection `fd`, which then gets an OK.
unfoldable pub begin_store :
    Server → FileServer → FragmentCreation → ℕ → ℕ → Option (Server × FileServer × RawPackets)
unfolding known_file
begin_store sv fs c fd now = do
  fs' ← known_file fs c
  some (
    set_state sv ServerState.waiting_raw_packets now,
    fs',
    record {
      trigger = store_fragment c;
      n_pkts = c.frag_size / 4096 + 1;
      total_size = c.frag_size;
      client_fd = fd;
    },
  )

-- What a node waits for after TYPE_CREATE_FILE.
unfoldable pub begin_create : Server → List ℕ → ℕ → ℕ → ℕ → Server × RawPackets
begin_create sv name file_size fd now = (
  set_state sv ServerState.waiting_raw_packets now,
  record {
    trigger = create_file name file_size;
    n_pkts = file_size / 4096 + 1;
    total_size = file_size;
    client_fd = fd;
  },
)

-- The new file goes to the index, unless the node is the index.
unfoldable pub forwards : Server → Trigger → Bool
forwards sv (create_file name size) = not (is_index sv)
forwards sv (store_fragment c) = false

unfoldable pub forwarded :
    Bool → List ℕ → Wait (List ℕ × List (List ℕ)) → Wait (List ℕ × List (List ℕ))
forwarded forward p (done (buffer, sent)) = done (buffer, if forward then p ∷ sent else sent)
forwarded forward p blocked = blocked
forwarded forward p fault = fault

-- The loop: the buffer and the packets that were forwarded, when it ends. An error of `recv` is the
-- length of a `memcpy`.
unfoldable pub raw_loop :
    Bool → ℕ → List (Option (List ℕ)) → ℕ → List ℕ → Wait (List ℕ × List (List ℕ))
unfolding forwarded
raw_loop forward zero recvs populated buffer = done (buffer, [])
raw_loop forward (suc n) [] populated buffer = blocked
raw_loop forward (suc n) (none ∷ recvs) populated buffer = fault
raw_loop forward (suc n) (some p ∷ recvs) populated buffer = elim (write_block populated p buffer) [
  | none ↦ fault
  | some buffer' ↦ forwarded forward p (raw_loop forward n recvs (populated + length p) buffer')
]

-- The state that follows the packets.
unfoldable pub after_raw : Server → Trigger → ServerState
unfolding is_index
after_raw sv (create_file name size) =
    if is_index sv then ServerState.index_handle_new_file else ServerState.idle
after_raw sv (store_fragment c) = ServerState.received_fragment

-- SERVER_WAITING_RAW_PACKETS; `memory` is the block that `malloc` gives, of `total_size` bytes. A size
-- that an `int` does not hold is a fault.
unfoldable pub wait_raw_packets :
    Server
    → RawPackets
    → List (Option (List ℕ))
    → List ℕ
    → ℕ
    → Wait (Server × List ℕ × List (List ℕ))
unfolding raw_loop forwards after_raw
wait_raw_packets sv raw recvs memory now =
    if ltb raw.total_size (2 ^ 31)
    then elim (raw_loop (forwards sv raw.trigger) raw.n_pkts recvs 0 memory) [
      | done (buffer, sent) ↦ done (set_state sv (after_raw sv raw.trigger) now, buffer, sent)
      | blocked ↦ blocked
      | fault ↦ fault
    ]
    else fault

-- SERVER_RECEIVED_FRAGMENT: a fragment of an unknown file is dropped, and its buffer kept for good.
unfoldable pub received_fragment :
    Server → FileServer → FragmentCreation → List ℕ → ℕ → Option (Server × FileServer)
received_fragment sv fs c buffer now = elim (FileServer.find_file fs c.file_id) [
  | none ↦ some (set_state sv ServerState.idle now, fs)
  | some p ↦ (do
    (status, fs') ← FileServer.add_fragment true fs (some p) c.frag_id buffer c.frag_size
    some (set_state sv ServerState.idle now, fs'))
]
