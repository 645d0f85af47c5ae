-- ===== src/Machine/Taken.antt =====
-- main.c, SERVER_RECEIVED_PACKET.
use distributed_storage_syst.Prelude.{
  ℕ, ◌^◌, Bool, false, ◌||◌, List, [], ◌∷◌, Option, none, some, ◌==◌, ◌>>=◌, leb, if◌then◌else◌,
  ltb, get_elem?,
}
use distributed_storage_syst.Server.{Server, ServerState, set_state, is_index, dial_index}
use distributed_storage_syst.FileServer.{FileServer, find_file_by_name}
use distributed_storage_syst.FanOut.{FragmentCreation}
use distributed_storage_syst.Store.{begin_create, begin_store}
use distributed_storage_syst.Transfer.{Wait, done, blocked, fault}
use distributed_storage_syst.Request.{on_request_frag}
use distributed_storage_syst.Reassembly.{new_request}
use distributed_storage_syst.Dialogue.{Line, Talk}
use distributed_storage_syst.Packets.{
  Packet, Content, zeros, create_file, request_file, response_file, deliver_fragment_to,
  create_frag, Received, closed, failed, got, type_of, content_of, sender_of, ok_packet,
  not_ok_packet, presentation, request_file_response,
}
use distributed_storage_syst.Packets.MessageType
use distributed_storage_syst.Machine.{Stored, nothing, raw, wanted, requested}

-- What comes in from others in this round: the descriptor of the index, if it is dialed; its answer to
-- a request; the connection to the node that a fragment goes to; and the time.
pub record Answers : Type 0 where
  pub index_fd : Option ℕ
  pub from_index : Received
  pub line : Line
  pub now : ℕ

-- The node behind the round, and what it has sent: on the connection of the packet, to the index, and
-- to the node that a fragment goes to.
pub record Taken : Type 0 where
  pub server : Server
  pub files : FileServer
  pub stored : Stored
  pub replies : List Packet
  pub to_index : List Received
  pub talk : Option Talk

-- Offsets in `machine_state`: the members of StateRawPackets end at 488, and `from_fd` of
-- StateReceivedPacket stands behind its packet, which has 4098 bytes or more.
abbrev pub raw_packets_end : ℕ
raw_packets_end = 488

abbrev pub from_fd_offset : ℕ
from_fd_offset = 4098

-- `StateReceivedPacket.from_fd`, read behind the writes of StateRawPackets: what it was before them if
-- they lie in front of it, and no value of the model otherwise.
abbrev pub from_fd_left : ℕ → Option ℕ
from_fd_left fd = if leb raw_packets_end from_fd_offset then some fd else none

-- The node waits for the packets of the new file.
unfoldable pub wait_for_file : Server → FileServer → List ℕ → ℕ → ℕ → List Received → ℕ → Wait Taken
unfolding begin_create
wait_for_file sv fs name size fd sent now = elim (from_fd_left fd) [
  | none ↦ fault
  | some from_fd ↦
      let (sv', packets) = begin_create sv name size from_fd now in
      done (record {
        server = sv';
        files = fs;
        stored = raw packets;
        replies = [];
        to_index = sent;
        talk = none;
      })
]

-- TYPE_CREATE_FILE: a node that is not the index dials it until it answers, and passes the packet on.
unfoldable pub on_create_file :
    Server → FileServer → Received → List ℕ → ℕ → ℕ → Answers → Wait Taken
unfolding wait_for_file
on_create_file sv fs p name size fd a =
    if is_index sv then wait_for_file sv fs name size fd [] a.now else elim a.index_fd [
      | none ↦ blocked
      | some index ↦
          wait_for_file (dial_index sv (some index)).1 fs name size fd
            (got (presentation sv) ∷ p ∷ []) a.now
    ]

-- TYPE_STORE_FRAGMENT
unfoldable pub on_store_fragment : Server → FileServer → FragmentCreation → ℕ → Answers → Wait Taken
on_store_fragment sv fs c fd a =
    elim (do from_fd ← from_fd_left fd; begin_store sv fs c from_fd a.now) [
      | none ↦ fault
      | some (sv', fs', packets) ↦ done (record {
        server = sv';
        files = fs';
        stored = raw packets;
        replies = ok_packet sv ∷ [];
        to_index = [];
        talk = none;
      })
    ]

-- A round that changes nothing but the state.
unfoldable pub back_to_idle : Server → FileServer → List Packet → List Received → ℕ → Taken
back_to_idle sv fs replies sent now = record {
  server = set_state sv ServerState.idle now;
  files = fs;
  stored = nothing;
  replies = replies;
  to_index = sent;
  talk = none;
}

-- TYPE_REQUEST_FILE at the index.
unfoldable pub on_request_at_index : Server → FileServer → List ℕ → ℕ → Answers → Wait Taken
unfolding back_to_idle
on_request_at_index sv fs name sender a = elim (find_file_by_name fs name) [
  | none ↦ done (back_to_idle sv fs (not_ok_packet sv ∷ []) [] a.now)
  | some p ↦ elim (get_elem? fs.files p) [
    | none ↦ fault
    | some fc ↦ done (record {
      server = set_state sv ServerState.index_request_fragments a.now;
      files = fs;
      stored = wanted (record {
        file_id = fc.file_id;
        fragment_count = fc.fragment_count_total;
        deliver_to = sender;
      });
      replies = request_file_response sv fc.file_id fc.size fc.fragment_count_total ∷ [];
      to_index = [];
      talk = none;
    })
  ]
]

-- The answer of the index. The bytes of another member than that of its type are not modelled.
unfoldable pub response_of : Content → Option (ℕ × ℕ × ℕ)
response_of zeros = some (0, 0, 0)
response_of (response_file file_size file_id count) = some (file_size, file_id, count)
response_of c = none

-- An id that an `int` does not hold is a fault.
unfoldable pub on_response : Server → FileServer → Received → ℕ → List Received → ℕ → Wait Taken
unfolding back_to_idle response_of
on_response sv fs response fd sent now =
    if type_of response == MessageType.not_ok
    then done (back_to_idle sv fs (not_ok_packet sv ∷ []) sent now)
    else elim (response_of (content_of response)) [
      | none ↦ fault
      | some (file_size, file_id, count) ↦
          if ltb file_id (2 ^ 31)
          then done (record {
            server = set_state sv ServerState.wait_request_fragments now;
            files = fs;
            stored = requested (new_request file_id file_size count) fd;
            replies = request_file_response sv file_id file_size count ∷ [];
            to_index = sent;
            talk = none;
          })
          else fault
    ]

unfoldable pub under_id : Server → Received → Received
under_id sv closed = closed
under_id sv failed = failed
under_id sv (got q) = got (record q { sender_id = sv.me.node_id })

-- TYPE_REQUEST_FILE at another node: the packet goes to the index under the node's own id. What the
-- index says to the presentation is not tested.
unfoldable pub on_request_at_node : Server → FileServer → Received → ℕ → Answers → Wait Taken
unfolding on_response back_to_idle under_id
on_request_at_node sv fs p fd a = elim a.index_fd [
  | none ↦ done (back_to_idle sv fs [] [] a.now)
  | some index ↦
      on_response (dial_index sv (some index)).1 fs a.from_index fd
        (got (presentation sv) ∷ under_id sv p ∷ []) a.now
]

unfoldable pub on_request_file : Server → FileServer → Received → List ℕ → ℕ → Answers → Wait Taken
unfolding on_request_at_index on_request_at_node
on_request_file sv fs p name fd a =
    if is_index sv
    then on_request_at_index sv fs name (sender_of p) a
    else on_request_at_node sv fs p fd a

-- TYPE_REQUEST_FRAG
unfoldable pub on_request : Server → FileServer → ℕ → ℕ → Answers → Wait Taken
on_request sv fs file_id frag_id a = elim (on_request_frag sv fs a.line file_id frag_id a.now) [
  | fault ↦ fault
  | blocked ↦ blocked
  | done (sv', reply, talk) ↦ done (record {
    server = sv';
    files = fs;
    stored = nothing;
    replies = reply ∷ [];
    to_index = [];
    talk = some talk;
  })
]

-- The members of the union that the types read. Those of other types are not modelled: a fault.
unfoldable pub take_content : Server → FileServer → Received → Content → ℕ → Answers → Wait Taken
unfolding on_create_file on_store_fragment on_request_file on_request
take_content sv fs p (create_file name size) fd a = on_create_file sv fs p name size fd a
take_content sv fs p (create_frag c) fd a = on_store_fragment sv fs c fd a
take_content sv fs p (request_file name) fd a = on_request_file sv fs p name fd a
take_content sv fs p (deliver_fragment_to file_id frag_id to) fd a =
    on_request sv fs file_id frag_id a
take_content sv fs p c fd a = fault

-- The types that the state knows, each with its member.
unfoldable pub knows : ℕ → Bool
knows type =
    (type == MessageType.create_file)
    || (type == MessageType.store_fragment)
    || (type == MessageType.request_file)
    || (type == MessageType.request_frag)

-- Whether the member that the sender wrote is that of the type.
unfoldable pub fits : ℕ → Content → Bool
fits type (create_file name size) = type == MessageType.create_file
fits type (create_frag c) = type == MessageType.store_fragment
fits type (request_file name) = type == MessageType.request_file
fits type (deliver_fragment_to file_id frag_id to) = type == MessageType.request_frag
fits type c = false

-- The `switch`: an unknown type makes the node idle again.
unfoldable pub received_packet : Server → FileServer → Received → ℕ → Answers → Wait Taken
unfolding take_content knows fits back_to_idle
received_packet sv fs p fd a =
    if knows (type_of p)
    then (if fits (type_of p) (content_of p)
        then take_content sv fs p (content_of p) fd a
        else fault)
    else done (back_to_idle sv fs [] [] a.now)
