-- ===== src/Reassembly/Serve.antt =====
-- main.c, SERVER_WAIT_REQUEST_FRAGMENTS: the connections on which the fragments come, and the answer to
-- the client.
use distributed_storage_syst.Prelude.{
  ℕ, ◌^◌, Bool, true, false, List, [], ◌∷◌, Option, none, some, ◌==◌, if◌then◌else◌, ltb,
}
use distributed_storage_syst.Server.{Server, ServerState, set_state}
use distributed_storage_syst.FileServer.{FileServer}
use distributed_storage_syst.Transfer.{
  Wait, done, blocked, fault, wait_large_buffer_from, send_large_buffer_to,
}
use distributed_storage_syst.Packets.{
  Packet, Content, zeros, declare_transport, declare_use_local, Received, is_empty, type_of,
  content_of, wait_client_presentation, ok_packet,
}
use distributed_storage_syst.Packets.MessageType
use distributed_storage_syst.Reassembly.{Request, deliver, use_local, is_complete}

-- What the peer sends on a connection, as the calls of `recv` give it; with the block that `malloc`
-- returns for a fragment.
pub record Incoming : Type 0 where
  pub first : Received
  pub second : Received
  pub raw : List (Option (List ℕ))

-- What the node has said on a connection, and whether it has closed it.
pub record Served : Type 0 where
  pub request : Request
  pub replies : List Packet
  pub is_closed : Bool

-- The id and the size of the fragment, where the member of the union is the one that the type goes
-- with. The bytes of another member are not modelled.
unfoldable pub transport : Content → Option (ℕ × ℕ)
transport zeros = some (0, 0)
transport (declare_transport file_id frag_id frag_size file_size) = some (frag_id, frag_size)
transport c = none

unfoldable pub local_id : Content → Option ℕ
local_id zeros = some 0
local_id (declare_use_local frag_id) = some frag_id
local_id c = none

-- TYPE_DECLARE_USE_LOCAL: the connection is not closed.
unfoldable pub serve_local : Server → FileServer → Request → Content → Wait Served
unfolding local_id use_local
serve_local sv fs r content = elim (local_id content) [
  | none ↦ fault
  | some frag_id ↦ elim (use_local fs r frag_id) [
    | none ↦ fault
    | some r' ↦
        done
          (record { request = r'; replies = ok_packet sv ∷ ok_packet sv ∷ []; is_closed = false })
  ]
]

-- Every other type is taken for a fragment that is delivered. `memory` is what `malloc` returns for a
-- number of bytes; a size that an `int` does not hold is a fault.
unfoldable pub serve_delivery :
    Server → (ℕ → List ℕ) → Request → Content → List (Option (List ℕ)) → Wait Served
unfolding transport deliver
serve_delivery sv memory r content raw = elim (transport content) [
  | none ↦ fault
  | some (frag_id, frag_size) ↦
      if ltb frag_size (2 ^ 31)
      then elim (wait_large_buffer_from raw frag_size (memory frag_size)) [
        | fault ↦ fault
        | blocked ↦ blocked
        | done bytes ↦ elim (deliver r frag_id bytes frag_size) [
          | none ↦ fault
          | some r' ↦ done (record {
            request = r';
            replies = ok_packet sv ∷ ok_packet sv ∷ ok_packet sv ∷ [];
            is_closed = true;
          })
        ]
      ]
      else fault
]

-- A connection that is accepted. Without a presentation, or where the peer closes behind it, nothing
-- is counted and the connection stays open.
unfoldable pub serve_connection :
    Server → FileServer → (ℕ → List ℕ) → Request → Incoming → Wait Served
unfolding serve_local serve_delivery
serve_connection sv fs memory r c =
    if wait_client_presentation c.first == 0
    then done (record { request = r; replies = []; is_closed = false })
    else if is_empty c.second
    then done (record { request = r; replies = ok_packet sv ∷ []; is_closed = false })
    else if type_of c.second == MessageType.declare_use_local
    then serve_local sv fs r (content_of c.second)
    else serve_delivery sv memory r (content_of c.second) c.raw

-- The rounds of the state while fragments are missing, one for each connection that is accepted.
unfoldable pub serve_all :
    Server
    → FileServer
    → (ℕ → List ℕ)
    → Request
    → List Incoming
    → Wait (Request × List (List Packet))
unfolding serve_connection is_complete
serve_all sv fs memory r [] = done (r, [])
serve_all sv fs memory r (c ∷ cs) = elim (is_complete r) [
  | true ↦ done (r, [])
  | false ↦ elim (serve_connection sv fs memory r c) [
    | fault ↦ fault
    | blocked ↦ blocked
    | done served ↦ elim (serve_all sv fs memory served.request cs) [
      | fault ↦ fault
      | blocked ↦ blocked
      | done (r', replies) ↦ done (r', served.replies ∷ replies)
    ]
  ]
]

-- The round in which all have come: the client says that it is ready, whatever packet that is, and
-- gets the file.
unfoldable pub answer_client :
    Server → Request → Option Received → ℕ → Wait (Server × List (List ℕ))
answer_client sv r none now = blocked
answer_client sv r (some ready) now = elim (send_large_buffer_to r.file_size r.buffer) [
  | none ↦ fault
  | some buckets ↦ done (set_state sv ServerState.idle now, buckets)
]

-- The whole of the state, with the connections that come until it goes on.
unfoldable pub wait_request_fragments :
    Server
    → FileServer
    → (ℕ → List ℕ)
    → Request
    → List Incoming
    → Option Received
    → ℕ
    → Wait (Server × List (List Packet) × List (List ℕ))
unfolding serve_all answer_client
wait_request_fragments sv fs memory r cs ready now = elim (serve_all sv fs memory r cs) [
  | fault ↦ fault
  | blocked ↦ blocked
  | done (r', replies) ↦
      if is_complete r'
      then elim (answer_client sv r' ready now) [
        | fault ↦ fault
        | blocked ↦ blocked
        | done (sv', buckets) ↦ done (sv', replies, buckets)
      ]
      else blocked
]
