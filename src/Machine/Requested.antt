-- ===== src/Machine/Requested.antt =====
-- A client's request for a file, at the node that it is sent to and at the index.
use distributed_storage_syst.Prelude.{
  ℕ, ◌%◌, ◌^◌, ◌<◌, ◌≡◌, ◌∙◌, refl, ap, true, false, List, [], ◌∷◌, none, some, arith, get_elem?,
  lt→ltb,
}
use distributed_storage_syst.Server.{Server, ServerState, set_state, is_index, dial_index}
use distributed_storage_syst.FileServer.{FileServer, FileContainer, find_file_by_name}
use distributed_storage_syst.Transfer.{done}
use distributed_storage_syst.Reassembly.{new_request}
use distributed_storage_syst.Packets
use distributed_storage_syst.Packets.{
  Packet, request_file, response_file, Received, got, presentation, request_file_response,
  not_ok_packet,
}
use distributed_storage_syst.Packets.MessageType
use distributed_storage_syst.Machine.{wanted, requested}
use distributed_storage_syst.Machine.Taken.{
  Answers, Taken, received_packet, take_content, knows, fits, on_request_file, on_request_at_index,
  on_request_at_node, on_response, response_of, under_id,
}

-- The packet asks for the file `name`.
pub record Asks (q : Packet) (name : List ℕ) : Type 0 where
  pub typed : q.type ≡ MessageType.request_file
  pub named : q.content ≡ request_file name

received_packet-Asks :
    (sv : Server) (fs : FileServer) (q : Packet) (name : List ℕ) (fd : ℕ) (a : Answers)
    → Asks q name
    → received_packet sv fs (got q) fd a ≡ on_request_file sv fs (got q) name fd a
unfolding received_packet take_content knows fits Packets.type_of Packets.content_of
received_packet-Asks sv fs q name fd a asks = rw (received_packet, asks.typed, asks.named) refl

module _ (sv index : Server) (fs index_files : FileServer) (q : Packet) (name : List ℕ)
    (asks : Asks q name) (is_node : is_index sv ≡ false) (is_its_index : is_index index ≡ true)
    (fd at_index dialed : ℕ) (here there : Answers) (reached : here.index_fd ≡ some dialed) where
  -- The packet that the node sends to the index.
  abbrev pub passed_on : Packet
  passed_on = record q { sender_id = sv.me.node_id }

  at_the_index :
      received_packet index index_files (got passed_on) at_index there
      ≡ on_request_at_index index index_files name sv.me.node_id there
  unfolding on_request_file Packets.sender_of
  at_the_index =
      received_packet-Asks index index_files passed_on name at_index there
        (record { typed = asks.typed; named = asks.named })
      ∙ rw (on_request_file, is_its_index) refl

  at_the_node : received_packet sv fs (got q) fd here ≡ on_request_at_node sv fs (got q) fd here
  unfolding on_request_file
  at_the_node = received_packet-Asks sv fs q name fd here asks ∙ rw (on_request_file, is_node) refl

  -- A request for a file that the index has, with an id of 16 bits and a number of fragments of 8
  -- bits, sent to a node that is not the index and reaches it: the node passes the request on
  -- under its own id behind a presentation, the index answers with the id, the size and the number
  -- of fragments, and where that answer arrives the node waits for the fragments of a new request
  -- of these, while the index goes on to have them delivered to that node.
  pub file_requested :
      (p : ℕ) (fc : FileContainer)
      → find_file_by_name index_files name ≡ some p
      → get_elem? index_files.files p ≡ some fc
      → fc.file_id < 2 ^ 16
      → fc.fragment_count_total < 2 ^ 8
      → here.from_index
        ≡ got (request_file_response index fc.file_id fc.size fc.fragment_count_total)
      → (taken told : Taken) × (received_packet sv fs (got q) fd here ≡ done taken)
        × (received_packet index index_files (got passed_on) at_index there ≡ done told)
        × (taken.to_index ≡ got (presentation sv) ∷ got passed_on ∷ [])
        × (told.replies
            ≡ request_file_response index fc.file_id fc.size fc.fragment_count_total ∷ [])
        × (taken.stored ≡ requested (new_request fc.file_id fc.size fc.fragment_count_total) fd)
        × (told.stored
            ≡ wanted (record {
              file_id = fc.file_id;
              fragment_count = fc.fragment_count_total;
              deliver_to = sv.me.node_id;
            }))
        × (taken.server.state ≡ ServerState.wait_request_fragments)
        × (told.server.state ≡ ServerState.index_request_fragments)
  unfolding on_request_at_index on_request_at_node on_response response_of under_id
      request_file_response Packets.full Packets.type_of Packets.content_of set_state
  file_requested p fc found at id_small count_small answer =
      let small : fc.fragment_count_total % 2 ^ 8 ≡ fc.fragment_count_total = omega arith in
      let answer' : here.from_index
          ≡ got (
              Packets.full index MessageType.response_file
                (response_file fc.size fc.file_id fc.fragment_count_total)) =
        answer
        ∙ ap
            (λ n.
              got
                (Packets.full index MessageType.response_file (response_file fc.size fc.file_id n)))
            small in
      (
        record {
          server =
              set_state (dial_index sv (some dialed)).1 ServerState.wait_request_fragments here.now;
          files = fs;
          stored = requested (new_request fc.file_id fc.size fc.fragment_count_total) fd;
          replies =
              request_file_response (dial_index sv (some dialed)).1 fc.file_id fc.size
                fc.fragment_count_total
              ∷ [];
          to_index = got (presentation sv) ∷ got passed_on ∷ [];
          talk = none;
        },
        record {
          server = set_state index ServerState.index_request_fragments there.now;
          files = index_files;
          stored = wanted (record {
            file_id = fc.file_id;
            fragment_count = fc.fragment_count_total;
            deliver_to = sv.me.node_id;
          });
          replies = request_file_response index fc.file_id fc.size fc.fragment_count_total ∷ [];
          to_index = [];
          talk = none;
        },
        at_the_node
            ∙ rw (on_request_at_node, reached, answer', lt→ltb fc.file_id (2 ^ 31) (omega arith))
                refl,
        at_the_index ∙ rw (on_request_at_index, found, at) refl,
        refl,
        refl,
        refl,
        refl,
        refl,
        refl,
      )
