-- ===== src/Reassembly/Sent.antt =====
-- lib/machine/procedures.c, xprocedure_send_fragment: what a node that holds a fragment says, and what
-- comes out at the other end of the connection.
use distributed_storage_syst.Prelude.{
  ℕ, ◌+◌, ◌≡◌, refl, ap, List, [], ◌∷◌, some, length, map, >>=-some, get_elem?,
}
use distributed_storage_syst.Server.{Server}
use distributed_storage_syst.FileServer
use distributed_storage_syst.FileServer.{FileServer, FileContainer, FileFragment}
use distributed_storage_syst.Transfer.{Wait, done, packets, send_large_buffer_to}
use distributed_storage_syst.Packets.{
  Received, closed, got, presentation, declare_transport, full_size,
}
use distributed_storage_syst.Packets.MessageType
use distributed_storage_syst.Dialogue.{
  Item, packet, bucket, plus, Talk, send_fragment, send_found, find_fragment,
}
use distributed_storage_syst.Reassembly.Covering.{piece}
use distributed_storage_syst.Reassembly.Serve.{Incoming}

-- What comes out at the other end of a connection, where the network keeps the packets apart.
abbrev pub buckets_of : List Item → List (List ℕ)
buckets_of [] = []
buckets_of (packet p ∷ items) = buckets_of items
buckets_of (bucket b ∷ items) = b ∷ buckets_of items

abbrev received_of : List Item → Received
received_of [] = closed
received_of (packet p ∷ items) = got p
received_of (bucket b ∷ items) = closed

abbrev tail_of : List Item → List Item
tail_of [] = []
tail_of (i ∷ items) = items

abbrev pub incoming : List Item → Incoming
incoming items = record {
  first = received_of items;
  second = received_of (tail_of items);
  raw = packets (buckets_of items);
}

pub buckets_of-map : (bs : List (List ℕ)) → buckets_of (map bucket bs) ≡ bs
buckets_of-map [] = refl
buckets_of-map (b ∷ bs) = ap (◌∷◌ b) (buckets_of-map bs)

-- The answers that let a procedure go on to its end.
abbrev pub all_ok : List ℕ
all_ok = MessageType.ok ∷ MessageType.ok ∷ MessageType.ok ∷ []

abbrev pub two_ok : List ℕ
two_ok = MessageType.ok ∷ MessageType.ok ∷ []

-- The node has fragment `k + 1` of the file in a slot.
abbrev pub Holds : List ℕ → ℕ → ℕ → FileServer → ℕ → Type 0
Holds file w file_id fs k =
    (p : ℕ) × (fc : FileContainer) × (fragment : FileFragment) × (FileServer.find_file fs file_id
      ≡ some p)
    × (get_elem? fs.files p ≡ some fc)
    × (find_fragment fc (k + 1) ≡ some fragment)
    × (fragment.fragment_size ≡ length (piece file w k))
    × (fragment.fragment_bytes ≡ some (piece file w k))

-- What a holder says.
abbrev pub delivery : Server → ℕ → ℕ → ℕ → ℕ → List (List ℕ) → List Item
delivery sv file_id frag_id size file_size bs =
    packet (presentation sv)
    ∷ packet (record {
      packet_size = 0;
      sender_id = sv.me.node_id;
      type = MessageType.declare_frag;
      content = declare_transport file_id frag_id size file_size;
      size = full_size;
    })
    ∷ map bucket bs

pub send_found_lem :
    (sv : Server) (file_id frag_id : ℕ) (fc : FileContainer) (fragment : FileFragment)
    (bytes : List ℕ) (bs : List (List ℕ))
    → fragment.fragment_bytes ≡ some bytes
    → send_large_buffer_to fragment.fragment_size bytes ≡ some bs
    → send_found sv all_ok file_id frag_id fc fragment
      ≡ done (record {
        code = plus 1;
        sent = delivery sv file_id frag_id fragment.fragment_size fc.size bs;
      })
unfolding send_found
send_found_lem sv file_id frag_id fc fragment bytes bs has cut =
    rw (>>=-some (send_large_buffer_to fragment.fragment_size) has cut) refl

pub send_fragment_lem :
    (sv : Server) (fs : FileServer) (fd file_id frag_id p : ℕ) (fc : FileContainer)
    (fragment : FileFragment) (t : Wait Talk)
    → FileServer.find_file fs file_id ≡ some p
    → get_elem? fs.files p ≡ some fc
    → find_fragment fc frag_id ≡ some fragment
    → send_found sv all_ok file_id frag_id fc fragment ≡ t
    → send_fragment sv fs (record { fd = some fd; replies = all_ok }) file_id frag_id ≡ t
unfolding send_fragment
send_fragment_lem sv fs fd file_id frag_id p fc fragment t found at slot run =
    rw (send_fragment, found, at, slot) run
