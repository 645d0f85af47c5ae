-- ===== src/Packets.antt =====
-- lib/server/server.h, the packets that nodes exchange, and lib/server/server.c, `xpacket_*`, which
-- build them.
pub mod MessageType
use distributed_storage_syst.Prelude.{
  ℕ, ◌+◌, ◌%◌, ◌^◌, Bool, true, false, List, ◌==◌, if◌then◌else◌,
}
use distributed_storage_syst.Address.{Address}
use distributed_storage_syst.Server.{Server}
use distributed_storage_syst.FanOut.{FragmentCreation}
use distributed_storage_syst.Rebuild.{Report}

-- The union `content`, by the member that the sender writes; `zeros` where it writes none.
pub data Content : Type 0 where
  zeros : Content
  report_self : Address → Content
  report_file : Report → Content
  create_file : List ℕ → ℕ → Content
  request_file : List ℕ → Content
  response_file : (file_size file_id fragment_count_total : ℕ) → Content
  deliver_fragment_to : (file_id frag_id : ℕ) → Address → Content
  declare_transport : (file_id frag_id frag_size file_size : ℕ) → Content
  declare_use_local : (frag_id : ℕ) → Content
  create_frag : FragmentCreation → Content

-- `xPacket` with the fields of `comm`; `size` is the number of bytes that are sent.
pub record Packet : Type 0 where
  pub packet_size : ℕ
  pub sender_id : ℕ
  pub type : ℕ
  pub content : Content
  pub size : ℕ

-- `sizeof(p.bytes.comm)`, and that with `sizeof(p.size)`.
abbrev pub comm_size : ℕ
comm_size = 275

abbrev pub full_size : ℕ
full_size = 277

-- `xpacket_new`
unfoldable pub new : Server → ℕ → Packet
new sv type = record {
  packet_size = 0;
  sender_id = sv.me.node_id;
  type = type % 2 ^ 8;
  content = zeros;
  size = 0;
}

unfoldable pub report_self_packet : Server → Packet
report_self_packet sv = record {
  packet_size = 0;
  sender_id = sv.me.node_id;
  type = MessageType.report_self;
  content = report_self sv.me.ip;
  size = comm_size;
}

-- The packets that carry their full size.
unfoldable pub full : Server → ℕ → Content → Packet
full sv type content = record {
  packet_size = full_size;
  sender_id = sv.me.node_id;
  type = type;
  content = content;
  size = full_size;
}

unfoldable pub ok_packet : Server → Packet
unfolding full
ok_packet sv = full sv MessageType.ok zeros

unfoldable pub not_ok_packet : Server → Packet
unfolding full
not_ok_packet sv = full sv MessageType.not_ok zeros

unfoldable pub presentation : Server → Packet
unfolding full
presentation sv = full sv MessageType.present_itself zeros

unfoldable pub send_fragment_packet : Server → FragmentCreation → Packet
unfolding full
send_fragment_packet sv c = full sv MessageType.store_fragment (create_frag c)

-- The number of fragments has 8 bits, and an `int` that is negative never comes here.
unfoldable pub request_file_response : Server → ℕ → ℕ → ℕ → Packet
unfolding full
request_file_response sv file_id file_size count =
    full sv MessageType.response_file (response_file file_size file_id (count % 2 ^ 8))

-- What `server_wait_from_socket` returns: the peer has closed, and the size is 0; an error, and it is
-- -1; or a packet. The bytes are zeros in the first two.
pub data Received : Type 0 where
  closed : Received
  failed : Received
  got : Packet → Received

unfoldable pub is_empty : Received → Bool
is_empty closed = true
is_empty failed = false
is_empty (got p) = p.size == 0

unfoldable pub type_of : Received → ℕ
type_of closed = 0
type_of failed = 0
type_of (got p) = p.type

unfoldable pub sender_of : Received → ℕ
sender_of closed = 0
sender_of failed = 0
sender_of (got p) = p.sender_id

unfoldable pub content_of : Received → Content
content_of closed = zeros
content_of failed = zeros
content_of (got p) = p.content

-- `server_wait_client_presentation`
unfoldable pub wait_client_presentation : Received → ℕ
unfolding is_empty type_of sender_of
wait_client_presentation p =
    if is_empty p then 0 else if type_of p == MessageType.present_itself then sender_of p else 0
