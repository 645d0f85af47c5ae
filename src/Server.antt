-- ===== src/Server.antt =====
-- lib/server/server.h and server.c: what a node knows of itself, of its neighbours in the ring and of
-- the index, and the operations on that record which need no network.

use distributed_storage_syst.Prelude.{
  ℕ, ◌+◌, ◌-◌, ◌%◌, ◌^◌, Bool, true, false, List, Option, none, some, ◌==◌, if◌then◌else◌, ◌>>=◌,
  get_elem?, store?, not,
}
use distributed_storage_syst.Address.{Address}

-- `eServerState`
pub data ServerState : Type 0 where
  booting connecting begin_operation idle received_packet waiting_raw_packets received_fragment
        wait_request_fragments index_present_itself index_waiting_peers_knowledge
        index_handle_dead_peer index_handle_new_file index_fanout_fragments index_request_fragments
        wait_index_gossip report_knowledge_to_index waiting_new_peer other :
      ServerState

-- A descriptor is `none` where the source has a negative one.
pub record PeerConnection : Type 0 where
  pub node_id : ℕ
  pub ip : Address
  pub stream_fd : Option ℕ
  pub is_open : Bool
  pub tx : ℕ
  pub rx : ℕ

pub record WhoAmI : Type 0 where
  pub ip : Address
  pub node_id : ℕ

pub record IndexData : Type 0 where
  pub peer_ips : List Address
  pub known_peers : ℕ

-- The fields of `xServer` but `peers`, which nothing reads. Of the union `machine_state` there is only
-- the count of `StateIndexWaitingPeers`, as `connected`; the states that use its other members take
-- those as arguments.
pub record Server : Type 0 where
  pub me : WhoAmI
  pub peer_f : PeerConnection
  pub peer_b : PeerConnection
  pub state : ServerState
  pub state_changed_at : ℕ
  pub connected : ℕ
  pub net_size : ℕ
  pub death_count : ℕ
  pub index : PeerConnection
  pub index_data : Option IndexData
  pub listener_fd : Option ℕ
  pub client_fd : Option ℕ

-- `Args` of lib/args.h with the two addresses parsed.
pub record Options : Type 0 where
  pub id : ℕ
  pub ip : Address
  pub peer_id : ℕ
  pub peer_ip : Address
  pub netsize : ℕ

-- `sv` is the memory on the stack, which holds anything. The id of the backward peer is computed in
-- 64 bits: `me - 2` wraps at node 1.
unfoldable pub initial : Server → Options → Server
initial sv opts = record sv {
  me = record { ip = opts.ip; node_id = opts.id };
  peer_f = record (sv.peer_f) {
    node_id = opts.peer_id;
    ip = opts.peer_ip;
    stream_fd = none;
    is_open = false;
  };
  peer_b = record (sv.peer_b) {
    node_id = ((opts.id + 2 ^ 64 - 2) % 2 ^ 64 + opts.netsize) % 2 ^ 64 % opts.netsize + 1;
    stream_fd = none;
    is_open = false;
  };
  state = booting;
  net_size = opts.netsize;
  death_count = 0;
  listener_fd = none;
  client_fd = none;
  index_data = none;
}

-- A network of no nodes is a division by 0.
unfoldable pub init : Server → Options → Option Server
unfolding initial
init sv opts = if opts.netsize == 0 then none else some (initial sv opts)

-- `now` is what `current_millis` returns.
unfoldable pub set_state : Server → ServerState → ℕ → Server
set_state sv index_waiting_peers_knowledge now = record sv {
  state = index_waiting_peers_knowledge;
  state_changed_at = now;
  connected = 0;
}
set_state sv st now = record sv { state = st; state_changed_at = now }

unfoldable pub is_index : Server → Bool
is_index sv = sv.index.node_id == sv.me.node_id

unfoldable pub is_peerf_connected : Server → Bool
is_peerf_connected sv = sv.peer_f.is_open

unfoldable pub is_peerb_connected : Server → Bool
is_peerb_connected sv = sv.peer_b.is_open

-- `server_dial_peer` and `server_dial_index`; `fd` is what `tcp_open` returns.
unfoldable pub dial_peer : Server → Option ℕ → Bool × Server
dial_peer sv none = (false, sv)
dial_peer sv (some fd) = (
  true,
  record sv { peer_f = record (sv.peer_f) { stream_fd = some fd; is_open = true; tx = 0; rx = 0 } },
)

unfoldable pub dial_index : Server → Option ℕ → Bool × Server
dial_index sv none = (false, sv)
dial_index sv (some fd) = (
  true,
  record sv { index = record (sv.index) { stream_fd = some fd; is_open = true; tx = 0; rx = 0 } },
)

-- A null `index_data`, or an id behind the array, is a fault.
unfoldable pub is_valid_node : Server → ℕ → Option Bool
is_valid_node sv n =
    if n == 0
    then some false
    else if n == sv.me.node_id
    then some true
    else (do data' ← sv.index_data; a ← get_elem? data'.peer_ips (n - 1); some (not (a.port == 0)))

-- `server_index_save_reported_peer`: the sender's id is not checked; 0 and an id behind the array
-- are faults.
unfoldable pub save_reported_peer : Server → ℕ → Address → Option (ℕ × Server)
save_reported_peer sv sender addr = do
  data' ← sv.index_data
  ips ← (if sender == 0 then none else store? data'.peer_ips (sender - 1) addr)
  some (
    sender,
    record sv {
      index_data = some (record { peer_ips = ips; known_peers = (data'.known_peers + 1) % 2 ^ 64 });
    },
  )
