-- ===== src/Examples.antt =====
-- Concrete inputs: a network of three nodes whose third is the index.
mod Storage
mod Placing
mod Sending
mod Storing
mod Rebuilding
mod Announcing
mod Deaths
mod Downloading
mod Starting
mod Collecting
mod Running
use distributed_storage_syst.Prelude.{ℕ, List, [], ◌∷◌, none, some, true, false, replicate}
use distributed_storage_syst.Address.{Address, zero_address}
use distributed_storage_syst.FileServer
use distributed_storage_syst.FileServer.{FileServer, FileContainer, zero_file, max_files}
use distributed_storage_syst.NetIndex
use distributed_storage_syst.NetIndex.{NetIndex}
use distributed_storage_syst.Server.{Server, ServerState, PeerConnection, IndexData, Options}

abbrev pub localhost : ℕ → Address
localhost port = record {
  ip = record { octet0 = 127; octet1 = 0; octet2 = 0; octet3 = 1 };
  port = port;
}

abbrev pub peer : ℕ → PeerConnection
peer id = record {
  node_id = id;
  ip = localhost 5000;
  stream_fd = some 4;
  is_open = true;
  tx = 0;
  rx = 0;
}

abbrev pub addresses : IndexData
addresses = record {
  peer_ips = localhost 5001 ∷ localhost 5002 ∷ zero_address ∷ [];
  known_peers = 2;
}

-- Node `id`, between `back` and `front`.
abbrev pub node : ℕ → ℕ → ℕ → Server
node id back front = record {
  me = record { ip = localhost 5000; node_id = id };
  peer_f = peer front;
  peer_b = peer back;
  state = ServerState.idle;
  state_changed_at = 0;
  connected = 2;
  net_size = 3;
  death_count = 0;
  index = peer 3;
  index_data = none;
  listener_fd = some 3;
  client_fd = none;
}

abbrev pub index_node : Server
index_node = record (node 3 2 1) { index_data = some addresses }

abbrev pub options : Options
options = record { id = 1; ip = localhost 5001; peer_id = 2; peer_ip = localhost 5002; netsize = 3 }

abbrev pub no_files : FileServer
no_files = FileServer.init (replicate max_files zero_file)
