-- ===== src/Machine/Collected.antt =====
-- What a node reports is what the index collects.
use distributed_storage_syst.Prelude.{
  ℕ, ◌+◌, ◌-◌, ◌%◌, ◌^◌, ◌≡◌, Bool, true, List, [], ◌∷◌, ◌++◌, map, some, set, length, replicate,
  ◌==◌, if◌then◌else◌,
}
use distributed_storage_syst.Server.{Server, ServerState, IndexData, dial_index}
use distributed_storage_syst.Address.{Address}
use distributed_storage_syst.FileServer.{FileServer}
use distributed_storage_syst.NetIndex.{NetIndex}
use distributed_storage_syst.Rebuild.{Report, report_files}
use distributed_storage_syst.Ring.{decrement, increment}
use distributed_storage_syst.Packets
use distributed_storage_syst.Packets.{Packet, report_self_packet, ok_packet}
use distributed_storage_syst.Packets.MessageType
use distributed_storage_syst.Machine.Knowledge.{report_packet, Exchange, Collector}

-- As many answers as there are reports, and every report goes out.
abbrev pub all_written : List Report → List Bool
all_written rs = replicate (length rs) true

-- The index is dialed, and hears the node.
pub record IsHeard (e : Exchange) (fd : ℕ) (rs : List Report) : Type 0 where
  pub reached : e.dialed ≡ some fd
  pub presented : e.is_presented ≡ true
  pub answered : Packets.type_of e.answer ≡ MessageType.ok
  pub reported : e.is_reported ≡ true
  pub written : e.written ≡ all_written rs
  pub replied : length e.replies ≡ length rs

-- The packets of the node, the presentation apart.
abbrev pub report_of_node : Server → List Report → List Packet
report_of_node sv rs = report_self_packet sv ∷ (map (report_packet sv) rs ++ (ok_packet sv ∷ []))

-- The node with the connection, and its reports.
abbrev pub dialed : Server → ℕ → Server
dialed sv fd = (dial_index sv (some fd)).1

abbrev pub reports : Server → FileServer → List Report
reports sv fs = report_files sv fs.file_count fs.files

-- The index behind the report of node `id` with the address `addr`.
abbrev pub told : Server → IndexData → ℕ → Address → Server
told sv d id addr = record sv {
  index_data = some (record {
    peer_ips = set d.peer_ips (id - 1) addr;
    known_peers = (d.known_peers + 1) % 2 ^ 64;
  });
  connected = increment sv.connected;
}

-- The same knowledge, and the state idle where all other nodes have reported.
abbrev pub Ends : Collector → Collector → Type 0
Ends c before =
    (c.files ≡ before.files)
    × (c.net ≡ before.net)
    × (c.oks ≡ before.oks)
    × (c.server.index_data ≡ before.server.index_data)
    × (c.server.connected ≡ before.server.connected)
    × (c.server.state ≡ (
        if before.server.connected == decrement before.server.net_size
        then ServerState.idle
        else before.server.state))
