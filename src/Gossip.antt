-- ===== src/Gossip.antt =====
-- main.c, from the boot of a node to the index that it knows: SERVER_BOOTING, SERVER_CONNECTING,
-- SERVER_WAITING_NEW_PEER, SERVER_BEGIN_OPERATION, SERVER_INDEX_PRESENT_ITSELF and
-- SERVER_WAIT_INDEX_GOSSIP.
pub mod Round
use distributed_storage_syst.Prelude.{
  ℕ, zero, suc, ◌+◌, Bool, true, false, ◌&&◌, List, [], ◌∷◌, Option, none, some, ◌==◌,
  if◌then◌else◌, ltb, ◌>>=◌,
}
use distributed_storage_syst.Address.{Address}
use distributed_storage_syst.Server.{
  Server, ServerState, IndexData, set_state, dial_peer, is_peerf_connected, is_peerb_connected,
}
use distributed_storage_syst.FileServer.{FileServer}
use distributed_storage_syst.NetIndex.{NetIndex}
use distributed_storage_syst.Rebuild.{report_files, save_all}

-- `xIndexPresentationPacket`
pub record Presentation : Type 0 where
  pub sender_id : ℕ
  pub index_id : ℕ
  pub index_addr : Address

-- `server_open`, with what `tcp_listen` returns; without a listener the program ends.
unfoldable pub booting : Server → Option ℕ → ℕ → Option Server
unfolding set_state
booting sv none now = none
booting sv (some fd) now =
    some (set_state (record sv { listener_fd = some fd }) ServerState.connecting now)

-- A connection that `server_accept` returns is that of the backward peer.
unfoldable pub accept_peer_b : Server → Option ℕ → Server
accept_peer_b sv none = sv
accept_peer_b sv (some client) = record sv {
  peer_b = record (sv.peer_b) { is_open = true; stream_fd = some client };
}

-- One round of SERVER_CONNECTING; `client` and `fd` are what `server_accept` and `tcp_open` return if
-- they are called.
unfoldable pub connecting : Server → Option ℕ → Option ℕ → ℕ → Server
unfolding accept_peer_b dial_peer is_peerf_connected is_peerb_connected set_state
connecting sv client fd now =
    let behind = if is_peerb_connected sv then sv else accept_peer_b sv client in
    let both = if is_peerf_connected behind then behind else (dial_peer behind fd).1 in
    if is_peerf_connected both && is_peerb_connected both
    then set_state both ServerState.begin_operation now
    else both

-- Node 1 takes the peer that died for the index.
unfoldable pub waiting_new_peer : Server → Option ℕ → ℕ → Server
unfolding accept_peer_b is_peerb_connected set_state
waiting_new_peer sv none now = sv
waiting_new_peer sv (some client) now =
    if is_peerb_connected sv
    then sv
    else (if sv.me.node_id == 1
        then set_state (accept_peer_b sv (some client)) ServerState.begin_operation now
        else set_state (accept_peer_b sv (some client)) ServerState.idle now)

-- The node whose id is the size of the network is the index, and reports its own files to itself.
-- `memory` is what the two calls of `malloc` return, which holds anything.
unfoldable pub begin_operation :
    Server → FileServer → NetIndex → IndexData → ℕ → Option (Server × FileServer × NetIndex)
unfolding report_files save_all set_state
begin_operation sv fs net memory now =
    if sv.net_size == sv.me.node_id
    then (do
      let index = record sv { index_data = some memory }
      (fs', net') ← save_all fs net (report_files index fs.file_count fs.files)
      some (set_state index ServerState.index_present_itself now, fs', net'))
    else some (set_state sv ServerState.wait_index_gossip now, fs, net)

-- `written` is whether the packet went out; otherwise the program ends.
unfoldable pub present_itself : Server → Bool → ℕ → Option (Server × Presentation)
unfolding set_state
present_itself sv false now = none
present_itself sv true now = some (
  set_state (record sv { index = record (sv.index) { node_id = sv.me.node_id } })
      ServerState.index_waiting_peers_knowledge now,
  record { sender_id = sv.me.node_id; index_id = sv.me.node_id; index_addr = sv.me.ip },
)

-- The packet that is sent on, if one is.
unfoldable pub wait_index_gossip :
    Server → Presentation → Bool → ℕ → Option (Server × Option Presentation)
unfolding set_state
wait_index_gossip sv p written now =
    let told = record sv {
      index = record (sv.index) { ip = p.index_addr; node_id = p.index_id };
    } in
    if p.index_id == sv.peer_f.node_id
    then some (set_state told ServerState.report_knowledge_to_index now, none)
    else (if written
        then some (
          set_state told ServerState.report_knowledge_to_index now,
          some (record p { sender_id = sv.me.node_id }),
        )
        else none)

-- The nodes that a packet reaches one after the other, each the forward peer of the one before, while
-- every write succeeds; with the packet that is left behind the last of them.
unfoldable pub go_round :
    List Server → Presentation → ℕ → Option (List Server × Option Presentation)
unfolding wait_index_gossip
go_round [] p now = some ([], some p)
go_round (sv ∷ svs) p now = do
  (sv', sent) ← wait_index_gossip sv p true now
  elim sent [
    | none ↦ some (sv' ∷ svs, none)
    | some p' ↦ (do (svs', left) ← go_round svs p' now; some (sv' ∷ svs', left))
  ]
