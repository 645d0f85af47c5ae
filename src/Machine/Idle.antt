-- ===== src/Machine/Idle.antt =====
-- main.c, SERVER_IDLE.
use distributed_storage_syst.Prelude.{
  ℕ, ◌-◌, ◌^◌, Bool, false, ◌&&◌, not, List, [], ◌∷◌, ◌++◌, Option, none, some, ◌==◌, if◌then◌else◌,
  ◌>>=◌,
}
use distributed_storage_syst.Server.{Server, ServerState, set_state, is_peerb_connected}
use distributed_storage_syst.Ring.{Notice, healthcheck, check_peer_b}
use distributed_storage_syst.Packets.{
  Packet, Received, is_empty, wait_client_presentation, ok_packet,
}
use distributed_storage_syst.Machine.{Stored, nothing, received}

-- CLIENT_NODE_ID: the macro shifts an `int` by 64 bits, and what is meant is the largest id.
abbrev pub client_node_id : ℕ
client_node_id = 2 ^ 64 - 1

-- What the calls of the round return, where they are made: `tcp_peek_u`; the notice that waits at the
-- backward peer and the descriptor of the new forward peer; whether the client has sent something, and
-- its packet; the connection that is accepted, and its first two packets; and the time.
pub record Events : Type 0 where
  pub peeked : ℕ
  pub notice : Option Notice
  pub dialed : Option ℕ
  pub has_data : Bool
  pub client_packet : Received
  pub accepted : Option ℕ
  pub first : Received
  pub second : Received
  pub now : ℕ

-- The node behind the round, and what it has sent: notices to the forward peer, and packets on the
-- connection that it accepts.
pub record Idled : Type 0 where
  pub server : Server
  pub stored : Stored
  pub notices : List Notice
  pub replies : List Packet

-- `client_fd > 0`
unfoldable pub has_client : Server → Bool
has_client sv = elim sv.client_fd [ none ↦ false | some fd ↦ not (fd == 0) ]

-- The packet goes to SERVER_RECEIVED_PACKET.
unfoldable pub take_packet : Server → Received → ℕ → ℕ → Server × Stored
take_packet sv p fd now = (set_state sv ServerState.received_packet now, received p fd)

-- The packet of the client that is connected; if it has gone, its descriptor becomes 0.
unfoldable pub serve_client : Server → Received → ℕ → Server × Stored
unfolding take_packet
serve_client sv p now =
    if is_empty p
    then (record sv { client_fd = some 0 }, nothing)
    else elim sv.client_fd [ none ↦ (sv, nothing) | some fd ↦ take_packet sv p fd now ]

-- A connection `c` on which a node or a client presents itself.
unfoldable pub serve_accepted : Server → Events → ℕ → Server × Stored × List Packet
unfolding take_packet
serve_accepted sv e c =
    let id = wait_client_presentation e.first in
    if id == 0
    then (sv, nothing, [])
    else if id == client_node_id
    then (record sv { client_fd = some c }, nothing, ok_packet sv ∷ [])
    else if is_empty e.second
    then (sv, nothing, ok_packet sv ∷ [])
    else (let (sv', stored) = take_packet sv e.second c e.now in (sv', stored, ok_packet sv ∷ []))

unfoldable pub serve : Server → Events → Server × Stored × List Packet
unfolding has_client serve_client serve_accepted
serve sv e =
    if has_client sv && e.has_data
    then (let (sv', stored) = serve_client sv e.client_packet e.now in (sv', stored, []))
    else elim e.accepted [ none ↦ (sv, nothing, []) | some c ↦ serve_accepted sv e c ]

-- A round: a node that has just lost its backward peer still serves a client or a connection.
unfoldable pub idle : Server → Events → Option Idled
unfolding healthcheck check_peer_b serve
idle sv e = do
  (checked, lost) ← healthcheck sv e.peeked e.now
  (told, passed) ←
      (if is_peerb_connected checked
        then check_peer_b checked e.notice e.dialed e.now
        else some (checked, []))
  let (sv', stored, replies) = serve told e
  some (record { server = sv'; stored = stored; notices = lost ++ passed; replies = replies })
