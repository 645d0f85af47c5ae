-- ===== src/Ring.antt =====
-- lib/machine/procedures.c: how a node of the ring learns that another has died, from a closed
-- connection (`server_healthcheck`) or from a notice (`xprocedure_check_peer_b`).
pub mod Neighbours
pub mod Deaths
use distributed_storage_syst.Prelude.{
  ℕ, zero, suc, ◌+◌, ◌-◌, ◌%◌, ◌^◌, Bool, true, false, List, [], ◌∷◌, ◌++◌, Option, none, some,
  ◌==◌, if◌then◌else◌, ◌>>=◌, store?,
}
use distributed_storage_syst.Address.{Address, zero_address}
use distributed_storage_syst.Server.{
  Server, ServerState, IndexData, PeerConnection, set_state, is_index, is_peerb_connected,
  dial_peer,
}

-- TYPE_PEER_DIED
abbrev pub type_peer_died : ℕ
type_peer_died = 21

-- The fields of a packet that these procedures read and write; the last two are those of `peer_died`.
pub record Notice : Type 0 where
  pub sender_id : ℕ
  pub type : ℕ
  pub peer_id : ℕ
  pub sender_address : Address

-- The server after a procedure, with the notices that it has sent to the forward peer.
abbrev pub Outcome : Type 0
Outcome = Server × List Notice

-- `x--` on a `uint64_t`
abbrev pub decrement : ℕ → ℕ
decrement x = (x + 2 ^ 64 - 1) % 2 ^ 64

abbrev pub increment : ℕ → ℕ
increment x = (x + 1) % 2 ^ 64

-- `xpacket_peer_dead`
unfoldable pub peer_dead : Server → ℕ → Notice
peer_dead sv peer = record {
  sender_id = sv.me.node_id;
  type = type_peer_died;
  peer_id = peer;
  sender_address = sv.me.ip;
}

unfoldable pub peer_died_forward : Server → Notice → Outcome
peer_died_forward sv p = (sv, record p { sender_id = sv.me.node_id } ∷ [])

unfoldable pub peer_died_notify : Server → Outcome
unfolding peer_dead peer_died_forward
peer_died_notify sv =
    let sent = peer_died_forward sv (peer_dead sv sv.peer_b.node_id) in
    (record (sent.0) { net_size = decrement sent.0.net_size }, sent.1)

-- `memset(&sv->index_data->peer_ips[id - 1], 0, sizeof(Address))`
unfoldable pub forget_address : Server → ℕ → Option Server
forget_address sv id = do
  d ← sv.index_data
  ips ← (if id == 0 then none else store? d.peer_ips (id - 1) zero_address)
  some (record sv { index_data = some (record d { peer_ips = ips }) })

-- `peeked` is what `tcp_peek_u` returns, as a `size_t`: 0 for a connection that is closed.
unfoldable pub healthcheck : Server → ℕ → ℕ → Option Outcome
unfolding forget_address peer_died_notify is_index set_state is_peerb_connected
healthcheck sv peeked now =
    if is_peerb_connected sv
    then (if peeked == 0
        then (do
          let lost = record sv {
            peer_b = record (sv.peer_b) { is_open = false };
            net_size = decrement sv.net_size;
            death_count = increment sv.death_count;
          }
          let told = peer_died_notify lost
          cleared ←
              (if is_index told.0 then forget_address told.0 told.0.peer_b.node_id else some told.0)
          some (set_state cleared ServerState.waiting_new_peer now, told.1))
        else some (sv, []))
    else some (sv, [])

-- The forward peer has died: the one that lost it behind is the next.
unfoldable pub replace_peer_f : Server → Address → Option ℕ → Option Server
unfolding dial_peer
replace_peer_f sv widow fd =
    if sv.net_size == 0
    then none
    else some
        (dial_peer
          (record sv {
            peer_f = record (sv.peer_f) {
              is_open = false;
              ip = widow;
              node_id = (sv.me.node_id + 1) % 2 ^ 64 % sv.net_size;
            };
          })
          fd).1

-- The case of a notice; `fd` is what `tcp_open` returns if it is called.
unfoldable pub on_peer_died : Server → Notice → Option ℕ → ℕ → Option Outcome
unfolding replace_peer_f forget_address peer_died_forward is_index set_state
on_peer_died sv p fd now = do
  let counted = record sv {
    net_size = decrement sv.net_size;
    death_count = increment sv.death_count;
  }
  told ←
      (if counted.peer_f.node_id == p.peer_id
        then (do sv' ← replace_peer_f counted p.sender_address fd; some (sv', []))
        else some (peer_died_forward counted p))
  after ←
      (if is_index told.0
        then forget_address told.0 p.peer_id
        else (if p.peer_id == told.0.index.node_id
            then some (set_state told.0 ServerState.begin_operation now)
            else some told.0))
  some (after, told.1)

-- `received` is `none` where nothing is there to be read. A packet of another type is dropped.
unfoldable pub check_peer_b : Server → Option Notice → Option ℕ → ℕ → Option Outcome
unfolding on_peer_died
check_peer_b sv none fd now = some (sv, [])
check_peer_b sv (some p) fd now =
    if p.type == type_peer_died then on_peer_died sv p fd now else some (sv, [])
