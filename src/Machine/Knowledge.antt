-- ===== src/Machine/Knowledge.antt =====
-- main.c, SERVER_REPORT_KNOWLEDGE_TO_INDEX at a node and SERVER_INDEX_WAITING_PEERS_KNOWLEDGE at the
-- index; lib/machine/procedures.c, `xprocedure_wait_identification`.
use distributed_storage_syst.Prelude.{
  ℕ, ◌+◌, Bool, true, false, List, [], ◌∷◌, ◌++◌, Option, none, some, ◌==◌, if◌then◌else◌, ◌>>=◌,
}
use distributed_storage_syst.Server.{Server, ServerState, set_state, dial_index, save_reported_peer}
use distributed_storage_syst.Address.{Address}
use distributed_storage_syst.FileServer.{FileServer}
use distributed_storage_syst.NetIndex.{NetIndex}
use distributed_storage_syst.Rebuild.{Report, report_files, save_file_to_index}
use distributed_storage_syst.Ring.{decrement, increment}
use distributed_storage_syst.Transfer.{Wait, done, blocked, fault}
use distributed_storage_syst.Packets
use distributed_storage_syst.Packets.{
  Packet, Content, report_self, report_file, comm_size, Received, closed, failed, got, type_of,
  sender_of, content_of, wait_client_presentation, presentation, report_self_packet, ok_packet,
}
use distributed_storage_syst.Packets.MessageType

-- `xpacket_new` with the report of a file.
unfoldable pub report_packet : Server → Report → Packet
report_packet sv r = record (Packets.new sv MessageType.report_file) {
  content = report_file r;
  size = comm_size;
}

-- The loop over the files: a report that is written waits for a packet, which is not tested; one that
-- is not written is left out. `written` is whether the reports go out, and `replies` what comes back.
unfoldable pub send_reports : Server → List Report → List Bool → List Received → Wait (List Packet)
unfolding report_packet
send_reports sv [] written replies = done []
send_reports sv (r ∷ rs) [] replies = blocked
send_reports sv (r ∷ rs) (false ∷ written) replies = send_reports sv rs written replies
send_reports sv (r ∷ rs) (true ∷ written) [] = blocked
send_reports sv (r ∷ rs) (true ∷ written) (reply ∷ replies) =
    elim (send_reports sv rs written replies) [
      | fault ↦ fault
      | blocked ↦ blocked
      | done sent ↦ done (report_packet sv r ∷ sent)
    ]

-- What the calls of the state return: the descriptor of the index; whether the presentation goes out,
-- and the answer to it; whether the report of the node goes out; the rest for the loop; the time.
pub record Exchange : Type 0 where
  pub dialed : Option ℕ
  pub is_presented : Bool
  pub answer : Received
  pub is_reported : Bool
  pub written : List Bool
  pub replies : List Received
  pub now : ℕ

-- From the report of the node on.
unfoldable pub report_all : Server → FileServer → Exchange → Wait (Server × List Packet)
unfolding send_reports
report_all sv fs e =
    elim (send_reports sv (report_files sv fs.file_count fs.files) e.written e.replies) [
      | fault ↦ fault
      | blocked ↦ blocked
      | done sent ↦ done (
        set_state sv ServerState.idle e.now,
        presentation sv ∷ report_self_packet sv ∷ (sent ++ (ok_packet sv ∷ [])),
      )
    ]

-- The state is left for SERVER_IDLE at the end only.
unfoldable pub report_knowledge : Server → FileServer → Exchange → Wait (Server × List Packet)
unfolding report_all
report_knowledge sv fs e =
    let (is_dialed, sv') = dial_index sv e.dialed in
    if is_dialed
    then (if e.is_presented
        then (if type_of e.answer == MessageType.ok
            then (if e.is_reported then report_all sv' fs e else done (sv', presentation sv' ∷ []))
            else done (sv', presentation sv' ∷ []))
        else done (sv', []))
    else done (sv', [])

-- The index while it collects: its indexes, and how many OKs it has sent on the connection.
pub record Collector : Type 0 where
  pub server : Server
  pub files : FileServer
  pub net : NetIndex
  pub oks : ℕ

-- The members that the two types of reports read; the bytes of another member are not modelled.
unfoldable pub self_of : Content → Option Address
self_of (report_self addr) = some addr
self_of c = none

unfoldable pub file_of : Content → Option Report
file_of (report_file r) = some r
file_of c = none

-- TYPE_REPORT_SELF
unfoldable pub collect_self : Collector → Received → Option Collector
unfolding self_of
collect_self c p = do
  addr ← self_of (content_of p)
  (id, sv) ← save_reported_peer c.server (sender_of p) addr
  some (record c { server = record sv { connected = increment sv.connected } })

-- TYPE_REPORT_FILE
unfoldable pub collect_file : Collector → Received → Option Collector
unfolding file_of
collect_file c p = do
  r ← file_of (content_of p)
  (fs, net) ← save_file_to_index c.files c.net r
  some (record c { files = fs; net = net; oks = c.oks + 1 })

-- What a packet does: it ends the loop, a report is kept, or it is passed over.
unfoldable pub collect_one : Collector → Received → Option (Bool × Collector)
unfolding collect_self collect_file
collect_one c failed = some (true, c)
collect_one c p =
    if type_of p == MessageType.ok
    then some (true, c)
    else if type_of p == MessageType.report_self
    then (do c' ← collect_self c p; some (false, c'))
    else if type_of p == MessageType.report_file
    then (do c' ← collect_file c p; some (false, c'))
    else some (false, c)

-- The loop: it ends with an OK or an error, and a peer that has closed is read again and again.
unfoldable pub collect : Collector → List Received → Wait Collector
unfolding collect_one
collect c [] = blocked
collect c (p ∷ ps) = elim (collect_one c p) [
  | none ↦ fault
  | some (is_end, c') ↦ elim is_end [ true ↦ done c' | false ↦ collect c' ps ]
]

-- A connection to the index: `is_answered` is whether the OK to the presentation goes out. The
-- procedure that sends it hands on the address of its pointer, so that the id in it is that of other
-- memory; no receiver reads it.
pub record Visit : Type 0 where
  pub accepted : Option ℕ
  pub first : Received
  pub is_answered : Bool
  pub rest : List Received
  pub now : ℕ

-- `xprocedure_wait_identification`
unfoldable pub wait_identification : Visit → ℕ
wait_identification v =
    let id = wait_client_presentation v.first in
    if id == 0 then 0 else if v.is_answered then id else 0

-- Behind the loop: the index is idle once all other nodes have reported.
unfoldable pub client_done : Collector → ℕ → Collector
client_done c now =
    if c.server.connected == decrement c.server.net_size
    then record c { server = set_state c.server ServerState.idle now }
    else c

unfoldable pub wait_peers_knowledge : Server → FileServer → NetIndex → Visit → Wait Collector
unfolding collect wait_identification client_done
wait_peers_knowledge sv fs net v =
    let c : Collector = record { server = sv; files = fs; net = net; oks = 0 } in
    elim sv.index_data [
      | none ↦ done c
      | some d ↦ elim v.accepted [
        | none ↦ done c
        | some fd ↦ if wait_identification v == 0 then done c else elim (collect c v.rest) [
          | fault ↦ fault
          | blocked ↦ blocked
          | done c' ↦ done (client_done c' v.now)
        ]
      ]
    ]
