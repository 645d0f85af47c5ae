-- ===== src/Machine/Step.antt =====
-- main.c, the loop: the `switch` over the states, as steps of a node.
use distributed_storage_syst.Prelude.{ℕ, ◌≡◌, ◌⊎◌, ◌>>=◌, Bool, List, Option, some}
use distributed_storage_syst.Server.{Server, ServerState, IndexData}
use distributed_storage_syst.FileServer.{FileServer}
use distributed_storage_syst.NetIndex.{NetIndex}
use distributed_storage_syst.NewFile.{Placed, handle_new_file}
use distributed_storage_syst.FanOut.{FragmentCreation, Delivery, fan_out}
use distributed_storage_syst.Transfer.{Wait, done, blocked, fault}
use distributed_storage_syst.Dialogue.{Line, Talk}
use distributed_storage_syst.Packets.{Packet, Received}
use distributed_storage_syst.Store.{
  RawPackets, create_file, store_fragment, wait_raw_packets, received_fragment,
}
use distributed_storage_syst.Request.{Wanted, request_fragments}
use distributed_storage_syst.Reassembly.{Request}
use distributed_storage_syst.Reassembly.Serve.{Incoming, wait_request_fragments}
use distributed_storage_syst.Gossip.{
  Presentation, booting, connecting, waiting_new_peer, begin_operation, present_itself,
  wait_index_gossip,
}
use distributed_storage_syst.Machine.{
  Stored, nothing, counter, received, raw, raw_buffer, new_file, wanted, requested,
}
use distributed_storage_syst.Machine.Idle.{Events, Idled, idle}
use distributed_storage_syst.Machine.Taken.{Answers, Taken, received_packet}
use distributed_storage_syst.Machine.Knowledge.{
  Exchange, Collector, Visit, report_knowledge, wait_peers_knowledge,
}

-- The variables of `main`, with the member of `machine_state` that was written last.
pub record Node : Type 0 where
  pub server : Server
  pub files : FileServer
  pub net : NetIndex
  pub stored : Stored

-- A round that writes no member leaves the one that is there.
unfoldable pub kept : Stored → Stored → Stored
kept old nothing = old
kept old s = s

-- `server_set_state`, where it writes a member.
unfoldable pub reset_counter : ServerState → Stored → Stored
reset_counter ServerState.index_waiting_peers_knowledge old = counter 0
reset_counter st old = old

-- SERVER_INDEX_PRESENT_ITSELF; no other state sets the state that resets the counter.
unfoldable pub present : Server → Stored → Bool → ℕ → Option (Server × Presentation × Stored)
unfolding reset_counter
present sv old written now = do
  (sv', p) ← present_itself sv written now
  some (sv', p, reset_counter sv'.state old)

-- SERVER_WAITING_RAW_PACKETS, which leaves its buffer in `machine_state`.
unfoldable pub gather :
    Server
    → RawPackets
    → List (Option (List ℕ))
    → List ℕ
    → ℕ
    → Wait (Server × Stored × List (List ℕ))
gather sv r recvs memory now = elim (wait_raw_packets sv r recvs memory now) [
  | fault ↦ fault
  | blocked ↦ blocked
  | done (sv', buffer, sent) ↦ done (sv', raw_buffer r.trigger buffer, sent)
]

-- SERVER_INDEX_HANDLE_NEW_FILE, which leaves the container and the buffer in `machine_state`.
unfoldable pub place :
    Server → FileServer → NetIndex → List ℕ → List ℕ → ℕ → ℕ → Option (Placed × Stored)
place sv fs net name buffer size now = do
  p ← handle_new_file sv fs net name size now
  some (p, new_file p.file buffer)

-- A round of the loop that comes to its end. What the system calls return is in the steps.
-- SERVER_INDEX_WAITING_PEERS_KNOWLEDGE counts in its member, and SERVER_WAIT_REQUEST_FRAGMENTS is one
-- step for all its rounds.
pub data Step (n : Node) : Node → Type 0 where
  boots :
      (sv : Server) (fd : Option ℕ) (now : ℕ)
      → n.server.state ≡ ServerState.booting
      → booting n.server fd now ≡ some sv
      → Step n (record n { server = sv })
  connects :
      (client fd : Option ℕ) (now : ℕ)
      → n.server.state ≡ ServerState.connecting
      → Step n (record n { server = connecting n.server client fd now })
  meets :
      (client : Option ℕ) (now : ℕ)
      → n.server.state ≡ ServerState.waiting_new_peer
      → Step n (record n { server = waiting_new_peer n.server client now })
  begins :
      (sv : Server) (fs : FileServer) (net : NetIndex) (memory : IndexData) (now : ℕ)
      → n.server.state ≡ ServerState.begin_operation
      → begin_operation n.server n.files n.net memory now ≡ some (sv, fs, net)
      → Step n (record n { server = sv; files = fs; net = net })
  presents :
      (sv : Server) (written : Bool) (p : Presentation) (s : Stored) (now : ℕ)
      → n.server.state ≡ ServerState.index_present_itself
      → present n.server n.stored written now ≡ some (sv, p, s)
      → Step n (record n { server = sv; stored = s })
  collects :
      (v : Visit) (c : Collector) (k : ℕ)
      → n.server.state ≡ ServerState.index_waiting_peers_knowledge
      → n.stored ≡ counter k
      → wait_peers_knowledge n.server n.files n.net v ≡ done c
      → Step n (record {
        server = c.server;
        files = c.files;
        net = c.net;
        stored = counter c.server.connected;
      })
  learns :
      (sv : Server) (p : Presentation) (written : Bool) (sent : Option Presentation) (now : ℕ)
      → n.server.state ≡ ServerState.wait_index_gossip
      → wait_index_gossip n.server p written now ≡ some (sv, sent)
      → Step n (record n { server = sv })
  reports :
      (sv : Server) (e : Exchange) (sent : List Packet)
      → n.server.state ≡ ServerState.report_knowledge_to_index
      → report_knowledge n.server n.files e ≡ done (sv, sent)
      → Step n (record n { server = sv })
  idles :
      (e : Events) (r : Idled)
      → n.server.state ≡ ServerState.idle
      → idle n.server e ≡ some r
      → Step n (record n { server = r.server; stored = kept n.stored r.stored })
  takes :
      (p : Received) (fd : ℕ) (a : Answers) (t : Taken)
      → n.server.state ≡ ServerState.received_packet
      → n.stored ≡ received p fd
      → received_packet n.server n.files p fd a ≡ done t
      → Step n (record n { server = t.server; files = t.files; stored = kept n.stored t.stored })
  gathers :
      (r : RawPackets) (recvs : List (Option (List ℕ))) (memory : List ℕ) (sent : List (List ℕ))
      (sv : Server) (s : Stored) (now : ℕ)
      → n.server.state ≡ ServerState.waiting_raw_packets
      → n.stored ≡ raw r
      → gather n.server r recvs memory now ≡ done (sv, s, sent)
      → Step n (record n { server = sv; stored = s })
  places :
      (name buffer : List ℕ) (size now : ℕ) (p : Placed) (s : Stored)
      → n.server.state ≡ ServerState.index_handle_new_file
      → n.stored ≡ raw_buffer (create_file name size) buffer
      → place n.server n.files n.net name buffer size now ≡ some (p, s)
      → Step n (record { server = p.server; files = p.files; net = p.net; stored = s })
  fans_out :
      (file : ℕ) (buffer : List ℕ) (sv : Server) (fs : FileServer) (sent : List Delivery) (now : ℕ)
      → n.server.state ≡ ServerState.index_fanout_fragments
      → n.stored ≡ new_file file buffer
      → fan_out n.server n.files n.net file buffer now ≡ some (sv, fs, sent)
      → Step n (record n { server = sv; files = fs })
  keeps :
      (c : FragmentCreation) (buffer : List ℕ) (sv : Server) (fs : FileServer) (now : ℕ)
      → n.server.state ≡ ServerState.received_fragment
      → n.stored ≡ raw_buffer (store_fragment c) buffer
      → received_fragment n.server n.files c buffer now ≡ some (sv, fs)
      → Step n (record n { server = sv; files = fs })
  asks :
      (w : Wanted) (lines : List Line) (sv : Server) (talks : List Talk) (now : ℕ)
      → n.server.state ≡ ServerState.index_request_fragments
      → n.stored ≡ wanted w
      → request_fragments n.server n.files n.net w lines now ≡ done (sv, talks)
      → Step n (record n { server = sv })
  serves :
      (r : Request) (fd : ℕ) (memory : ℕ → List ℕ) (cs : List Incoming) (ready : Option Received)
      (sv : Server) (replies : List (List Packet)) (buckets : List (List ℕ)) (now : ℕ)
      → n.server.state ≡ ServerState.wait_request_fragments
      → n.stored ≡ requested r fd
      → wait_request_fragments n.server n.files memory r cs ready now ≡ done (sv, replies, buckets)
      → Step n (record n { server = sv })
  rests :
      (n.server.state ≡ ServerState.index_handle_dead_peer) ⊎ (n.server.state ≡ ServerState.other)
      → Step n n

-- Rounds of the loop, one after the other.
pub data Steps (n : Node) : Node → Type 0 where
  starts : Steps n n
  goes_on : (m o : Node) → Steps n m → Step m o → Steps n o
