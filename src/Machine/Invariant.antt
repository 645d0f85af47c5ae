-- ===== src/Machine/Invariant.antt =====
-- main.c, the loop: the states and `machine_state` over its rounds.
use distributed_storage_syst.Prelude.{ℕ, ◌≡◌, refl, sym, ap, ◌∙◌, subst, false}
use distributed_storage_syst.Server.{Server, ServerState}
use distributed_storage_syst.Transfer.{Wait, done}
use distributed_storage_syst.Gossip.{
  connecting, waiting_new_peer, begin_operation, booting, wait_index_gossip,
}
use distributed_storage_syst.FanOut.{fan_out}
use distributed_storage_syst.Store.{received_fragment}
use distributed_storage_syst.Request.{request_fragments}
use distributed_storage_syst.Reassembly.Serve.{wait_request_fragments}
use distributed_storage_syst.Machine.{
  Stored, nothing, counter, received, raw, raw_buffer, new_file, wanted, requested,
}
use distributed_storage_syst.Machine.Idle.{idle}
use distributed_storage_syst.Machine.Taken.{received_packet}
use distributed_storage_syst.Machine.Knowledge.{report_knowledge, wait_peers_knowledge}
use distributed_storage_syst.Machine.Step.{
  Node, kept, present, gather, place, Step, boots, connects, meets, begins, presents, collects,
  learns, reports, idles, takes, gathers, rests, places, fans_out, keeps, asks, serves, Steps,
  starts, goes_on,
}
use distributed_storage_syst.Machine.Quiet.{
  reads, IsQuiet, given, QuietFirst, QuietNode, booting-IsQuiet, connecting-IsQuiet,
  waiting_new_peer-IsQuiet, wait_index_gossip-IsQuiet, begin_operation-IsQuiet,
}
use distributed_storage_syst.Machine.Members.{
  MemberIn, Member, quiet-Member, Ends, Idles, idle-Member,
}
use distributed_storage_syst.Machine.Switch.{received_packet-Takes}
use distributed_storage_syst.Machine.Gathering.{CountingCollector, wait_peers_knowledge-IsCounting}
use distributed_storage_syst.Machine.Rounds.{
  Counts, present-Counts, Gathers, gather-Gathers, Places, place-Places, QuietFan, QuietServed,
  fan_out-IsQuiet, received_fragment-IsQuiet, request_fragments-IsQuiet, report_knowledge-IsQuiet,
  wait_request_fragments-IsQuiet,
}

abbrev Finds : Node → Type 0
Finds n = Member n.server n.stored

-- A handler that comes to its end.
ended {ℓ} : {A : Type ℓ} (P : A → Type 0) (w : Wait A) (a : A) → Ends P w → w ≡ done a → P a
ended P w a h e = subst (Ends P) e h

state-IsQuiet : (sv : Server) (st : ServerState) → reads st ≡ false → sv.state ≡ st → IsQuiet sv
state-IsQuiet sv st quiet e = ap reads e ∙ quiet

-- No state reads what was never written.
reads_none : (st : ServerState) (k : ℕ) → MemberIn st k nothing → reads st ≡ false
reads_none ServerState.received_packet k h = cc
reads_none ServerState.waiting_raw_packets k h = cc
reads_none ServerState.index_handle_new_file k h = cc
reads_none ServerState.index_fanout_fragments k h = cc
reads_none ServerState.received_fragment k h = cc
reads_none ServerState.index_request_fragments k h = cc
reads_none ServerState.wait_request_fragments k h = cc
reads_none ServerState.index_handle_dead_peer k h = absurd h
reads_none ServerState.other k h = absurd h
reads_none ServerState.booting k h = refl
reads_none ServerState.connecting k h = refl
reads_none ServerState.begin_operation k h = refl
reads_none ServerState.idle k h = refl
reads_none ServerState.index_present_itself k h = refl
reads_none ServerState.index_waiting_peers_knowledge k h = cc
reads_none ServerState.wait_index_gossip k h = refl
reads_none ServerState.report_knowledge_to_index k h = refl
reads_none ServerState.waiting_new_peer k h = refl

kept-Member : (sv : Server) (old s : Stored) → Member sv s → Member sv (kept old s)
unfolding kept
kept-Member sv old nothing h = quiet-Member sv old (reads_none sv.state sv.connected h)
kept-Member sv old (counter k) h = h
kept-Member sv old (received p fd) h = h
kept-Member sv old (raw r) h = h
kept-Member sv old (raw_buffer t buffer) h = h
kept-Member sv old (new_file file buffer) h = h
kept-Member sv old (wanted w) h = h
kept-Member sv old (requested r fd) h = h

Step-Finds : (n m : Node) → Finds n → Step n m → Finds m
Step-Finds n _ h (rests e) = h
Step-Finds n _ h (boots sv fd now e gives) =
    quiet-Member sv n.stored
      (given IsQuiet (booting n.server fd now) sv (booting-IsQuiet n.server fd now) gives)
Step-Finds n _ h (connects client fd now e) =
    quiet-Member (connecting n.server client fd now) n.stored (
      connecting-IsQuiet n.server client fd now
        (state-IsQuiet n.server ServerState.connecting refl e))
Step-Finds n _ h (meets client now e) =
    quiet-Member (waiting_new_peer n.server client now) n.stored (
      waiting_new_peer-IsQuiet n.server client now
        (state-IsQuiet n.server ServerState.waiting_new_peer refl e))
Step-Finds n _ h (begins sv fs net memory now e gives) = quiet-Member sv n.stored (
    given QuietNode (begin_operation n.server n.files n.net memory now) (sv, fs, net)
      (begin_operation-IsQuiet n.server n.files n.net memory now) gives)
Step-Finds n _ h (presents sv written p s now e gives) =
    given Counts (present n.server n.stored written now) (sv, p, s)
      (present-Counts n.server n.stored written now) gives
Step-Finds n _ h (collects v c k e member ends) =
    ended CountingCollector (wait_peers_knowledge n.server n.files n.net v) c
      (wait_peers_knowledge-IsCounting n.server n.files n.net v
        (subst (λ st. (k : ℕ) → MemberIn st k (counter k)) (sym e) (λ k. refl)))
      ends c.server.connected
Step-Finds n _ h (learns sv p written sent now e gives) = quiet-Member sv n.stored (
    given QuietFirst (wait_index_gossip n.server p written now) (sv, sent)
      (wait_index_gossip-IsQuiet n.server p written now) gives)
Step-Finds n _ h (reports sv x sent e ends) = quiet-Member sv n.stored (
    ended QuietFirst (report_knowledge n.server n.files x) (sv, sent)
      (report_knowledge-IsQuiet n.server n.files x
        (state-IsQuiet n.server ServerState.report_knowledge_to_index refl e))
      ends)
Step-Finds n _ h (idles x r e gives) = kept-Member r.server n.stored r.stored (
    given Idles (idle n.server x) r
      (idle-Member n.server x (state-IsQuiet n.server ServerState.idle refl e)) gives)
Step-Finds n _ h (takes p fd a t e member ends) = kept-Member t.server n.stored t.stored (
    ended (λ t. Member t.server t.stored) (received_packet n.server n.files p fd a) t
      (received_packet-Takes n.server n.files p fd a) ends)
Step-Finds n _ h (gathers r recvs memory sent sv s now e member ends) =
    ended Gathers (gather n.server r recvs memory now) (sv, s, sent)
      (gather-Gathers n.server r recvs memory now) ends
Step-Finds n _ h (places name buffer size now p s e member gives) =
    given Places (place n.server n.files n.net name buffer size now) (p, s)
      (place-Places n.server n.files n.net name buffer size now) gives
Step-Finds n _ h (fans_out file buffer sv fs sent now e member gives) = quiet-Member sv n.stored (
    given QuietFan (fan_out n.server n.files n.net file buffer now) (sv, fs, sent)
      (fan_out-IsQuiet n.server n.files n.net file buffer now) gives)
Step-Finds n _ h (keeps c buffer sv fs now e member gives) = quiet-Member sv n.stored (
    given QuietFirst (received_fragment n.server n.files c buffer now) (sv, fs)
      (received_fragment-IsQuiet n.server n.files c buffer now) gives)
Step-Finds n _ h (asks w lines sv talks now e member ends) = quiet-Member sv n.stored (
    ended QuietFirst (request_fragments n.server n.files n.net w lines now) (sv, talks)
      (request_fragments-IsQuiet n.server n.files n.net w lines now) ends)
Step-Finds n _ h (serves r fd memory cs ready sv replies buckets now e member ends) =
    quiet-Member sv n.stored (
      ended QuietServed (wait_request_fragments n.server n.files memory r cs ready now)
        (sv, replies, buckets)
        (wait_request_fragments-IsQuiet n.server n.files memory r cs ready now) ends)

-- In every state that a node reaches after it starts to boot, whatever comes in, the member of
-- machine_state that was written last is the one that the round of the state starts from: the
-- number of the peers that have reported, equal to the one that the server has as a field, the
-- packet, the raw packets to come, the buffer that they have filled for a file or for a fragment,
-- the new file with its bytes, the fragments that are asked for, or the request that is served. No
-- state without a case in the switch is reached.
pub Steps-Member :
    (n m : Node) → n.server.state ≡ ServerState.booting → Steps n m → Member m.server m.stored
Steps-Member n _ e starts =
    quiet-Member n.server n.stored (state-IsQuiet n.server ServerState.booting refl e)
Steps-Member n _ e (goes_on m o past step) = Step-Finds m o (Steps-Member n m e past) step
