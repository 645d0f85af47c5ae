-- ===== src/Machine/Rounds.antt =====
-- What the other states write for the states that follow them.
use distributed_storage_syst.Prelude.{
  ℕ, ◌+◌, ◌*◌, ◌/◌, ◌%◌, store?, to_int, ◌≡◌, refl, sym, subst, Bool, true, false, List, Option,
  none, some, if◌then◌else◌, ◌==◌, ltb, get_elem?, ◌^◌,
}
use distributed_storage_syst.Server.{Server, ServerState, set_state, is_index, dial_index}
use distributed_storage_syst.FileServer
use distributed_storage_syst.FileServer.{FileServer}
use distributed_storage_syst.NetIndex
use distributed_storage_syst.NetIndex.{NetIndex}
use distributed_storage_syst.Transfer.{send_large_buffer_to}
use distributed_storage_syst.Store.{
  Trigger, RawPackets, create_file, store_fragment, after_raw, wait_raw_packets, raw_loop, forwards,
  received_fragment,
}
use distributed_storage_syst.FanOut.{FragmentCreation, Delivery, fan_out, fan_out_from}
use distributed_storage_syst.Gossip.{Presentation, present_itself}
use distributed_storage_syst.NewFile.{
  redundancy, Placed, handle_new_file, fragment_count, place_fragments,
}
use distributed_storage_syst.Dialogue.{Line}
use distributed_storage_syst.Request.{Wanted, request_fragments, picked, request_each}
use distributed_storage_syst.Reassembly.{Request, is_complete}
use distributed_storage_syst.Reassembly.Serve.{
  Incoming, serve_all, answer_client, wait_request_fragments,
}
use distributed_storage_syst.Rebuild.{report_files}
use distributed_storage_syst.Packets.{Packet, Received, type_of}
use distributed_storage_syst.Packets.MessageType
use distributed_storage_syst.Machine.{Stored, raw_buffer, new_file}
use distributed_storage_syst.Machine.Step.{reset_counter, present, gather, place}
use distributed_storage_syst.Machine.Knowledge.{
  Exchange, report_knowledge, report_all, send_reports,
}
use distributed_storage_syst.Machine.Quiet.{
  IsQuiet, Gives, Gives-none, Gives-some, Gives-bind, Gives->>=, QuietFirst,
}
use distributed_storage_syst.Machine.Members.{
  MemberIn, Member, if-P, option-P, wait-P, always, Ends, set_state-state,
}

after_raw-Member :
    (sv : Server) (t : Trigger) (buffer : List ℕ) (k : ℕ)
    → MemberIn (after_raw sv t) k (raw_buffer t buffer)
unfolding after_raw
after_raw-Member sv (create_file name size) buffer k =
    if-P (λ st. MemberIn st k (raw_buffer (create_file name size) buffer)) (is_index sv) _ _
      (name, buffer, size, refl) tt
after_raw-Member sv (store_fragment c) buffer k = (c, buffer, refl)

abbrev Fills : RawPackets → Server × List ℕ × List (List ℕ) → Type 0
Fills r x = Member (x.0) (raw_buffer r.trigger (x.1))

wait_raw_packets-Fills :
    (sv : Server) (r : RawPackets) (recvs : List (Option (List ℕ))) (memory : List ℕ) (now : ℕ)
    → Ends (Fills r) (wait_raw_packets sv r recvs memory now)
unfolding wait_raw_packets
wait_raw_packets-Fills sv r recvs memory now =
    if-P (Ends (Fills r)) (ltb r.total_size (2 ^ 31)) _ _
      (wait-P (Fills r) (λ x. Unit {0}) (raw_loop (forwards sv r.trigger) r.n_pkts recvs 0 memory) _
        (always (raw_loop (forwards sv r.trigger) r.n_pkts recvs 0 memory))
        (λ x h.
          subst
            (λ st.
              MemberIn st (set_state sv (after_raw sv r.trigger) now).connected
                (raw_buffer r.trigger (x.0)))
            (sym (set_state-state sv (after_raw sv r.trigger) now))
            (after_raw-Member sv r.trigger (x.0) _)))
      tt

abbrev GoesOn : List ℕ → Placed → Type 0
GoesOn buffer p = Member p.server (new_file p.file buffer)

placed-GoesOn :
    (buffer : List ℕ) (p : Placed)
    → p.server.state ≡ ServerState.index_fanout_fragments
    → GoesOn buffer p
placed-GoesOn buffer p e =
    subst (λ st. MemberIn st p.server.connected (new_file p.file buffer)) (sym e)
      (p.file, buffer, refl)

abbrev pub Counts : Server × Presentation × Stored → Type 0
Counts x = Member (x.0) (x.2)

-- The counter that the state finds is that of the server.
pub present-Counts :
    (sv : Server) (old : Stored) (written : Bool) (now : ℕ)
    → Gives Counts (present sv old written now)
unfolding present present_itself set_state reset_counter
present-Counts sv old false now = Gives-none Counts
present-Counts sv old true now = Gives-some Counts _ refl

abbrev pub Gathers : Server × Stored × List (List ℕ) → Type 0
Gathers x = Member (x.0) (x.1)

pub gather-Gathers :
    (sv : Server) (r : RawPackets) (recvs : List (Option (List ℕ))) (memory : List ℕ) (now : ℕ)
    → Ends Gathers (gather sv r recvs memory now)
unfolding gather
gather-Gathers sv r recvs memory now =
    wait-P Gathers (Fills r) (wait_raw_packets sv r recvs memory now) _
      (wait_raw_packets-Fills sv r recvs memory now) (λ x fills. fills)

handle_new_file-GoesOn :
    (sv : Server) (fs : FileServer) (net : NetIndex) (name buffer : List ℕ) (size now : ℕ)
    → Gives (GoesOn buffer) (handle_new_file sv fs net name size now)
unfolding handle_new_file set_state
handle_new_file-GoesOn sv fs net name buffer size now =
    let count = fragment_count sv size in
    let made = NetIndex.new_file true true net (fs.file_count + 1) (count * redundancy) in
    Gives-bind (GoesOn buffer) (FileServer.add_file fs name (fs.file_count + 1) size count) _ (λ a.
      Gives-bind (GoesOn buffer) (made.0) _ (λ q.
        Gives-bind (GoesOn buffer) (if count == 0 then none else to_int (size / count)) _ (λ base.
          Gives-bind (GoesOn buffer) (to_int (size % count)) _ (λ rest.
            Gives-bind (GoesOn buffer) sv.index_data _ (λ d.
              Gives-bind (GoesOn buffer) (get_elem? made.1.heap q) _ (λ node.
                Gives-bind (GoesOn buffer)
                  (place_fragments count sv d size count 0 0 node.fragments) _
                  (λ frags.
                    Gives-bind (GoesOn buffer)
                      (store? made.1.heap q (record node { fragments = frags })) _
                      (λ heap'.
                        Gives-bind (GoesOn buffer)
                          (NetIndex.add_file (record (made.1) { heap = heap' }) (some q)) _
                          (λ net'. Gives-some (GoesOn buffer) _ (
                            placed-GoesOn buffer
                              (record {
                                server = set_state sv ServerState.index_fanout_fragments now;
                                file = a.0;
                                files = a.1;
                                node = q;
                                net = net';
                              })
                              refl))))))))))

abbrev pub Places : Placed × Stored → Type 0
Places x = Member (x.0.server) (x.1)

pub place-Places :
    (sv : Server) (fs : FileServer) (net : NetIndex) (name buffer : List ℕ) (size now : ℕ)
    → Gives Places (place sv fs net name buffer size now)
unfolding place
place-Places sv fs net name buffer size now =
    Gives->>= (GoesOn buffer) Places (handle_new_file sv fs net name size now) _
      (handle_new_file-GoesOn sv fs net name buffer size now)
      (λ p goes_on. Gives-some Places (p, new_file p.file buffer) goes_on)

abbrev pub QuietFan : Server × FileServer × List Delivery → Type 0
QuietFan x = IsQuiet (x.0)

pub fan_out-IsQuiet :
    (sv : Server) (fs : FileServer) (net : NetIndex) (file : ℕ) (buffer : List ℕ) (now : ℕ)
    → Gives QuietFan (fan_out sv fs net file buffer now)
unfolding fan_out set_state
fan_out-IsQuiet sv fs net file buffer now = Gives-bind QuietFan (get_elem? fs.files file) _ (λ fc.
    Gives-bind QuietFan (NetIndex.find_file net fc.file_id) _ (λ found.
      Gives-bind QuietFan found _ (λ p. Gives-bind QuietFan (get_elem? net.heap p) _ (λ f.
        Gives-bind QuietFan
          (if f.total_fragments / redundancy == 0
            then none
            else to_int (fc.size / (f.total_fragments / redundancy)))
          _
          (λ base. Gives-bind QuietFan sv.index_data _ (λ d.
            Gives-bind QuietFan (fan_out_from f.fragments 0 sv d base buffer fc) _ (λ x.
              Gives-bind QuietFan (store? fs.files file (x.0)) _
                (λ files'. Gives-some QuietFan _ refl))))))))

pub received_fragment-IsQuiet :
    (sv : Server) (fs : FileServer) (c : FragmentCreation) (buffer : List ℕ) (now : ℕ)
    → Gives QuietFirst (received_fragment sv fs c buffer now)
unfolding received_fragment set_state
received_fragment-IsQuiet sv fs c buffer now =
    let idle_now = set_state sv ServerState.idle now in
    option-P (Gives QuietFirst) (FileServer.find_file fs c.file_id) _ _
      (Gives-some QuietFirst (idle_now, fs) refl)
      (λ p.
        Gives-bind QuietFirst
          (FileServer.add_fragment true fs (some p) c.frag_id buffer c.frag_size) _
          (λ x. Gives-some QuietFirst (idle_now, x.1) refl))

pub request_fragments-IsQuiet :
    (sv : Server) (fs : FileServer) (net : NetIndex) (w : Wanted) (lines : List Line) (now : ℕ)
    → Ends QuietFirst (request_fragments sv fs net w lines now)
unfolding request_fragments set_state
request_fragments-IsQuiet sv fs net w lines now =
    option-P (Ends QuietFirst) (picked sv net w) _ _ tt (λ frags.
      option-P (Ends QuietFirst) sv.index_data _ _ tt (λ d.
        wait-P QuietFirst (λ x. Unit {0}) (request_each sv fs d w frags lines) _
          (always (request_each sv fs d w frags lines)) (λ x h. refl)))

dial_index-IsQuiet : (sv : Server) (fd : Option ℕ) → IsQuiet sv → IsQuiet ((dial_index sv fd).1)
unfolding dial_index
dial_index-IsQuiet sv none quiet = quiet
dial_index-IsQuiet sv (some fd) quiet = quiet

report_all-IsQuiet :
    (sv : Server) (fs : FileServer) (e : Exchange) → Ends QuietFirst (report_all sv fs e)
unfolding report_all set_state
report_all-IsQuiet sv fs e =
    let sending = send_reports sv (report_files sv fs.file_count fs.files) e.written e.replies in
    wait-P (QuietFirst {A = List Packet}) (λ x. Unit {0}) sending _ (always sending) (λ x h. refl)

pub report_knowledge-IsQuiet :
    (sv : Server) (fs : FileServer) (e : Exchange)
    → IsQuiet sv
    → Ends QuietFirst (report_knowledge sv fs e)
unfolding report_knowledge
report_knowledge-IsQuiet sv fs e quiet =
    if-P (Ends QuietFirst) ((dial_index sv e.dialed).0) _ _
      (if-P (Ends QuietFirst) e.is_presented _ _
        (if-P (Ends QuietFirst) (type_of e.answer == MessageType.ok) _ _
          (if-P (Ends QuietFirst) e.is_reported _ _
            (report_all-IsQuiet ((dial_index sv e.dialed).1) fs e)
            (dial_index-IsQuiet sv e.dialed quiet))
          (dial_index-IsQuiet sv e.dialed quiet))
        (dial_index-IsQuiet sv e.dialed quiet))
      (dial_index-IsQuiet sv e.dialed quiet)

answer_client-IsQuiet :
    (sv : Server) (r : Request) (ready : Option Received) (now : ℕ)
    → Ends QuietFirst (answer_client sv r ready now)
unfolding answer_client set_state
answer_client-IsQuiet sv r none now = tt
answer_client-IsQuiet sv r (some packet) now =
    option-P (Ends QuietFirst) (send_large_buffer_to r.file_size r.buffer) _ _ tt (λ buckets. refl)

abbrev pub QuietServed : Server × List (List Packet) × List (List ℕ) → Type 0
QuietServed x = IsQuiet (x.0)

pub wait_request_fragments-IsQuiet :
    (sv : Server) (fs : FileServer) (memory : ℕ → List ℕ) (r : Request) (cs : List Incoming)
    (ready : Option Received) (now : ℕ)
    → Ends QuietServed (wait_request_fragments sv fs memory r cs ready now)
unfolding wait_request_fragments
wait_request_fragments-IsQuiet sv fs memory r cs ready now =
    wait-P QuietServed (λ x. Unit {0}) (serve_all sv fs memory r cs) _
      (always (serve_all sv fs memory r cs))
      (λ x h.
        if-P (Ends QuietServed) (is_complete (x.0)) _ _
          (wait-P QuietServed QuietFirst (answer_client sv (x.0) ready now) _
            (answer_client-IsQuiet sv (x.0) ready now) (λ y quiet. quiet))
          tt)
