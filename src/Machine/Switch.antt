-- ===== src/Machine/Switch.antt =====
-- What SERVER_RECEIVED_PACKET writes for the state that follows it.
use distributed_storage_syst.Prelude.{
  ℕ, ◌≡◌, refl, sym, subst, false, ◌&&◌, List, [], ◌∷◌, some, ◌==◌, ltb, get_elem?, ◌^◌,
}
use distributed_storage_syst.Server.{Server, ServerState, set_state, is_index, dial_index}
use distributed_storage_syst.FileServer.{FileServer, find_file_by_name}
use distributed_storage_syst.Transfer.{Wait, done}
use distributed_storage_syst.Store.{RawPackets, begin_store, begin_create, known_file}
use distributed_storage_syst.FanOut.{FragmentCreation}
use distributed_storage_syst.Request.{on_request_frag}
use distributed_storage_syst.Dialogue.{Talk, send_fragment}
use distributed_storage_syst.Packets
use distributed_storage_syst.Packets.{
  Packet, got, presentation, not_ok_packet, request_file, deliver_fragment_to, create_frag,
  Received, Content, is_empty, wait_client_presentation,
}
use distributed_storage_syst.Packets.MessageType
use distributed_storage_syst.Machine.{nothing, raw}
use distributed_storage_syst.Machine.Taken.{
  knows, fits, Answers, Taken, received_packet, take_content, on_create_file, on_store_fragment,
  wait_for_file, back_to_idle, on_request_at_index, on_request_at_node, on_response, response_of,
  on_request_file, on_request,
}
use distributed_storage_syst.Machine.Quiet.{reads, Gives, Gives-some, Gives-bind}
use distributed_storage_syst.Machine.Members.{
  MemberIn, Member, quiet-Member, if-P, option-P, gives-P, wait-P, always, Ends,
}

abbrev pub Takes : Wait Taken → Type 0
Takes = Ends (λ (t : Taken). Member t.server t.stored)

wait_for_file-Takes :
    (sv : Server) (fs : FileServer) (name : List ℕ) (size fd : ℕ) (sent : List Received) (now : ℕ)
    → Takes (wait_for_file sv fs name size fd sent now)
unfolding wait_for_file begin_create set_state
wait_for_file-Takes sv fs name size fd sent now = (_, refl)

on_create_file-Takes :
    (sv : Server) (fs : FileServer) (p : Received) (name : List ℕ) (size fd : ℕ) (a : Answers)
    → Takes (on_create_file sv fs p name size fd a)
unfolding on_create_file
on_create_file-Takes sv fs p name size fd a =
    if-P Takes (is_index sv) _ _ (wait_for_file-Takes sv fs name size fd [] a.now) (
      option-P Takes a.index_fd _ _ tt (λ index.
        wait_for_file-Takes (dial_index sv (some index)).1 fs name size fd
          (got (presentation sv) ∷ p ∷ []) a.now))

abbrev Waits : Server × FileServer × RawPackets → Type 0
Waits x = x.0.state ≡ ServerState.waiting_raw_packets

begin_store-Waits :
    (sv : Server) (fs : FileServer) (c : FragmentCreation) (fd now : ℕ)
    → Gives Waits (begin_store sv fs c fd now)
unfolding begin_store set_state
begin_store-Waits sv fs c fd now =
    Gives-bind Waits (known_file fs c) _ (λ fs'. Gives-some Waits _ refl)

on_store_fragment-Takes :
    (sv : Server) (fs : FileServer) (c : FragmentCreation) (fd : ℕ) (a : Answers)
    → Takes (on_store_fragment sv fs c fd a)
unfolding on_store_fragment
on_store_fragment-Takes sv fs c fd a =
    gives-P Takes Waits (begin_store sv fs c fd a.now) _ _ (begin_store-Waits sv fs c fd a.now) tt
      (λ x waits. subst (λ st. MemberIn st x.0.connected (raw (x.2))) (sym waits) (x.2, refl))

back_to_idle-Takes :
    (sv : Server) (fs : FileServer) (replies : List Packet) (sent : List Received) (now : ℕ)
    → Takes (done (back_to_idle sv fs replies sent now))
unfolding back_to_idle set_state
back_to_idle-Takes sv fs replies sent now = tt

on_request_at_index-Takes :
    (sv : Server) (fs : FileServer) (name : List ℕ) (sender : ℕ) (a : Answers)
    → Takes (on_request_at_index sv fs name sender a)
unfolding on_request_at_index set_state
on_request_at_index-Takes sv fs name sender a =
    option-P Takes (find_file_by_name fs name) _ _
      (back_to_idle-Takes sv fs (not_ok_packet sv ∷ []) [] a.now)
      (λ p. option-P Takes (get_elem? fs.files p) _ _ tt (λ fc. (_, refl)))

on_response-Takes :
    (sv : Server) (fs : FileServer) (response : Received) (fd : ℕ) (sent : List Received) (now : ℕ)
    → Takes (on_response sv fs response fd sent now)
unfolding on_response set_state
on_response-Takes sv fs response fd sent now =
    if-P Takes (Packets.type_of response == MessageType.not_ok) _ _
      (back_to_idle-Takes sv fs (not_ok_packet sv ∷ []) sent now)
      (option-P Takes (response_of (Packets.content_of response)) _ _ tt
        (λ x. if-P Takes (ltb (x.1) (2 ^ 31)) _ _ (_, fd, refl) tt))

on_request_file-Takes :
    (sv : Server) (fs : FileServer) (p : Received) (name : List ℕ) (fd : ℕ) (a : Answers)
    → Takes (on_request_file sv fs p name fd a)
unfolding on_request_file on_request_at_node
on_request_file-Takes sv fs p name fd a =
    if-P Takes (is_index sv) _ _ (on_request_at_index-Takes sv fs name (Packets.sender_of p) a) (
      option-P Takes a.index_fd _ _ (back_to_idle-Takes sv fs [] [] a.now)
        (λ index. on_response-Takes (dial_index sv (some index)).1 fs a.from_index fd _ a.now))

on_request-Takes :
    (sv : Server) (fs : FileServer) (file_id frag_id : ℕ) (a : Answers)
    → Takes (on_request sv fs file_id frag_id a)
unfolding on_request on_request_frag set_state
on_request-Takes sv fs file_id frag_id a =
    wait-P (λ (t : Taken). Member t.server t.stored)
      (λ (x : Server × Packet × Talk). reads (x.0.state) ≡ false)
      (on_request_frag sv fs a.line file_id frag_id a.now) _
      (if-P (Ends (λ (x : Server × Packet × Talk). reads (x.0.state) ≡ false))
        (ltb file_id (2 ^ 31) && ltb frag_id (2 ^ 31)) _ _
        (wait-P (λ (x : Server × Packet × Talk). reads (x.0.state) ≡ false) (λ talk. Unit {0})
          (send_fragment sv fs a.line file_id frag_id) _
          (always (send_fragment sv fs a.line file_id frag_id)) (λ talk h. refl))
        tt)
      (λ x quiet. quiet-Member (x.0) nothing quiet)

take_content-Takes :
    (sv : Server) (fs : FileServer) (p : Received) (c : Content) (fd : ℕ) (a : Answers)
    → Takes (take_content sv fs p c fd a)
unfolding take_content
take_content-Takes sv fs p (Packets.create_file name size) fd a =
    on_create_file-Takes sv fs p name size fd a
take_content-Takes sv fs p (create_frag c) fd a = on_store_fragment-Takes sv fs c fd a
take_content-Takes sv fs p (request_file name) fd a = on_request_file-Takes sv fs p name fd a
take_content-Takes sv fs p (deliver_fragment_to file_id frag_id to) fd a =
    on_request-Takes sv fs file_id frag_id a
take_content-Takes sv fs p Packets.zeros fd a = tt
take_content-Takes sv fs p (Packets.report_self x) fd a = tt
take_content-Takes sv fs p (Packets.report_file r) fd a = tt
take_content-Takes sv fs p (Packets.response_file x y z) fd a = tt
take_content-Takes sv fs p (Packets.declare_transport x y z u) fd a = tt
take_content-Takes sv fs p (Packets.declare_use_local x) fd a = tt

pub received_packet-Takes :
    (sv : Server) (fs : FileServer) (p : Received) (fd : ℕ) (a : Answers)
    → Takes (received_packet sv fs p fd a)
unfolding received_packet
received_packet-Takes sv fs p fd a =
    if-P Takes (knows (Packets.type_of p)) _ _
      (if-P Takes (fits (Packets.type_of p) (Packets.content_of p)) _ _
        (take_content-Takes sv fs p (Packets.content_of p) fd a) tt)
      (back_to_idle-Takes sv fs [] [] a.now)
