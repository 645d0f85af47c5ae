-- ===== src/Machine/Members.antt =====
-- Every state finds the member of `machine_state` that it reads.
use distributed_storage_syst.Prelude.{
  ℕ, ◌≡◌, refl, Bool, true, false, ◌&&◌, List, [], Option, none, some, if◌then◌else◌, ◌==◌,
}
use distributed_storage_syst.Server.{Server, ServerState, set_state, is_peerb_connected}
use distributed_storage_syst.Transfer.{Wait, done, blocked, fault}
use distributed_storage_syst.Ring.{healthcheck, check_peer_b}
use distributed_storage_syst.Store.{RawPackets, create_file, store_fragment}
use distributed_storage_syst.FanOut.{FragmentCreation}
use distributed_storage_syst.Request.{Wanted}
use distributed_storage_syst.Reassembly.{Request}
use distributed_storage_syst.Packets.{Packet, Received, is_empty, wait_client_presentation}
use distributed_storage_syst.Machine.{
  Stored, nothing, counter, received, raw, raw_buffer, new_file, wanted, requested,
}
use distributed_storage_syst.Machine.Idle.{
  has_client, client_node_id, Events, Idled, idle, serve, serve_client, serve_accepted, take_packet,
}
use distributed_storage_syst.Machine.Quiet.{
  reads, IsQuiet, Gives, Gives-some, Gives-if, Gives->>=, QuietFirst, healthcheck-IsQuiet,
  check_peer_b-IsQuiet,
}

-- The member that a state reads is the one that was written last; no other state is without a case.
abbrev pub MemberIn : ServerState → ℕ → Stored → Type 0
MemberIn ServerState.index_waiting_peers_knowledge k s = s ≡ counter k
MemberIn ServerState.received_packet k s = (p : Received) × (fd : ℕ) × (s ≡ received p fd)
MemberIn ServerState.waiting_raw_packets k s = (r : RawPackets) × (s ≡ raw r)
MemberIn ServerState.index_handle_new_file k s =
    (name buffer : List ℕ) × (size : ℕ) × (s ≡ raw_buffer (create_file name size) buffer)
MemberIn ServerState.index_fanout_fragments k s =
    (file : ℕ) × (buffer : List ℕ) × (s ≡ new_file file buffer)
MemberIn ServerState.received_fragment k s =
    (c : FragmentCreation) × (buffer : List ℕ) × (s ≡ raw_buffer (store_fragment c) buffer)
MemberIn ServerState.index_request_fragments k s = (w : Wanted) × (s ≡ wanted w)
MemberIn ServerState.wait_request_fragments k s = (r : Request) × (fd : ℕ) × (s ≡ requested r fd)
MemberIn ServerState.index_handle_dead_peer k s = ⊥
MemberIn ServerState.other k s = ⊥
MemberIn st k s = Unit {0}

abbrev pub Member : Server → Stored → Type 0
Member sv s = MemberIn sv.state sv.connected s

pub quiet-MemberIn : (st : ServerState) (k : ℕ) (s : Stored) → reads st ≡ false → MemberIn st k s
quiet-MemberIn ServerState.received_packet k s e = cc
quiet-MemberIn ServerState.waiting_raw_packets k s e = cc
quiet-MemberIn ServerState.index_handle_new_file k s e = cc
quiet-MemberIn ServerState.index_fanout_fragments k s e = cc
quiet-MemberIn ServerState.received_fragment k s e = cc
quiet-MemberIn ServerState.index_request_fragments k s e = cc
quiet-MemberIn ServerState.wait_request_fragments k s e = cc
quiet-MemberIn ServerState.booting k s e = tt
quiet-MemberIn ServerState.connecting k s e = tt
quiet-MemberIn ServerState.begin_operation k s e = tt
quiet-MemberIn ServerState.idle k s e = tt
quiet-MemberIn ServerState.index_present_itself k s e = tt
quiet-MemberIn ServerState.index_waiting_peers_knowledge k s e = cc
quiet-MemberIn ServerState.index_handle_dead_peer k s e = cc
quiet-MemberIn ServerState.wait_index_gossip k s e = tt
quiet-MemberIn ServerState.report_knowledge_to_index k s e = tt
quiet-MemberIn ServerState.waiting_new_peer k s e = tt
quiet-MemberIn ServerState.other k s e = cc

pub quiet-Member : (sv : Server) (s : Stored) → reads sv.state ≡ false → Member sv s
quiet-Member sv s e = quiet-MemberIn sv.state sv.connected s e

-- Case analysis inside a result.
pub if-P {ℓ} :
    {A : Type ℓ} (P : A → Type 0) (test : Bool) (x y : A) → P x → P y → P (if test then x else y)
if-P P true x y h k = h
if-P P false x y h k = k

pub option-P {ℓ κ} :
    {A : Type ℓ} {B : Type κ} (P : B → Type 0) (o : Option A) (x : B) (f : A → B)
    → P x
    → ((a : A) → P (f a))
    → P (elim o [ none ↦ x | some a ↦ f a ])
option-P P none x f h k = h
option-P P (some a) x f h k = k a

-- The outcome of a handler that may wait.
abbrev pub Ends {ℓ} : {A : Type ℓ} → (A → Type 0) → Wait A → Type 0
Ends P (done a) = P a
Ends P blocked = Unit {0}
Ends P fault = Unit {0}

pub gives-P {ℓ κ} :
    {A : Type ℓ} {B : Type κ} (P : B → Type 0) (Q : A → Type 0) (o : Option A) (x : B) (f : A → B)
    → Gives Q o
    → P x
    → ((a : A) → Q a → P (f a))
    → P (elim o [ none ↦ x | some a ↦ f a ])
unfolding Gives
gives-P P Q none x f given h k = h
gives-P P Q (some a) x f given h k = k a given

pub wait-P {ℓ κ} :
    {A : Type ℓ} {B : Type κ} (P : B → Type 0) (Q : A → Type 0) (w : Wait A) (f : A → Wait B)
    → Ends Q w
    → ((a : A) → Q a → Ends P (f a))
    → Ends P (elim w [ fault ↦ fault | blocked ↦ blocked | done a ↦ f a ])
wait-P P Q (done a) f h next = next a h
wait-P P Q blocked f h next = tt
wait-P P Q fault f h next = tt

pub always {ℓ} : {A : Type ℓ} (w : Wait A) → Ends (λ (a : A). Unit {0}) w
always (done a) = tt
always blocked = tt
always fault = tt

abbrev Served : Server × Stored × List Packet → Type 0
Served x = Member (x.0) (x.1)

serve-Served : (sv : Server) (e : Events) → IsQuiet sv → Served (serve sv e)
unfolding serve serve_client serve_accepted take_packet set_state
serve-Served sv e quiet =
    if-P Served (has_client sv && e.has_data) _ _
      (if-P (λ (x : Server × Stored). Member (x.0) (x.1)) (is_empty e.client_packet) _ _
        (quiet-Member sv nothing quiet)
        (option-P (λ (x : Server × Stored). Member (x.0) (x.1)) sv.client_fd _ _
          (quiet-Member sv nothing quiet) (λ fd. (e.client_packet, fd, refl))))
      (option-P Served e.accepted _ _ (quiet-Member sv nothing quiet) (λ c.
        if-P Served (wait_client_presentation e.first == 0) _ _ (quiet-Member sv nothing quiet) (
          if-P Served (wait_client_presentation e.first == client_node_id) _ _
            (quiet-Member sv nothing quiet)
            (if-P Served (is_empty e.second) _ _ (quiet-Member sv nothing quiet)
              (e.second, c, refl)))))

abbrev pub Idles : Idled → Type 0
Idles r = Member r.server r.stored

pub idle-Member : (sv : Server) (e : Events) → IsQuiet sv → Gives Idles (idle sv e)
unfolding idle
idle-Member sv e quiet =
    Gives->>= QuietFirst Idles (healthcheck sv e.peeked e.now) _
      (healthcheck-IsQuiet sv e.peeked e.now quiet)
      (λ checked quiet'.
        Gives->>= QuietFirst Idles
          (if is_peerb_connected (checked.0)
            then check_peer_b (checked.0) e.notice e.dialed e.now
            else some (checked.0, []))
          _
          (Gives-if QuietFirst (is_peerb_connected (checked.0)) _ _
            (check_peer_b-IsQuiet (checked.0) e.notice e.dialed e.now quiet')
            (Gives-some QuietFirst (checked.0, []) quiet'))
          (λ told quiet''. Gives-some Idles _ (serve-Served (told.0) e quiet'')))

pub set_state-state : (sv : Server) (st : ServerState) (now : ℕ) → (set_state sv st now).state ≡ st
unfolding set_state
set_state-state sv ServerState.booting now = refl
set_state-state sv ServerState.connecting now = refl
set_state-state sv ServerState.begin_operation now = refl
set_state-state sv ServerState.idle now = refl
set_state-state sv ServerState.received_packet now = refl
set_state-state sv ServerState.waiting_raw_packets now = refl
set_state-state sv ServerState.received_fragment now = refl
set_state-state sv ServerState.wait_request_fragments now = refl
set_state-state sv ServerState.index_present_itself now = refl
set_state-state sv ServerState.index_waiting_peers_knowledge now = refl
set_state-state sv ServerState.index_handle_dead_peer now = refl
set_state-state sv ServerState.index_handle_new_file now = refl
set_state-state sv ServerState.index_fanout_fragments now = refl
set_state-state sv ServerState.index_request_fragments now = refl
set_state-state sv ServerState.wait_index_gossip now = refl
set_state-state sv ServerState.report_knowledge_to_index now = refl
set_state-state sv ServerState.waiting_new_peer now = refl
set_state-state sv ServerState.other now = refl
