-- ===== src/Machine/Quiet.antt =====
-- The states that read no member of `machine_state`, and the handlers that lead to no others.
use distributed_storage_syst.Prelude.{
  ℕ, ◌≡◌, refl, Bool, true, false, [], Option, none, some, arith, subst, ◌>>=◌, ◌==◌, if◌then◌else◌,
}
use distributed_storage_syst.Server.{
  Server, ServerState, set_state, dial_peer, is_peerf_connected, is_peerb_connected, is_index,
}
use distributed_storage_syst.Gossip.{
  Presentation, booting, connecting, waiting_new_peer, accept_peer_b, begin_operation,
  wait_index_gossip,
}
use distributed_storage_syst.Server.{IndexData}
use distributed_storage_syst.Address.{Address}
use distributed_storage_syst.FileServer.{FileServer}
use distributed_storage_syst.NetIndex.{NetIndex}
use distributed_storage_syst.Ring.{
  type_peer_died, Notice, Outcome, increment, decrement, healthcheck, check_peer_b, on_peer_died,
  forget_address, replace_peer_f, peer_died_forward,
}

-- The states that read a member, and those that the switch has no case for.
abbrev pub reads : ServerState → Bool
reads ServerState.index_waiting_peers_knowledge = true
reads ServerState.received_packet = true
reads ServerState.waiting_raw_packets = true
reads ServerState.index_handle_new_file = true
reads ServerState.index_fanout_fragments = true
reads ServerState.received_fragment = true
reads ServerState.index_request_fragments = true
reads ServerState.wait_request_fragments = true
reads ServerState.index_handle_dead_peer = true
reads ServerState.other = true
reads st = false

abbrev pub IsQuiet : Server → Type 0
IsQuiet sv = reads sv.state ≡ false

-- What a handler gives, if it gives something, has a property.
unfoldable pub Gives {ℓ} : {A : Type ℓ} → (A → Type 0) → Option A → Type 0
Gives P none = Unit {0}
Gives P (some a) = P a

pub Gives-none {ℓ} : {A : Type ℓ} (P : A → Type 0) → Gives P none
unfolding Gives
Gives-none P = tt

pub Gives-some {ℓ} : {A : Type ℓ} (P : A → Type 0) (a : A) → P a → Gives P (some a)
unfolding Gives
Gives-some P a h = h

pub given {ℓ} : {A : Type ℓ} (P : A → Type 0) (m : Option A) (a : A) → Gives P m → m ≡ some a → P a
unfolding Gives
given P m a h e = subst (Gives P) e h

pub Gives->>= {ℓ κ} :
    {A : Type ℓ} {B : Type κ} (P : A → Type 0) (Q : B → Type 0) (m : Option A) (f : A → Option B)
    → Gives P m
    → ((a : A) → P a → Gives Q (f a))
    → Gives Q (m >>= f)
unfolding Gives
Gives->>= P Q none f h next = tt
Gives->>= P Q (some a) f h next = next a h

pub Gives-bind {ℓ κ} :
    {A : Type ℓ} {B : Type κ} (Q : B → Type 0) (m : Option A) (f : A → Option B)
    → ((a : A) → Gives Q (f a))
    → Gives Q (m >>= f)
unfolding Gives
Gives-bind Q none f next = tt
Gives-bind Q (some a) f next = next a

pub Gives-if {ℓ} :
    {A : Type ℓ} (P : A → Type 0) (test : Bool) (m n : Option A)
    → Gives P m
    → Gives P n
    → Gives P (if test then m else n)
Gives-if P true m n g h = g
Gives-if P false m n g h = h

-- A server beside what was sent.
abbrev pub QuietFirst : {A : Type 0} → Server × A → Type 0
QuietFirst x = IsQuiet (x.0)

pub booting-IsQuiet : (sv : Server) (fd : Option ℕ) (now : ℕ) → Gives IsQuiet (booting sv fd now)
unfolding booting set_state
booting-IsQuiet sv none now = Gives-none IsQuiet
booting-IsQuiet sv (some fd) now = Gives-some IsQuiet _ refl

pub connecting-IsQuiet :
    (sv : Server) (client fd : Option ℕ) (now : ℕ)
    → IsQuiet sv
    → IsQuiet (connecting sv client fd now)
unfolding connecting accept_peer_b dial_peer set_state is_peerf_connected is_peerb_connected
connecting-IsQuiet sv client fd now quiet = ground arith

pub waiting_new_peer-IsQuiet :
    (sv : Server) (client : Option ℕ) (now : ℕ)
    → IsQuiet sv
    → IsQuiet (waiting_new_peer sv client now)
unfolding waiting_new_peer accept_peer_b set_state is_peerb_connected
waiting_new_peer-IsQuiet sv none now quiet = quiet
waiting_new_peer-IsQuiet sv (some client) now quiet = ground arith

pub wait_index_gossip-IsQuiet :
    (sv : Server) (p : Presentation) (written : Bool) (now : ℕ)
    → Gives QuietFirst (wait_index_gossip sv p written now)
unfolding wait_index_gossip set_state
wait_index_gossip-IsQuiet sv p written now =
    Gives-if QuietFirst (p.index_id == sv.peer_f.node_id) _ _ (Gives-some QuietFirst _ refl)
      (Gives-if QuietFirst written _ _ (Gives-some QuietFirst _ refl) (Gives-none QuietFirst))

abbrev pub QuietNode : Server × FileServer × NetIndex → Type 0
QuietNode x = IsQuiet (x.0)

pub begin_operation-IsQuiet :
    (sv : Server) (fs : FileServer) (net : NetIndex) (memory : IndexData) (now : ℕ)
    → Gives QuietNode (begin_operation sv fs net memory now)
unfolding begin_operation set_state
begin_operation-IsQuiet sv fs net memory now =
    Gives-if QuietNode (sv.net_size == sv.me.node_id) _ _
      (Gives-bind QuietNode _ _ (λ x. Gives-some QuietNode _ refl)) (Gives-some QuietNode _ refl)

forget_address-IsQuiet : (sv : Server) (id : ℕ) → IsQuiet sv → Gives IsQuiet (forget_address sv id)
unfolding forget_address
forget_address-IsQuiet sv id quiet =
    Gives-bind IsQuiet sv.index_data _
      (λ d. Gives-bind IsQuiet _ _ (λ ips. Gives-some IsQuiet _ quiet))

pub healthcheck-IsQuiet :
    (sv : Server) (peeked now : ℕ) → IsQuiet sv → Gives QuietFirst (healthcheck sv peeked now)
unfolding healthcheck set_state
healthcheck-IsQuiet sv peeked now quiet =
    Gives-if QuietFirst (is_peerb_connected sv) _ _
      (Gives-if QuietFirst (peeked == 0) _ _
        (Gives-bind QuietFirst _ _ (λ x. Gives-some QuietFirst _ refl))
        (Gives-some QuietFirst _ quiet))
      (Gives-some QuietFirst _ quiet)

replace_peer_f-IsQuiet :
    (sv : Server) (widow : Address) (fd : Option ℕ)
    → IsQuiet sv
    → Gives IsQuiet (replace_peer_f sv widow fd)
unfolding replace_peer_f dial_peer
replace_peer_f-IsQuiet sv widow none quiet =
    Gives-if IsQuiet (sv.net_size == 0) _ _ (Gives-none IsQuiet) (Gives-some IsQuiet _ quiet)
replace_peer_f-IsQuiet sv widow (some fd) quiet =
    Gives-if IsQuiet (sv.net_size == 0) _ _ (Gives-none IsQuiet) (Gives-some IsQuiet _ quiet)

-- What becomes of the forward peer, and of what the index or the node knows.
abbrev reaction : Server → Notice → Option ℕ → Option Outcome
reaction sv p fd =
    if sv.peer_f.node_id == p.peer_id
    then (do sv' ← replace_peer_f sv p.sender_address fd; some (sv', []))
    else some (peer_died_forward sv p)

abbrev aftermath : Server → Notice → ℕ → Option Server
aftermath sv p now =
    if is_index sv
    then forget_address sv p.peer_id
    else (if p.peer_id == sv.index.node_id
        then some (set_state sv ServerState.begin_operation now)
        else some sv)

reaction-IsQuiet :
    (sv : Server) (p : Notice) (fd : Option ℕ) → IsQuiet sv → Gives QuietFirst (reaction sv p fd)
unfolding peer_died_forward
reaction-IsQuiet sv p fd quiet =
    Gives-if QuietFirst (sv.peer_f.node_id == p.peer_id) _ _
      (Gives->>= IsQuiet QuietFirst (replace_peer_f sv p.sender_address fd) (λ sv'. some (sv', []))
        (replace_peer_f-IsQuiet sv p.sender_address fd quiet)
        (λ sv' quiet'. Gives-some QuietFirst (sv', []) quiet'))
      (Gives-some QuietFirst (peer_died_forward sv p) quiet)

aftermath-IsQuiet :
    (sv : Server) (p : Notice) (now : ℕ) → IsQuiet sv → Gives IsQuiet (aftermath sv p now)
unfolding set_state
aftermath-IsQuiet sv p now quiet =
    Gives-if IsQuiet (is_index sv) _ _ (forget_address-IsQuiet sv p.peer_id quiet) (
      Gives-if IsQuiet (p.peer_id == sv.index.node_id) _ _ (Gives-some IsQuiet _ refl)
        (Gives-some IsQuiet sv quiet))

on_peer_died-IsQuiet :
    (sv : Server) (p : Notice) (fd : Option ℕ) (now : ℕ)
    → IsQuiet sv
    → Gives QuietFirst (on_peer_died sv p fd now)
unfolding on_peer_died
on_peer_died-IsQuiet sv p fd now quiet =
    let counted : Server = record sv {
      net_size = decrement sv.net_size;
      death_count = increment sv.death_count;
    } in
    Gives->>= QuietFirst QuietFirst (reaction counted p fd)
      (λ told. do after ← aftermath (told.0) p now; some (after, told.1))
      (reaction-IsQuiet counted p fd quiet)
      (λ told quiet'.
        Gives->>= IsQuiet QuietFirst (aftermath (told.0) p now) (λ after. some (after, told.1))
          (aftermath-IsQuiet (told.0) p now quiet')
          (λ after quiet''. Gives-some QuietFirst (after, told.1) quiet''))

pub check_peer_b-IsQuiet :
    (sv : Server) (notice : Option Notice) (fd : Option ℕ) (now : ℕ)
    → IsQuiet sv
    → Gives QuietFirst (check_peer_b sv notice fd now)
unfolding check_peer_b
check_peer_b-IsQuiet sv none fd now quiet = Gives-some QuietFirst _ quiet
check_peer_b-IsQuiet sv (some p) fd now quiet =
    Gives-if QuietFirst (p.type == type_peer_died) _ _ (on_peer_died-IsQuiet sv p fd now quiet)
      (Gives-some QuietFirst _ quiet)
