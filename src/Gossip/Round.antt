-- ===== src/Gossip/Round.antt =====
-- The announcement of the index reaches every node of the ring, and stops before the index.
use distributed_storage_syst.Prelude.{
  ℕ, ◌+◌, ◌≡◌, ◌≢◌, ◌∙◌, refl, sym, true, false, List, [], ◌∷◌, none, some, arith, ==_refl, ne→==,
  >>=-some, length,
}
use distributed_storage_syst.Address.{Address}
use distributed_storage_syst.Server.{Server, ServerState, IndexData, set_state, is_index}
use distributed_storage_syst.FileServer.{FileServer}
use distributed_storage_syst.NetIndex.{NetIndex}
use distributed_storage_syst.Rebuild.{report_files, save_all}
use distributed_storage_syst.Gossip.{
  Presentation, begin_operation, present_itself, wait_index_gossip, go_round,
}

-- The nodes `i`, `i + 1` and so on, each with the next for its forward peer.
abbrev pub InRing : ℕ → List Server → Type 0
InRing i [] = Unit {0}
InRing i (sv ∷ svs) = (sv.me.node_id ≡ i) × (sv.peer_f.node_id ≡ i + 1) × InRing (i + 1) svs

-- The node has the index of the given id and address, is not itself the index, and goes on to report.
abbrev pub Knows : ℕ → Address → Server → Type 0
Knows n addr sv =
    (sv.index.node_id ≡ n)
    × (sv.index.ip ≡ addr)
    × (is_index sv ≡ false)
    × (sv.state ≡ ServerState.report_knowledge_to_index)

abbrev pub AllKnow : ℕ → Address → List Server → Type 0
AllKnow n addr [] = Unit {0}
AllKnow n addr (sv ∷ svs) = Knows n addr sv × AllKnow n addr svs

-- A node after the packet.
abbrev pub told : Server → Presentation → ℕ → Server
told sv p now = record sv {
  index = record (sv.index) { ip = p.index_addr; node_id = p.index_id };
  state = ServerState.report_knowledge_to_index;
  state_changed_at = now;
}

told-Knows :
    (sv : Server) (n : ℕ) (p : Presentation) (now : ℕ)
    → p.index_id ≡ n
    → n ≢ sv.me.node_id
    → Knows n p.index_addr (told sv p now)
unfolding is_index
told-Knows sv n p now index other =
    (index, refl, ne→== p.index_id sv.me.node_id (λ e. other (sym index ∙ e)), refl)

-- The last node sends nothing, and any other sends the packet on.
heard_last :
    (sv : Server) (p : Presentation) (now : ℕ)
    → p.index_id ≡ sv.peer_f.node_id
    → wait_index_gossip sv p true now ≡ some (told sv p now, none)
unfolding wait_index_gossip set_state
heard_last sv p now e = ground arith

heard_inner :
    (sv : Server) (p : Presentation) (now : ℕ)
    → p.index_id ≢ sv.peer_f.node_id
    → wait_index_gossip sv p true now
      ≡ some (told sv p now, some (record p { sender_id = sv.me.node_id }))
unfolding wait_index_gossip set_state
heard_inner sv p now e = ground arith

go_round-AllKnow :
    (sv : Server) (svs : List Server) (i n : ℕ) (p : Presentation) (now : ℕ)
    → InRing i (sv ∷ svs)
    → i + length svs + 1 ≡ n
    → p.index_id ≡ n
    → (svs' : List Server) × (go_round (sv ∷ svs) p now ≡ some (svs', none))
      × (length svs' ≡ length svs + 1)
      × AllKnow n p.index_addr svs'
unfolding go_round
go_round-AllKnow sv [] i n p now (me, front, ring) count index = (
  told sv p now ∷ [],
  >>=-some _ (heard_last sv p now (omega arith)) refl,
  refl,
  (told-Knows sv n p now index (omega arith), tt),
)
go_round-AllKnow sv (next ∷ svs) i n p now (me, front, ring) count index =
    let (svs', run, len, know) =
      go_round-AllKnow next svs (i + 1) n (record p { sender_id = sv.me.node_id }) now ring
        (omega arith) index in
    (
      told sv p now ∷ svs',
      >>=-some _ (heard_inner sv p now (omega arith)) (>>=-some _ run refl),
      omega arith,
      (told-Knows sv n p now index (omega arith), know),
    )

-- In a network of n nodes, two at least, whose nodes 1, ..., n - 1 each have the next for their
-- forward peer, a node n without files that begins operation announces itself, and while every
-- write succeeds the packet reaches every other node and stops before the index: each of them then
-- has the index with its id and address, does not take itself for the index, and goes on to
-- report; the index waits for the reports, with none counted.
pub announced :
    (index sv : Server) (svs : List Server) (fs : FileServer) (net : NetIndex) (memory : IndexData)
    (now : ℕ)
    → fs.file_count ≡ 0
    → index.net_size ≡ index.me.node_id
    → length svs + 2 ≡ index.net_size
    → InRing 1 (sv ∷ svs)
    → (index' index'' : Server) × (p : Presentation) × (svs' : List Server) × (begin_operation index
          fs net memory now
        ≡ some (index', fs, net))
      × (present_itself index' true now ≡ some (index'', p))
      × (go_round (sv ∷ svs) p now ≡ some (svs', none))
      × (is_index index'' ≡ true)
      × (index''.state ≡ ServerState.index_waiting_peers_knowledge)
      × (index''.connected ≡ 0)
      × (length svs' + 1 ≡ index.net_size)
      × AllKnow index.net_size index.me.ip svs'
unfolding begin_operation present_itself set_state is_index report_files save_all
announced index sv svs fs net memory now empty elected size ring =
    let index' : Server = record index {
      index_data = some memory;
      state = ServerState.index_present_itself;
      state_changed_at = now;
    } in
    let p : Presentation = record {
      sender_id = index.me.node_id;
      index_id = index.me.node_id;
      index_addr = index.me.ip;
    } in
    let (svs', run, len, know) =
      go_round-AllKnow sv svs 1 index.net_size p now ring (omega arith) (sym elected) in
    (
      index',
      record index' {
        index = record (index.index) { node_id = index.me.node_id };
        state = ServerState.index_waiting_peers_knowledge;
        connected = 0;
      },
      p,
      svs',
      rw (elected, ==_refl index.me.node_id, empty) refl,
      refl,
      run,
      ==_refl index.me.node_id,
      refl,
      refl,
      omega arith,
      know,
    )
