-- ===== src/Examples/Announcing.antt =====
-- The announcement of the index round a ring of three nodes.
use distributed_storage_syst.Prelude.{◌+◌, ◌≡◌, refl, List, [], ◌∷◌, none, some, true, length}
use distributed_storage_syst.Server.{Server, ServerState, is_index}
use distributed_storage_syst.FileServer
use distributed_storage_syst.NetIndex
use distributed_storage_syst.Gossip.{Presentation, begin_operation, present_itself, go_round}
use distributed_storage_syst.Gossip.Round.{AllKnow, announced}
use distributed_storage_syst.Examples.{localhost, addresses, node, no_files}

announced_example :
    (index' index'' : Server) × (p : Presentation) × (svs' : List Server) × (begin_operation
        (node 3 2 1)
        no_files
        NetIndex.init
        addresses
        7
      ≡ some (index', no_files, NetIndex.init))
    × (present_itself index' true 7 ≡ some (index'', p))
    × (go_round (node 1 3 2 ∷ node 2 1 3 ∷ []) p 7 ≡ some (svs', none))
    × (is_index index'' ≡ true)
    × (index''.state ≡ ServerState.index_waiting_peers_knowledge)
    × (index''.connected ≡ 0)
    × (length svs' + 1 ≡ 3)
    × AllKnow 3 (localhost 5000) svs'
unfolding FileServer.init
announced_example =
    announced (node 3 2 1) (node 1 3 2) (node 2 1 3 ∷ []) no_files NetIndex.init addresses 7 refl
      refl refl (refl, refl, (refl, refl, tt))
