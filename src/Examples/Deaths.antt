-- ===== src/Examples/Deaths.antt =====
-- The theorems on the ring at concrete inputs.
use distributed_storage_syst.Prelude.{
  ℕ, ◌+◌, ◌%◌, ◌<◌, ◌≤◌, ◌≡◌, refl, List, [], ◌∷◌, none, some, false, arith, inl, inr,
}
use distributed_storage_syst.Server
use distributed_storage_syst.Server.{Server, ServerState, IndexData, is_valid_node, is_index}
use distributed_storage_syst.Ring.{Notice, type_peer_died, healthcheck, check_peer_b}
use distributed_storage_syst.Ring.Neighbours.{peer_b-init}
use distributed_storage_syst.Ring.Deaths.{
  without, promoted, healthcheck_closed, check_peer_b_dead, check_peer_b_invalidates,
  check_peer_b_stale_id,
}
use distributed_storage_syst.Examples.{localhost, addresses, node, index_node, options}

abbrev notice : ℕ → Notice
notice id = record {
  sender_id = id + 1;
  type = type_peer_died;
  peer_id = id;
  sender_address = localhost 5009;
}

peer_b-init_example :
    (sv' : Server) × (Server.init index_node options ≡ some sv')
    × (sv'.peer_b.node_id % 3 + 1 ≡ 1)
    × (0 < sv'.peer_b.node_id)
    × (sv'.peer_b.node_id ≤ 3)
peer_b-init_example = peer_b-init index_node options (omega arith) (omega arith) (omega arith)

healthcheck_closed_example :
    (sv' : Server) × (healthcheck index_node 0 7
      ≡ some (
        sv',
        record { sender_id = 3; type = 21; peer_id = 2; sender_address = localhost 5000 } ∷ [],
      ))
    × (sv'.net_size + 2 ≡ 3)
    × (sv'.death_count ≡ 1)
    × (sv'.state ≡ ServerState.waiting_new_peer)
    × (sv'.peer_b.is_open ≡ false)
    × (sv'.index_data ≡ without (some addresses) 2)
unfolding is_index
healthcheck_closed_example =
    healthcheck_closed index_node 7 refl (omega arith) (omega arith) (omega arith)
      (inr (refl, (addresses, refl, omega arith, omega arith)))

check_peer_b_dead_example :
    (sv' : Server) × (check_peer_b (node 1 3 2) (some (notice 2)) none 7 ≡ some (sv', []))
    × (sv'.net_size + 1 ≡ 3)
    × (sv'.net_size + sv'.death_count ≡ 3)
    × (sv'.peer_f ≡ promoted (node 1 3 2).peer_f (localhost 5009) (2 % sv'.net_size) none)
    × (sv'.index_data ≡ none)
    × (sv'.state ≡ ServerState.idle)
unfolding is_index
check_peer_b_dead_example =
    check_peer_b_dead (node 1 3 2) (notice 2) none 7 refl (omega arith) (omega arith) (omega arith)
      (inl refl)

check_peer_b_invalidates_example :
    (sv' : Server) × (notices : List Notice) × (check_peer_b index_node (some (notice 1)) (some 9) 7
      ≡ some (sv', notices))
    × (is_valid_node sv' 1 ≡ some false)
unfolding is_index
check_peer_b_invalidates_example =
    check_peer_b_invalidates index_node addresses (notice 1) (some 9) 7 1 refl (omega arith)
      (omega arith) (omega arith) refl refl (omega arith) (omega arith) (λ e. omega arith)

check_peer_b_stale_id_example :
    (sv' : Server) × (check_peer_b
        (record (node 1 4 2) { net_size = 4 })
        (some (notice 2))
        (some 9)
        7
      ≡ some (sv', []))
    × (sv'.peer_f.node_id ≡ 2)
unfolding is_index
check_peer_b_stale_id_example =
    check_peer_b_stale_id (record (node 1 4 2) { net_size = 4 }) (notice 2) (some 9) 7 refl
      (omega arith) (omega arith) (omega arith) (inl refl) refl refl
