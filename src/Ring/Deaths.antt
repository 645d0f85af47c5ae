-- ===== src/Ring/Deaths.antt =====
-- What a death changes: the counts, the table of the index, and the forward peer.
use distributed_storage_syst.Prelude.{
  ℕ, ◌+◌, ◌-◌, ◌%◌, ◌^◌, ◌<◌, ◌≤◌, ◌≡◌, ◌≢◌, ◌∙◌, ap, refl, true, false, List, [], ◌∷◌, Option,
  none, some, arith, ◌==◌, if◌then◌else◌, ◌⊎◌, inl, inr, store?_of_lt, set, get_elem?-set_self,
  length, get_elem?-set_ne, ℕ_discrete,
}
use native.Mathlib.Nat.{mod-eq_of_lt}
use distributed_storage_syst.Address.{Address, zero_address}
use distributed_storage_syst.Server.{
  Server, ServerState, IndexData, PeerConnection, dial_peer, is_valid_node, is_index, set_state,
}
use distributed_storage_syst.Ring.{
  Notice, type_peer_died, healthcheck, forget_address, check_peer_b, on_peer_died, replace_peer_f,
  peer_dead, peer_died_forward, increment, decrement,
}

-- Only the index has a table, and the id is one of those in it.
abbrev pub HasEntry : Server → ℕ → Type 0
HasEntry sv id =
    (is_index sv ≡ false)
    ⊎ ((is_index sv ≡ true)
        × ((d : IndexData) × (sv.index_data ≡ some d) × (0 < id) × (id ≤ length d.peer_ips)))

-- The table with the address of a node cleared.
abbrev pub without : Option IndexData → ℕ → Option IndexData
without none id = none
without (some d) id = some (record d { peer_ips = set d.peer_ips (id - 1) zero_address })

-- A node whose connection to the backward peer has closed, with a size of the network of 2 or more
-- and both counts below 2^63, the peer an entry of the table at the index, counts one death and
-- takes two nodes off the size; it sends one notice, of type TYPE_PEER_DIED, under its own id,
-- with the id of that peer and its own address, and waits for a new peer; the index alone forgets
-- the peer's address.
pub healthcheck_closed :
    (sv : Server) (now : ℕ)
    → sv.peer_b.is_open ≡ true
    → 2 ≤ sv.net_size
    → sv.net_size < 2 ^ 63
    → sv.death_count < 2 ^ 63
    → HasEntry sv sv.peer_b.node_id
    → (sv' : Server) × (healthcheck sv 0 now
        ≡ some (
          sv',
          record {
            sender_id = sv.me.node_id;
            type = 21;
            peer_id = sv.peer_b.node_id;
            sender_address = sv.me.ip;
          }
              ∷ [],
        ))
      × (sv'.net_size + 2 ≡ sv.net_size)
      × (sv'.death_count ≡ sv.death_count + 1)
      × (sv'.state ≡ ServerState.waiting_new_peer)
      × (sv'.peer_b.is_open ≡ false)
      × (sv'.index_data
          ≡ (if is_index sv then without sv.index_data sv.peer_b.node_id else sv.index_data))
unfolding healthcheck peer_dead
healthcheck_closed sv now open' big small few (inl other) = (
  record sv {
    peer_b = record (sv.peer_b) { is_open = false };
    net_size = decrement (decrement sv.net_size);
    death_count = increment sv.death_count;
    state = ServerState.waiting_new_peer;
    state_changed_at = now;
  },
  ground arith,
  omega arith,
  omega arith,
  refl,
  refl,
  ground arith,
)
healthcheck_closed sv now open' big small few (inr (index, (d, known, pos, le))) = (
  record sv {
    peer_b = record (sv.peer_b) { is_open = false };
    net_size = decrement (decrement sv.net_size);
    death_count = increment sv.death_count;
    state = ServerState.waiting_new_peer;
    state_changed_at = now;
    index_data = some (record d { peer_ips = set d.peer_ips (sv.peer_b.node_id - 1) zero_address });
  },
  ground (arith, store?_of_lt d.peer_ips (sv.peer_b.node_id - 1) zero_address),
  omega arith,
  omega arith,
  refl,
  refl,
  ground arith,
)

-- The forward peer that takes the place of a dead one: of the given address and id, and open if the
-- connection to it was made.
abbrev pub promoted : PeerConnection → Address → ℕ → Option ℕ → PeerConnection
promoted c a id none = record c { is_open = false; ip = a; node_id = id }
promoted c a id (some fd) = record c {
  is_open = true;
  ip = a;
  node_id = id;
  stream_fd = some fd;
  tx = 0;
  rx = 0;
}

-- What a node knows after a notice of the death of `id`.
abbrev pub noted : Server → Notice → Option ℕ → ℕ → Server
noted sv p fd now = record sv {
  net_size = sv.net_size - 1;
  death_count = sv.death_count + 1;
  peer_f =
      if sv.peer_f.node_id == p.peer_id
      then promoted sv.peer_f p.sender_address ((sv.me.node_id + 1) % 2 ^ 64 % (sv.net_size - 1)) fd
      else sv.peer_f;
  index_data = if is_index sv then without sv.index_data p.peer_id else sv.index_data;
  state =
      if is_index sv
      then sv.state
      else if p.peer_id == sv.index.node_id
      then ServerState.begin_operation
      else sv.state;
  state_changed_at =
      if is_index sv
      then sv.state_changed_at
      else if p.peer_id == sv.index.node_id
      then now
      else sv.state_changed_at;
}

counts :
    (sv : Server)
    → 2 ≤ sv.net_size
    → sv.net_size < 2 ^ 63
    → sv.death_count < 2 ^ 63
    → (decrement sv.net_size ≡ sv.net_size - 1) × (increment sv.death_count ≡ sv.death_count + 1)
counts sv big small few = (omega arith, omega arith)

on_peer_died_lem :
    (sv : Server) (p : Notice) (fd : Option ℕ) (now : ℕ)
    → 2 ≤ sv.net_size
    → sv.net_size < 2 ^ 63
    → sv.death_count < 2 ^ 63
    → HasEntry sv p.peer_id
    → on_peer_died sv p fd now
      ≡ some (
        noted sv p fd now,
        if sv.peer_f.node_id == p.peer_id then [] else record p { sender_id = sv.me.node_id } ∷ [],
      )
unfolding on_peer_died peer_died_forward is_index set_state replace_peer_f dial_peer forget_address
on_peer_died_lem sv p none now big small few (inl other) =
    let (dec, inc) = counts sv big small few in rw (dec, inc) (ground (arith, other))
on_peer_died_lem sv p (some fd) now big small few (inl other) =
    let (dec, inc) = counts sv big small few in rw (dec, inc) (ground (arith, other))
on_peer_died_lem sv p none now big small few (inr (index, (d, known, pos', le))) =
    let (dec, inc) = counts sv big small few in
    rw (dec, inc) (ground (arith, store?_of_lt d.peer_ips (p.peer_id - 1) zero_address))
on_peer_died_lem sv p (some fd) now big small few (inr (index, (d, known, pos', le))) =
    let (dec, inc) = counts sv big small few in
    rw (dec, inc) (ground (arith, store?_of_lt d.peer_ips (p.peer_id - 1) zero_address))

check_peer_b_lem :
    (sv : Server) (p : Notice) (fd : Option ℕ) (now : ℕ)
    → p.type ≡ type_peer_died
    → check_peer_b sv (some p) fd now ≡ on_peer_died sv p fd now
unfolding check_peer_b
check_peer_b_lem sv p fd now died = ground arith

-- A notice of a death, at a node whose size of the network is at least 2, moves one node from the
-- size to the count of deaths; the node whose forward peer is dead sends nothing and takes the
-- sender's address for its new forward peer, open when the connection is made; every other node
-- keeps its forward peer and sends it the notice with its own id; the index alone clears the
-- table's entry, and a node whose index has died begins again.
pub check_peer_b_dead :
    (sv : Server) (p : Notice) (fd : Option ℕ) (now : ℕ)
    → p.type ≡ type_peer_died
    → 2 ≤ sv.net_size
    → sv.net_size < 2 ^ 63
    → sv.death_count < 2 ^ 63
    → HasEntry sv p.peer_id
    → (sv' : Server) × (check_peer_b sv (some p) fd now
        ≡ some (
          sv',
          if sv.peer_f.node_id == p.peer_id
              then []
              else record p { sender_id = sv.me.node_id } ∷ [],
        ))
      × (sv'.net_size + 1 ≡ sv.net_size)
      × (sv'.net_size + sv'.death_count ≡ sv.net_size + sv.death_count)
      × (sv'.peer_f ≡ (
          if sv.peer_f.node_id == p.peer_id
          then promoted sv.peer_f p.sender_address ((sv.me.node_id + 1) % 2 ^ 64 % sv'.net_size) fd
          else sv.peer_f))
      × (sv'.index_data ≡ (if is_index sv then without sv.index_data p.peer_id else sv.index_data))
      × (sv'.state ≡ (
          if is_index sv
          then sv.state
          else if p.peer_id == sv.index.node_id
          then ServerState.begin_operation
          else sv.state))
check_peer_b_dead sv p fd now died big small few entry = (
  noted sv p fd now,
  check_peer_b_lem sv p fd now died ∙ on_peer_died_lem sv p fd now big small few entry,
  omega arith,
  omega arith,
  refl,
  refl,
  refl,
)

-- The index that is told of a death of another node of the table, its size of the network at least
-- 2, no longer takes that node for valid, and its opinion of every other id is what it was.
pub check_peer_b_invalidates :
    (sv : Server) (d : IndexData) (p : Notice) (fd : Option ℕ) (now id : ℕ)
    → p.type ≡ type_peer_died
    → 2 ≤ sv.net_size
    → sv.net_size < 2 ^ 63
    → sv.death_count < 2 ^ 63
    → is_index sv ≡ true
    → sv.index_data ≡ some d
    → 0 < p.peer_id
    → p.peer_id ≤ length d.peer_ips
    → p.peer_id ≢ sv.me.node_id
    → (sv' : Server) × (notices : List Notice) × (check_peer_b sv (some p) fd now
        ≡ some (sv', notices))
      × (is_valid_node sv' id ≡ (if id == p.peer_id then some false else is_valid_node sv id))
unfolding is_valid_node
check_peer_b_invalidates sv d p fd now id died big small few index known pos le other = (
  noted sv p fd now,
  if sv.peer_f.node_id == p.peer_id then [] else record p { sender_id = sv.me.node_id } ∷ [],
  check_peer_b_lem sv p fd now died
      ∙ on_peer_died_lem sv p fd now big small few (inr (index, (d, known, pos, le))),
  rw (index, known)
      (elim (ℕ_discrete id p.peer_id) [
        | yes same ↦ rw (same) (
            ground
              (arith, get_elem?-set_self d.peer_ips (p.peer_id - 1) zero_address (omega arith)))
        | no apart ↦ elim (ℕ_discrete id 0) [
          | yes nought ↦ ground arith
          | no some' ↦
              let away : p.peer_id - 1 ≢ id - 1 = λ e. apart (omega arith) in
              ground (arith, get_elem?-set_ne d.peer_ips (p.peer_id - 1) (id - 1) zero_address away)
        ]
      ]),
)

-- A node with an id of at least three below the size of the network, told of the death of its
-- forward peer, the node of the next id, gives its new forward peer the id of the dead one.
pub check_peer_b_stale_id :
    (sv : Server) (p : Notice) (fd : Option ℕ) (now : ℕ)
    → p.type ≡ type_peer_died
    → sv.me.node_id + 3 ≤ sv.net_size
    → sv.net_size < 2 ^ 63
    → sv.death_count < 2 ^ 63
    → HasEntry sv p.peer_id
    → p.peer_id ≡ sv.me.node_id + 1
    → sv.peer_f.node_id ≡ p.peer_id
    → (sv' : Server) × (check_peer_b sv (some p) fd now ≡ some (sv', []))
      × (sv'.peer_f.node_id ≡ p.peer_id)
check_peer_b_stale_id sv p fd now died big small few entry next mine =
    let same : sv.me.node_id + 1 < sv.net_size - 1 = omega arith in
    let wrapped : (sv.me.node_id + 1) % 2 ^ 64 ≡ sv.me.node_id + 1 = omega arith in
    let new_id : (sv.me.node_id + 1) % 2 ^ 64 % (sv.net_size - 1) ≡ sv.me.node_id + 1 =
      ap (λ (k : ℕ). k % (sv.net_size - 1)) wrapped ∙ mod-eq_of_lt same in
    (
      noted sv p fd now,
      check_peer_b_lem sv p fd now died
          ∙ on_peer_died_lem sv p fd now (omega arith) small few entry
          ∙ ground (arith, mine),
      rw (mine, new_id, next) (elim fd [ none ↦ ground arith | some f ↦ ground arith ]),
    )
