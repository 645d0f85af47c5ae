-- ===== src/Examples/Collecting.antt =====
-- The theorems on what the index hears, and on what it asks for, at concrete inputs.
use distributed_storage_syst.Prelude.{
  ℕ, suc, ◌-◌, ne→==, ◌<◌, ◌≡◌, refl, List, [], ◌∷◌, some, none, arith, replicate, set, length,
  get_elem?, true, false, if◌then◌else◌, ◌==◌, ℕ_discrete,
}
use distributed_storage_syst.Server.{Server, ServerState, is_index, is_valid_node}
use distributed_storage_syst.FileServer
use distributed_storage_syst.FileServer.{
  FileServer, FileContainer, find_from, find_file_by_name, no_fragment, zero_file, max_files,
  new_container,
}
use distributed_storage_syst.NetIndex
use distributed_storage_syst.NetIndex.{NetIndex, FragmentPointer, no_pointer, blank_node}
use distributed_storage_syst.NewFile.Replicas.{IsLive, entry}
use distributed_storage_syst.NewFile.Placement.{TwoReplicas}
use distributed_storage_syst.Text.{strcmp_eq, cstr, same_bytes}
use distributed_storage_syst.Transfer.{done}
use distributed_storage_syst.Packets
use distributed_storage_syst.Packets.{
  Packet, presentation, request_file, Received, got, closed, request_file_response, not_ok_packet,
}
use distributed_storage_syst.Packets.MessageType
use distributed_storage_syst.Request.{pick_all}
use distributed_storage_syst.Request.Picks.{picked_after_death}
use distributed_storage_syst.Reassembly.{new_request}
use distributed_storage_syst.Machine.{wanted, requested}
use distributed_storage_syst.Machine.Taken.{Answers, Taken, received_packet}
use distributed_storage_syst.Machine.Requested.{Asks, file_requested}
use distributed_storage_syst.Machine.Knowledge.{Exchange}
use distributed_storage_syst.Machine.Collected.{dialed, told}
use distributed_storage_syst.Examples.{node, no_files, index_node, addresses, localhost}

-- Node 1 is the first to die; the index then counts two nodes and a death.
abbrev after_death : Server
after_death = record index_node {
  net_size = 2;
  death_count = 1;
  index_data = some (record addresses {
    peer_ips =
        record (localhost 0) { port = 0 } ∷ localhost 5002 ∷ record (localhost 0) { port = 0 } ∷ [];
  });
}

abbrev entries : List FragmentPointer
entries = entry 0 5 1 ∷ entry 0 5 2 ∷ entry 1 5 2 ∷ entry 1 5 3 ∷ entry 2 6 3 ∷ entry 2 6 1 ∷ []

placed : (j : ℕ) → j < 3 → TwoReplicas index_node j (if j == 2 then 6 else 5) entries
unfolding is_valid_node
placed j lt = elim (ℕ_discrete j 0) [
  | yes first ↦ rw first (1, 2, (λ e. cc), refl, refl, refl, refl)
  | no later ↦ elim (ℕ_discrete j 1) [
    | yes second ↦ rw second (2, 3, (λ e. cc), refl, refl, refl, refl)
    | no last ↦
        let third : j ≡ 2 = omega arith in rw third (3, 1, (λ e. cc), refl, refl, refl, refl)
  ]
]

died :
    (id : ℕ)
    → is_valid_node after_death id ≡ (if id == 1 then some false else is_valid_node index_node id)
unfolding is_valid_node
died id = elim (ℕ_discrete id 0) [
  | yes zero' ↦ rw zero' refl
  | no more ↦ elim (ℕ_discrete id 1) [
    | yes first ↦ rw first refl
    | no other ↦ elim (ℕ_discrete id 2) [
      | yes second ↦ rw second refl
      | no rest ↦ elim (ℕ_discrete id 3) [
        | yes third ↦ rw third refl
        | no outside ↦
            let behind : id - 1 ≡ suc (suc (suc (id - 4))) = omega arith in
            rw (ne→== id 0 more, ne→== id 1 other, is_valid_node, ne→== id 3 outside, behind) refl
      ]
    ]
  ]
]

picked_after_death_example :
    (frags : List FragmentPointer) × (e : FragmentPointer) × (pick_all 3 after_death 3 entries 0
      ≡ some frags)
    × (length frags ≡ 3)
    × (get_elem? frags 2 ≡ some e)
    × (e.fragment ≡ 3)
    × IsLive after_death e.node_id
picked_after_death_example =
    picked_after_death index_node after_death entries 3 2 1 (λ j. if j == 2 then 6 else 5) placed
      (omega arith) (λ e. cc) (λ e. cc) died (omega arith)

-- The index has a file of 7 bytes in three fragments.
abbrev name : List ℕ
name = 97 ∷ replicate 199 0

abbrev file : FileContainer
file = record zero_file { file_name = name; file_id = 1; size = 7; fragment_count_total = 3 }

abbrev files : FileServer
files = record { file_count = 1; files = file ∷ [] }

abbrev question : Packet
question = Packets.full (node 1 3 2) MessageType.request_file (request_file name)

question-Asks : Asks question name
unfolding Packets.full
question-Asks = record { typed = refl; named = refl }

node_is_no_index : is_index (node 1 3 2) ≡ false
unfolding is_index
node_is_no_index = refl

index_is_index : is_index index_node ≡ true
unfolding is_index
index_is_index = refl

abbrev hears : Packet → Answers
hears p = record {
  index_fd = some 8;
  from_index = got p;
  line = record { fd = none; replies = [] };
  now = 9;
}

abbrev passed : Packet
passed = record question { sender_id = 1 }

found : find_file_by_name files name ≡ some 0
unfolding find_file_by_name find_from strcmp_eq cstr same_bytes
found = refl

file_requested_example :
    (taken told : Taken) × (received_packet
        (node 1 3 2)
        no_files
        (got question)
        5
        (hears (request_file_response index_node 1 7 3))
      ≡ done taken)
    × (received_packet index_node files (got passed) 6 (hears question) ≡ done told)
    × (taken.to_index ≡ got (presentation (node 1 3 2)) ∷ got passed ∷ [])
    × (told.replies ≡ request_file_response index_node 1 7 3 ∷ [])
    × (taken.stored ≡ requested (new_request 1 7 3) 5)
    × (told.stored ≡ wanted (record { file_id = 1; fragment_count = 3; deliver_to = 1 }))
    × (taken.server.state ≡ ServerState.wait_request_fragments)
    × (told.server.state ≡ ServerState.index_request_fragments)
file_requested_example =
    file_requested (node 1 3 2) index_node no_files files question name question-Asks
      node_is_no_index index_is_index 5 6 8 (hears (request_file_response index_node 1 7 3))
      (hears question) refl 0 file found refl (omega arith) (omega arith) refl

-- Node 2 has a fragment of the file.
abbrev held : FileServer
held = record {
  file_count = 1;
  files =
      record file {
        slot0 = record { fragment_id = 1; fragment_bytes = some (1 ∷ 2 ∷ []); fragment_size = 2 };
        slot1 = record { fragment_id = 2; fragment_bytes = some (3 ∷ 4 ∷ []); fragment_size = 2 };
      }
      ∷ [];
}

abbrev exchange : Exchange
exchange = record {
  dialed = some 4;
  is_presented = true;
  answer = got (Packets.full index_node MessageType.ok Packets.zeros);
  is_reported = true;
  written = true ∷ [];
  replies = closed ∷ [];
  now = 8;
}

abbrev saved_files : FileServer
saved_files = record {
  file_count = 1;
  files = set (replicate max_files zero_file) 0 (new_container name 1 7 3);
}

abbrev saved_net : NetIndex
saved_net = record {
  file_count = 1;
  files = some 0;
  tail = some 0;
  heap =
      record (blank_node 1 6) {
        fragments =
            no_pointer
            ∷ record { fragment = 1; size = 2; node_id = 2 }
            ∷ record { fragment = 2; size = 2; node_id = 2 }
            ∷ no_pointer
            ∷ no_pointer
            ∷ no_pointer
            ∷ [];
      }
      ∷ [];
}
