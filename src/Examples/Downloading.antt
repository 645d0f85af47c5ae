-- ===== src/Examples/Downloading.antt =====
-- The theorems on requested files at concrete inputs: a file of seven bytes in three fragments. Node 1
-- is asked for it and has the first; node 2 has the other two; node 3 is the index.
use distributed_storage_syst.Prelude.{
  ℕ, ◌+◌, ◌%◌, ◌^◌, ◌<◌, ◌≡◌, ◌≢◌, refl, inl, inr, List, [], ◌∷◌, some, arith, replicate, length,
  length-replicate, ℕ_discrete, read_block,
}
use distributed_storage_syst.Server.{ServerState, set_state}
use distributed_storage_syst.FileServer
use distributed_storage_syst.FileServer.{
  FileServer, FileContainer, FileFragment, find_from, find_file_by_name, no_fragment, zero_file,
}
use distributed_storage_syst.Transfer.{
  done, packets, send_large_buffer_to, send_buckets, wait_large_buffer_from,
}
use distributed_storage_syst.Packets
use distributed_storage_syst.Packets.{
  Packet, presentation, request_file, Received, got, closed, request_file_response, not_ok_packet,
}
use distributed_storage_syst.Packets.MessageType
use distributed_storage_syst.Dialogue.{
  Talk, packet, plus, send_fragment, send_found, find_fragment, send_use_local,
}
use distributed_storage_syst.Reassembly.{Request, new_request}
use distributed_storage_syst.Reassembly.Arrival.{Has, sent, new_request-IsFor}
use distributed_storage_syst.Reassembly.Serve.{Incoming, wait_request_fragments}
use distributed_storage_syst.Reassembly.Delivery.{HoldsOwn, Takes, send_fragment-served, small}
use distributed_storage_syst.Reassembly.Sent.{Holds, all_ok, two_ok, delivery, incoming}
use distributed_storage_syst.Reassembly.Download.{from_holder, from_own, AllBring, downloaded}
use distributed_storage_syst.Reassembly.Covering.{piece}
use distributed_storage_syst.NewFile.{fragment_size}
use distributed_storage_syst.Examples.{node, index_node}

abbrev file : List ℕ
file = 1 ∷ 2 ∷ 3 ∷ 4 ∷ 5 ∷ 6 ∷ 7 ∷ []

abbrev fragment : ℕ → List ℕ → FileFragment
fragment id bytes = record {
  fragment_id = id;
  fragment_bytes = some bytes;
  fragment_size = length bytes;
}

-- A node with these fragments of the file, whose name is a single character.
abbrev having : FileFragment → FileFragment → FileServer
having slot0 slot1 = record {
  file_count = 1;
  files =
      record {
        file_name = 97 ∷ replicate 199 0;
        file_id = 1;
        size = 7;
        fragment_count_total = 3;
        slot0 = slot0;
        slot1 = slot1;
      }
      ∷ [];
}

abbrev own_files : FileServer
own_files = having (fragment 1 (1 ∷ 2 ∷ [])) no_fragment

abbrev other_files : FileServer
other_files = having (fragment 2 (3 ∷ 4 ∷ [])) (fragment 3 (5 ∷ 6 ∷ 7 ∷ []))

abbrev memory : ℕ → List ℕ
memory n = replicate n 0

block : (n : ℕ) → length (memory n) ≡ n
block n = length-replicate n 0

abbrev fits : length file + 4096 < 2 ^ 31
fits = omega arith

second-Holds : Holds file 3 1 other_files 1
unfolding FileServer.find_file find_from find_fragment fragment_size
second-Holds = (0, _, _, refl, refl, refl, refl, refl)

third-Holds : Holds file 3 1 other_files 2
unfolding FileServer.find_file find_from find_fragment fragment_size
third-Holds = (0, _, _, refl, refl, refl, refl, refl)

first-HoldsOwn : HoldsOwn file 3 fits (node 1 3 2) own_files memory block 1 0
unfolding FileServer.find_file find_from find_fragment fragment_size
first-HoldsOwn = (0, _, refl, refl, refl, _, refl, refl, refl)

second_partial : length (piece file 3 1) % 4096 ≢ 0
unfolding fragment_size
second_partial e = omega arith

third_partial : length (piece file 3 2) % 4096 ≢ 0
unfolding fragment_size
third_partial e = omega arith

abbrev request : Request
request = new_request 1 7 3

send_fragment-served_example :
    (talk : Talk) × (send_fragment
        (node 2 1 3)
        other_files
        (record { fd = some 5; replies = all_ok })
        1
        3
      ≡ done talk)
    × (talk.code ≡ plus 1)
    × Takes file 3 fits (node 1 3 2) own_files memory block request 2 (incoming talk.sent) all_ok
send_fragment-served_example =
    send_fragment-served file 3 fits (node 1 3 2) own_files memory block (node 2 1 3) other_files 5
      1 2 request (λ e. cc) third-Holds (omega arith) third_partial
      (new_request-IsFor file 3 (small file 3 fits (node 1 3 2) own_files memory block) 1)

-- What node 2 says for each of its fragments, and the index for that of node 1.
abbrev talk_of : ℕ → List ℕ → Talk
talk_of id bytes = record {
  code = plus 1;
  sent = delivery (node 2 1 3) 1 id (length bytes) 7 (bytes ∷ []);
}

second_said :
    send_fragment (node 2 1 3) other_files (record { fd = some 5; replies = all_ok }) 1 2
    ≡ done (talk_of 2 (3 ∷ 4 ∷ []))
unfolding send_fragment find_fragment send_found FileServer.find_file find_from send_large_buffer_to
    send_buckets read_block
second_said = refl

third_said :
    send_fragment (node 2 1 3) other_files (record { fd = some 5; replies = all_ok }) 1 3
    ≡ done (talk_of 3 (5 ∷ 6 ∷ 7 ∷ []))
unfolding send_fragment find_fragment send_found FileServer.find_file find_from send_large_buffer_to
    send_buckets read_block
third_said = refl

abbrev local_talk : Talk
local_talk = record {
  code = plus 1;
  sent =
      packet (presentation index_node)
      ∷ packet (record (Packets.new index_node MessageType.declare_use_local) {
        content = Packets.declare_use_local 1;
        size = Packets.comm_size;
      })
      ∷ [];
}

first_said :
    send_use_local index_node (record { fd = some 6; replies = two_ok }) 1 ≡ done local_talk
unfolding send_use_local
first_said = refl

abbrev arrivals : List Incoming
arrivals =
    incoming (talk_of 3 (5 ∷ 6 ∷ 7 ∷ [])).sent
    ∷ incoming local_talk.sent
    ∷ incoming (talk_of 2 (3 ∷ 4 ∷ [])).sent
    ∷ []

abbrev order : List ℕ
order = 2 ∷ 0 ∷ 1 ∷ []

brought : AllBring file 3 fits (node 1 3 2) own_files memory block 1 order arrivals
brought = (
  from_holder (node 2 1 3) other_files 5 (talk_of 3 (5 ∷ 6 ∷ 7 ∷ [])) (λ e. cc) third-Holds
      third_partial third_said,
  (
    from_own index_node 6 local_talk (λ e. cc) first-HoldsOwn first_said,
    (
      from_holder (node 2 1 3) other_files 5 (talk_of 2 (3 ∷ 4 ∷ [])) (λ e. cc) second-Holds
          second_partial second_said,
      tt,
    ),
  ),
)

covers :
    (k : ℕ) → k < 3 → Has file 3 (small file 3 fits (node 1 3 2) own_files memory block) k order
covers k lt = elim (ℕ_discrete k 2) [
  | yes two ↦ inl (omega arith)
  | no other ↦ elim (ℕ_discrete k 0) [
    | yes none' ↦ inr (inl (omega arith))
    | no more ↦ inr (inr (inl (omega arith)))
  ]
]

downloaded_example :
    (replies : List (List Packet)) × (buckets : List (List ℕ)) × (wait_request_fragments
        (node 1 3 2)
        own_files
        memory
        (new_request 1 7 3)
        arrivals
        (some closed)
        9
      ≡ done (set_state (node 1 3 2) ServerState.idle 9, replies, buckets))
    × (wait_large_buffer_from (packets buckets) 7 (replicate 7 0) ≡ done file)
downloaded_example =
    downloaded file 3 fits (node 1 3 2) own_files memory block 1 order arrivals closed 9
      (replicate 7 0) (omega arith) (λ e. omega arith) brought
      (omega arith, (omega arith, (omega arith, tt))) refl covers refl
