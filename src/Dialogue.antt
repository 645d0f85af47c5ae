-- ===== src/Dialogue.antt =====
-- lib/machine/procedures.c, `xprocedure_send_*`: what a node says on a connection that it opens, and
-- how it goes on from the answers.
use distributed_storage_syst.Prelude.{
  ℕ, true, false, List, [], ◌∷◌, map, Option, none, some, ◌==◌, if◌then◌else◌, ◌>>=◌, get_elem?,
}
use distributed_storage_syst.Address.{Address}
use distributed_storage_syst.Server.{Server}
use distributed_storage_syst.FileServer
use distributed_storage_syst.FileServer.{FileServer, FileContainer, FileFragment}
use distributed_storage_syst.Transfer.{Wait, done, blocked, fault, send_large_buffer_to}
use distributed_storage_syst.Packets
use distributed_storage_syst.Packets.{
  Packet, presentation, deliver_fragment_to, declare_transport, declare_use_local, full_size,
  comm_size,
}
use distributed_storage_syst.Packets.MessageType

-- What goes out on a connection: packets, and then the buckets of a buffer.
pub data Item : Type 0 where
  packet : Packet → Item
  bucket : List ℕ → Item

-- The number that a procedure returns.
pub data Code : Type 0 where
  plus : ℕ → Code
  minus : ℕ → Code

-- A procedure that has ended: what it returns, and what it has sent.
pub record Talk : Type 0 where
  pub code : Code
  pub sent : List Item

-- The connection that `server_dial` gives, if it does, and the types of the packets that come back on
-- it, 0 for an error.
pub record Line : Type 0 where
  pub fd : Option ℕ
  pub replies : List ℕ

-- `server_wait_ok`: with an answer that is not an OK the procedure ends as `refused`.
unfoldable pub wait_ok : List ℕ → Talk → (List ℕ → Wait Talk) → Wait Talk
wait_ok [] refused next = blocked
wait_ok (r ∷ replies) refused next = elim (r == MessageType.ok) [
  | true ↦ next replies
  | false ↦ done refused
]

-- `xprocedure_send_request_fragment`
unfoldable pub send_request_fragment : Server → Line → ℕ → ℕ → Address → Wait Talk
unfolding wait_ok
send_request_fragment sv line file_id frag_id deliver_to = elim line.fd [
  | none ↦ done (record { code = minus 1; sent = [] })
  | some fd ↦
      let first = packet (presentation sv) in
      let second = packet (record {
        packet_size = 0;
        sender_id = sv.me.node_id;
        type = MessageType.request_frag;
        content = deliver_fragment_to file_id frag_id deliver_to;
        size = full_size;
      }) in
      wait_ok line.replies (record { code = minus 1; sent = first ∷ [] })
        (λ rest.
          wait_ok rest (record { code = minus 2; sent = first ∷ second ∷ [] })
            (λ _. done (record { code = plus 1; sent = first ∷ second ∷ [] })))
]

-- `xprocedure_send_use_local`
unfoldable pub send_use_local : Server → Line → ℕ → Wait Talk
unfolding wait_ok
send_use_local sv line frag_id = elim line.fd [
  | none ↦ done (record { code = minus 1; sent = [] })
  | some fd ↦
      let first = packet (presentation sv) in
      let second = packet (record (Packets.new sv MessageType.declare_use_local) {
        content = declare_use_local frag_id;
        size = comm_size;
      }) in
      wait_ok line.replies (record { code = minus 2; sent = first ∷ [] })
        (λ rest.
          wait_ok rest (record { code = minus 3; sent = first ∷ second ∷ [] })
            (λ _. done (record { code = plus 1; sent = first ∷ second ∷ [] })))
]

-- The loop over the two slots.
unfoldable pub find_fragment : FileContainer → ℕ → Option FileFragment
find_fragment fc frag_id =
    if fc.slot0.fragment_id == frag_id
    then some fc.slot0
    else if fc.slot1.fragment_id == frag_id
    then some fc.slot1
    else none

-- From the presentation on.
unfoldable pub send_found : Server → List ℕ → ℕ → ℕ → FileContainer → FileFragment → Wait Talk
unfolding wait_ok
send_found sv replies file_id frag_id fc fragment =
    let first = packet (presentation sv) in
    let second = packet (record {
      packet_size = 0;
      sender_id = sv.me.node_id;
      type = MessageType.declare_frag;
      content = declare_transport file_id frag_id fragment.fragment_size fc.size;
      size = full_size;
    }) in
    wait_ok replies (record { code = minus 3; sent = first ∷ [] })
      (λ rest.
        wait_ok rest (record { code = minus 4; sent = first ∷ second ∷ [] })
          (λ rest'. elim (fragment.fragment_bytes >>= send_large_buffer_to fragment.fragment_size) [
            | none ↦ fault
            | some buckets ↦
                let all = first ∷ second ∷ map bucket buckets in
                wait_ok rest' (record { code = minus 5; sent = all })
                  (λ _. done (record { code = plus 1; sent = all }))
          ]))

-- `xprocedure_send_fragment`
unfoldable pub send_fragment : Server → FileServer → Line → ℕ → ℕ → Wait Talk
unfolding find_fragment send_found
send_fragment sv fs line file_id frag_id = elim line.fd [
  | none ↦ done (record { code = plus 0; sent = [] })
  | some fd ↦ elim (FileServer.find_file fs file_id) [
    | none ↦ done (record { code = minus 1; sent = [] })
    | some p ↦ elim (get_elem? fs.files p) [
      | none ↦ fault
      | some fc ↦ elim (find_fragment fc frag_id) [
        | none ↦ done (record { code = minus 2; sent = [] })
        | some fragment ↦ send_found sv line.replies file_id frag_id fc fragment
      ]
    ]
  ]
]
