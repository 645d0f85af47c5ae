-- ===== src/Request.antt =====
-- How the fragments of a requested file are fetched: main.c, SERVER_INDEX_REQUEST_FRAGMENTS, and
-- TYPE_REQUEST_FRAG of SERVER_RECEIVED_PACKET at a node that has a fragment.
pub mod Picks
use distributed_storage_syst.Prelude.{
  ℕ, zero, suc, ◌+◌, ◌-◌, ◌*◌, ◌%◌, ◌^◌, Bool, true, false, ◌&&◌, List, [], ◌∷◌, Option, none, some,
  ◌==◌, if◌then◌else◌, ltb, ◌>>=◌, get_elem?,
}
use distributed_storage_syst.Address.{Address}
use distributed_storage_syst.Server.{Server, ServerState, IndexData, set_state, is_valid_node}
use distributed_storage_syst.FileServer.{FileServer}
use distributed_storage_syst.NetIndex
use distributed_storage_syst.NetIndex.{NetIndex, FragmentPointer}
use distributed_storage_syst.NewFile.{redundancy}
use distributed_storage_syst.Transfer.{Wait, done, blocked, fault}
use distributed_storage_syst.Packets.{Packet, ok_packet}
use distributed_storage_syst.Dialogue.{
  Line, Talk, send_use_local, send_fragment, send_request_fragment,
}

-- What the state reads of `StateRequestedFile`.
pub record Wanted : Type 0 where
  pub file_id : ℕ
  pub fragment_count : ℕ
  pub deliver_to : ℕ

-- The entry for fragment `i` where no node has died: the first of the two.
unfoldable pub pick_first : List FragmentPointer → ℕ → Option FragmentPointer
pick_first entries i = get_elem? entries (i * redundancy)

-- The entry after deaths: the second where the node of the first is not valid.
unfoldable pub pick_valid : Server → List FragmentPointer → ℕ → Option FragmentPointer
pick_valid sv entries i = do
  n ← get_elem? entries (i * redundancy)
  valid ← is_valid_node sv n.node_id
  elim valid [ true ↦ some n | false ↦ get_elem? entries (i * redundancy + 1) ]

-- The entries `frags`, from fragment `i` on. The code takes a file to be newer than the deaths where its number of
-- fragments is twice the size of the network.
unfoldable pub pick : Server → ℕ → List FragmentPointer → ℕ → Option FragmentPointer
unfolding pick_first pick_valid
pick sv count entries i =
    if sv.death_count == 0
    then pick_first entries i
    else (if count == sv.net_size * redundancy % 2 ^ 64
        then pick_first entries i
        else pick_valid sv entries i)

unfoldable pub pick_all : ℕ → Server → ℕ → List FragmentPointer → ℕ → Option (List FragmentPointer)
unfolding pick
pick_all zero sv count entries i = some []
pick_all (suc rounds) sv count entries i = do
  n ← pick sv count entries i
  rest ← pick_all rounds sv count entries (i + 1)
  some (n ∷ rest)

-- What the index does for an entry, with the addresses that it passes on.
pub data Action : Type 0 where
  use_local : (frag_id : ℕ) → Address → Action
  send_own : (frag_id : ℕ) → Address → Action
  ask : (node : Address) (frag_id : ℕ) → Address → Action

-- An id whose address lies outside the table is a fault.
unfoldable pub address_of : IndexData → ℕ → Option Address
address_of d id = if id == 0 then none else get_elem? d.peer_ips (id - 1)

unfoldable pub action_for : Server → IndexData → ℕ → FragmentPointer → Option Action
unfolding address_of
action_for sv d deliver_to frag = do
  to ← address_of d deliver_to
  if frag.node_id == deliver_to
      then some (use_local frag.fragment to)
      else (if frag.node_id == sv.me.node_id
          then some (send_own frag.fragment to)
          else (do node ← address_of d frag.node_id; some (ask node frag.fragment to)))

unfoldable pub perform : Server → FileServer → ℕ → Action → Line → Wait Talk
perform sv fs file_id (use_local frag_id to) line = send_use_local sv line frag_id
perform sv fs file_id (send_own frag_id to) line = send_fragment sv fs line file_id frag_id
perform sv fs file_id (ask node frag_id to) line = send_request_fragment sv line file_id frag_id to

-- The last loop: each entry on a connection of its own. What the procedures return is not tested.
unfoldable pub request_each :
    Server → FileServer → IndexData → Wanted → List FragmentPointer → List Line → Wait (List Talk)
unfolding action_for perform
request_each sv fs d wanted [] lines = done []
request_each sv fs d wanted (frag ∷ frags) [] = blocked
request_each sv fs d wanted (frag ∷ frags) (line ∷ lines) =
    elim (action_for sv d wanted.deliver_to frag) [
      | none ↦ fault
      | some action ↦ elim (perform sv fs wanted.file_id action line) [
        | fault ↦ fault
        | blocked ↦ blocked
        | done talk ↦ elim (request_each sv fs d wanted frags lines) [
          | fault ↦ fault
          | blocked ↦ blocked
          | done talks ↦ done (talk ∷ talks)
        ]
      ]
    ]

-- The entries that are picked: a file that is not in the index is a fault, since the state goes on
-- with the null pointer.
unfoldable pub picked : Server → NetIndex → Wanted → Option (List FragmentPointer)
unfolding pick_all
picked sv net wanted = do
  found ← NetIndex.find_file net wanted.file_id
  p ← found
  f ← get_elem? net.heap p
  pick_all wanted.fragment_count sv wanted.fragment_count f.fragments 0

unfoldable pub request_fragments :
    Server → FileServer → NetIndex → Wanted → List Line → ℕ → Wait (Server × List Talk)
unfolding picked request_each
request_fragments sv fs net wanted lines now = elim (picked sv net wanted) [
  | none ↦ fault
  | some frags ↦ elim sv.index_data [
    | none ↦ fault
    | some d ↦ elim (request_each sv fs d wanted frags lines) [
      | fault ↦ fault
      | blocked ↦ blocked
      | done talks ↦ done (set_state sv ServerState.idle now, talks)
    ]
  ]
]

-- TYPE_REQUEST_FRAG at a node: it says OK to the index, and delivers the fragment. An id that an `int`
-- does not hold is a fault.
unfoldable pub on_request_frag :
    Server → FileServer → Line → ℕ → ℕ → ℕ → Wait (Server × Packet × Talk)
unfolding send_fragment
on_request_frag sv fs line file_id frag_id now =
    if ltb file_id (2 ^ 31) && ltb frag_id (2 ^ 31)
    then elim (send_fragment sv fs line file_id frag_id) [
      | fault ↦ fault
      | blocked ↦ blocked
      | done talk ↦ done (set_state sv ServerState.idle now, ok_packet sv, talk)
    ]
    else fault
