-- ===== src/Reassembly/Delivery.antt =====
-- A node that is sent the fragments of a file, by the nodes that hold them, has the file.
use distributed_storage_syst.Prelude.{
  ℕ, ◌+◌, ◌%◌, ◌^◌, ◌<◌, ◌≤◌, ◌≡◌, ◌≢◌, ◌∙◌, refl, sym, ap, true, false, List, [], ◌∷◌, Option,
  some, arith, ◌==◌, ne→==, length, map, get_elem?, ℕ_discrete, if◌then◌else◌, lt→ltb,
}
use distributed_storage_syst.Server.{Server}
use distributed_storage_syst.FileServer
use distributed_storage_syst.FileServer.{FileServer, FileContainer, FileFragment}
use distributed_storage_syst.Transfer.{
  done, packets, bucket_size, send_large_buffer_to, wait_large_buffer_from,
}
use distributed_storage_syst.Transfer.Buckets.{large_buffer_arrives}
use distributed_storage_syst.Packets
use distributed_storage_syst.Packets.{
  Packet, Content, Received, closed, got, ok_packet, presentation, declare_transport,
  declare_use_local, full_size, comm_size, wait_client_presentation,
}
use distributed_storage_syst.Packets.MessageType
use distributed_storage_syst.Dialogue.{
  Item, packet, bucket, plus, Talk, send_fragment, find_fragment, send_use_local,
}
use distributed_storage_syst.Reassembly.{Request, use_local, deliver, copy_fragment}
use distributed_storage_syst.Reassembly.Covering.{piece, fragment_end, length-piece}
use distributed_storage_syst.Reassembly.Arrival.{IsFor, after, deliver_lem}
use distributed_storage_syst.Reassembly.Serve.{
  Incoming, Served, serve_delivery, serve_local, serve_connection,
}
use distributed_storage_syst.Reassembly.Sent.{
  buckets_of, incoming, buckets_of-map, all_ok, two_ok, Holds, delivery, send_found_lem,
  send_fragment_lem,
}

-- The slot that SERVER_WAIT_REQUEST_FRAGMENTS takes is the one that has the id, where one has.
chosen_slot :
    (fc : FileContainer) (id : ℕ) (fragment : FileFragment)
    → find_fragment fc id ≡ some fragment
    → ((if fc.slot0.fragment_id == id then fc.slot0 else fc.slot1) ≡ fragment)
      × (fragment.fragment_id ≡ id)
unfolding find_fragment
chosen_slot fc id fragment e = elim (ℕ_discrete fc.slot0.fragment_id id) [
  | yes first ↦ (ground arith, ground arith)
  | no other ↦ elim (ℕ_discrete fc.slot1.fragment_id id) [
    | yes second ↦ (ground arith, ground arith)
    | no neither ↦ absurd (ground arith)
  ]
]

module _ (file : List ℕ) (w : ℕ) (fits : length file + bucket_size < 2 ^ 31) (sv : Server)
    (fs : FileServer) (memory : ℕ → List ℕ) (block : (n : ℕ) → length (memory n) ≡ n) where
  pub small : length file < 2 ^ 31
  small = omega arith

  length-piece-le : (k : ℕ) → k < w → length (piece file w k) ≤ length file
  length-piece-le k lt = omega (arith, length-piece file w k lt, fragment_end (length file) w k lt)

  serve_delivery_lem :
      (r : Request) (file_id k file_size : ℕ) (raw : List (Option (List ℕ)))
      → k < w
      → IsFor file w small r
      → wait_large_buffer_from raw (length (piece file w k)) (memory (length (piece file w k)))
        ≡ done (piece file w k)
      → serve_delivery sv memory r
          (declare_transport file_id (k + 1) (length (piece file w k)) file_size)
          raw
        ≡ done (record {
          request = after file w small r k;
          replies = ok_packet sv ∷ ok_packet sv ∷ ok_packet sv ∷ [];
          is_closed = true;
        })
  unfolding serve_delivery
  serve_delivery_lem r file_id k file_size raw lt v arrives =
      rw
        (
          serve_delivery,
          lt→ltb (length (piece file w k)) (2 ^ 31) (omega (arith, length-piece-le k lt)),
          arrives,
          deliver_lem file w small r k lt v,
        )
        refl

  -- The presentation and the declaration of a node are accepted.
  serve_connection_lem :
      (r : Request) (sender : ℕ) (raw : List (Option (List ℕ))) (first second : Packet)
      → sender ≢ 0
      → first.size ≡ full_size
      → first.type ≡ MessageType.present_itself
      → first.sender_id ≡ sender
      → (second.size == 0) ≡ false
      → serve_connection sv fs memory r
          (record { first = got first; second = got second; raw = raw })
        ≡ (if second.type == MessageType.declare_use_local
            then serve_local sv fs r second.content
            else serve_delivery sv memory r second.content raw)
  unfolding serve_connection wait_client_presentation Packets.is_empty Packets.type_of
      Packets.sender_of Packets.content_of
  serve_connection_lem r sender raw first second known size kind from full =
      ground (arith, ne→== sender 0 known)

  -- What a connection that brings fragment `k + 1` makes of a request.
  abbrev pub Takes : Request → ℕ → Incoming → List ℕ → Type 0
  Takes r k c answers =
      (served : Served) × (serve_connection sv fs memory r c ≡ done served)
      × (served.request ≡ after file w small r k)
      × (map (λ p. p.type) served.replies ≡ answers)

  delivery-Takes :
      (holder : Server) (file_id k size file_size : ℕ) (r : Request) (bs : List (List ℕ))
      → holder.me.node_id ≢ 0
      → k < w
      → IsFor file w small r
      → size ≡ length (piece file w k)
      → wait_large_buffer_from
          (packets bs)
          (length (piece file w k))
          (memory (length (piece file w k)))
        ≡ done (piece file w k)
      → Takes r k (incoming (delivery holder file_id (k + 1) size file_size bs)) all_ok
  unfolding presentation ok_packet Packets.full
  delivery-Takes holder file_id k size file_size r bs known lt v e arrives = (
    record {
      request = after file w small r k;
      replies = ok_packet sv ∷ ok_packet sv ∷ ok_packet sv ∷ [];
      is_closed = true;
    },
    serve_connection_lem r holder.me.node_id (packets (buckets_of (map bucket bs)))
          (presentation holder) _ known refl refl refl refl
        ∙ rw (buckets_of-map bs, e)
            (serve_delivery_lem r file_id k file_size (packets bs) lt v arrives),
    refl,
    refl,
  )

  -- A node with an id other than 0 that holds fragment k + 1 of a file of fewer than 2^31 - 4096
  -- bytes, a piece of no multiple of 4096, sends it with result 1 on a connection on which it
  -- hears three OKs; the node that waits for fragments gives just these answers to what it has
  -- sent, and puts the piece in its place, counted once, where the network keeps the packets
  -- apart.
  pub send_fragment-served :
      (holder : Server) (hfs : FileServer) (fd file_id k : ℕ) (r : Request)
      → holder.me.node_id ≢ 0
      → Holds file w file_id hfs k
      → k < w
      → length (piece file w k) % bucket_size ≢ 0
      → IsFor file w small r
      → (talk : Talk) × (send_fragment holder hfs
            (record { fd = some fd; replies = all_ok })
            file_id
            (k + 1)
          ≡ done talk)
        × (talk.code ≡ plus 1)
        × Takes r k (incoming talk.sent) all_ok
  send_fragment-served holder hfs fd file_id k r known (p, fc, fragment, found, at, slot, size, has)
        lt partial v =
      let (bs, cut, arrives) =
        large_buffer_arrives (piece file w k) (memory (length (piece file w k)))
          (block (length (piece file w k))) (omega (arith, length-piece-le k lt)) partial in
      let said : List Item = delivery holder file_id (k + 1) fragment.fragment_size fc.size bs in
      (
        record { code = plus 1; sent = said },
        send_fragment_lem holder hfs fd file_id (k + 1) p fc fragment _ found at slot (
            send_found_lem holder file_id (k + 1) fc fragment (piece file w k) bs has
              (ap (λ n. send_large_buffer_to n (piece file w k)) size ∙ cut)),
        refl,
        delivery-Takes holder file_id k fragment.fragment_size fc.size r bs known lt v size arrives,
      )

  -- The requester has fragment `k + 1` itself.
  abbrev pub HoldsOwn : ℕ → ℕ → Type 0
  HoldsOwn file_id k =
      (p : ℕ) × (fc : FileContainer) × (FileServer.find_file fs file_id ≡ some p)
      × (get_elem? fs.files p ≡ some fc)
      × (fc.size ≡ length file)
      × (fragment : FileFragment) × (find_fragment fc (k + 1) ≡ some fragment)
      × (fragment.fragment_size ≡ length (piece file w k))
      × (fragment.fragment_bytes ≡ some (piece file w k))

  serve_local_lem :
      (r : Request) (k : ℕ)
      → k < w
      → HoldsOwn r.file_id k
      → IsFor file w small r
      → use_local fs r (k + 1) ≡ some (after file w small r k)
  unfolding use_local deliver copy_fragment
  serve_local_lem r k lt (p, fc, found, at, sized, fragment, slot, size, has) v =
      let (same, named) = chosen_slot fc (k + 1) fragment slot in
      let whole : deliver r (k + 1) (piece file w k) (length (piece file w k))
          ≡ some (after file w small r k) =
        deliver_lem file w small r k lt v in
      rw (use_local, found, at, same, named, sized ∙ sym v.sized, has, size) whole

  -- claim
  pub send_use_local-served :
      (index : Server) (fd k : ℕ) (r : Request)
      → index.me.node_id ≢ 0
      → HoldsOwn r.file_id k
      → k < w
      → IsFor file w small r
      → (talk : Talk) × (send_use_local index (record { fd = some fd; replies = two_ok }) (k + 1)
          ≡ done talk)
        × (talk.code ≡ plus 1)
        × Takes r k (incoming talk.sent) two_ok
  unfolding send_use_local serve_local presentation ok_packet Packets.full Packets.new
  send_use_local-served index fd k r known own lt v =
      let second : Packet = record (Packets.new index MessageType.declare_use_local) {
        content = declare_use_local (k + 1);
        size = comm_size;
      } in
      (
        record { code = plus 1; sent = packet (presentation index) ∷ packet second ∷ [] },
        refl,
        refl,
        (
          record {
            request = after file w small r k;
            replies = ok_packet sv ∷ ok_packet sv ∷ [];
            is_closed = false;
          },
          serve_connection_lem r index.me.node_id [] (presentation index) second known refl refl
                refl refl
              ∙ rw (serve_local, serve_local_lem r k lt own v) refl,
          refl,
          refl,
        ),
      )
