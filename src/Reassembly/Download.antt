-- ===== src/Reassembly/Download.antt =====
-- From the connections that bring the fragments to the file that the client gets.
use distributed_storage_syst.Prelude.{
  subst, ℕ, ◌+◌, ◌%◌, ◌^◌, ◌<◌, ◌≤◌, ◌≡◌, ◌≢◌, ◌∙◌, refl, sym, ap, ap₂, true, false, List, [], ◌∷◌,
  Option, some, arith, ne→==, length, >>=-some,
}
use distributed_storage_syst.Server.{Server, ServerState, set_state}
use distributed_storage_syst.FileServer.{FileServer}
use distributed_storage_syst.Transfer.{
  Wait, done, packets, bucket_size, send_large_buffer_to, wait_large_buffer_from,
}
use distributed_storage_syst.Transfer.Buckets.{large_buffer_arrives}
use distributed_storage_syst.Packets.{Packet, Received}
use distributed_storage_syst.Dialogue.{Talk, send_fragment, send_use_local}
use distributed_storage_syst.Reassembly.{Request, new_request, deliver_all, is_complete}
use distributed_storage_syst.Reassembly.Covering.{piece}
use distributed_storage_syst.Reassembly.Arrival.{
  IsFor, after, after-IsFor, deliver_lem, sent, AllBelow, Has, new_request-IsFor, reassembles,
}
use distributed_storage_syst.Reassembly.Serve.{
  Incoming, Served, serve_connection, serve_all, answer_client, wait_request_fragments,
}
use distributed_storage_syst.Reassembly.Delivery.{
  HoldsOwn, small, send_fragment-served, send_use_local-served,
}
use distributed_storage_syst.Reassembly.Sent.{incoming, all_ok, two_ok, Holds}

module _ (file : List ℕ) (w : ℕ) (fits : length file + bucket_size < 2 ^ 31) (sv : Server)
    (fs : FileServer) (memory : ℕ → List ℕ) (block : (n : ℕ) → length (memory n) ≡ n)
    (file_id : ℕ) where
  -- The connection is that of a node which sends fragment `k + 1`, or that of the index where the
  -- requester has the fragment itself; each hears the OKs that it waits for.
  pub data Brings (k : ℕ) : Incoming → Type 0 where
    from_holder :
        (holder : Server) (hfs : FileServer) (fd : ℕ) (talk : Talk)
        → holder.me.node_id ≢ 0
        → Holds file w file_id hfs k
        → length (piece file w k) % bucket_size ≢ 0
        → send_fragment holder hfs (record { fd = some fd; replies = all_ok }) file_id (k + 1)
          ≡ done talk
        → Brings k (incoming talk.sent)
    from_own :
        (index : Server) (fd : ℕ) (talk : Talk)
        → index.me.node_id ≢ 0
        → HoldsOwn file w fits sv fs memory block file_id k
        → send_use_local index (record { fd = some fd; replies = two_ok }) (k + 1) ≡ done talk
        → Brings k (incoming talk.sent)

  some-inj : (r r' : Request) → ◌≡◌ {A = Option Request} (some r) (some r') → r ≡ r'
  some-inj r r' e = cc

  done-inj : (t u : Talk) → ◌≡◌ {A = Wait Talk} (done t) (done u) → t ≡ u
  done-inj t u e = cc

  -- Every such connection is served, and puts the fragment in its place.
  Brings-served :
      (r : Request) (k : ℕ) (c : Incoming)
      → Brings k c
      → k < w
      → r.file_id ≡ file_id
      → IsFor file w (small file w fits sv fs memory block) r
      → (served : Served) × (serve_connection sv fs memory r c ≡ done served)
        × (served.request ≡ after file w (small file w fits sv fs memory block) r k)
  Brings-served r k c (from_holder holder hfs fd talk known holds partial said) lt same v =
      let (talk', said', code, (served, run, result, answers)) =
        send_fragment-served file w fits sv fs memory block holder hfs fd file_id k r known holds lt
          partial v in
      let e : talk' ≡ talk = done-inj talk' talk (sym said' ∙ said) in
      (
        served,
        subst (λ t. serve_connection sv fs memory r (incoming t.sent) ≡ done served) e run,
        result,
      )
  Brings-served r k c (from_own index fd talk known own said) lt same v =
      let (talk', said', code, (served, run, result, answers)) =
        send_use_local-served file w fits sv fs memory block index fd k r known (rw same own) lt
          v in
      let e : talk' ≡ talk = done-inj talk' talk (sym said' ∙ said) in
      (
        served,
        subst (λ t. serve_connection sv fs memory r (incoming t.sent) ≡ done served) e run,
        result,
      )

  -- The connections bring these fragments, in their order.
  abbrev pub AllBring : List ℕ → List Incoming → Type 0
  AllBring [] [] = Unit {0}
  AllBring [] (c ∷ cs) = ⊥
  AllBring (k ∷ ks) [] = ⊥
  AllBring (k ∷ ks) (c ∷ cs) = Brings k c × AllBring ks cs

  serve_all-cons :
      (r r' : Request) (c : Incoming) (cs : List Incoming) (served : Served)
      (replies : List (List Packet))
      → is_complete r ≡ false
      → serve_connection sv fs memory r c ≡ done served
      → serve_all sv fs memory served.request cs ≡ done (r', replies)
      → serve_all sv fs memory r (c ∷ cs) ≡ done (r', served.replies ∷ replies)
  unfolding serve_all
  serve_all-cons r r' c cs served replies missing run rest = rw (serve_all, missing, run, rest) refl

  pub serve_all-deliver_all :
      (ks : List ℕ) (cs : List Incoming) (r : Request)
      → AllBring ks cs
      → AllBelow file w (small file w fits sv fs memory block) ks
      → r.file_id ≡ file_id
      → IsFor file w (small file w fits sv fs memory block) r
      → r.fragment_found + length ks ≤ w
      → (r' : Request) × (replies : List (List Packet)) × (serve_all sv fs memory r cs
          ≡ done (r', replies))
        × (deliver_all r (sent file w (small file w fits sv fs memory block) ks) ≡ some r')
        × IsFor file w (small file w fits sv fs memory block) r'
  unfolding serve_all deliver_all is_complete
  serve_all-deliver_all [] [] r brings below same v room = (r, [], refl, refl, v)
  serve_all-deliver_all [] (c ∷ cs) r brings below same v room = absurd brings
  serve_all-deliver_all (k ∷ ks) [] r brings below same v room = absurd brings
  serve_all-deliver_all (k ∷ ks) (c ∷ cs) r (brought, brings) (lt, below) same v room =
      let (served, run, result) = Brings-served r k c brought lt same v in
      let (r', replies, served_all, delivered, v') =
        serve_all-deliver_all ks cs (after file w (small file w fits sv fs memory block) r k) brings
          below same (after-IsFor file w (small file w fits sv fs memory block) r k lt v)
          (omega arith) in
      let missing : is_complete r ≡ false =
        ne→== r.fragment_count r.fragment_found (omega (arith, v.counted)) in
      (
        r',
        served.replies ∷ replies,
        serve_all-cons r r' c cs served replies missing run
            (ap (λ x. serve_all sv fs memory x cs) result ∙ served_all),
        >>=-some _ (deliver_lem file w (small file w fits sv fs memory block) r k lt v) delivered,
        v',
      )

  answered :
      (r r' : Request) (cs : List Incoming) (ready : Received) (now : ℕ)
      (replies : List (List Packet)) (buckets : List (List ℕ))
      → serve_all sv fs memory r cs ≡ done (r', replies)
      → is_complete r' ≡ true
      → send_large_buffer_to r'.file_size r'.buffer ≡ some buckets
      → wait_request_fragments sv fs memory r cs (some ready) now
        ≡ done (set_state sv ServerState.idle now, replies, buckets)
  unfolding wait_request_fragments answer_client
  answered r r' cs ready now replies buckets run complete cut =
      rw (wait_request_fragments, run, complete, cut) refl

  -- Where w connections (0 < w), in any order, bring the w fragments of a file of fewer than 2^31
  -- - 4096 bytes, no multiple of 4096, each by send_fragment at a node that holds it, the piece no
  -- multiple of 4096 bytes, or by send_use_local for one that the node has itself, the state
  -- SERVER_WAIT_REQUEST_FRAGMENTS serves them all, sends its buffer to the client that has said it
  -- is ready and makes the node idle, and the client has the file, where the network keeps the
  -- packets apart and every OK arrives.
  pub downloaded :
      (ks : List ℕ) (cs : List Incoming) (ready : Received) (now : ℕ) (client : List ℕ)
      → 0 < w
      → length file % bucket_size ≢ 0
      → AllBring ks cs
      → AllBelow file w (small file w fits sv fs memory block) ks
      → length ks ≡ w
      → ((k : ℕ) → k < w → Has file w (small file w fits sv fs memory block) k ks)
      → length client ≡ length file
      → (replies : List (List Packet)) × (buckets : List (List ℕ)) × (wait_request_fragments sv fs
            memory
            (new_request file_id (length file) w)
            cs
            (some ready)
            now
          ≡ done (set_state sv ServerState.idle now, replies, buckets))
        × (wait_large_buffer_from (packets buckets) (length file) client ≡ done file)
  unfolding new_request
  downloaded ks cs ready now client pos partial brings below count cover room =
      let fresh : Request = new_request file_id (length file) w in
      let (r, delivered, complete, whole) =
        reassembles file w (small file w fits sv fs memory block) file_id ks pos below count
          cover in
      let (bs, cut, arrives) = large_buffer_arrives file client room fits partial in
      let (r', replies, run, delivered', v) =
        serve_all-deliver_all ks cs fresh brings below refl
          (new_request-IsFor file w (small file w fits sv fs memory block) file_id) (omega arith) in
      let same : r ≡ r' = some-inj r r' (sym delivered ∙ delivered') in
      (
        replies,
        bs,
        answered fresh r' cs ready now replies bs run
            (subst (λ x. is_complete x ≡ true) same complete)
            (ap₂ send_large_buffer_to v.sized (subst (λ x. x.buffer ≡ file) same whole) ∙ cut),
        arrives,
      )
