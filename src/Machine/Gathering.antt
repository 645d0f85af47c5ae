-- ===== src/Machine/Gathering.antt =====
-- The collection of knowledge goes on or leads to a state that reads no member.
use distributed_storage_syst.Prelude.{
  ℕ, Bool, true, false, List, [], ◌∷◌, Option, some, if◌then◌else◌, ◌==◌, ◌>>=◌,
}
use distributed_storage_syst.Server.{Server, set_state, save_reported_peer}
use distributed_storage_syst.Address.{Address}
use distributed_storage_syst.FileServer.{FileServer}
use distributed_storage_syst.NetIndex.{NetIndex}
use distributed_storage_syst.Ring.{decrement}
use distributed_storage_syst.Rebuild.{save_file_to_index}
use distributed_storage_syst.Packets.{Received, closed, failed, got, type_of, sender_of, content_of}
use distributed_storage_syst.Packets.MessageType
use distributed_storage_syst.Machine.{counter}
use distributed_storage_syst.Machine.Knowledge.{
  self_of, file_of, Collector, Visit, collect, collect_one, collect_self, collect_file, client_done,
  wait_identification, wait_peers_knowledge,
}
use distributed_storage_syst.Machine.Quiet.{Gives, Gives-some, Gives-if, Gives->>=, Gives-bind}
use distributed_storage_syst.Machine.Members.{MemberIn, Ends, if-P, option-P, gives-P, wait-P}

-- The state finds any counter if it reads a member.
abbrev pub IsCounting : Server → Type 0
IsCounting sv = (k : ℕ) → MemberIn sv.state k (counter k)

abbrev pub CountingCollector : Collector → Type 0
CountingCollector c = IsCounting c.server

abbrev CountingNext : Bool × Collector → Type 0
CountingNext x = IsCounting (x.1.server)

abbrev CountingSaved : ℕ × Server → Type 0
CountingSaved x = IsCounting (x.1)

save_reported_peer-IsCounting :
    (sv : Server) (sender : ℕ) (addr : Address)
    → IsCounting sv
    → Gives CountingSaved (save_reported_peer sv sender addr)
unfolding save_reported_peer
save_reported_peer-IsCounting sv sender addr counts =
    Gives-bind CountingSaved sv.index_data _
      (λ d. Gives-bind CountingSaved _ _ (λ ips. Gives-some CountingSaved _ counts))

collect_self-IsCounting :
    (c : Collector) (p : Received)
    → CountingCollector c
    → Gives CountingCollector (collect_self c p)
unfolding collect_self
collect_self-IsCounting c p counts =
    Gives-bind CountingCollector (self_of (content_of p)) _ (λ addr.
      Gives->>= CountingSaved CountingCollector (save_reported_peer c.server (sender_of p) addr) _
        (save_reported_peer-IsCounting c.server _ addr counts)
        (λ x counts'. Gives-some CountingCollector _ counts'))

collect_file-IsCounting :
    (c : Collector) (p : Received)
    → CountingCollector c
    → Gives CountingCollector (collect_file c p)
unfolding collect_file
collect_file-IsCounting c p counts = Gives-bind CountingCollector (file_of (content_of p)) _ (λ r.
    Gives-bind CountingCollector (save_file_to_index c.files c.net r) _
      (λ x. Gives-some CountingCollector _ counts))

-- A packet that has come, closed or not.
abbrev next : Collector → Received → Option (Bool × Collector)
next c p =
    if type_of p == MessageType.ok
    then some (true, c)
    else if type_of p == MessageType.report_self
    then (do c' ← collect_self c p; some (false, c'))
    else if type_of p == MessageType.report_file
    then (do c' ← collect_file c p; some (false, c'))
    else some (false, c)

next-IsCounting :
    (c : Collector) (p : Received) → CountingCollector c → Gives CountingNext (next c p)
next-IsCounting c p counts =
    Gives-if CountingNext (type_of p == MessageType.ok) _ _
      (Gives-some CountingNext (true, c) counts)
      (Gives-if CountingNext (type_of p == MessageType.report_self) _ _
        (Gives->>= CountingCollector CountingNext (collect_self c p) (λ c'. some (false, c'))
          (collect_self-IsCounting c p counts)
          (λ c' counts'. Gives-some CountingNext (false, c') counts'))
        (Gives-if CountingNext (type_of p == MessageType.report_file) _ _
          (Gives->>= CountingCollector CountingNext (collect_file c p) (λ c'. some (false, c'))
            (collect_file-IsCounting c p counts)
            (λ c' counts'. Gives-some CountingNext (false, c') counts'))
          (Gives-some CountingNext (false, c) counts)))

collect_one-IsCounting :
    (c : Collector) (p : Received) → CountingCollector c → Gives CountingNext (collect_one c p)
unfolding collect_one
collect_one-IsCounting c failed counts = Gives-some CountingNext (true, c) counts
collect_one-IsCounting c closed counts = next-IsCounting c closed counts
collect_one-IsCounting c (got p) counts = next-IsCounting c (got p) counts

end-P {ℓ} :
    {A : Type ℓ} (P : A → Type 0) (is_end : Bool) (x y : A)
    → P x
    → P y
    → P (elim is_end [ true ↦ x | false ↦ y ])
end-P P true x y h k = h
end-P P false x y h k = k

collect-IsCounting :
    (c : Collector) (ps : List Received)
    → CountingCollector c
    → Ends CountingCollector (collect c ps)
unfolding collect
collect-IsCounting c [] counts = tt
collect-IsCounting c (p ∷ ps) counts =
    gives-P (Ends CountingCollector) CountingNext (collect_one c p) _ _
      (collect_one-IsCounting c p counts) tt
      (λ x counts'.
        end-P (Ends CountingCollector) (x.0) _ _ counts' (collect-IsCounting (x.1) ps counts'))

client_done-IsCounting :
    (c : Collector) (now : ℕ) → CountingCollector c → CountingCollector (client_done c now)
unfolding client_done set_state
client_done-IsCounting c now counts =
    if-P CountingCollector (c.server.connected == decrement c.server.net_size) _ _ (λ k. tt) counts

pub wait_peers_knowledge-IsCounting :
    (sv : Server) (fs : FileServer) (net : NetIndex) (v : Visit)
    → IsCounting sv
    → Ends CountingCollector (wait_peers_knowledge sv fs net v)
unfolding wait_peers_knowledge
wait_peers_knowledge-IsCounting sv fs net v counts =
    option-P (Ends CountingCollector) sv.index_data _ _ counts (λ d.
      option-P (Ends CountingCollector) v.accepted _ _ counts (λ fd.
        if-P (Ends CountingCollector) (wait_identification v == 0) _ _ counts (
          wait-P CountingCollector CountingCollector (collect _ v.rest) _
            (collect-IsCounting _ v.rest counts)
            (λ c counts'. client_done-IsCounting c v.now counts'))))
