-- ===== src/Ring/Neighbours.antt =====
-- The ring as `server_init` sets it up.
use distributed_storage_syst.Prelude.{
  some, ℕ, ◌+◌, ◌-◌, ◌%◌, ◌^◌, ◌<◌, ◌≤◌, ◌≡◌, ◌∙◌, ap, arith, ℕ_discrete,
}
use native.Mathlib.Nat.{mod-eq_of_lt, mod-eq-sub-mod, mod_self}
use distributed_storage_syst.Server.{Server, Options}
use distributed_storage_syst.Server

wrap :
    (id n : ℕ)
    → 0 < id
    → id ≤ n
    → n < 2 ^ 31
    → ((id + 2 ^ 64 - 2) % 2 ^ 64 + n) % 2 ^ 64 ≡ id + n - 2
wrap id n pos le small = omega arith

backward :
    (id n : ℕ)
    → 0 < id
    → id ≤ n
    → n < 2 ^ 31
    → ((((id + 2 ^ 64 - 2) % 2 ^ 64 + n) % 2 ^ 64 % n + 1) % n + 1 ≡ id)
      × ((id + 2 ^ 64 - 2) % 2 ^ 64 + n) % 2 ^ 64 % n + 1 ≤ n
backward id n pos le small = rw (wrap id n pos le small) (elim (ℕ_discrete id 1) [
  | yes first ↦
      let last : (id + n - 2) % n ≡ n - 1 =
        ap (λ (k : ℕ). k % n) (omega arith) ∙ mod-eq_of_lt {n = n - 1} {m = n} (omega arith) in
      let round : (n - 1 + 1) % n ≡ 0 = ap (λ (k : ℕ). k % n) (omega arith) ∙ mod_self n in
      rw (last, round) (omega arith, omega arith)
  | no later ↦
      let before : (id + n - 2) % n ≡ id - 2 =
        mod-eq-sub-mod {n = id + n - 2} {m = n} (omega arith)
        ∙ ap (λ (k : ℕ). k % n) (omega arith)
        ∙ mod-eq_of_lt {n = id - 2} {m = n} (omega arith) in
      let here : (id - 2 + 1) % n ≡ id - 1 =
        ap (λ (k : ℕ). k % n) (omega arith) ∙ mod-eq_of_lt {n = id - 1} {m = n} (omega arith) in
      rw (before, here) (omega arith, omega arith)
])

-- On any memory, the initialisation of node i of a network of n (0 < i <= n < 2^31) succeeds, and
-- its backward peer is a node of the network that i follows in the ring: the one before it, or
-- node n for node 1.
pub peer_b-init :
    (sv : Server) (opts : Options)
    → 0 < opts.id
    → opts.id ≤ opts.netsize
    → opts.netsize < 2 ^ 31
    → (sv' : Server) × (Server.init sv opts ≡ some sv')
      × (sv'.peer_b.node_id % opts.netsize + 1 ≡ opts.id)
      × (0 < sv'.peer_b.node_id)
      × (sv'.peer_b.node_id ≤ opts.netsize)
unfolding Server.init Server.initial
peer_b-init sv opts pos le small =
    let (round, in') = backward opts.id opts.netsize pos le small in
    (Server.initial sv opts, ground arith, round, omega arith, in')
