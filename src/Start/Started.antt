-- ===== src/Start/Started.antt =====
-- A command line that names a node and its peer starts that node.
use distributed_storage_syst.Prelude.{
  ℕ, suc, ◌+◌, ◌%◌, ◌^◌, ◌<◌, ◌≤◌, ◌≡◌, ◌∙◌, refl, sym, ap, subst, true, false, List, [], ◌∷◌,
  Option, some, arith, length, ne→==, ◌==◌,
}
use distributed_storage_syst.Address.{Address}
use distributed_storage_syst.Address.RoundTrip.{
  ipv4_text-StartsWithDigit, address_from_string-text_of,
}
use distributed_storage_syst.Address.Printed.{IsAddress, text_of}
use distributed_storage_syst.Text.Decimal.{StartsWithDigit}
use distributed_storage_syst.Args.{Args, parse_args}
use distributed_storage_syst.Args.Settings.{parse_args-settings}
use distributed_storage_syst.Args.CommandLine.{
  Setting, View, AllSettings, Says, words_of, apply_all, no_settings, is_filled,
}
use distributed_storage_syst.Server
use distributed_storage_syst.Server.{Server, ServerState, Options}
use distributed_storage_syst.Ring.Neighbours.{peer_b-init}
use distributed_storage_syst.FileServer
use distributed_storage_syst.NetIndex
use distributed_storage_syst.Start.{Memory, runs, as_u64, server_init, start}

abbrev pub options_of : ℕ → Address → ℕ → Address → ℕ → Options
options_of id ip peer_id peer_ip netsize = record {
  id = id;
  ip = ip;
  peer_id = peer_id;
  peer_ip = peer_ip;
  netsize = netsize;
}

abbrev pub view_of : ℕ → Address → ℕ → Address → ℕ → View
view_of id ip peer_id peer_ip netsize = record {
  id = id;
  ip = text_of ip;
  peer_id = peer_id;
  peer_ip = text_of peer_ip;
  netsize = netsize;
}

not_empty : (cs : List ℕ) → StartsWithDigit cs → (length cs == 0) ≡ false
not_empty [] digit = absurd digit
not_empty (c ∷ cs) digit = ne→== (suc (length cs)) 0 (omega arith)

module _ (id peer_id netsize : ℕ) (ip peer_ip : Address) (named : 0 < id) (peer_named : 0 < peer_id)
    (sized : 0 < netsize) (address : IsAddress ip) (peer_address : IsAddress peer_ip) where
  view_complete : is_filled (view_of id ip peer_id peer_ip netsize) ≡ true
  view_complete =
      rw
        (
          ne→== id 0 (omega arith),
          ne→== peer_id 0 (omega arith),
          ne→== netsize 0 (omega arith),
          not_empty (text_of ip) (ipv4_text-StartsWithDigit ip.ip _),
          not_empty (text_of peer_ip) (ipv4_text-StartsWithDigit peer_ip.ip _),
        )
        refl

  server_init_lem :
      (stack : List ℕ) (sv sv' : Server) (args : Args)
      → length stack ≡ 32
      → Says args (view_of id ip peer_id peer_ip netsize)
      → Server.init sv (options_of id ip peer_id peer_ip netsize) ≡ some sv'
      → server_init stack sv args ≡ some (true, sv')
  unfolding server_init as_u64
  server_init_lem stack sv sv' args room says ready =
      rw
        (
          server_init,
          address_from_string-text_of ip sv.me.ip stack args.ip address room says.ip,
          address_from_string-text_of peer_ip sv.peer_f.ip stack args.peer_ip peer_address room
              says.peer_ip,
          says.id,
          says.peer_id,
          says.netsize,
          ready,
        )
        refl

  start_lem :
      (words : List (List ℕ)) (m : Memory) (sv' : Server) (args : Args)
      → length m.stack ≡ 32
      → Says args (view_of id ip peer_id peer_ip netsize)
      → parse_args words m.args ≡ some (true, args)
      → Server.init m.sv (options_of id ip peer_id peer_ip netsize) ≡ some sv'
      → start words m ≡ some (runs sv' (FileServer.init m.files) NetIndex.init)
  unfolding start
  start_lem words m sv' args room says read ready =
      rw
        (
          start,
          read,
          address_from_string-text_of ip m.addr m.stack args.ip address room says.ip,
          server_init_lem m.stack m.sv sv' args room says ready,
        )
        refl

  some-inj : (x y : Server) → ◌≡◌ {A = Option Server} (some x) (some y) → x ≡ y
  some-inj x y e = cc

  -- A command line whose last settings are an id and a peer id that are not 0, a size of the
  -- network that is at least the id and below 2^31, and two addresses as text, starts the program
  -- without a fault with that node: its own id and address, its forward peer, the backward peer
  -- that it follows in the ring, the state booting, and two empty indexes.
  pub started :
      (settings : List Setting) (m : Memory)
      → AllSettings settings
      → apply_all no_settings settings ≡ view_of id ip peer_id peer_ip netsize
      → id ≤ netsize
      → netsize < 2 ^ 31
      → length m.args.ip ≡ 64
      → length m.args.peer_ip ≡ 64
      → length m.stack ≡ 32
      → (sv : Server) × (start (words_of settings []) m
          ≡ some (runs sv (FileServer.init m.files) NetIndex.init))
        × (sv.me ≡ record { ip = ip; node_id = id })
        × (sv.peer_f.node_id ≡ peer_id)
        × (sv.peer_f.ip ≡ peer_ip)
        × (sv.peer_b.node_id % netsize + 1 ≡ id)
        × (sv.net_size ≡ netsize)
        × (sv.state ≡ ServerState.booting)
  unfolding Server.init Server.initial
  started settings m small says inside fits room1 room2 room =
      let opts : Options = options_of id ip peer_id peer_ip netsize in
      let (args, read, said) = parse_args-settings settings m.args small room1 room2 in
      let (sv, ready, behind, low, high) = peer_b-init m.sv opts named inside fits in
      let direct : Server.init m.sv opts ≡ some (Server.initial m.sv opts) =
        rw (Server.init, ne→== netsize 0 (omega arith)) refl in
      let same : sv ≡ Server.initial m.sv opts =
        some-inj sv (Server.initial m.sv opts) (sym ready ∙ direct) in
      let complete : is_filled (apply_all no_settings settings) ≡ true =
        ap is_filled says ∙ view_complete in
      (
        Server.initial m.sv opts,
        start_lem (words_of settings []) m (Server.initial m.sv opts) args room
            (subst (Says args) says said) (read ∙ ap (λ b. some (b, args)) complete) direct,
        refl,
        refl,
        refl,
        ap (λ x. x.peer_b.node_id % netsize + 1) (sym same) ∙ behind,
        refl,
        refl,
      )
