-- ===== src/Start.antt =====
-- main.c up to its loop, and lib/server/server.c, `server_init`: how a node starts from its command
-- line.
pub mod Started
use distributed_storage_syst.Prelude.{
  ℕ, ◌-◌, ◌^◌, Bool, true, false, List, Option, none, some, ◌>>=◌,
}
use distributed_storage_syst.Address.{Address}
use distributed_storage_syst.Address.Text.{address_from_string}
use distributed_storage_syst.Args.{Args, parse_args}
use distributed_storage_syst.Text.Numbers.{ℤ, pos, negsuc}
use distributed_storage_syst.Server
use distributed_storage_syst.Server.{Server, Options}
use distributed_storage_syst.FileServer
use distributed_storage_syst.FileServer.{FileServer, FileContainer}
use distributed_storage_syst.NetIndex
use distributed_storage_syst.NetIndex.{NetIndex}

-- The memory that the variables stand in, which holds anything: `stack` is where
-- `address_from_string` has its array, and `files` what `xfileserver_init` allocates.
pub record Memory : Type 0 where
  pub args : Args
  pub addr : Address
  pub sv : Server
  pub stack : List ℕ
  pub files : List FileContainer

-- The program ends with 1, or comes to its loop.
pub data Outcome : Type 0 where
  exits : Outcome
  runs : Server → FileServer → NetIndex → Outcome

-- An `int` in a field of 64 bits.
unfoldable pub as_u64 : ℤ → ℕ
as_u64 (pos n) = n
as_u64 (negsuc n) = 2 ^ 64 - 1 - n

-- `server_init` with the strings of the command line; `false` where an address is refused.
unfoldable pub server_init : List ℕ → Server → Args → Option (Bool × Server)
unfolding address_from_string as_u64 Server.init
server_init stack sv opts = do
  (own, ip) ← address_from_string stack sv.me.ip (some opts.ip)
  (front, peer_ip) ← address_from_string stack sv.peer_f.ip (some opts.peer_ip)
  sv' ← Server.init sv (record {
    id = as_u64 opts.id;
    ip = ip;
    peer_id = as_u64 opts.peer_id;
    peer_ip = peer_ip;
    netsize = as_u64 opts.netsize;
  })
  elim own [
    | false ↦ some (false, sv)
    | true ↦ elim front [ false ↦ some (false, sv) | true ↦ some (true, sv') ]
  ]

-- `main` at the words behind the name of the program.
unfoldable pub start : List (List ℕ) → Memory → Option Outcome
unfolding parse_args server_init address_from_string
start words m = do
  (is_usable, args) ← parse_args words m.args
  elim is_usable [
    | false ↦ some exits
    | true ↦ (do
      (is_address, addr) ← address_from_string m.stack m.addr (some args.ip)
      (is_ready, sv) ← server_init m.stack m.sv args
      elim is_address [
        | false ↦ some exits
        | true ↦ elim is_ready [
          | false ↦ some exits
          | true ↦ some (runs sv (FileServer.init m.files) NetIndex.init)
        ]
      ])
  ]
