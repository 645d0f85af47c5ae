-- ===== src/Examples/Starting.antt =====
-- The theorems on the command line and the start of a node at concrete inputs.
use distributed_storage_syst.Prelude.{
  ℕ, ◌%◌, ◌+◌, ◌<◌, ◌≡◌, refl, inl, List, [], ◌∷◌, some, arith, replicate, true, false,
}
use distributed_storage_syst.Address.{zero_address}
use distributed_storage_syst.Address.Text.{ipv4_text, address_from_string, address_to_string}
use distributed_storage_syst.Address.RoundTrip.{address_from_string-to_string}
use distributed_storage_syst.Address.Printed.{IsAddress, text_of}
use distributed_storage_syst.Args.{Args, parse_args}
use distributed_storage_syst.Args.Settings.{parse_args-settings, parse_args-stops}
use distributed_storage_syst.Args.CommandLine.{
  Setting, id, ip, peer_id, peer_ip, netsize, AllSettings, Says, words_of, apply_all, no_settings,
  is_filled,
}
use distributed_storage_syst.Server.{Server, ServerState}
use distributed_storage_syst.FileServer
use distributed_storage_syst.FileServer.{max_files, zero_file}
use distributed_storage_syst.NetIndex
use distributed_storage_syst.Text.Numbers.{negsuc, print_uint, print_digits}
use distributed_storage_syst.Text.{cstr}
use distributed_storage_syst.Start.{Memory, runs, start}
use distributed_storage_syst.Start.Started.{view_of, started}
use distributed_storage_syst.Examples.{localhost, node}

localhost-IsAddress : (n : ℕ) → n < 65536 → IsAddress (localhost n)
localhost-IsAddress n small = record {
  octet0_small = omega arith;
  octet1_small = omega arith;
  octet2_small = omega arith;
  octet3_small = omega arith;
  port_small = omega arith;
}

address_from_string-to_string_example :
    address_from_string
      (replicate 32 7)
      zero_address
      (some (address_to_string (localhost 5001) (replicate 40 9)))
    ≡ some (true, localhost 5001)
address_from_string-to_string_example =
    address_from_string-to_string (localhost 5001) zero_address (replicate 32 7) (replicate 40 9)
      (localhost-IsAddress 5001 (omega arith)) refl (omega arith)

-- The memory before the start holds anything.
abbrev old_args : Args
old_args = record {
  id = negsuc 3;
  ip = replicate 64 7;
  peer_id = negsuc 0;
  peer_ip = replicate 64 8;
  netsize = negsuc 9;
}

abbrev memory : Memory
memory = record {
  args = old_args;
  addr = zero_address;
  sv = node 9 9 9;
  stack = replicate 32 5;
  files = replicate max_files zero_file;
}

-- The id comes twice: the second counts.
abbrev settings : List Setting
settings =
    id 7
    ∷ ip (text_of (localhost 5001))
    ∷ peer_id 2
    ∷ peer_ip (text_of (localhost 5002))
    ∷ netsize 3
    ∷ id 1
    ∷ []

small : AllSettings settings
small = (omega arith, (tt, (omega arith, (tt, (omega arith, (omega arith, tt))))))

parse_args-settings_example :
    (args : Args) × (parse_args (words_of settings []) old_args
      ≡ some (is_filled (apply_all no_settings settings), args))
    × Says args (apply_all no_settings settings)
parse_args-settings_example = parse_args-settings settings old_args small refl refl

parse_args-stops_example :
    (args : Args) × (parse_args (words_of settings ((b'-' ∷ b'v' ∷ []) ∷ [])) old_args
      ≡ some (false, args))
    × Says args (apply_all no_settings settings)
parse_args-stops_example =
    parse_args-stops settings old_args (b'-' ∷ b'v' ∷ []) [] small refl refl (inl refl)

says_so : apply_all no_settings settings ≡ view_of 1 (localhost 5001) 2 (localhost 5002) 3
unfolding ipv4_text print_uint print_digits cstr
says_so = refl

started_example :
    (sv : Server) × (start (words_of settings []) memory
      ≡ some (runs sv (FileServer.init (replicate max_files zero_file)) NetIndex.init))
    × (sv.me ≡ record { ip = localhost 5001; node_id = 1 })
    × (sv.peer_f.node_id ≡ 2)
    × (sv.peer_f.ip ≡ localhost 5002)
    × (sv.peer_b.node_id % 3 + 1 ≡ 1)
    × (sv.net_size ≡ 3)
    × (sv.state ≡ ServerState.booting)
started_example =
    started 1 2 3 (localhost 5001) (localhost 5002) (omega arith) (omega arith) (omega arith)
      (localhost-IsAddress 5001 (omega arith)) (localhost-IsAddress 5002 (omega arith)) settings
      memory small says_so (omega arith) (omega arith) refl refl refl
