-- ===== src/Packets/MessageType.antt =====
-- lib/server/server.h, `eMessageType`, as far as it is used; two of its values stand for two types each.
use distributed_storage_syst.Prelude.{ℕ}

abbrev pub present_itself : ℕ
present_itself = 1

abbrev pub report_self : ℕ
report_self = 5

abbrev pub report_file : ℕ
report_file = 6

abbrev pub create_file : ℕ
create_file = 10

abbrev pub store_fragment : ℕ
store_fragment = 11

abbrev pub request_file : ℕ
request_file = 15

abbrev pub response_file : ℕ
response_file = 16

abbrev pub request_frag : ℕ
request_frag = 20

abbrev pub declare_frag : ℕ
declare_frag = 21

abbrev pub declare_use_local : ℕ
declare_use_local = 22

abbrev pub ok : ℕ
ok = 200

abbrev pub not_ok : ℕ
not_ok = 220
