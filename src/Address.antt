-- ===== src/Address.antt =====
-- lib/nettypes.h: IPv4 addresses with a port.
pub mod Text
pub mod Printed
pub mod RoundTrip
use distributed_storage_syst.Prelude.{ℕ}

pub record IPv4 : Type 0 where
  pub octet0 : ℕ
  pub octet1 : ℕ
  pub octet2 : ℕ
  pub octet3 : ℕ

pub record Address : Type 0 where
  pub ip : IPv4
  pub port : ℕ

-- The bytes that `memset` clears.
abbrev pub zero_address : Address
zero_address = record { ip = record { octet0 = 0; octet1 = 0; octet2 = 0; octet3 = 0 }; port = 0 }
