-- ===== src/Machine.antt =====
-- main.c, the loop: what a node keeps from one round to the next, and the states that choose the
-- next one by what comes in.
pub mod Idle
pub mod Taken
pub mod Knowledge
pub mod Requested
pub mod Collected
pub mod Step
pub mod Quiet
pub mod Members
pub mod Switch
pub mod Gathering
pub mod Rounds
pub mod Invariant
use distributed_storage_syst.Prelude.{ℕ, List}
use distributed_storage_syst.Packets.{Received}
use distributed_storage_syst.Store.{RawPackets, Trigger}
use distributed_storage_syst.Request.{Wanted}
use distributed_storage_syst.Reassembly.{Request}

-- The members of the union `machine_state` that the states pass on, by the one that was written last:
-- the number of peers that have reported, which the server has as a field too; the packet that SERVER_IDLE
-- has read, with its connection; what SERVER_WAITING_RAW_PACKETS waits for, and with the request what
-- it has received; the container of a new file, with its bytes; and what was requested, at the index
-- and at the node that a client asks.
pub data Stored : Type 0 where
  nothing : Stored
  counter : (connected : ℕ) → Stored
  received : Received → (from_fd : ℕ) → Stored
  raw : RawPackets → Stored
  raw_buffer : Trigger → List ℕ → Stored
  new_file : (file : ℕ) → List ℕ → Stored
  wanted : Wanted → Stored
  requested : Request → (from_fd : ℕ) → Stored
