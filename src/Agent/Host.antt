-- ===== src/Agent/Host.antt =====
-- What the agent reads of its host by the crates sysinfo, pnet and hostname, for `run` and
-- `advertise` of fog05-agent/src/agent.rs. A text that may not be UTF-8 is `none` where it is not,
-- and a 64-bit float stands as its bit pattern.
use fog.Prelude.{ℕ, String, Option, List}
use fog.Sdk.Im.Node.{NetworkInterface}

pub record Processor : Type 0 where
  -- without the zero characters at its end
  pub vendor_id : String
  pub frequency : ℕ

pub record Disk : Type 0 where
  pub name : Option String
  pub mount_point : Option String
  pub file_system : Option String
  pub total_space : ℕ
  pub available_space : ℕ

pub record Traffic : Type 0 where
  pub total_packets_transmitted : ℕ
  pub total_packets_received : ℕ
  pub total_transmitted : ℕ
  pub total_received : ℕ

-- `sysinfo::System` after `refresh_all`, and `pnet::datalink::interfaces()`
pub record Reading : Type 0 where
  pub processors : List Processor
  pub total_memory : ℕ
  pub free_memory : ℕ
  pub disks : List Disk
  pub networks : List (String × Traffic)
  pub interfaces : List NetworkInterface

-- The constants of the platform, its name, and the arithmetic of floats.
pub record Host : Type 0 where
  pub hostname : Option String
  pub arch : String
  pub os : String
  -- `(x as f64) / 1024.0`, and the same divided by 1024.0 again
  pub kib : ℕ → ℕ
  pub mib : ℕ → ℕ
