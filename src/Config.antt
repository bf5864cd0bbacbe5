-- ===== src/Config.antt =====
-- server-pc/src/config.rs.
use Prim.Native.String.{String}
use remote_control.Base.{ℕ}

abbrev pub protocol_version : ℕ
protocol_version = 6

abbrev pub min_supported_version : ℕ
min_supported_version = 1

abbrev pub pairing_code_ttl_secs : ℕ
pairing_code_ttl_secs = 300

pub record Config : Type 0 where
  pub port : ℕ
  pub server_name : String
  pub os : String
