-- ===== src/Config/Settings.antt =====
-- The ranges of the settings that src/Configuration.cpp takes from the key-value pairs of a file.
use qing_stor_c_sdk.Prelude.{◌≡◌, false, is_empty}
use qing_stor_c_sdk.Prelude.Int.{pos, ◌≤ℤ◌}
use qing_stor_c_sdk.Config.{Configuration}

-- What the rest of the library may rely on.
pub record InRange (c : Configuration) : Type 0 where
  pub keys : (is_empty c.access_key_id ≡ false) × (is_empty c.secret_access_key ≡ false)
  pub port : (pos 1 ≤ℤ c.port) × (c.port ≤ℤ pos 65535)
  pub retries : (pos 1 ≤ℤ c.connection_retries) × (c.connection_retries ≤ℤ pos 16)
  pub connections : (pos 1 ≤ℤ c.num_connections) × (c.num_connections ≤ℤ pos 8)
  pub chunk : (pos 1 ≤ℤ c.chunk_size) × (c.chunk_size ≤ℤ pos 2147483647)
