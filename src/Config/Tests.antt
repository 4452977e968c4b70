-- ===== src/Config/Tests.antt =====
-- Runs of src/Configuration.cpp on small files, and the theorems at them.
use qing_stor_c_sdk.Prelude.{◌≡◌, refl, true, List, [], ◌∷◌, codes, some}
use qing_stor_c_sdk.Prelude.Int.{pos}
use qing_stor_c_sdk.Errors.{ok, throw, config_invalid}
use qing_stor_c_sdk.Config.{
  Token, stream_start, stream_end, block_mapping_start, block_end, key, value, scan_token, scalar,
  Kvs, scanner_start, scan, settings, from_file,
}
use qing_stor_c_sdk.Config.Atoi.{atoi}
use qing_stor_c_sdk.Config.Scan.{from_file_invalid}

-- `access_key_id: ID` and `secret_access_key: KEY`, as in README.md
abbrev readme_tokens : List Token
readme_tokens =
    stream_start
    ∷ block_mapping_start
    ∷ key
    ∷ scalar (codes "access_key_id")
    ∷ value
    ∷ scalar (codes "ID")
    ∷ key
    ∷ scalar (codes "secret_access_key")
    ∷ value
    ∷ scalar (codes "KEY")
    ∷ block_end
    ∷ stream_end
    ∷ []

-- A key with no value is stored, with the empty string.
scan_lone_key :
    scan scanner_start (key ∷ scalar (codes "host") ∷ stream_end ∷ [])
    ≡ ok ((codes "host", []) ∷ [])
unfolding scan scan_token
scan_lone_key = refl

from_file_invalid_example : from_file true (some readme_tokens) ≡ throw config_invalid
from_file_invalid_example = from_file_invalid readme_tokens

abbrev sample : Kvs
sample =
    (codes "access_key_id", codes "ID")
    ∷ (codes "secret_access_key", codes "KEY")
    ∷ (codes "port", codes "70000")
    ∷ (codes "chunk_size", codes "4096")
    ∷ []

settings-sample : ((settings sample).port ≡ pos 443) × ((settings sample).chunk_size ≡ pos 4096)
unfolding atoi
settings-sample = (refl, refl)
