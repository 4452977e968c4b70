-- ===== src/Reader/Tests.antt =====
-- Runs of src/QingStorReader.cpp, and the theorems at them.
use qing_stor_c_sdk.Prelude.{◌≡◌, refl, [], ◌∷◌, codes, none, some, arith}
use qing_stor_c_sdk.Prelude.Int.{pos, ◌+ℤ◌, ◌-ℤ◌}
use qing_stor_c_sdk.Config.{Configuration, from_values}
use qing_stor_c_sdk.Fetcher.{Fetcher}
use qing_stor_c_sdk.Reader.{ObjectInfo, chunks, setup_pipeline}
use qing_stor_c_sdk.Reader.Truncation.{setup_pipeline-none, one_connection}

three_chunks :
    chunks 9 (pos 4) (pos 0) (pos 9) ≡ some ((pos 0, pos 4) ∷ (pos 4, pos 4) ∷ (pos 8, pos 2) ∷ [])
unfolding chunks ◌+ℤ◌ ◌-ℤ◌
three_chunks = refl

abbrev object : ObjectInfo
object = record {
  key = codes "k";
  size = pos 5000000000;
  range = record { start = pos 0; end = pos 4999999999 };
}

abbrev zero_chunk : Configuration
zero_chunk = from_values (codes "pek3a") (codes "ID") (codes "S") (pos 0)

setup_pipeline-none_example : setup_pipeline 100 zero_chunk (codes "b") object ≡ none
setup_pipeline-none_example =
    setup_pipeline-none 100 zero_chunk (codes "b") object refl (omega arith) (omega arith)

abbrev single : Configuration
single = record zero_chunk { num_connections = pos 1 }

-- 5,000,000,000 bytes, of which 705,032,704 are asked for.
one_connection_example :
    (f : Fetcher) × (setup_pipeline 2 single (codes "b") object ≡ some (f ∷ []))
    × (f.offset ≡ pos 0)
    × (f.len ≡ pos 705032704)
unfolding ◌+ℤ◌
one_connection_example =
    one_connection 1 single (codes "b") object 1 705032704 (omega arith) (omega arith) refl
