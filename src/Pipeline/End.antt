-- ===== src/Pipeline/End.antt =====
-- The constructor and the destructor of `DownloadPipeline` (src/DownloadPipeline.cpp), and the
-- constructor of `QingStorReader` (src/QingStorReader.cpp), which fills a pipeline.
use qing_stor_c_sdk.Prelude.{ℕ, Bool, List, [], ◌∷◌, ◌++◌, Bytes, if◌then◌else◌, Option, none, some}
use qing_stor_c_sdk.Prelude.Int.{ℤ}
use qing_stor_c_sdk.Errors.{Result, ok, throw, fault, ◌>>=◌, qingstor}
use qing_stor_c_sdk.Config.{Configuration}
use qing_stor_c_sdk.Fetcher.{Fetcher, Release, destroy}
use qing_stor_c_sdk.Reader.{ObjectInfo, setup_pipeline}
use qing_stor_c_sdk.Pipeline.{Pipeline}

-- The constructor; the multi handle may be refused.
unfoldable pub new_pipeline : Bool → ℤ → Result Pipeline
new_pipeline multi_ok n =
    if multi_ok then ok (record { active = []; pending = []; connections = n }) else throw qingstor

-- `add`, for each fetcher in turn.
abbrev pub add_all : List Fetcher → Pipeline → Pipeline
add_all fs p = record p { pending = p.pending ++ fs }

abbrev pub filled_with : Result Pipeline → Option (List Fetcher) → Option (Result Pipeline)
filled_with fault fs = some fault
filled_with (throw e) fs = some (throw e)
filled_with (ok p) none = none
filled_with (ok p) (some fs) = some (ok (add_all fs p))

-- The constructor of a reader; `none` if the loop that sets the fetchers up has not ended.
unfoldable pub open_reader :
    ℕ → Bool → Configuration → Bytes → ObjectInfo → Option (Result Pipeline)
unfolding setup_pipeline new_pipeline
open_reader fuel multi_ok c bucket object =
    filled_with (new_pipeline multi_ok c.num_connections) (setup_pipeline fuel c bucket object)

-- The fetchers of a list are destroyed in order.
unfoldable pub destroy_all : List Fetcher → Result (List Release)
unfolding destroy
destroy_all [] = ok []
destroy_all (f ∷ fs) = destroy f >>= λ r. (destroy_all fs >>= λ rs. ok (r ++ rs))

-- The destructor: what is released before and behind `curl_multi_cleanup`. The pending fetchers go
-- with the members, behind it.
unfoldable pub destroy_pipeline : Pipeline → Result (List Release × List Release)
unfolding destroy_all
destroy_pipeline p =
    destroy_all p.active >>= λ first. (destroy_all p.pending >>= λ second. ok (first, second))
