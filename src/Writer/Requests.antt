-- ===== src/Writer/Requests.antt =====
-- What the writer needs of `DoGetJSON` and of json-c, and that `DoGetJSON` gives it.
use qing_stor_c_sdk.Prelude.{ℕ, ◌≡◌, List, Bytes, Option}
use qing_stor_c_sdk.Errors.{Result, Exception, throw}
use qing_stor_c_sdk.Common.Upload.{MemoryData}
use qing_stor_c_sdk.Request.{Request, Platform, do_get_json}
use qing_stor_c_sdk.Request.Outcome.{Outcome, do_get_json-Outcome}

-- `json_object_object_get_ex`, `json_object_get_string` (null for a null value), and the text of
-- `{ "object_parts": [ { "part_number": i }, … ] }`.
pub record JsonValues (Json : Type 0) : Type 0 where
  pub get_ex : Json → Bytes → Option Json
  pub get_string : Json → Option Bytes
  pub print_parts : List ℕ → Bytes

-- Requests with retries, and what may come back.
pub record Client (World Json : Type 0) : Type 0 where
  pub run : Request → Option MemoryData → ℕ → World → Result (Option Json) × World
  pub run-Outcome :
      (q : Request) (md : Option MemoryData) (retries : ℕ) (w : World)
      → Outcome q.kind (run q md retries w).0
  pub get_ex : Json → Bytes → Option Json
  pub get_string : Json → Option Bytes
  pub parts_text : List ℕ → Bytes

module _ {World Json : Type 0} (client : Client World Json) where
  -- Some request has come to this.
  abbrev pub Ran : Result (Option Json) → Type 0
  Ran r =
      (q : Request) × (md : Option MemoryData) × (retries : ℕ) × (w : World) × ((client.run q md
          retries w).0
        ≡ r)

  -- Some request has thrown.
  abbrev pub RanBadly : Type 0
  RanBadly = (e : Exception) × Ran (throw e)

module _ {World Json : Type 0} (p : Platform World Json) (v : JsonValues Json) where
  -- `DoGetJSON` as the writer's client.
  abbrev pub sdk_client : Client World Json
  sdk_client = record {
    run = λ q md retries w. let a = do_get_json p q md retries w in (a.result, a.world);
    run-Outcome = do_get_json-Outcome p;
    get_ex = v.get_ex;
    get_string = v.get_string;
    parts_text = v.print_parts;
  }
