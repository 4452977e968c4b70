-- ===== src/Writer/Granted.antt =====
-- An upload (src/QingStorWriter.cpp) whose requests all succeed.
use qing_stor_c_sdk.Prelude.{ℕ, Option}
use mathlib.Core.Path.{subst}
use qing_stor_c_sdk.Errors.{Result, ok, throw, fault}
use qing_stor_c_sdk.Common.Upload.{MemoryData}
use qing_stor_c_sdk.Request.{Request}
use qing_stor_c_sdk.Writer.Requests.{Client, Ran}

-- A result that is neither an exception nor undefined.
abbrev pub Succeeds {ℓ} : {V : Type ℓ} → Result V → Type 0
Succeeds fault = ⊥
Succeeds (throw e) = ⊥
Succeeds (ok v) = Unit

module _ {World Json : Type 0} (client : Client World Json) where
  -- Whatever is asked for, in whatever surroundings.
  abbrev pub AllGranted : Type 0
  AllGranted =
      (q : Request) (md : Option MemoryData) (retries : ℕ) (w : World)
      → Succeeds (client.run q md retries w).0

  pub Ran-Succeeds : {r : Result (Option Json)} → AllGranted → Ran client r → Succeeds r
  Ran-Succeeds granted (q, md, n, w, e) = subst Succeeds e (granted q md n w)
