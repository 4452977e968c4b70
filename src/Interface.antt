-- ===== src/Interface.antt =====
-- The C interface (src/QingStor.cpp, src/qingstor.h): each function checks its parameters, calls the
-- context, reader or writer, and turns an exception into an error number and a message.
-- What a function returns is a `Result` that never throws: `fault` is undefined behaviour.
pub mod Contexts
pub mod Handles
pub mod Objects
pub mod Failure
pub mod Returns
pub mod Upload
pub mod Ranges
pub mod Unread
pub mod Init
pub mod Download
pub mod Reading
pub mod Writing
mod Tests
mod UploadTests
mod ReadTests
mod DownloadTests
use qing_stor_c_sdk.Prelude.{
  ℕ, Bool, true, false, not, List, [], Bytes, codes, is_empty, if◌then◌else◌, Option, none, some,
}
use qing_stor_c_sdk.Errors.{
  Exception, bad_alloc, catches, Errno, einval, enomem, handle_exception, Result, ok, throw, fault,
}
use qing_stor_c_sdk.Errors.Messages.{
  get_exception_message, get_system_error_info, set_error_message,
}
use qing_stor_c_sdk.Writer.{Issued}

-- The texts that exceptions and the system give: those of the exception that a call reports, by its
-- class, the outermost first, the system's text of an error number, and the number of EINVAL.
pub record Texts : Type 0 where
  pub whats : Exception → List Bytes
  pub strerror_r : ℕ → Bytes
  pub einval_number : ℕ

-- `errno` (none before it is first set), `ErrorMessage`, the surroundings, and the requests that
-- writers have issued.
pub record Api (World : Type 0) : Type 0 where
  pub errno : Option Errno
  pub message : Bytes
  pub world : World
  pub issued : List Issued

abbrev pub given : Option Bytes → Bool
given none = false
given (some t) = not (is_empty t)

abbrev pub is_some {ℓ} : {V : Type ℓ} → Option V → Bool
is_some none = false
is_some (some v) = true

module _ {World : Type 0} (texts : Texts) where
  -- `PARAMETER_ASSERT(…, …, EINVAL)`
  abbrev pub refused : Api World → Api World
  refused a = record a {
    errno = some einval;
    message = set_error_message (get_system_error_info texts.strerror_r texts.einval_number);
  }

  -- `SetLastException` and `handleException`.
  abbrev pub last_exception : Exception → Api World → Api World
  last_exception e a = record a {
    errno = some (handle_exception e);
    message = set_error_message (get_exception_message (texts.whats e));
  }

  abbrev pub out_of_memory_set : Api World → Api World
  out_of_memory_set a = record a {
    errno = some enomem;
    message = set_error_message (codes "Out of memory");
  }

  -- The two `catch` clauses of every function.
  abbrev pub on_exception : Exception → Api World → Api World
  on_exception e a = if catches bad_alloc e then out_of_memory_set a else last_exception e a

  -- `try { … return …; } catch … ; return failing;`
  abbrev pub guarded {κ ℓ} :
      {V : Type κ} {R : Type ℓ} → R → (V → R) → Result V → Api World → Result R × Api World
  guarded failing returned fault a = (fault, a)
  guarded failing returned (throw e) a = (ok failing, on_exception e a)
  guarded failing returned (ok v) a = (ok (returned v), a)

  -- A function whose parameters are refused returns at once.
  abbrev pub checked {ℓ} :
      {R : Type ℓ}
      → Bool
      → R
      → (Api World → Result R × Api World)
      → Api World
      → Result R × Api World
  checked valid failing body a = let run = body a in if valid then run else (ok failing, refused a)
