-- ===== src/Interface/Failure.antt =====
-- What the functions of src/QingStor.cpp report when a call fails.
use qing_stor_c_sdk.Prelude.{Option, none, some}
use qing_stor_c_sdk.Errors.{Result, ok, fault, qingstor, einternal}
use qing_stor_c_sdk.Errors.Messages.{get_exception_message, set_error_message}
use qing_stor_c_sdk.Errors.Plain.{Plain}
use qing_stor_c_sdk.Fetcher.{Fetcher}
use qing_stor_c_sdk.Pipeline.{Pipeline}
use qing_stor_c_sdk.Context.Listing.{Listing}
use qing_stor_c_sdk.Interface.{Api, Texts, refused}

module _ {World : Type 0} (texts : Texts) where
  -- How a function that was called in `a` may end: its parameters are refused, and nothing else has
  -- happened; or the call behind it failed, which sets EINTERNAL and the text of the exception; or
  -- it succeeded, and `errno` and the message are as they were; or its behaviour is undefined.
  pub data Verdict {ℓ} {R : Type ℓ} (failing : R) (a : Api World)
      : Result R × Api World → Type ℓ where
    refusal : Verdict failing a (ok failing, refused texts a)
    failed_call :
        (w : World)
        → Verdict failing a (
          ok failing,
          record a {
            errno = some einternal;
            message = set_error_message (get_exception_message (texts.whats qingstor));
            world = w;
          },
        )
    succeeded : (v : R) (w : World) → Verdict failing a (ok v, record a { world = w })
    undefined : (w : World) → Verdict failing a (fault, record a { world = w })

  -- For a function that may still be running.
  abbrev pub VerdictIf {ℓ} : {R : Type ℓ} → R → Api World → Option (Result R × Api World) → Type ℓ
  VerdictIf failing a none = Unit
  VerdictIf failing a (some o) = Verdict failing a o

-- What opening a reader throws, if it ends.
abbrev PlainIf {ℓ} : {V : Type ℓ} → Option (Result V) → Type 0
PlainIf none = Unit
PlainIf (some r) = Plain r
