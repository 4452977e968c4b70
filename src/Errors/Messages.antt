-- ===== src/Errors/Messages.antt =====
-- The texts of errors: `THROW`, `GetExceptionMessage`, `GetExceptionDetail`, `GetSystemErrorInfo`
-- (src/ExceptionInternal.h and .cpp), and the buffer of the last error (src/QingStor.cpp). An
-- exception is here its text and those of the exceptions nested in it, the outermost first.
use qing_stor_c_sdk.Prelude.{
  ℕ, suc, Bool, false, List, [], ◌∷◌, ◌++◌, Bytes, codes, decimal, take, replicate, ◌==◌,
  if◌then◌else◌, Option, none, some,
}
use qing_stor_c_sdk.Errors.{Result, ok, throw, canceled}

-- `ThrowException`: the text of an exception is its class, a colon and what was formatted.
abbrev pub throw_text : Bytes → Bytes → Bytes
throw_text exception_name formatted = exception_name ++ (codes ": " ++ formatted)

-- The constructor of `QingStorException` (src/Exception.cpp): what `msg` gives.
abbrev pub exception_detail : Bytes → ℕ → Bytes → Bytes → Bytes
exception_detail file line arg stack =
    file ++ (codes ": " ++ (decimal line ++ (codes ": " ++ (arg ++ (10 ∷ stack)))))

-- `CheckOperationCanceled`: the answer of the callback, if there is one.
abbrev pub check_operation_canceled : Option Bool → Result Bool
check_operation_canceled none = ok false
check_operation_canceled (some b) = if b then throw canceled else ok false

-- The slash that `SkipPathPrefix` finds is the last one behind the first byte; without one its
-- assertion fails.
abbrev pub after_last_slash : Bytes → Option Bytes
after_last_slash [] = none
after_last_slash (c ∷ cs) = elim (after_last_slash cs) [
  | some rest ↦ some rest
  | none ↦ if c == b'/' then some cs else none
]

unfoldable pub skip_path_prefix : Bytes → Option Bytes
skip_path_prefix [] = none
skip_path_prefix (c ∷ cs) = after_last_slash cs

-- The recursion of `GetExceptionMessage`: as many tabs as the depth.
unfoldable pub nested_message : ℕ → List Bytes → Bytes
nested_message depth [] = []
nested_message depth (what ∷ nested) =
    replicate depth 9
    ++ ((if depth == 0 then [] else codes "Caused by: ")
        ++ (what ++ nested_message (suc depth) nested))

-- `GetExceptionMessage`
abbrev pub get_exception_message : List Bytes → Bytes
get_exception_message = nested_message 0

-- `GetExceptionDetailInternal` below the top level.
unfoldable pub nested_detail : List Bytes → Bytes
nested_detail [] = []
nested_detail (msg ∷ nested) = codes "Caused by" ++ (10 ∷ (msg ++ nested_detail nested))

unfoldable pub get_exception_detail : List Bytes → Bytes
unfolding nested_detail
get_exception_detail [] = []
get_exception_detail (msg ∷ nested) = msg ++ nested_detail nested

-- `GetSystemErrorInfo`: the text of the system, cut to 63 bytes, and the whole cut to 63 bytes.
abbrev pub get_system_error_info : (ℕ → Bytes) → ℕ → Bytes
get_system_error_info strerror_r eno =
    take 63 (codes "(errno: " ++ (decimal eno ++ (codes ") " ++ take 63 (strerror_r eno))))

-- `SetErrorMessage`: a buffer of 4096 bytes with a NUL at its end.
abbrev pub set_error_message : Bytes → Bytes
set_error_message msg = take 4095 msg
