-- ===== src/Errors/Tests.antt =====
-- The error numbers of src/QingStor.cpp at one exception.
use qing_stor_c_sdk.Prelude.{◌≡◌}
use qing_stor_c_sdk.Errors.{access_control, einternal, handle_exception, rethrow_copy}
use qing_stor_c_sdk.Errors.Classes.{handle_exception-rethrow_copy}

handle_exception-rethrow_copy_example : handle_exception (rethrow_copy access_control) ≡ einternal
handle_exception-rethrow_copy_example = handle_exception-rethrow_copy access_control
