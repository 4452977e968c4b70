-- ===== src/Errors/Classes.antt =====
-- What `handleException` of src/QingStor.cpp makes of each class, also after a `throw e` by copy.
use qing_stor_c_sdk.Prelude.{◌≡◌, refl, true, ◌||◌, ◌↔◌, arith}
use qing_stor_c_sdk.Errors.{
  Exception, qingstor, io, access_control, canceled, config_invalid, config_not_found, timeout,
  invalid_parameter, catches, eacces, eio, einval, einternal, enomem, handle_exception,
  rethrow_copy,
}

-- The error number depends on the class alone: EACCES for AccessControlException; EIO for
-- QingStorIOException and its subclasses, QingStorCanceled and QingStorTimeoutException; EINVAL for
-- InvalidParameter and its subclasses and the two configuration errors; and never ENOMEM.
pub handle_exception_classes :
    (e : Exception)
    → ((handle_exception e ≡ eacces) ↔ (catches access_control e ≡ true))
      × ((handle_exception e ≡ eio)
          ↔ ((catches io e || catches canceled e || catches timeout e) ≡ true))
      × ((handle_exception e ≡ einval) ↔ (
          (catches invalid_parameter e || catches config_invalid e || catches config_not_found e)
          ≡ true))
      × (handle_exception e ≡ enomem → ⊥)
unfolding handle_exception
handle_exception_classes qingstor = ground arith
handle_exception_classes _ = ground arith

-- Whatever the library throws, after one `throw e` by copy the error number is EINTERNAL.
pub handle_exception-rethrow_copy : (e : Exception) → handle_exception (rethrow_copy e) ≡ einternal
unfolding handle_exception rethrow_copy
handle_exception-rethrow_copy qingstor = refl
handle_exception-rethrow_copy _ = refl
