-- ===== src/Interface/Init.antt =====
-- `qingstorInitContextFromFile` (src/QingStor.cpp).
use qing_stor_c_sdk.Prelude.{
  ◌≡◌, refl, ap, Bool, true, false, List, Bytes, if◌then◌else◌, Option, none, some,
}
use qing_stor_c_sdk.Errors.{ok, fault}
use qing_stor_c_sdk.Config.{Token, from_file}
use qing_stor_c_sdk.Config.Scan.{from_file_invalid}
use qing_stor_c_sdk.Interface.{Api, Texts, given, refused}
use qing_stor_c_sdk.Interface.Contexts.{init_context_from_file, deleting_context}

from_file-deleted :
    (parser_ok : Bool) (opened : Option (List Token))
    → deleting_context (from_file parser_ok opened) ≡ fault
unfolding from_file
from_file-deleted false opened = refl
from_file-deleted true none = refl
from_file-deleted true (some ts) = ap deleting_context (from_file_invalid ts)

module _ {World : Type 0} (texts : Texts) where
  -- `qingstorInitContextFromFile` never returns a context: without a name it refuses, and with one
  -- its behaviour is undefined, whatever is in the file, since no file is accepted and the failure
  -- deletes a pointer that was never set.
  pub init_context_from_file-fault :
      (file : Option Bytes) (parser_ok : Bool) (opened : Option (List Token)) (a : Api World)
      → init_context_from_file texts file parser_ok opened a
        ≡ (if given file then (fault, a) else (ok none, refused texts a))
  unfolding init_context_from_file
  init_context_from_file-fault file parser_ok opened a =
      rw (from_file-deleted parser_ok opened) refl
