-- ===== src/Interface/UploadTests.antt =====
-- A whole upload through src/QingStor.cpp against the server of Interface/Tests, and the theorems at it.
use qing_stor_c_sdk.Prelude.{
  ℕ, ◌≡◌, refl, true, false, [], ◌∷◌, ◌++◌, Bytes, codes, Option, none, some, arith,
}
use qing_stor_c_sdk.Prelude.Int.{ℤ, pos}
use qing_stor_c_sdk.Errors.{Result, ok}
use qing_stor_c_sdk.Common.Buffer.{concat}
use qing_stor_c_sdk.Writer.{
  Writer, transfer_data, pump, send_full, do_send, fill, close, flush, complete,
}
use qing_stor_c_sdk.Writer.Open.{open_writer, init_multipart_upload, extract_upload_id, new_writer}
use qing_stor_c_sdk.Writer.Moves.{part_calls}
use qing_stor_c_sdk.Writer.Close.{complete_call}
use qing_stor_c_sdk.Writer.Upload.{UploadOf}
use qing_stor_c_sdk.Interface.{Api}
use qing_stor_c_sdk.Interface.Handles.{
  get_writer, destroy_object, destroy_writer, Object, as_written,
}
use qing_stor_c_sdk.Interface.Objects.{
  cancel_object, put_object, write_object, close_object, session_of,
}
use qing_stor_c_sdk.Interface.Writing.{
  Wrote, write_object-Wrote, Cancelled, cancel_object-Cancelled,
}
use qing_stor_c_sdk.Interface.Upload.{no_write, then_write, put-write-close}
use qing_stor_c_sdk.Interface.Tests.{granting, numbers, texts, config, start, b, k, opened}

-- An object that `qingstorPutObject` opened, with what its buffer holds and the parts so far.
abbrev writer_with : Bytes → ℕ → ℕ → Writer
writer_with held n parts = record {
  config = config;
  bucket = codes "b";
  upload_id = codes "id";
  key = codes "id";
  cred = record { keyid = codes "I"; secret = codes "S" };
  buffer = some held;
  buff_size = 2;
  write_pos = n;
  part_num = parts;
  canceled = false;
  cache = true;
}

put_run :
    put_object texts granting numbers (some config) b k true start
    ≡ (ok (some (as_written (writer_with [] 0 0))), opened)
unfolding put_object open_writer init_multipart_upload extract_upload_id new_writer
put_run = refl

-- After the write of three bytes.
abbrev wrote : Api ℕ
wrote = record {
  errno = none;
  message = codes "Success";
  world = 2;
  issued = part_calls (writer_with [] 0 0) 0 (codes "ab" ∷ []);
}

write_run :
    write_object texts granting numbers
      (some config)
      (some (as_written (writer_with [] 0 0)))
      (some (codes "abc"))
      (pos 3)
      opened
    ≡ some (ok (pos 3), (some (as_written (writer_with (codes "c") 1 1)), wrote))
unfolding write_object get_writer transfer_data pump send_full do_send fill
write_run = refl

abbrev closed : Api ℕ
closed = record wrote {
  world = 4;
  issued =
      part_calls (writer_with [] 0 0) 0 (codes "ab" ∷ codes "c" ∷ [])
      ++ (complete_call granting (writer_with [] 0 0) 2 ∷ []);
}

close_run :
    close_object texts granting numbers (some (as_written (writer_with (codes "c") 1 1))) wrote
    ≡ (ok (pos 0), closed)
unfolding close_object get_writer destroy_object destroy_writer close flush complete do_send
close_run = refl

put-write-close_example :
    (w : Writer) × (as_written (writer_with [] 0 0) ≡ as_written w)
    × (w.bucket ≡ codes "b")
    × (pos w.buff_size ≡ pos 2)
    × (opened.issued ≡ start.issued)
    × UploadOf granting
        (session_of texts granting numbers w opened)
        (concat (codes "abc" ∷ []))
        closed.issued
put-write-close_example =
    put-write-close texts granting numbers config b k 1 (codes "abc" ∷ [])
      (as_written (writer_with [] 0 0)) (as_written (writer_with (codes "c") 1 1)) start opened
      wrote closed refl (omega arith) put_run (then_write write_run no_write) close_run

write_object-Wrote_example :
    (r : Result ℤ × (Option Object × Api ℕ)) × (write_object texts granting numbers
        (some config)
        (some (as_written (writer_with [] 0 0)))
        (some (codes "abc"))
        (pos 3)
        opened
      ≡ some r)
    × Wrote texts granting numbers (writer_with [] 0 0) opened (codes "abc") r
write_object-Wrote_example =
    write_object-Wrote texts granting numbers config (writer_with [] 0 0) (codes "abc") opened
      (record {
        caches = refl;
        buffered = refl;
        counted = refl;
        inside = omega arith;
        room = omega arith;
        small = omega arith;
      })
      (omega arith) (omega arith)

cancel_object-Cancelled_example :
    Cancelled texts granting numbers (writer_with (codes "c") 1 1) wrote (
      cancel_object texts granting numbers
        (some config)
        (some (as_written (writer_with (codes "c") 1 1)))
        wrote)
cancel_object-Cancelled_example =
    cancel_object-Cancelled texts granting numbers config (writer_with (codes "c") 1 1) wrote
