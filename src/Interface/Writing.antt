-- ===== src/Interface/Writing.antt =====
-- `qingstorWrite` and `qingstorCancelObject` (src/QingStor.cpp) of an object with a buffer.
use qing_stor_c_sdk.Prelude.{
  ◌<◌, ◌≡◌, ◌⊎◌, inl, inr, refl, ap, ◌∙◌, true, List, [], ◌∷◌, ◌++◌, Bytes, length, Option, none,
  some,
}
use qing_stor_c_sdk.Prelude.Int.{ℤ, pos}
use qing_stor_c_sdk.Errors.{Result, ok, throw, fault, einternal, handle_exception, rethrow_copy}
use qing_stor_c_sdk.Common.Header.{abort_mp_upload}
use qing_stor_c_sdk.Config.{Configuration}
use qing_stor_c_sdk.Writer.{
  ◌then_do◌, answered, rethrown, mark_canceled, held, Writer, Step, cancel, upload_request,
}
use qing_stor_c_sdk.Request.Outcome.{Outcome}
use qing_stor_c_sdk.Writer.Close.{close-canceled}
use qing_stor_c_sdk.Writer.Fill.{IsWriter}
use qing_stor_c_sdk.Writer.Moves.{Pumped, Moved, upload_asked}
use qing_stor_c_sdk.Writer.Parts.{transfer_data-Pumped}
use qing_stor_c_sdk.Writer.Requests.{Client, Ran}
use qing_stor_c_sdk.Context.Extract.{JsonNumbers}
use qing_stor_c_sdk.Interface.{Api, Texts}
use qing_stor_c_sdk.Interface.Contexts.{failure}
use qing_stor_c_sdk.Interface.Handles.{
  Object, as_written, get_writer, destroy_object, destroy_writer,
}
use qing_stor_c_sdk.Interface.Objects.{
  session_of, stepped, write_steps, write_object, cancel_object, close_object,
}
use qing_stor_c_sdk.Interface.Upload.{write_object_lem}

module _ {World Json : Type 0} (texts : Texts) (client : Client World Json)
    (numbers : JsonNumbers Json) where
  -- What the server is asked for by a write from `w` in `a` to `w'` in `a'`, and what is kept.
  abbrev pub Between :
      Writer → Api World → Writer → Api World → List Bytes → List Bytes → Bytes → Type 0
  Between w a w' a' parts tried taken =
      Moved client (session_of texts client numbers w a) (session_of texts client numbers w' a')
        parts tried taken

  -- What a write of the text `t` may come to.
  abbrev pub Wrote : Writer → Api World → Bytes → Result ℤ × (Option Object × Api World) → Type 0
  Wrote w a t (fault, out) = Ran client fault
  Wrote w a t (throw e, out) = ⊥
  Wrote w a t (ok n, (o, a')) =
      (w' : Writer) × (o ≡ some (as_written w'))
      × (((parts : List Bytes) × (n ≡ pos (length t))
            × (a'.errno ≡ a.errno)
            × Between w a w' a' parts parts t)
          ⊎ ((parts : List Bytes) × (taken : Bytes) × (lost : Bytes) × (n ≡ failure)
              × (a'.errno ≡ some einternal)
              × (t ≡ taken ++ lost)
              × Between w a w' a' parts (parts ++ (held w' ∷ [])) taken))

  stepped-Wrote :
      (w : Writer) (a : Api World) (t : Bytes) (d : Step client)
      → Pumped client (session_of texts client numbers w a) t d
      → Wrote w a t (stepped texts client numbers (pos (length t)) d a)
  unfolding handle_exception
  stepped-Wrote w a t (fault, s) h = h
  stepped-Wrote w a t (throw e, s) (q, bad, parts, taken, lost, split, m, top) =
      rw q (s.writer, refl, inr (parts, taken, lost, refl, refl, split, m))
  stepped-Wrote w a t (ok u, s) (parts, m, low) = (s.writer, refl, inl (parts, refl, refl, m))

  -- A call of `qingstorWrite` with at least one byte, on an object with a buffer of fewer than
  -- 2 ^ 31 bytes that has room, always comes back. It returns the length of the text, `errno` is as
  -- it was, and every byte has been given to `DoGetJSON` in a full part or is held; or it returns -1
  -- with EINTERNAL, and then a beginning of the text has been taken all the same, and has been given
  -- to `DoGetJSON` or is held with the part that was refused; or
  -- its behaviour is undefined, which it is only if that of a request can be.
  pub write_object-Wrote :
      (c : Configuration) (w : Writer) (t : Bytes) (a : Api World)
      → IsWriter w
      → w.write_pos < w.buff_size
      → 0 < length t
      → (r : Result ℤ × (Option Object × Api World)) × (write_object texts client numbers
            (some c)
            (some (as_written w))
            (some t)
            (pos (length t))
            a
          ≡ some r)
        × Wrote w a t r
  write_object-Wrote c w t a v low some_byte =
      let (d, e, p) = transfer_data-Pumped client (session_of texts client numbers w a) t v low in
      (
        stepped texts client numbers (pos (length t)) d a,
        write_object_lem texts client numbers c w t a some_byte
            ∙ ap (λ o. write_steps texts client numbers (pos (length t)) o a) e,
        stepped-Wrote w a t d p,
      )

  -- A writer's object that was cancelled closes well, and nothing more is asked for.
  close_object-canceled :
      (w : Writer) (a : Api World)
      → w.canceled ≡ true
      → close_object texts client numbers (some (as_written w)) a ≡ (ok (pos 0), a)
  unfolding close_object get_writer destroy_object destroy_writer
  close_object-canceled w a e =
      rw (close-canceled client (session_of texts client numbers w a) e) refl

  -- What `qingstorCancelObject` may come to.
  abbrev pub Cancelled : Writer → Api World → Result ℤ × (Option Object × Api World) → Type 0
  Cancelled w a (fault, out) = Ran client fault
  Cancelled w a (throw e, out) = ⊥
  Cancelled w a (ok n, (o, a')) =
      ((n ≡ pos 0)
        × (a'.issued ≡ a.issued ++ ((upload_asked abort_mp_upload w, none) ∷ []))
        × (a'.errno ≡ a.errno)
        × (close_object texts client numbers o a' ≡ (ok (pos 0), a')))
      ⊎ ((n ≡ failure) × (a'.errno ≡ some einternal) × (o ≡ some (as_written w)))

  answer-Cancelled :
      (w : Writer) (a : Api World) (r : Result (Option Json)) (x : World)
      → Outcome abort_mp_upload r
      → Ran client r
      → Cancelled w a (
          stepped texts client numbers
            (pos 0)
            (◌then_do◌ client
              (answered client (
                rethrown client (
                  r,
                  record (session_of texts client numbers w a) {
                    world = x;
                    issued = a.issued ++ ((upload_request abort_mp_upload w, none) ∷ []);
                  },
                )))
              (mark_canceled client))
            a)
  unfolding rethrow_copy handle_exception
  answer-Cancelled w a fault x h ran = ran
  answer-Cancelled w a (throw e) x h ran = rw h (inr (refl, refl, refl))
  answer-Cancelled w a (ok v) x h ran =
      inl (
        refl,
        refl,
        refl,
        close_object-canceled (record w { part_num = 0; canceled = true }) _ refl,
      )

  -- `qingstorCancelObject` of an open object that is written: it returns 0, the server has been asked
  -- for one thing, to abort the upload, and `qingstorCloseObject` then returns 0 without asking for
  -- anything; or it returns -1 with EINTERNAL and the object is as it was; or its behaviour is
  -- undefined, which it is only if that of a request can be.
  pub cancel_object-Cancelled :
      (c : Configuration) (w : Writer) (a : Api World)
      → Cancelled w a (cancel_object texts client numbers (some c) (some (as_written w)) a)
  unfolding cancel_object get_writer cancel
  cancel_object-Cancelled c w a =
      answer-Cancelled w a _ _ (client.run-Outcome (upload_request abort_mp_upload w) none _ _)
        (upload_request abort_mp_upload w, none, _, _, refl)
