-- ===== src/Interface/Upload.antt =====
-- A whole upload through the functions of src/QingStor.cpp: `qingstorPutObject`, `qingstorWrite` as
-- often as one likes, and `qingstorCloseObject`.
use qing_stor_c_sdk.Prelude.{
  ℕ, ◌+◌, ◌<◌, ◌^◌, ◌≡◌, refl, sym, ap, ◌∙◌, true, Bool, ◌&&◌, List, [], ◌∷◌, Bytes, length, Option,
  none, some, arith,
}
use mathlib.Core.Path.{subst}
use qing_stor_c_sdk.Prelude.Slices.{take_all}
use qing_stor_c_sdk.Prelude.Int.{pos, ltb_ℤ_of_lt}
use qing_stor_c_sdk.Errors.{ok}
use qing_stor_c_sdk.Common.Buffer.{concat}
use qing_stor_c_sdk.Config.{Configuration}
use qing_stor_c_sdk.Writer.{Writer, Session, transfer_data, close}
use qing_stor_c_sdk.Writer.Requests.{Client}
use qing_stor_c_sdk.Writer.Open.{open_writer, Opened, open_writer-Opened}
use qing_stor_c_sdk.Writer.Upload.{
  write_all, whole_upload, whole_upload-Uploaded, Uploaded, UploadOf,
}
use qing_stor_c_sdk.Context.Extract.{JsonNumbers}
use qing_stor_c_sdk.Interface.{Api, Texts, given}
use qing_stor_c_sdk.Interface.Contexts.{or_empty}
use qing_stor_c_sdk.Interface.Handles.{Object, as_written, get_writer}
use qing_stor_c_sdk.Interface.Objects.{
  opened_writer, put_object, session_of, left_by, write_steps, write_object, close_object,
}
use qing_stor_c_sdk.Interface.Returns.{
  none-some, some_inj, write_steps-ok, closed-ok, guarded-ok, checked-ok,
}

module _ {World Json : Type 0} (texts : Texts) (client : Client World Json)
    (numbers : JsonNumbers Json) where
  -- Writes that each return the length of their text, which is not empty.
  pub data Writes (c : Configuration)
      : Object → Api World → List Bytes → Object → Api World → Type 0 where
    no_write : {o : Object} {a : Api World} → Writes c o a [] o a
    then_write :
        {o o' o'' : Object} {a a' a'' : Api World} {t : Bytes} {ts : List Bytes}
        → write_object texts client numbers (some c) (some o) (some t) (pos (length t)) a
          ≡ some (ok (pos (length t)), (some o', a'))
        → Writes c o' a' ts o'' a''
        → Writes c o a (t ∷ ts) o'' a''

  -- What a write of a writer's object comes to.
  pub write_object_lem :
      (c : Configuration) (w : Writer) (t : Bytes) (a : Api World)
      → 0 < length t
      → write_object texts client numbers (some c) (some (as_written w)) (some t) (pos (length t)) a
        ≡ write_steps texts client numbers
            (pos (length t))
            (transfer_data client t (session_of texts client numbers w a))
            a
  unfolding write_object get_writer
  write_object_lem c w t a some_byte =
      rw
        (
          ltb_ℤ_of_lt (pos 0) (pos (length t)) (omega (arith, some_byte)),
          take_all t (length t) (omega arith),
        )
        refl

  write_object-ok :
      (c : Configuration) (w : Writer) (t : Bytes) (a a' : Api World) (o' : Object)
      → write_object texts client numbers (some c) (some (as_written w)) (some t) (pos (length t)) a
        ≡ some (ok (pos (length t)), (some o', a'))
      → (s : Session World) × (transfer_data client t (session_of texts client numbers w a)
          ≡ some (ok tt, s))
        × (o' ≡ as_written s.writer)
        × (a' ≡ left_by texts client numbers s a)
  unfolding write_object
  write_object-ok c w [] a a' o' e = cc
  write_object-ok c w (b ∷ t) a a' o' e =
      write_steps-ok texts client numbers (length (b ∷ t)) _ a a' o'
        (sym (write_object_lem c w (b ∷ t) a (omega arith)) ∙ e)

  Writes-write_all :
      {c : Configuration} {o o' : Object} {a a' : Api World} {ts : List Bytes} (w : Writer)
      → o ≡ as_written w
      → Writes c o a ts o' a'
      → (w' : Writer) × (o' ≡ as_written w')
        × (write_all client ts (session_of texts client numbers w a)
            ≡ some (ok tt, session_of texts client numbers w' a'))
  Writes-write_all w p no_write = (w, p, refl)
  Writes-write_all {c = c} {o' = o''} {a = a} {ts = t ∷ ts} w p
        (then_write {o' = o'} {a' = a'} e rest) =
      let (s, run, q, r) = write_object-ok c w t a a' o' (
        subst
          (λ o.
            write_object texts client numbers (some c) (some o) (some t) (pos (length t)) a
            ≡ some (ok (pos (length t)), (some o', a')))
          p e) in
      let (w', q', run') = Writes-write_all s.writer q rest in
      let same : session_of texts client numbers s.writer a' ≡ s =
        ap (session_of texts client numbers s.writer) r in
      (w', q', rw run (ap (write_all client ts) (sym same) ∙ run'))

  close_object-ok :
      (w : Writer) (a a' : Api World)
      → close_object texts client numbers (some (as_written w)) a ≡ (ok (pos 0), a')
      → (s : Session World) × (close client (session_of texts client numbers w a) ≡ (ok tt, s))
        × (a' ≡ left_by texts client numbers s a)
  unfolding close_object get_writer
  close_object-ok w a a' e =
      let d = close client (session_of texts client numbers w a) in
      let (p, q) = closed-ok texts client numbers d a a' e in (d.1, ap (λ r. (r, d.1)) p, q)

  put_object-ok :
      (c : Configuration) (bucket key : Option Bytes) (cache : Bool) (a a' : Api World) (o : Object)
      → put_object texts client numbers (some c) bucket key cache a ≡ (ok (some o), a')
      → (w : Writer) × ((open_writer client c (or_empty bucket) (or_empty key) cache a.world).0
          ≡ ok w)
        × (o ≡ as_written w)
        × (a'.issued ≡ a.issued)
  unfolding put_object
  put_object-ok c bucket key cache a a' o e =
      let called =
        checked-ok texts client numbers (given bucket && given key) none (some o)
          (opened_writer texts client numbers c (or_empty bucket) (or_empty key) cache) a a'
          none-some e in
      let opened = open_writer client c (or_empty bucket) (or_empty key) cache a.world in
      let (w, p, q, r) =
        guarded-ok texts client numbers opened.0 (record a { world = opened.1 }) a' o called in
      (w, p, q, ap (λ x. x.issued) r)

  -- An upload through the C interface that succeeds: if `qingstorPutObject` opens an object with a
  -- buffer, each write returns the length of its text, and `qingstorCloseObject` returns 0, then the
  -- calls of `DoGetJSON` in between are just these, in order: one upload for each full buffer of the
  -- bytes of the writes and one for the shorter rest, with the part numbers from 0 on and with all
  -- the bytes of the part in each, and the completion with these numbers. The buffer is as large as
  -- the chunk size of the context, which is at least 1 and below 2 ^ 31.
  pub put-write-close :
      (c : Configuration) (bucket key : Option Bytes) (n : ℕ) (ts : List Bytes) (o o' : Object)
      (a a₁ a₂ a₃ : Api World)
      → c.chunk_size ≡ pos (1 + n)
      → 1 + n < 2 ^ 31
      → put_object texts client numbers (some c) bucket key true a ≡ (ok (some o), a₁)
      → Writes c o a₁ ts o' a₂
      → close_object texts client numbers (some o') a₂ ≡ (ok (pos 0), a₃)
      → (w : Writer) × (o ≡ as_written w)
        × (w.bucket ≡ or_empty bucket)
        × (pos w.buff_size ≡ c.chunk_size)
        × (a₁.issued ≡ a.issued)
        × UploadOf client (session_of texts client numbers w a₁) (concat ts) a₃.issued
  put-write-close c bucket key n ts o o' a a₁ a₂ a₃ size lt put writes closes =
      let (w, opened, p, kept) = put_object-ok c bucket key true a a₁ o put in
      let (_, is_bucket, is_size, fresh) =
        subst (Opened client c (or_empty bucket)) opened
          (open_writer-Opened client c (or_empty bucket) (or_empty key) n a.world size lt) in
      let (w', p', run) = Writes-write_all w p writes in
      let (s, close_run, left) =
        close_object-ok w' a₂ a₃ (
          subst (λ x. close_object texts client numbers (some x) a₂ ≡ (ok (pos 0), a₃)) p'
            closes) in
      let start = session_of texts client numbers w a₁ in
      let (step, e, u) = whole_upload-Uploaded client ts start fresh in
      let whole : whole_upload client ts start ≡ some (ok tt, s) = rw run (ap some close_run) in
      let uploaded : Uploaded client start (concat ts) (ok tt, s) =
        subst (Uploaded client start (concat ts)) (some_inj (sym e ∙ whole)) u in
      (
        w,
        p,
        is_bucket,
        is_size,
        kept,
        subst (UploadOf client start (concat ts)) (sym (ap (λ x. x.issued) left)) uploaded,
      )
