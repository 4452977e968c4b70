-- ===== src/Interface/Objects.antt =====
-- The functions on objects that are read or written (src/QingStor.cpp). A null pointer is `none`.
use qing_stor_c_sdk.Prelude.{
  ℕ, Bool, ◌&&◌, not, List, [], Bytes, length, take, if◌then◌else◌, Option, none, some,
}
use qing_stor_c_sdk.Prelude.Int.{ℤ, pos, pos_part, ltb_ℤ}
use qing_stor_c_sdk.Errors.{Result, ok, throw, fault, catches, end_of_stream}
use qing_stor_c_sdk.Common.Signature.{Crypto}
use qing_stor_c_sdk.Common.Url.{UrlParser}
use qing_stor_c_sdk.Config.{Configuration}
use qing_stor_c_sdk.Pipeline.{Pipeline, Round}
use qing_stor_c_sdk.Pipeline.End.{open_reader}
use qing_stor_c_sdk.Writer.{Writer, Session, Step, cancel, close, transfer_data}
use qing_stor_c_sdk.Writer.Requests.{Client}
use qing_stor_c_sdk.Writer.Open.{open_writer}
use qing_stor_c_sdk.Context.{head_object_of}
use qing_stor_c_sdk.Context.Extract.{JsonNumbers, HeadObjectResult}
use qing_stor_c_sdk.Interface.{Api, Texts, given, is_some, refused, on_exception, guarded, checked}
use qing_stor_c_sdk.Interface.Handles.{
  Object, get_reader, get_writer, destroy_object, behind_delete, object_info, as_read, as_written,
}
use qing_stor_c_sdk.Interface.Contexts.{or_empty, success, failure}
use qing_stor_c_sdk.Pipeline

module _ {World Json : Type 0} (texts : Texts) (client : Client World Json)
    (numbers : JsonNumbers Json) where
  abbrev pub reader_for :
      ℕ
      → Bool
      → Configuration
      → Bytes
      → Bytes
      → ℤ
      → ℤ
      → Result HeadObjectResult
      → Option (Result Pipeline)
  reader_for fuel multi_ok c bucket key start end fault = some fault
  reader_for fuel multi_ok c bucket key start end (throw e) = some (throw e)
  reader_for fuel multi_ok c bucket key start end (ok head) =
      open_reader fuel multi_ok c bucket (object_info key head start end)

  abbrev pub given_reader :
      Option (Result Pipeline) → Api World → Option (Result (Option Object) × Api World)
  given_reader none a = none
  given_reader (some r) a = some (guarded texts none (λ p. some (as_read p)) r a)

  -- `qingstorGetObject`: the fuel bounds the number of chunks, and `multi_ok` says whether curl
  -- gives a multi handle.
  unfoldable pub get_object :
      ℕ
      → Bool
      → Option Configuration
      → Option Bytes
      → Option Bytes
      → ℤ
      → ℤ
      → Api World
      → Option (Result (Option Object) × Api World)
  unfolding object_info
  get_object fuel multi_ok none bucket key start end a = some (ok none, refused texts a)
  get_object fuel multi_ok (some c) bucket key start end a =
      let (head, w) = head_object_of client numbers c (or_empty bucket) (or_empty key) a.world in
      let opened =
        given_reader (reader_for fuel multi_ok c (or_empty bucket) (or_empty key) start end head)
          (record a { world = w }) in
      if given bucket && given key && not (ltb_ℤ end start)
      then opened
      else some (ok none, refused texts a)

  -- `new QingStorWriter(…)`, in the surroundings that it leaves.
  abbrev pub opened_writer :
      Configuration → Bytes → Bytes → Bool → Api World → Result (Option Object) × Api World
  opened_writer c bucket key cache a =
      let (r, w) = open_writer client c bucket key cache a.world in
      guarded texts none (λ writer. some (as_written writer)) r (record a { world = w })

  -- `qingstorPutObject`
  unfoldable pub put_object :
      Option Configuration
      → Option Bytes
      → Option Bytes
      → Bool
      → Api World
      → Result (Option Object) × Api World
  put_object none bucket key cache a = (ok none, refused texts a)
  put_object (some c) bucket key cache a =
      checked texts (given bucket && given key) none
        (opened_writer c (or_empty bucket) (or_empty key) cache) a

  -- A writer in the surroundings, and what a step of it leaves there.
  abbrev pub session_of : Writer → Api World → Session World
  session_of w a = record { writer = w; world = a.world; issued = a.issued }

  abbrev pub left_by : Session World → Api World → Api World
  left_by s a = record a { world = s.world; issued = s.issued }

  abbrev pub with_object {ℓ} :
      {R : Type ℓ} → Object → Result R × Api World → Result R × (Option Object × Api World)
  with_object o (r, a) = (r, (some o, a))

  abbrev pub stepped : ℤ → Step client → Api World → Result ℤ × (Option Object × Api World)
  stepped value (r, s) a =
      with_object (as_written s.writer) (guarded texts failure (λ u. value) r (left_by s a))

  -- `qingstorCancelObject`: for a reader it fails and says nothing.
  abbrev pub cancelled : Object → Result Writer → Api World → Result ℤ × (Option Object × Api World)
  cancelled o fault a = (fault, (some o, a))
  cancelled o (throw e) a = (ok failure, (some o, on_exception texts e a))
  cancelled o (ok w) a = stepped (pos 0) (cancel client (session_of w a)) a

  unfoldable pub cancel_object :
      Option Configuration → Option Object → Api World → Result ℤ × (Option Object × Api World)
  unfolding get_writer
  cancel_object c none a = (ok failure, (none, refused texts a))
  cancel_object none (some o) a = (ok failure, (some o, refused texts a))
  cancel_object (some c) (some o) a =
      let run = cancelled o (get_writer o) a in if o.reader then (ok failure, (some o, a)) else run

  -- `qingstorCloseObject`: the object is gone afterwards, whatever the outcome.
  abbrev pub closed_writer : Object → Result Writer → Api World → Result ℤ × Api World
  closed_writer o fault a = (fault, a)
  closed_writer o (throw e) a = behind_delete o (ok failure, on_exception texts e a)
  closed_writer o (ok w) a =
      let (r, s) = close client (session_of w a) in
      behind_delete (as_written s.writer) (guarded texts failure success r (left_by s a))

  abbrev pub closed_reader : Object → Result Pipeline → Api World → Result ℤ × Api World
  closed_reader o fault a = (fault, a)
  closed_reader o (throw e) a = behind_delete o (ok failure, on_exception texts e a)
  closed_reader o (ok p) a = behind_delete o (ok (pos 0), a)

  unfoldable pub close_object : Option Object → Api World → Result ℤ × Api World
  unfolding get_reader get_writer destroy_object
  close_object none a = (ok failure, refused texts a)
  close_object (some o) a =
      if o.reader then closed_reader o (get_reader o) a else closed_writer o (get_writer o) a

  -- `qingstorWrite`: `text` is the caller's array, of at least `n` bytes.
  abbrev pub write_steps :
      ℤ → Option (Step client) → Api World → Option (Result ℤ × (Option Object × Api World))
  write_steps n none a = none
  write_steps n (some d) a = some (stepped n d a)

  abbrev pub written :
      Object
      → Bytes
      → ℤ
      → Result Writer
      → Api World
      → Option (Result ℤ × (Option Object × Api World))
  written o text n fault a = some (fault, (some o, a))
  written o text n (throw e) a = some (ok failure, (some o, on_exception texts e a))
  written o text n (ok w) a =
      write_steps n (transfer_data client (take (pos_part n) text) (session_of w a)) a

  unfoldable pub write_object :
      Option Configuration
      → Option Object
      → Option Bytes
      → ℤ
      → Api World
      → Option (Result ℤ × (Option Object × Api World))
  unfolding get_writer
  write_object c none text n a = some (ok failure, (none, refused texts a))
  write_object c (some o) text n a =
      let run = written o (or_empty text) n (get_writer o) a in
      if is_some c && is_some text && ltb_ℤ (pos 0) n && not o.reader
      then run
      else some (ok failure, (some o, refused texts a))

module _ {World : Type 0} (texts : Texts) (crypto : Crypto) (scan : UrlParser) (max_write : ℕ) where
  -- `qingstorRead`: the value, with the bytes that are put into the caller's array.
  abbrev pub read_result :
      Pipeline.Outcome Bytes → Api World → Result (ℤ × Bytes) × (Option Object × Api World)
  read_result (fault, p) a = (fault, (some (as_read p), a))
  read_result (ok bytes, p) a = (ok (pos (length bytes), bytes), (some (as_read p), a))
  read_result (throw e, p) a =
      if catches end_of_stream e
      then (ok (pos 0, []), (some (as_read p), a))
      else (ok (failure, []), (some (as_read p), on_exception texts e a))

  abbrev pub read_rounds :
      Option (Pipeline.Outcome Bytes)
      → Api World
      → Option (Result (ℤ × Bytes) × (Option Object × Api World))
  read_rounds none a = none
  read_rounds (some o) a = some (read_result o a)

  abbrev pub read_from :
      List Round
      → Object
      → ℤ
      → Result Pipeline
      → Api World
      → Option (Result (ℤ × Bytes) × (Option Object × Api World))
  read_from rs o n fault a = some (fault, (some o, a))
  read_from rs o n (throw e) a = some (ok (failure, []), (some o, on_exception texts e a))
  read_from rs o n (ok p) a =
      read_rounds (Pipeline.transfer_data crypto scan max_write rs (pos_part n) p) a

  unfoldable pub read_object :
      List Round
      → Option Configuration
      → Option Object
      → Bool
      → ℤ
      → Api World
      → Option (Result (ℤ × Bytes) × (Option Object × Api World))
  unfolding get_reader
  read_object rs c none has_buffer n a = some (ok (failure, []), (none, refused texts a))
  read_object rs c (some o) has_buffer n a =
      let run = read_from rs o n (get_reader o) a in
      if is_some c && has_buffer && ltb_ℤ (pos 0) n && o.reader
      then run
      else some (ok (failure, []), (some o, refused texts a))
