-- ===== src/Writer.antt =====
-- `QingStorWriter` (src/QingStorWriter.cpp, src/QingStorWriter.h): an object that is uploaded in
-- parts. The requests go through a `Client`, which `DoGetJSON` implements (Writer/Requests).
pub mod Requests
pub mod Fill
pub mod Moves
pub mod Parts
pub mod Close
pub mod Upload
pub mod Open
pub mod Granted
mod Tests
use qing_stor_c_sdk.Prelude.{
  ℕ, zero, suc, ◌+◌, ◌-◌, ◌%◌, ◌^◌, Bool, true, false, List, [], ◌∷◌, ◌++◌, Bytes, codes, decimal,
  take, length, ltb, ◌==◌, if◌then◌else◌, Option, none, some,
}
use qing_stor_c_sdk.Prelude.Int.{pos_part}
use qing_stor_c_sdk.Errors.{Result, ok, throw, fault, ◌>>=◌, rethrowing, io}
use qing_stor_c_sdk.Common.Header.{
  Credential, RequestType, upload_mp, abort_mp_upload, comp_mp_upload,
}
use qing_stor_c_sdk.Common.Upload.{MemoryData}
use qing_stor_c_sdk.Config.{Configuration}
use qing_stor_c_sdk.Reader.{bucket_host, object_url}
use qing_stor_c_sdk.Request.{Request}
use qing_stor_c_sdk.Writer.Requests.{Client}

-- The fields of a writer. Of the array behind `mBuffer` the bytes below `write_pos` are kept; a
-- null pointer is `none`.
pub record Writer : Type 0 where
  pub config : Configuration
  pub bucket : Bytes
  pub upload_id : Bytes
  pub key : Bytes
  pub cred : Credential
  pub buffer : Option Bytes
  pub buff_size : ℕ
  pub write_pos : ℕ
  pub part_num : ℕ
  pub canceled : Bool
  pub cache : Bool

-- A request as it is issued, with the text it is to send.
abbrev pub Issued : Type 0
Issued = Request × Option MemoryData

-- A writer in its surroundings, and the requests that have been issued.
pub record Session (World : Type 0) : Type 0 where
  pub writer : Writer
  pub world : World
  pub issued : List Issued

abbrev pub request_of : Configuration → Bytes → Bytes → Credential → RequestType → Request
request_of config bucket url cred kind = record {
  host_name = bucket_host config bucket;
  url_text = url;
  bucket = some bucket;
  place = none;
  cred = cred;
  kind = kind;
}

-- `?part_number=…&upload_id=…`
abbrev pub part_request : Writer → ℕ → Request
part_request w n =
    request_of w.config w.bucket
      (object_url w.config w.bucket w.key
        ++ (codes "?part_number=" ++ (decimal n ++ (codes "&upload_id=" ++ w.upload_id))))
      w.cred upload_mp

-- `?upload_id=…`
abbrev pub upload_request : RequestType → Writer → Request
upload_request kind w =
    request_of w.config w.bucket
      (object_url w.config w.bucket w.key ++ (codes "?upload_id=" ++ w.upload_id)) w.cred kind

-- `md.sizeleft = length`, from `int32_t` to `size_t`.
abbrev pub size_of_int32 : ℕ → ℕ
size_of_int32 n = let r = n % 2 ^ 32 in if ltb r (2 ^ 31) then r else r + (2 ^ 64 - 2 ^ 32)

abbrev pub memory_of : Bytes → ℕ → MemoryData
memory_of text n = record { advance = text; sizeleft = size_of_int32 n }

abbrev pub held : Writer → Bytes
held w = elim w.buffer [ none ↦ [] | some b ↦ b ]

-- `mBuffer[mWritePos++] = c`
abbrev pub put_byte : ℕ → Writer → Result Writer
put_byte c w = elim w.buffer [
  | none ↦ fault
  | some b ↦
      ok (record w { buffer = some (take w.write_pos b ++ (c ∷ [])); write_pos = suc w.write_pos })
]

-- `while (mWritePos != mBuffSize) { … }`: the bytes that are left, and the writer.
unfoldable pub fill : Bytes → Writer → Result (Bytes × Writer)
fill [] w = ok ([], w)
fill (c ∷ cs) w =
    let next = put_byte c w >>= fill cs in
    if w.write_pos == w.buff_size then ok (c ∷ cs, w) else next

module _ {World Json : Type 0} (client : Client World Json) where
  abbrev pub Step : Type 0
  Step = Result (Unit {0}) × Session World

  -- What follows a step that did not throw.
  infixl 5 ◌then_do◌
  abbrev pub ◌then_do◌ : Step → (Session World → Step) → Step
  (ok u, s) then_do next = next s
  (throw e, s) then_do next = (throw e, s)
  (fault, s) then_do next = (fault, s)

  -- `DoGetJSON`, with the retries of the configuration.
  abbrev pub call :
      Request → Option MemoryData → Session World → Result (Option Json) × Session World
  call q md s =
      let (r, w) = client.run q md (pos_part s.writer.config.connection_retries) s.world in
      (r, record s { world = w; issued = s.issued ++ ((q, md) ∷ []) })

  abbrev pub sent_part : Result (Option Json) × Session World → Step
  sent_part (ok none, s) =
      (ok tt, record s { writer = record s.writer { part_num = suc s.writer.part_num } })
  sent_part (ok (some j), s) = (throw io, s)
  sent_part (throw e, s) = (throw e, s)
  sent_part (fault, s) = (fault, s)

  abbrev pub rethrown : Result (Option Json) × Session World → Result (Option Json) × Session World
  rethrown (r, s) = (rethrowing r, s)

  -- `doSend` with `uploadMultipart`
  unfoldable pub do_send : Bytes → ℕ → Session World → Step
  do_send text n s =
      sent_part
        (rethrown (call (part_request s.writer s.writer.part_num) (some (memory_of text n)) s))

  abbrev pub reset : Session World → Step
  reset s = (ok tt, record s { writer = record s.writer { write_pos = 0; buffer = some [] } })

  -- `if (mWritePos == mBuffSize) { doSend(mBuffer, mBuffSize); mWritePos = 0; }`
  unfoldable pub send_full : Session World → Step
  unfolding do_send
  send_full s =
      let w = s.writer in
      let sent = do_send (held w) w.buff_size s then_do reset in
      if w.write_pos == w.buff_size then sent else (ok tt, s)

  abbrev pub filled_step : Session World → Result (Bytes × Writer) → Bytes × Step
  filled_step s fault = ([], (fault, s))
  filled_step s (throw e) = ([], (throw e, s))
  filled_step s (ok (rest, w)) = (rest, send_full (record s { writer = w }))

  abbrev pub pumped : Step → Option Step → Option Step
  pumped (ok u, s) more = more
  pumped (throw e, s) more = some (throw e, s)
  pumped (fault, s) more = some (fault, s)

  -- The outer loop of `transferData`, with fuel: `none` stands for a loop that has not ended.
  unfoldable pub pump : ℕ → Bytes → Session World → Option Step
  unfolding send_full
  pump fuel [] s = some (ok tt, s)
  pump zero (c ∷ cs) s = none
  pump (suc fuel) (c ∷ cs) s =
      let (rest, step) = filled_step s (fill (c ∷ cs) s.writer) in
      let more = pump fuel rest step.1 in pumped step more

  -- `transferData`: a round consumes a byte, or finds the buffer full.
  unfoldable pub transfer_data : Bytes → Session World → Option Step
  unfolding pump
  transfer_data text s =
      if s.writer.cache
      then pump (suc (length text)) text s
      else some (do_send text (length text) s)

  -- `flush`
  unfoldable pub flush : Session World → Step
  unfolding do_send
  flush s =
      let w = s.writer in
      let sent = do_send (held w) w.write_pos s in
      if w.cache then sent then_do reset else if w.part_num == 0 then sent else (ok tt, s)

  -- The upload's other requests drop their answer.
  abbrev pub answered : Result (Option Json) × Session World → Step
  answered (ok v, s) = (ok tt, s)
  answered (throw e, s) = (throw e, s)
  answered (fault, s) = (fault, s)

  -- The numbers from 0 below `n`.
  abbrev pub numbers_from : ℕ → ℕ → List ℕ
  numbers_from i zero = []
  numbers_from i (suc n) = i ∷ numbers_from (suc i) n

  -- `completeMultipartUpload`: `parts_text` is json-c's print of the object with these part numbers.
  unfoldable pub complete : Session World → Step
  complete s =
      let body = client.parts_text (numbers_from 0 s.writer.part_num) in
      answered (
        rethrown (
          call (upload_request comp_mp_upload s.writer)
            (some (record { advance = body; sizeleft = length body })) s))

  abbrev pub release : Session World → Step
  release s = (ok tt, record s { writer = record s.writer { buffer = none } })

  -- `close`
  unfoldable pub close : Session World → Step
  unfolding flush complete
  close s =
      let finished = flush s then_do complete in
      (if s.writer.canceled then (ok tt, s) else finished) then_do release

  abbrev pub mark_canceled : Session World → Step
  mark_canceled s = (ok tt, record s { writer = record s.writer { part_num = 0; canceled = true } })

  -- `cancel` with `abortMultipartUpload`
  unfoldable pub cancel : Session World → Step
  cancel s =
      answered (rethrown (call (upload_request abort_mp_upload s.writer) none s))
      then_do mark_canceled
