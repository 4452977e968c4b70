-- ===== src/Writer/Open.antt =====
-- The constructor of `QingStorWriter` with `initMultipartUpload` and `extractUploadIDContent`
-- (src/QingStorWriter.cpp).
use qing_stor_c_sdk.Prelude.{
  ℕ, ◌+◌, ◌<◌, ◌^◌, ◌≡◌, refl, ap, sym, ◌∙◌, Bool, true, false, [], ◌++◌, Bytes, codes,
  if◌then◌else◌, Option, none, some, arith,
}
use qing_stor_c_sdk.Prelude.Int.{pos, pos_part, ltb_ℤ, ltb_ℤ_of_ge}
use qing_stor_c_sdk.Errors.{
  Result, ok, throw, fault, ◌>>=◌, rethrowing, rethrow_copy, network, bad_alloc, qingstor,
}
use qing_stor_c_sdk.Errors.Plain.{Plain}
use qing_stor_c_sdk.Common.Header.{init_mp_upload}
use qing_stor_c_sdk.Config.{Configuration}
use qing_stor_c_sdk.Reader.{object_url}
use qing_stor_c_sdk.Request.{Request}
use qing_stor_c_sdk.Request.Outcome.{Outcome}
use qing_stor_c_sdk.Writer.{Writer, request_of}
use qing_stor_c_sdk.Writer.Requests.{Client}
use qing_stor_c_sdk.Writer.Fill.{IsFresh}

-- `…/key?uploads`
abbrev pub open_request : Configuration → Bytes → Bytes → Request
open_request config bucket key =
    request_of config bucket (object_url config bucket key ++ codes "?uploads")
      (record { keyid = config.access_key_id; secret = config.secret_access_key }) init_mp_upload

-- `std::string(json_object_get_string(value))`: a null pointer is a fault.
abbrev text_of : Option Bytes → Result Bytes
text_of none = fault
text_of (some t) = ok t

-- The writer's fields behind `initMultipartUpload`; `new char[n]` throws for a negative n.
unfoldable pub new_writer : Configuration → Bytes → Bool → Bytes × Bytes → Result Writer
new_writer config bucket cache (id, key) =
    let w : Writer = record {
      config = config;
      bucket = bucket;
      upload_id = id;
      key = key;
      cred = record { keyid = config.access_key_id; secret = config.secret_access_key };
      buffer = none;
      buff_size = pos_part config.chunk_size;
      write_pos = 0;
      part_num = 0;
      canceled = false;
      cache = cache;
    } in
    if cache
    then if ltb_ℤ config.chunk_size (pos 0)
      then throw bad_alloc
      else ok (record w { buffer = some [] })
    else ok w

module _ {World Json : Type 0} (client : Client World Json) where
  -- `extractUploadIDContent`: the upload id and the key, if both are there.
  unfoldable pub extract_upload_id : Json → Result (Option (Bytes × Bytes))
  extract_upload_id resp = elim (client.get_ex resp (codes "upload_id")) [
    | none ↦ ok none
    | some v ↦ text_of (client.get_string v) >>= λ id. elim (client.get_ex resp (codes "key")) [
      | none ↦ ok none
      | some k ↦ text_of (client.get_string k) >>= λ key. ok (some (id, key))
    ]
  ]

  -- Without them the response is an error, whatever its `code`; a null `code` meets `strcmp`.
  abbrev refusal : Json → Result (Bytes × Bytes)
  refusal resp = elim (client.get_ex resp (codes "code")) [
    | none ↦ throw network
    | some c ↦ elim (client.get_string c) [ none ↦ fault | some t ↦ throw network ]
  ]

  abbrev upload_of : Json → Option (Bytes × Bytes) → Result (Bytes × Bytes)
  upload_of resp none = refusal resp
  upload_of resp (some ids) = ok ids

  abbrev opened : Option Json → Result (Bytes × Bytes)
  opened none = throw network
  opened (some resp) = extract_upload_id resp >>= upload_of resp

  -- `initMultipartUpload`
  unfoldable pub init_multipart_upload :
      Configuration → Bytes → Bytes → World → Result (Bytes × Bytes) × World
  init_multipart_upload config bucket key w =
      let (r, w') =
        client.run (open_request config bucket key) none (pos_part config.connection_retries) w in
      (rethrowing (r >>= opened), w')

  -- The constructor: the writer, or what is thrown.
  unfoldable pub open_writer : Configuration → Bytes → Bytes → Bool → World → Result Writer × World
  unfolding init_multipart_upload
  open_writer config bucket key cache w =
      let (r, w') = init_multipart_upload config bucket key w in
      (r >>= new_writer config bucket cache, w')

  -- What opening a writer with a buffer may come to.
  abbrev pub Opened : Configuration → Bytes → Result Writer → Type 0
  Opened config bucket fault = Unit
  Opened config bucket (throw e) = e ≡ qingstor
  Opened config bucket (ok w) =
      (w.config ≡ config) × (w.bucket ≡ bucket) × (pos w.buff_size ≡ config.chunk_size) × IsFresh w

  opened-Plain : (j : Option Json) → Plain (rethrowing (opened j))
  unfolding extract_upload_id rethrow_copy
  opened-Plain j = ground arith

  answer-Plain :
      (r : Result (Option Json)) → Outcome init_mp_upload r → Plain (rethrowing (r >>= opened))
  unfolding rethrow_copy
  answer-Plain fault h = tt
  answer-Plain (throw e) h = rw h refl
  answer-Plain (ok j) h = opened-Plain j

  init_multipart_upload-Plain :
      (config : Configuration) (bucket key : Bytes) (w : World)
      → Plain (init_multipart_upload config bucket key w).0
  unfolding init_multipart_upload
  init_multipart_upload-Plain config bucket key w =
      answer-Plain _ (client.run-Outcome (open_request config bucket key) none _ w)

  new_writer-Opened :
      (config : Configuration) (bucket : Bytes) (n : ℕ) (ids : Bytes × Bytes)
      → config.chunk_size ≡ pos (1 + n)
      → 1 + n < 2 ^ 31
      → Opened config bucket (new_writer config bucket true ids)
  unfolding new_writer
  new_writer-Opened config bucket n ids e lt =
      let size : pos_part config.chunk_size ≡ 1 + n = ap pos_part e in
      let t : ltb_ℤ config.chunk_size (pos 0) ≡ false =
        rw e (ltb_ℤ_of_ge (pos (1 + n)) (pos 0) (omega arith)) in
      rw t (
        refl,
        refl,
        ap pos size ∙ sym e,
        record {
          valid = record {
            caches = refl;
            buffered = refl;
            counted = refl;
            inside = omega arith;
            room = omega (arith, size);
            small = omega (arith, size, lt);
          };
          nothing_held = refl;
          no_part = refl;
          not_canceled = refl;
        },
      )

  chain-Opened :
      (config : Configuration) (bucket : Bytes) (n : ℕ) (r : Result (Bytes × Bytes))
      → config.chunk_size ≡ pos (1 + n)
      → 1 + n < 2 ^ 31
      → Plain r
      → Opened config bucket (r >>= new_writer config bucket true)
  chain-Opened config bucket n fault e lt p = tt
  chain-Opened config bucket n (throw x) e lt p = p
  chain-Opened config bucket n (ok ids) e lt p = new_writer-Opened config bucket n ids e lt

  -- With a chunk size of at least 1 and below 2 ^ 31, opening a writer with a buffer gives a fresh one of that size
  -- for the configuration and the bucket, or throws a plain `QingStorException`, or reads through a
  -- null pointer of the response.
  pub open_writer-Opened :
      (config : Configuration) (bucket key : Bytes) (n : ℕ) (w : World)
      → config.chunk_size ≡ pos (1 + n)
      → 1 + n < 2 ^ 31
      → Opened config bucket (open_writer config bucket key true w).0
  unfolding open_writer
  open_writer-Opened config bucket key n w e lt =
      chain-Opened config bucket n _ e lt (init_multipart_upload-Plain config bucket key w)
