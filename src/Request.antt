-- ===== src/Request.antt =====
-- `DoGetJSON_Internal` and `DoGetJSON` (src/QingStorCommon.cpp): a request to the server and its
-- retries. curl, OpenSSL, json-c, the URL scanner and the clock are parameters: `Platform`.
pub mod Outcome
pub mod Retry
mod Tests
use qing_stor_c_sdk.Prelude.{
  ℕ, zero, suc, ◌-◌, Bool, true, false, List, [], ◌∷◌, ◌++◌, Bytes, codes, upto, if◌then◌else◌,
  Option, none, some,
}
use qing_stor_c_sdk.Errors.{
  Result, ok, throw, fault, ◌>>=◌, rethrowing, out_of_memory, invalid_parameter, network,
  network_connect,
}
use qing_stor_c_sdk.Common.Header.{
  Credential, RequestType, list_bucket, create_bucket, delete_bucket, list_object, head_object,
  delete_object, init_mp_upload, upload_mp, abort_mp_upload, comp_mp_upload, HeaderContent, add,
  host, location,
}
use qing_stor_c_sdk.Common.Signature.{Crypto, signature}
use qing_stor_c_sdk.Common.Buffer.{BufferInfo, no_data, receive}
use qing_stor_c_sdk.Common.Upload.{MemoryData, send_body}
use qing_stor_c_sdk.Common.Url.{UrlParser, qs_parse_url, resource}
use qing_stor_c_sdk.Common.HttpHeader.{header_json}

-- The calls of `curl_easy_setopt`.
pub data CurlOption : Type 0 where
  url custom_request post_fields : Bytes → CurlOption
  post_field_size infile_size : ℕ → CurlOption
  forbid_reuse write_to_json nobody headers_to_yaml read_from_memory upload put post : CurlOption
  http_header : HeaderContent → CurlOption

-- What `curl_easy_perform` did: whether it returned CURLE_OK, the sizes it asked of the read
-- callback, and the chunks it gave to the write callbacks of the body and the header.
pub record Transfer : Type 0 where
  pub is_ok : Bool
  pub reads : List ℕ
  pub body_chunks : List Bytes
  pub header_chunks : List Bytes

-- The surroundings of a request. `World` is the state of the network and the clock, `Json` a
-- value of json-c.
pub record Platform (World Json : Type 0) : Type 0 where
  pub easy_init : World → Bool × World
  pub perform : List CurlOption → Bytes → World → Transfer × World
  pub timebuf : World → Bytes
  pub tokener_parse : Bytes → Option Json
  pub crypto : Crypto
  pub scan : UrlParser

-- The arguments that stay the same over the attempts.
pub record Request : Type 0 where
  pub host_name : Bytes
  pub url_text : Bytes
  pub bucket : Option Bytes
  pub place : Option Bytes
  pub cred : Credential
  pub kind : RequestType

abbrev pub is_upload : RequestType → Bool
is_upload upload_mp = true
is_upload comp_mp_upload = true
is_upload _ = false

-- The options that choose the method.
abbrev pub method_options : RequestType → Option MemoryData → Result (List CurlOption)
method_options head_object md = ok (nobody ∷ headers_to_yaml ∷ [])
method_options delete_object md = ok (custom_request (codes "DELETE") ∷ [])
method_options delete_bucket md = ok (custom_request (codes "DELETE") ∷ [])
method_options abort_mp_upload md = ok (custom_request (codes "DELETE") ∷ [])
method_options create_bucket md = ok (custom_request (codes "PUT") ∷ [])
method_options init_mp_upload md =
    ok (post ∷ post_fields (codes "uploads") ∷ post_field_size 7 ∷ [])
method_options upload_mp none = throw invalid_parameter
method_options upload_mp (some m) =
    ok (read_from_memory ∷ infile_size m.sizeleft ∷ upload ∷ put ∷ [])
method_options comp_mp_upload none = throw invalid_parameter
method_options comp_mp_upload (some m) = ok (read_from_memory ∷ infile_size m.sizeleft ∷ post ∷ [])
method_options _ md = ok []

abbrev first_headers : Request → HeaderContent
first_headers q = elim q.place [
  | none ↦ add [] host q.host_name
  | some l ↦ add (add [] host q.host_name) location l
]

abbrev pub size_left : Option MemoryData → Option ℕ
size_left none = none
size_left (some m) = some m.sizeleft

-- The kinds whose response is parsed as JSON.
abbrev pub is_json : RequestType → Bool
is_json list_object = true
is_json init_mp_upload = true
is_json list_bucket = true
is_json _ = false

-- What one attempt leaves: its result, the upload as the callback left it, the bytes that went out,
-- and the surroundings.
pub record Attempt (World Json : Type 0) : Type 0 where
  pub result : Result (Option Json)
  pub memory : Option MemoryData
  pub sent : Bytes
  pub world : World

-- The read callback over the reads of a transfer; without a `MemoryData` it is not set.
abbrev pub upload_memory : List ℕ → Option MemoryData → Bytes × Option MemoryData
upload_memory reads none = ([], none)
upload_memory reads (some m) = let (out, m') = send_body reads m in (out, some m')

abbrev pub text_left : Option MemoryData → Bytes
text_left none = []
text_left (some m) = m.advance

module _ {World Json : Type 0} (p : Platform World Json) where
  -- The options of a request, all before `curl_easy_perform`.
  unfoldable pub request_options : Request → Option MemoryData → Bytes → Result (List CurlOption)
  request_options q md timebuf = method_options q.kind md >>= λ options.
      qs_parse_url p.scan (some q.url_text) >>= λ u.
      signature p.crypto (first_headers q) (resource q.bucket u) q.cred q.kind (size_left md)
        timebuf
      >>= λ headers. ok (
          (url q.url_text ∷ forbid_reuse ∷ write_to_json ∷ [])
          ++ (options ++ (http_header headers ∷ [])))

  abbrev parsed : Option Json → Result (Option Json)
  parsed none = throw network
  parsed (some j) = ok (some j)

  -- A response whose text json-c parses: empty, or up to its first NUL.
  abbrev json_response : Option Bytes → Result (Option Json)
  json_response none = throw network
  json_response (some bytes) = parsed (p.tokener_parse (upto 0 bytes))

  abbrev head_response : Option Bytes → Result (Option Json)
  head_response none = throw network
  head_response (some bytes) = elim (header_json (upto 0 bytes)) [
    | none ↦ throw network
    | some text ↦ parsed (p.tokener_parse text)
  ]

  -- Every other kind must have no response body at all.
  abbrev other_response : RequestType → Option Bytes → Option Bytes → Result (Option Json)
  other_response kind (some body) header = throw network
  other_response head_object none header = head_response header
  other_response _ none header = ok none

  unfoldable pub response : RequestType → Option Bytes → Option Bytes → Result (Option Json)
  response kind body header =
      if is_json kind then json_response body else other_response kind body header

  -- The two buffers after the callbacks; a doubling loop without end is a fault.
  abbrev buffered : List Bytes → Result (Option Bytes)
  buffered chunks = elim (receive no_data chunks) [ none ↦ fault | some b ↦ ok b.data_ ]

  abbrev kept_header : RequestType → List Bytes → Result (Option Bytes)
  kept_header head_object chunks = buffered chunks
  kept_header _ chunks = ok none

  unfoldable pub transfer_result : RequestType → Transfer → Result (Option Json)
  unfolding response
  transfer_result kind t = buffered t.body_chunks >>= λ body.
      kept_header kind t.header_chunks >>= λ header.
      if t.is_ok then response kind body header else throw network_connect

  abbrev pub stopped : Option MemoryData → World → Result (Option Json) → Attempt World Json
  stopped md w r = record { result = r; memory = md; sent = []; world = w }

  abbrev pub performed : Request → Option MemoryData → World → List CurlOption → Attempt World Json
  performed q md w options =
      let (t, w') = p.perform options (text_left md) w in
      let (out, md') = upload_memory t.reads md in
      record { result = transfer_result q.kind t; memory = md'; sent = out; world = w' }

  abbrev pub after_options :
      Request → Option MemoryData → World → Result (List CurlOption) → Attempt World Json
  after_options q md w fault = stopped md w fault
  after_options q md w (throw e) = stopped md w (throw e)
  after_options q md w (ok options) = performed q md w options

  -- The body of the `try` block.
  abbrev pub attempt_body : Request → Option MemoryData → World → Attempt World Json
  attempt_body q md w =
      let (made, w₁) = p.easy_init w in
      if made
      then after_options q md w₁ (request_options q md (p.timebuf w₁))
      else stopped md w₁ (throw out_of_memory)

  -- `DoGetJSON_Internal`
  unfoldable pub attempt : Request → Option MemoryData → World → Attempt World Json
  unfolding transfer_result
  attempt q md w = let a = attempt_body q md w in record a { result = rethrowing a.result }

  -- The `catch (...)` of the loop: on a throw the attempts that follow decide.
  abbrev pub retried :
      Attempt World Json → Attempt World Json → Result (Option Json) → Attempt World Json
  retried a b fault = a
  retried a b (throw e) = record b { sent = a.sent ++ b.sent }
  retried a b (ok j) = a

  -- The attempts once `further` more may follow a failed one. `sent` holds what all of them sent.
  unfoldable pub attempts : ℕ → Request → Option MemoryData → World → Attempt World Json
  attempts zero q md w = attempt q md w
  attempts (suc further) q md w =
      let a = attempt q md w in let b = attempts further q a.memory a.world in retried a b a.result

  -- `DoGetJSON`: `++failing < retries` lets `retries - 1` failures pass. A count below 1 acts as 1.
  unfoldable pub do_get_json : Request → Option MemoryData → ℕ → World → Attempt World Json
  unfolding attempts
  do_get_json q md retries w = attempts (retries - 1) q md w
