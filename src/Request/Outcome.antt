-- ===== src/Request/Outcome.antt =====
-- What leaves `DoGetJSON` (src/QingStorCommon.cpp): which kinds of request give a JSON value, and
-- which exception class comes out.
use qing_stor_c_sdk.Prelude.{
  ℕ, zero, suc, ◌-◌, ◌≡◌, refl, Bool, true, false, arith, List, Bytes, Option, none, some,
  Bool-cases, inl, inr,
}
use qing_stor_c_sdk.Errors.{Result, ok, throw, fault, rethrowing, rethrow_copy, qingstor, catches}
use qing_stor_c_sdk.Errors.Plain.{Caught, >>=-Caught}
use qing_stor_c_sdk.Common.Header.{
  RequestType, list_object, init_mp_upload, list_bucket, head_object, HeaderContent, Credential,
}
use qing_stor_c_sdk.Common.Signature.{Crypto, signature, add_length}
use qing_stor_c_sdk.Common.Upload.{MemoryData}
use qing_stor_c_sdk.Common.Url.{UrlParser, qs_parse_url, UrlFields, fields_of}
use qing_stor_c_sdk.Request.{
  Platform, Request, Transfer, method_options, request_options, response, transfer_result,
  attempt_body, after_options, CurlOption, attempt, attempts, do_get_json,
}

method_options-Caught : (k : RequestType) (md : Option MemoryData) → Caught (method_options k md)
method_options-Caught k md = ground arith

fields_of-Caught : (url : Bytes) (u : UrlFields) → Caught (fields_of url u)
unfolding fields_of
fields_of-Caught url u = ground arith

qs_parse_url-Caught : (scan : UrlParser) (url : Bytes) → Caught (qs_parse_url scan (some url))
unfolding qs_parse_url
qs_parse_url-Caught scan url = ground (arith, fields_of-Caught url)

add_length-Caught :
    (h : HeaderContent) (k : RequestType) (md : Option ℕ) → Caught (add_length h k md)
unfolding add_length
add_length-Caught h k md = ground arith

signature-Caught :
    (crypto : Crypto) (h : HeaderContent) (path : Bytes) (cred : Credential) (k : RequestType)
    (md : Option ℕ) (timebuf : Bytes)
    → Caught (signature crypto h path cred k md timebuf)
unfolding signature
signature-Caught crypto h path cred k md timebuf =
    >>=-Caught _ (add_length h k md) (add_length-Caught h k md) λ h₁. ground arith

-- Whether a response of this kind is turned into a JSON value.
abbrev pub gives_json : RequestType → Bool
gives_json list_object = true
gives_json init_mp_upload = true
gives_json list_bucket = true
gives_json head_object = true
gives_json k = false

abbrev pub has_value {ℓ} : {V : Type ℓ} → Option V → Bool
has_value none = false
has_value (some v) = true

-- Inside the `try` block.
abbrev Inner : {Json : Type 0} → RequestType → Result (Option Json) → Type 0
Inner k fault = Unit
Inner k (throw e) = catches qingstor e ≡ true
Inner k (ok v) = has_value v ≡ gives_json k

module _ {World Json : Type 0} (p : Platform World Json) where
  request_options-Caught :
      (q : Request) (md : Option MemoryData) (timebuf : Bytes)
      → Caught (request_options p q md timebuf)
  unfolding request_options
  request_options-Caught q md timebuf =
      >>=-Caught _ (method_options q.kind md) (method_options-Caught q.kind md) λ options.
        >>=-Caught _ (qs_parse_url p.scan (some q.url_text)) (qs_parse_url-Caught p.scan q.url_text)
          λ u. >>=-Caught _ _ (signature-Caught p.crypto _ _ q.cred q.kind _ timebuf) λ headers. tt

  response-Inner :
      (k : RequestType) (body header : Option Bytes) → Inner k (response p k body header)
  unfolding response
  response-Inner k body header = ground arith

  transfer_result-Inner : (k : RequestType) (t : Transfer) → Inner k (transfer_result p k t)
  unfolding transfer_result
  transfer_result-Inner k t = ground (arith, response-Inner k)

  after_options-Inner :
      (q : Request) (md : Option MemoryData) (w : World) (r : Result (List CurlOption))
      → Caught r
      → Inner q.kind (after_options p q md w r).result
  after_options-Inner q md w fault h = tt
  after_options-Inner q md w (throw e) h = h
  after_options-Inner q md w (ok options) h = transfer_result-Inner q.kind _

  attempt_body-Inner :
      (q : Request) (md : Option MemoryData) (w : World)
      → Inner q.kind (attempt_body p q md w).result
  attempt_body-Inner q md w =
      let w₁ = (p.easy_init w).1 in
      let options = request_options p q md (p.timebuf w₁) in
      let rest = after_options-Inner q md w₁ options (request_options-Caught q md _) in
      elim (Bool-cases (p.easy_init w).0) [ inl e ↦ rw e rest | inr e ↦ rw e refl ]

-- What `DoGetJSON` may come back with: a JSON value for the kinds that give one and for no other,
-- a plain `QingStorException`, or undefined behaviour.
abbrev pub Outcome : {Json : Type 0} → RequestType → Result (Option Json) → Type 0
Outcome k fault = Unit
Outcome k (throw e) = e ≡ qingstor
Outcome k (ok v) = has_value v ≡ gives_json k

rethrowing-Outcome :
    {Json : Type 0} (k : RequestType) (r : Result (Option Json))
    → Inner k r
    → Outcome k (rethrowing r)
unfolding rethrow_copy
rethrowing-Outcome k fault h = tt
rethrowing-Outcome k (throw e) h = rw h
rethrowing-Outcome k (ok v) h = h

module _ {World Json : Type 0} (p : Platform World Json) where
  attempt-Outcome :
      (q : Request) (md : Option MemoryData) (w : World) → Outcome q.kind (attempt p q md w).result
  unfolding attempt
  attempt-Outcome q md w = rethrowing-Outcome q.kind _ (attempt_body-Inner p q md w)

  attempts-Outcome :
      (n : ℕ) (q : Request) (md : Option MemoryData) (w : World)
      → Outcome q.kind (attempts p n q md w).result
  unfolding attempts
  attempts-Outcome zero q md w = attempt-Outcome q md w
  attempts-Outcome (suc n) q md w = ground (
    arith,
    attempt-Outcome q md w,
    attempts-Outcome n q (attempt p q md w).memory (attempt p q md w).world,
  )

  -- However often it is tried, a request ends with a JSON value if its kind is one of the two
  -- listings and the creation of an upload, or HEAD, and with none for the other kinds; or what is
  -- thrown is a plain `QingStorException`; or a null pointer has been used. Memory that runs out is
  -- not looked at.
  pub do_get_json-Outcome :
      (q : Request) (md : Option MemoryData) (retries : ℕ) (w : World)
      → Outcome q.kind (do_get_json p q md retries w).result
  unfolding do_get_json
  do_get_json-Outcome q md retries w = attempts-Outcome (retries - 1) q md w
