-- ===== src/Fetcher/Throws.antt =====
-- What `start` and `handleResult` of src/HTTPFetcher.cpp throw: never QingStorEndOfStream.
use qing_stor_c_sdk.Prelude.{
  ℕ, ◌≡◌, refl, Bool, true, false, Bytes, if◌then◌else◌, Option, none, some, arith,
}
use qing_stor_c_sdk.Errors.{Result, ok, throw, fault, ◌>>=◌, catches, end_of_stream, network}
use qing_stor_c_sdk.Common.Header.{HeaderContent, Credential, RequestType, get_data}
use qing_stor_c_sdk.Common.Signature.{Crypto, signature, add_length}
use qing_stor_c_sdk.Common.Url.{UrlParser, UrlFields, qs_parse_url, fields_of}
use qing_stor_c_sdk.Fetcher.{Fetcher, CurlCode, handle_result, fail, finish, cleanup}
use qing_stor_c_sdk.Fetcher.Start.{
  can_start, Answers, ensure_buffer, go_on, sign_headers, begin, start, attach,
}

-- What is thrown is not QingStorEndOfStream.
abbrev pub Goes {ℓ} : {V : Type ℓ} → Result V → Type 0
Goes fault = Unit
Goes (throw e) = catches end_of_stream e ≡ false
Goes (ok v) = Unit

pub >>=-Goes {κ ℓ} :
    {V : Type κ} {W : Type ℓ} (next : V → Result W) (first : Result V)
    → Goes first
    → ((v : V) → Goes (next v))
    → Goes (first >>= next)
>>=-Goes next fault c h = tt
>>=-Goes next (throw e) c h = c
>>=-Goes next (ok v) c h = h v

fields_of-Goes : (url : Bytes) (u : UrlFields) → Goes (fields_of url u)
unfolding fields_of
fields_of-Goes url u = ground arith

qs_parse_url-Goes : (scan : UrlParser) (url : Bytes) → Goes (qs_parse_url scan (some url))
unfolding qs_parse_url
qs_parse_url-Goes scan url = ground (arith, fields_of-Goes url)

add_length-Goes : (h : HeaderContent) (k : RequestType) (md : Option ℕ) → Goes (add_length h k md)
unfolding add_length
add_length-Goes h k md = ground arith

signature-Goes :
    (crypto : Crypto) (h : HeaderContent) (path : Bytes) (cred : Credential) (k : RequestType)
    (md : Option ℕ) (timebuf : Bytes)
    → Goes (signature crypto h path cred k md timebuf)
unfolding signature
signature-Goes crypto h path cred k md timebuf =
    >>=-Goes _ (add_length h k md) (add_length-Goes h k md) λ h₁. ground arith

go_on-Goes : (f : Fetcher) (r : Result HeaderContent) → Goes r → Goes (go_on f r).0
go_on-Goes f fault g = tt
go_on-Goes f (throw e) g = g
go_on-Goes f (ok h) g = tt

cleanup-Goes : (f : Fetcher) → Goes (cleanup f)
unfolding cleanup
cleanup-Goes f = ground arith

fail-Goes : (f : Fetcher) → Goes (fail f)
unfolding fail
fail-Goes f = >>=-Goes _ (cleanup f) (cleanup-Goes f) λ r. tt

finish-Goes : (f : Fetcher) → Goes (finish f)
unfolding finish
finish-Goes f = >>=-Goes _ (cleanup f) (cleanup-Goes f) λ r. tt

pub handle_result-Goes :
    (res : CurlCode) (code : Option ℕ) (f : Fetcher) → Goes (handle_result res code f)
unfolding handle_result
handle_result-Goes res code f = ground (arith, fail-Goes f, finish-Goes f)

module _ (crypto : Crypto) (scan : UrlParser) (max_write : ℕ) where
  sign_headers-Goes : (f : Fetcher) (timebuf : Bytes) → Goes (sign_headers crypto scan f timebuf)
  unfolding sign_headers
  sign_headers-Goes f timebuf =
      >>=-Goes _ _ (qs_parse_url-Goes scan f.url)
        λ u. signature-Goes crypto _ _ f.cred get_data none timebuf

  pub first_if :
      (b : Bool) (x y : Result (Unit {0}) × Fetcher)
      → Goes x.0
      → Goes y.0
      → Goes (if b then x else y).0
  first_if true x y p q = p
  first_if false x y p q = q

  with_handle :
      (f : Fetcher) (timebuf : Bytes) (h : Option ℕ)
      → Goes
          (elim h as (λ x. Result (Unit {0}) × Fetcher) [
            | none ↦ (throw network, f)
            | some h ↦ go_on (attach f h) (sign_headers crypto scan (attach f h) timebuf)
          ]).0
  with_handle f timebuf none = refl
  with_handle f timebuf (some h) =
      go_on-Goes (attach f h) _ (sign_headers-Goes (attach f h) timebuf)

  begin-Goes : (a : Answers) (f : Fetcher) → Goes (begin crypto scan a f).0
  unfolding begin
  begin-Goes a f = first_if (can_start f.state) _ _ (with_handle f a.timebuf a.easy_handle) refl

  pub start-Goes : (a : Answers) (f : Fetcher) → Goes (start crypto scan max_write a f).0
  unfolding start
  start-Goes a f =
      let (allotted, f₁) = ensure_buffer max_write a.malloc_ok f in
      first_if allotted _ _ (begin-Goes a f₁) refl
