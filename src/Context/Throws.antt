-- ===== src/Context/Throws.antt =====
-- What leaves the operations of `Context` (src/Context.cpp) when they fail.
use qing_stor_c_sdk.Prelude.{
  ℕ, if◌then◌else◌, zero, suc, refl, Bool, true, false, List, [], ◌∷◌, Bytes, codes, Option, none,
  some, arith,
}
use qing_stor_c_sdk.Prelude.Int.{eqb_ℤ}
use qing_stor_c_sdk.Errors.{Result, ok, throw, fault, rethrow_copy, network}
use qing_stor_c_sdk.Errors.Plain.{Plain, Caught, rethrowing-Plain}
use qing_stor_c_sdk.Common.Header.{
  RequestType, list_bucket, head_object, create_bucket, delete_bucket, delete_object, list_object,
}
use qing_stor_c_sdk.Config.{Configuration}
use qing_stor_c_sdk.Request.{Request}
use qing_stor_c_sdk.Request.Outcome.{Outcome}
use qing_stor_c_sdk.Writer.Requests.{Client}
use qing_stor_c_sdk.Context.{
  ask, extracted, answer_with, ignored, list_buckets, head_object_of, create_bucket_in,
  delete_bucket_in, delete_object_of,
}
use qing_stor_c_sdk.Context.Extract.{
  Page, JsonNumbers, ◌>>?◌, each, a_string, text_field, field, array_length, extract_bucket,
  extract_list_bucket_content, extract_head_object_content, extract_page, extract_object,
}
use qing_stor_c_sdk.Context.Listing.{
  Sort, Listing, listing_request, empty_listing, code_error, page_of, tried, caught, grown,
  list_page, further, list_from, list_objects,
}

-- A step that throws nothing.
data Quiet {ℓ} {V : Type ℓ} : Result V → Type ℓ where
  quiet_fault : Quiet fault
  quiet_ok : (v : V) → Quiet (ok v)

>>?-Quiet {κ ℓ} :
    {V : Type κ} {W : Type ℓ} (next : V → Result (Option W)) (first : Result (Option V))
    → Quiet first
    → ((v : V) → Quiet (next v))
    → Quiet (first >>? next)
>>?-Quiet next _ quiet_fault h = quiet_fault
>>?-Quiet next _ (quiet_ok none) h = quiet_ok none
>>?-Quiet next _ (quiet_ok (some v)) h = h v

each-Quiet {κ ℓ} :
    {V : Type κ} {W : Type ℓ} (f : V → Result (Option W)) (vs : List V)
    → ((v : V) → Quiet (f v))
    → Quiet (each f vs)
each-Quiet f [] h = quiet_ok (some [])
each-Quiet f (v ∷ vs) h =
    >>?-Quiet _ (f v) (h v) λ x. >>?-Quiet _ (each f vs) (each-Quiet f vs h) λ xs. quiet_ok _

if-Quiet {ℓ} :
    {V : Type ℓ} (b : Bool) (x y : Result V) → Quiet x → Quiet y → Quiet (if b then x else y)
if-Quiet true x y p q = p
if-Quiet false x y p q = q

a_string-Quiet : (t : Option Bytes) → Quiet (a_string t)
a_string-Quiet none = quiet_fault
a_string-Quiet (some t) = quiet_ok (some t)

extracted-Caught {ℓ} : {V : Type ℓ} (r : Result (Option V)) → Quiet r → Caught (extracted r)
extracted-Caught _ quiet_fault = tt
extracted-Caught _ (quiet_ok none) = refl
extracted-Caught _ (quiet_ok (some v)) = tt

answer_with-Caught {ℓ} :
    {Json : Type 0} {V : Type ℓ} (extract : Json → Result (Option V)) (kind : RequestType)
    (r : Result (Option Json))
    → ((j : Json) → Quiet (extract j))
    → Outcome kind r
    → Caught (answer_with extract r)
answer_with-Caught extract kind fault h o = tt
answer_with-Caught extract kind (throw e) h o = rw o refl
answer_with-Caught extract kind (ok none) h o = refl
answer_with-Caught extract kind (ok (some j)) h o = extracted-Caught (extract j) (h j)

ignored-Caught :
    {Json : Type 0} (kind : RequestType) (r : Result (Option Json))
    → Outcome kind r
    → Caught (ignored r)
ignored-Caught kind fault o = tt
ignored-Caught kind (throw e) o = rw o refl
ignored-Caught kind (ok v) o = tt

module _ {World Json : Type 0} (client : Client World Json) (numbers : JsonNumbers Json)
    (qsort : Sort) where
  field-Quiet : (j : Json) (name : Bytes) → Quiet (field client numbers j name)
  field-Quiet j name = quiet_ok _

  text_field-Quiet : (j : Json) (name : Bytes) → Quiet (text_field client numbers j name)
  text_field-Quiet j name =
      >>?-Quiet _ _ (field-Quiet j name) λ v. a_string-Quiet (client.get_string v)

  extract_bucket-Quiet : (j : Json) → Quiet (extract_bucket client numbers j)
  unfolding extract_bucket
  extract_bucket-Quiet j = >>?-Quiet _ _ (text_field-Quiet j _) λ a.
      >>?-Quiet _ _ (text_field-Quiet j _) λ b.
        >>?-Quiet _ _ (text_field-Quiet j _)
          λ c. >>?-Quiet _ _ (text_field-Quiet j _) λ d. quiet_ok _

  extract_list_bucket_content-Quiet :
      (j : Json) → Quiet (extract_list_bucket_content client numbers j)
  unfolding extract_list_bucket_content
  extract_list_bucket_content-Quiet j = >>?-Quiet _ _ (field-Quiet j _) λ count.
      >>?-Quiet _ _ (field-Quiet j _) λ buckets.
        if-Quiet (eqb_ℤ (array_length client numbers buckets) (numbers.get_int count)) _ _
          (each-Quiet (extract_bucket client numbers) (numbers.elements buckets)
            extract_bucket-Quiet)
          (quiet_ok none)

  extract_head_object_content-Quiet :
      (j : Json) → Quiet (extract_head_object_content client numbers j)
  unfolding extract_head_object_content
  extract_head_object_content-Quiet j =
      >>?-Quiet _ _ (text_field-Quiet j _) λ a.
        >>?-Quiet _ _ (field-Quiet j _) λ b. >>?-Quiet _ _ (text_field-Quiet j _) λ c. quiet_ok _

  extract_object-Quiet : (j : Json) → Quiet (extract_object client numbers j)
  unfolding extract_object
  extract_object-Quiet j =
      >>?-Quiet _ _ (text_field-Quiet j _) λ a. >>?-Quiet _ _ (field-Quiet j _) λ b. quiet_ok _

  extract_page-Quiet : (j : Json) → Quiet (extract_page client numbers j)
  unfolding extract_page
  extract_page-Quiet j = >>?-Quiet _ _ (text_field-Quiet j _) λ a.
      >>?-Quiet _ _ (text_field-Quiet j _) λ b. >>?-Quiet _ _ (field-Quiet j _) λ c.
        >>?-Quiet _ _ (field-Quiet j _) λ keys.
          >>?-Quiet _ _
            (each-Quiet (extract_object client numbers) (numbers.elements keys)
              extract_object-Quiet)
            λ objects. quiet_ok _

  asked :
      (config : Configuration) (q : Request) (w : World)
      → Outcome q.kind (ask client numbers config q w).0
  asked config q w = client.run-Outcome q none _ w

  -- Every operation but the listing: what it throws is a plain `QingStorException`.
  single_Plain :
      (config : Configuration) (location bucket key : Bytes) (w : World)
      → Plain (list_buckets client numbers config location w).0
        × Plain (head_object_of client numbers config bucket key w).0
        × Plain (create_bucket_in client numbers config location bucket w).0
        × Plain (delete_bucket_in client numbers config location bucket w).0
        × Plain (delete_object_of client numbers config bucket key w).0
  unfolding list_buckets head_object_of create_bucket_in delete_bucket_in delete_object_of
  single_Plain config location bucket key w = (
    rethrowing-Plain _
        (answer_with-Caught _ list_bucket _ extract_list_bucket_content-Quiet (asked config _ w)),
    rethrowing-Plain _
        (answer_with-Caught _ head_object _ extract_head_object_content-Quiet (asked config _ w)),
    rethrowing-Plain _ (ignored-Caught create_bucket _ (asked config _ w)),
    rethrowing-Plain _ (ignored-Caught delete_bucket _ (asked config _ w)),
    rethrowing-Plain _ (ignored-Caught delete_object _ (asked config _ w)),
  )

  code_error-Caught : (code : Option Bytes) → Caught (code_error client numbers qsort code)
  code_error-Caught code = ground arith

  coded :
      (code : Option Json)
      → Caught (elim code as (λ x. Result (Page × Bool)) [
        | none ↦ throw network
        | some c ↦ code_error client numbers qsort (client.get_string c)
      ])
  coded none = refl
  coded (some c) = code_error-Caught (client.get_string c)

  page_of-Caught :
      (resp : Json) (r : Result (Option (Page × Bool)))
      → Quiet r
      → Caught (page_of client numbers qsort resp r)
  page_of-Caught resp _ quiet_fault = tt
  page_of-Caught resp _ (quiet_ok none) = coded (client.get_ex resp (codes "code"))
  page_of-Caught resp _ (quiet_ok (some p)) = tt

  caught-Plain :
      {V : Type 0} (stale : Bool) (r : Result V)
      → Caught r
      → Plain (caught client numbers qsort stale r)
  unfolding rethrow_copy
  caught-Plain stale fault c = tt
  caught-Plain true (throw e) c = tt
  caught-Plain false (throw e) c = rw c refl
  caught-Plain stale (ok v) c = tt

  tried-Plain :
      (stale : Bool) (r : Result (Option Json))
      → Outcome list_object r
      → Plain (tried client numbers qsort stale r)
  tried-Plain stale fault o = tt
  tried-Plain stale (throw e) o = caught-Plain {V = Page × Bool} stale (throw e) (rw o refl)
  tried-Plain stale (ok none) o = caught-Plain {V = Page × Bool} false (throw network) refl
  tried-Plain stale (ok (some resp)) o =
      caught-Plain false _ (page_of-Caught resp _ (extract_page-Quiet resp))

  grown-Plain :
      (l : Listing) (r : Result (Page × Bool)) → Plain r → Plain (grown client numbers qsort l r)
  grown-Plain l fault p = tt
  grown-Plain l (throw e) p = p
  grown-Plain l (ok x) p = tt

  list_page-Plain :
      (config : Configuration) (bucket prefix : Bytes) (l : Listing) (w : World)
      → Plain (list_page client numbers qsort config bucket prefix l w).0
  unfolding list_page
  list_page-Plain config bucket prefix l w =
      grown-Plain l _
        (tried-Plain l.stale _ (asked config (listing_request config bucket prefix l.marker) w))

  -- If it ends, what it throws is a plain `QingStorException`.
  abbrev pub ListedPlain : Option (Result Listing × World) → Type 0
  ListedPlain none = Unit
  ListedPlain (some (r, w)) = Plain r

  further-ListedPlain :
      (out : Result (Listing × Bool) × World)
      (next : Listing → World → Option (Result Listing × World))
      → Plain out.0
      → ((l : Listing) (w : World) → ListedPlain (next l w))
      → ListedPlain (further client numbers qsort out next)
  further-ListedPlain (fault, w) next p h = tt
  further-ListedPlain (throw e, w) next p h = p
  further-ListedPlain (ok (l, true), w) next p h = tt
  further-ListedPlain (ok (l, false), w) next p h = h l w

  list_from-ListedPlain :
      (fuel : ℕ) (config : Configuration) (bucket prefix : Bytes) (l : Listing) (w : World)
      → ListedPlain (list_from client numbers qsort fuel config bucket prefix l w)
  unfolding list_from
  list_from-ListedPlain zero config bucket prefix l w = tt
  list_from-ListedPlain (suc fuel) config bucket prefix l w =
      further-ListedPlain _ _ (list_page-Plain config bucket prefix l w)
        (list_from-ListedPlain fuel config bucket prefix)

  -- Whatever goes wrong, what an operation of a context throws is a plain `QingStorException`: also
  -- a listing that is refused for its permissions or its access key, whose code has its own class.
  pub context_Plain :
      (fuel : ℕ) (config : Configuration) (location bucket key prefix : Bytes) (w : World)
      → Plain (list_buckets client numbers config location w).0
        × Plain (head_object_of client numbers config bucket key w).0
        × Plain (create_bucket_in client numbers config location bucket w).0
        × Plain (delete_bucket_in client numbers config location bucket w).0
        × Plain (delete_object_of client numbers config bucket key w).0
        × ListedPlain (list_objects client numbers qsort fuel config bucket prefix w)
  unfolding list_objects
  context_Plain fuel config location bucket key prefix w =
      let (a, b, c, d, e) = single_Plain config location bucket key w in
      (a, b, c, d, e, list_from-ListedPlain fuel config bucket prefix empty_listing w)
