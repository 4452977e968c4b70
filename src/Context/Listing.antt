-- ===== src/Context/Listing.antt =====
-- `listObjects` (src/Context.cpp): a listing is fetched page by page, each from behind the last key
-- of the page before, and sorted after each page by `qsort`, which is a parameter.
use qing_stor_c_sdk.Prelude.{
  ℕ, zero, suc, Bool, true, false, List, [], ◌∷◌, ◌++◌, Bytes, codes, bytes_eq, is_empty,
  if◌then◌else◌, Option, none, some,
}
use qing_stor_c_sdk.Errors.{
  Result, ok, throw, fault, rethrow_copy, network, access_control, invalid_parameter,
}
use qing_stor_c_sdk.Common.Header.{list_object}
use qing_stor_c_sdk.Config.{Configuration}
use qing_stor_c_sdk.Reader.{bucket_host}
use qing_stor_c_sdk.Request.{Request}
use qing_stor_c_sdk.Writer.Requests.{Client}
use qing_stor_c_sdk.Context.{context_request, ask}
use qing_stor_c_sdk.Context.Extract.{JsonNumbers, ListedObject, Page, extract_page}

-- `ListObjectResult`, and the local variables of the loop: the marker, and whether `resp_body`
-- still points to the answer of the page before, which has been released.
pub record Listing : Type 0 where
  pub name : Bytes
  pub prefix : Bytes
  pub limit : ℕ
  pub objects : List ListedObject
  pub marker : Bytes
  pub stale : Bool

abbrev pub empty_listing : Listing
empty_listing = record {
  name = [];
  prefix = [];
  limit = 0;
  objects = [];
  marker = [];
  stale = false;
}

-- `qsort(&objects[0], size, …, ObjectContentComp)`, which compares the keys by `strcmp`.
abbrev pub Sort : Type 0
Sort = List ListedObject → List ListedObject

-- `protocol://host/`, with the marker and the prefix that are given.
abbrev pub listing_query : Bytes → Bytes → Bytes
listing_query prefix marker =
    if is_empty prefix
    then if is_empty marker then codes "/" else codes "/?marker=" ++ marker
    else if is_empty marker
    then codes "/?prefix=" ++ prefix
    else codes "/?marker=" ++ (marker ++ (codes "&prefix=" ++ prefix))

abbrev pub listing_request : Configuration → Bytes → Bytes → Bytes → Request
listing_request config bucket prefix marker =
    let host = bucket_host config bucket in
    context_request config host
      (config.protocol ++ (codes "://" ++ (host ++ listing_query prefix marker))) (some bucket) none
      list_object

-- The key of the last object of a page; a page without objects leaves the marker.
abbrev pub last_key : Bytes → List ListedObject → Bytes
last_key marker [] = marker
last_key marker (o ∷ os) = last_key o.key os

-- The listing behind a page.
abbrev pub add_page : Sort → Listing → Page → Listing
add_page qsort l page = record {
  name = page.name;
  prefix = page.prefix;
  limit = page.limit;
  objects = qsort (l.objects ++ page.objects);
  marker = last_key l.marker page.objects;
  stale = true;
}

module _ {World Json : Type 0} (client : Client World Json) (numbers : JsonNumbers Json)
    (qsort : Sort) where
  -- The error of an answer that is no page: it is thrown inside the `try`. A null `code` meets
  -- `strcmp`.
  abbrev pub code_error : Option Bytes → Result (Page × Bool)
  code_error none = fault
  code_error (some code) =
      if bytes_eq code (codes "bucket_not_exists")
      then throw network
      else if bytes_eq code (codes "permission_denied")
      then throw access_control
      else if bytes_eq code (codes "invalid_access_key_id")
      then throw invalid_parameter
      else throw network

  abbrev pub refused_page : Json → Result (Page × Bool)
  refused_page resp = elim (client.get_ex resp (codes "code")) [
    | none ↦ throw network
    | some code ↦ code_error (client.get_string code)
  ]

  abbrev pub page_of : Json → Result (Option (Page × Bool)) → Result (Page × Bool)
  page_of resp fault = fault
  page_of resp (throw e) = throw e
  page_of resp (ok none) = refused_page resp
  page_of resp (ok (some p)) = ok p

  -- The `catch` clause: a `resp_body` that was released before is released once more.
  abbrev pub caught {ℓ} : {V : Type ℓ} → Bool → Result V → Result V
  caught stale fault = fault
  caught stale (throw e) = if stale then fault else throw (rethrow_copy e)
  caught stale (ok v) = ok v

  -- The `try` block on the answer; `resp_body` is what `DoGetJSON` returned, if it returned.
  abbrev pub tried : Bool → Result (Option Json) → Result (Page × Bool)
  tried stale fault = fault
  tried stale (throw e) = caught stale (throw e)
  tried stale (ok none) = caught false (throw network)
  tried stale (ok (some resp)) = caught false (page_of resp (extract_page client numbers resp))

  -- One round: the listing, and whether it is complete.
  abbrev pub grown : Listing → Result (Page × Bool) → Result (Listing × Bool)
  grown l fault = fault
  grown l (throw e) = throw e
  grown l (ok (page, eof)) = ok (add_page qsort l page, eof)

  unfoldable pub list_page :
      Configuration → Bytes → Bytes → Listing → World → Result (Listing × Bool) × World
  list_page config bucket prefix l w =
      let (r, w') = ask client numbers config (listing_request config bucket prefix l.marker) w in
      (grown l (tried l.stale r), w')

  abbrev pub further :
      Result (Listing × Bool) × World
      → (Listing → World → Option (Result Listing × World))
      → Option (Result Listing × World)
  further (fault, w) next = some (fault, w)
  further (throw e, w) next = some (throw e, w)
  further (ok (l, true), w) next = some (ok l, w)
  further (ok (l, false), w) next = next l w

  -- `do { … } while (!eof);` over at most `fuel` pages; `none` if it is not done then.
  unfoldable pub list_from :
      ℕ → Configuration → Bytes → Bytes → Listing → World → Option (Result Listing × World)
  list_from zero config bucket prefix l w = none
  list_from (suc fuel) config bucket prefix l w =
      further (list_page config bucket prefix l w) (list_from fuel config bucket prefix)

  -- `listObjects`
  unfoldable pub list_objects :
      ℕ → Configuration → Bytes → Bytes → World → Option (Result Listing × World)
  unfolding list_from
  list_objects fuel config bucket prefix = list_from fuel config bucket prefix empty_listing
