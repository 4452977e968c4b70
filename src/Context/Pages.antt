-- ===== src/Context/Pages.antt =====
-- A listing over several pages (`listObjects` of src/Context.cpp): what it returns when the server
-- answers every page, and what happens when a later page fails.
use qing_stor_c_sdk.Prelude.{
  ℕ, zero, suc, ◌<◌, ◌≡◌, refl, Bool, true, false, List, [], ◌∷◌, ◌++◌, length, Bytes, Option, some,
  arith,
}
use qing_stor_c_sdk.Errors.{Result, ok, throw, fault, Exception}
use qing_stor_c_sdk.Config.{Configuration}
use qing_stor_c_sdk.Writer.Requests.{Client}
use qing_stor_c_sdk.Context.{ask}
use qing_stor_c_sdk.Context.Extract.{JsonNumbers, ListedObject, Page, extract_page}
use qing_stor_c_sdk.Context.Listing.{
  Sort, Listing, empty_listing, listing_request, last_key, add_page, list_page, list_from,
  list_objects,
}

-- The objects of several pages behind those so far: the page's are put behind, and then all are
-- given to `qsort`, page by page.
abbrev pub gathered : Sort → List ListedObject → List Page → List ListedObject
gathered qsort sofar [] = sofar
gathered qsort sofar (p ∷ ps) = gathered qsort (qsort (sofar ++ p.objects)) ps

-- The name, prefix and limit of the last page.
abbrev pub LabeledBy : List Page → Listing → Type 0
LabeledBy [] l = ⊥
LabeledBy (p ∷ []) l = (l.name ≡ p.name) × (l.prefix ≡ p.prefix) × (l.limit ≡ p.limit)
LabeledBy (p ∷ q ∷ ps) l = LabeledBy (q ∷ ps) l

module _ {World Json : Type 0} (client : Client World Json) (numbers : JsonNumbers Json)
    (qsort : Sort) (config : Configuration) (bucket prefix : Bytes) where
  -- The request for the page behind `marker` is answered with the page, complete or not.
  pub record Answered (marker : Bytes) (w : World) (page : Page) (eof : Bool) : Type 0 where
    pub answer : Json
    pub granted :
        (ask client numbers config (listing_request config bucket prefix marker) w).0
        ≡ ok (some answer)
    pub readable : extract_page client numbers answer ≡ ok (some (page, eof))

  -- The surroundings after that request.
  abbrev pub after_request : Bytes → World → World
  after_request marker w =
      (ask client numbers config (listing_request config bucket prefix marker) w).1

  -- The server answers these pages from `marker` on, and only the last of them is complete.
  abbrev pub Serves : Bytes → World → List Page → Type 0
  Serves marker w [] = ⊥
  Serves marker w (p ∷ []) = Answered marker w p true
  Serves marker w (p ∷ q ∷ ps) =
      Answered marker w p false
      × Serves (last_key marker p.objects) (after_request marker w) (q ∷ ps)

  -- The server answers these pages, none of them complete, and the request behind them throws.
  abbrev pub Breaks : Bytes → World → List Page → Type 0
  Breaks marker w [] =
      (e : Exception) × ((ask client numbers config (listing_request config bucket prefix marker)
          w).0
        ≡ throw e)
  Breaks marker w (p ∷ ps) =
      Answered marker w p false × Breaks (last_key marker p.objects) (after_request marker w) ps

  list_page-Answered :
      (l : Listing) (w : World) (page : Page) (eof : Bool)
      → Answered l.marker w page eof
      → list_page client numbers qsort config bucket prefix l w
        ≡ (ok (add_page qsort l page, eof), after_request l.marker w)
  unfolding list_page
  list_page-Answered l w page eof a = rw (a.granted, a.readable) refl

  -- The listing that the pages add up to.
  abbrev Gathers : Listing → List Page → Option (Result Listing × World) → Type 0
  Gathers l ps out =
      (l' : Listing) × (w' : World) × (out ≡ some (ok l', w'))
      × (l'.objects ≡ gathered qsort l.objects ps)
      × LabeledBy ps l'

  list_page-stale :
      (l : Listing) (w : World) (e : Exception)
      → l.stale ≡ true
      → (ask client numbers config (listing_request config bucket prefix l.marker) w).0 ≡ throw e
      → list_page client numbers qsort config bucket prefix l w ≡ (fault, after_request l.marker w)
  unfolding list_page
  list_page-stale l w e st h = rw (h, st) refl

  Breaks-faults :
      (fuel : ℕ) (l : Listing) (w : World) (ps : List Page)
      → l.stale ≡ true
      → Breaks l.marker w ps
      → length ps < fuel
      → (w' : World) × (list_from client numbers qsort fuel config bucket prefix l w
          ≡ some (fault, w'))
  unfolding list_from
  Breaks-faults zero l w ps st h enough = absurd (omega (arith, enough))
  Breaks-faults (suc fuel) l w [] st (e, h) enough =
      rw (list_page-stale l w e st h) (after_request l.marker w, refl)
  Breaks-faults (suc fuel) l w (p ∷ ps) st (h, hs) enough = rw (list_page-Answered l w p false h) (
      Breaks-faults fuel (add_page qsort l p) (after_request l.marker w) ps refl hs
        (omega (arith, enough)))

  -- Where a request fails after one page or more, `listObjects` does not throw: it releases the
  -- answer of the page before, which it has released already.
  pub list_objects-Breaks :
      (fuel : ℕ) (w : World) (p : Page) (ps : List Page)
      → Breaks [] w (p ∷ ps)
      → length (p ∷ ps) < fuel
      → (w' : World) × (list_objects client numbers qsort fuel config bucket prefix w
          ≡ some (fault, w'))
  unfolding list_objects list_from
  list_objects-Breaks zero w p ps h enough = absurd (omega (arith, enough))
  list_objects-Breaks (suc fuel) w p ps (h, hs) enough =
      rw (list_page-Answered empty_listing w p false h) (
        Breaks-faults fuel (add_page qsort empty_listing p) (after_request [] w) ps refl hs
          (omega (arith, enough)))
