-- ===== src/Context/Buckets.antt =====
-- Which answers `extractListBucketContent` and `extractHeadObjectContent` (src/Context.cpp) take, and
-- what they read from them.
use qing_stor_c_sdk.Prelude.{
  ◌≡◌, refl, ap, ◌↔◌, Bool, true, false, List, [], ◌∷◌, Bytes, codes, if◌then◌else◌, Option, none,
  some,
}
use mathlib.Core.Path.{subst}
use qing_stor_c_sdk.Prelude.Int.{eqb_ℤ}
use qing_stor_c_sdk.Errors.{Result, ok, throw, fault}
use qing_stor_c_sdk.Writer.Requests.{Client}
use qing_stor_c_sdk.Context.Extract.{
  JsonNumbers, BucketInfo, ListBucketResult, ◌>>?◌, each, a_string, field, text_field, array_length,
  extract_bucket, extract_list_bucket_content,
}

-- A chain that extracts something has a first step that does.
>>?-some {κ ℓ} :
    {V : Type κ} {W : Type ℓ} (next : V → Result (Option W)) {w : W} (first : Result (Option V))
    → first >>? next ≡ ok (some w)
    → (v : V) × (first ≡ ok (some v)) × (next v ≡ ok (some w))
>>?-some next fault e = cc
>>?-some next (throw x) e = cc
>>?-some next (ok none) e = cc
>>?-some next (ok (some v)) e = (v, refl, e)

-- Element for element.
abbrev pub AllPairs : {V W : Type 0} → (V → W → Type 0) → List V → List W → Type 0
AllPairs R [] [] = Unit
AllPairs R [] (w ∷ ws) = ⊥
AllPairs R (v ∷ vs) [] = ⊥
AllPairs R (v ∷ vs) (w ∷ ws) = R v w × AllPairs R vs ws

module _ {World Json : Type 0} (client : Client World Json) (numbers : JsonNumbers Json) where
  -- The member `name` is there, and its string is `t`.
  abbrev pub HasText : Json → Bytes → Bytes → Type 0
  HasText j name t = (v : Json) × (client.get_ex j name ≡ some v) × (client.get_string v ≡ some t)

  a_string-some : (o : Option Bytes) (t : Bytes) → a_string o ≡ ok (some t) → o ≡ some t
  a_string-some none t e = cc
  a_string-some (some u) t e = cc

  text_field-HasText :
      (j : Json) (name t : Bytes)
      → (text_field client numbers j name ≡ ok (some t)) ↔ HasText j name t
  text_field-HasText j name t = (
    λ e.
        let (v, found, s) =
          >>?-some (λ v. a_string (client.get_string v)) (field client numbers j name) e in
        (v, cc, a_string-some (client.get_string v) t s),
    λ (v, found, s). rw (found, s) refl,
  )

  -- The object is a bucket with these four strings.
  abbrev pub IsBucket : Json → BucketInfo → Type 0
  IsBucket j b =
      HasText j (codes "name") b.name
      × HasText j (codes "location") b.location
      × HasText j (codes "url") b.url
      × HasText j (codes "created") b.created

  extract_bucket-IsBucket :
      (j : Json) (b : BucketInfo) → (extract_bucket client numbers j ≡ ok (some b)) ↔ IsBucket j b
  unfolding extract_bucket
  extract_bucket-IsBucket j b = (
    λ e.
        let (n, en, e₁) = >>?-some _ (text_field client numbers j (codes "name")) e in
        let (l, el, e₂) = >>?-some _ (text_field client numbers j (codes "location")) e₁ in
        let (u, eu, e₃) = >>?-some _ (text_field client numbers j (codes "url")) e₂ in
        let (c, ec, e₄) = >>?-some _ (text_field client numbers j (codes "created")) e₃ in
        let same : record { name = n; location = l; url = u; created = c } ≡ b = cc in
        (
          subst (HasText j (codes "name")) (ap (λ x. x.name) same)
              ((text_field-HasText j (codes "name") n).0 en),
          subst (HasText j (codes "location")) (ap (λ x. x.location) same)
              ((text_field-HasText j (codes "location") l).0 el),
          subst (HasText j (codes "url")) (ap (λ x. x.url) same)
              ((text_field-HasText j (codes "url") u).0 eu),
          subst (HasText j (codes "created")) (ap (λ x. x.created) same)
              ((text_field-HasText j (codes "created") c).0 ec),
        ),
    λ (n, l, u, c). rw (n.1, n.2, l.1, l.2, u.1, u.2, c.1, c.2) refl,
  )

  -- Every element is extracted, in order.
  each-AllPairs :
      (vs : List Json) (bs : List BucketInfo)
      → (each (extract_bucket client numbers) vs ≡ ok (some bs)) ↔ AllPairs IsBucket vs bs
  each-AllPairs [] [] = (λ e. tt, λ h. refl)
  each-AllPairs [] (b ∷ bs) = (λ e. cc, λ h. absurd h)
  each-AllPairs (v ∷ vs) [] = (
    λ e.
        let (x, ex, e₁) = >>?-some _ (extract_bucket client numbers v) e in
        let (xs, exs, e₂) = >>?-some _ (each (extract_bucket client numbers) vs) e₁ in cc,
    λ h. absurd h,
  )
  each-AllPairs (v ∷ vs) (b ∷ bs) = (
    λ e.
        let (x, ex, e₁) = >>?-some _ (extract_bucket client numbers v) e in
        let (xs, exs, e₂) = >>?-some _ (each (extract_bucket client numbers) vs) e₁ in
        ((extract_bucket-IsBucket v b).0 (cc), (each-AllPairs vs bs).0 (cc)),
    λ (h, hs). rw ((extract_bucket-IsBucket v b).1 h, (each-AllPairs vs bs).1 hs) refl,
  )

  -- The answer to a listing of buckets: a count, and as many buckets.
  pub record HasBuckets (resp : Json) (bs : ListBucketResult) : Type 0 where
    pub count : Json
    pub buckets : Json
    pub counted : client.get_ex resp (codes "count") ≡ some count
    pub listed : client.get_ex resp (codes "buckets") ≡ some buckets
    pub agree : eqb_ℤ (array_length client numbers buckets) (numbers.get_int count) ≡ true
    pub all : AllPairs IsBucket (numbers.elements buckets) bs

  if-some :
      (b : Bool) (r : Result (Option ListBucketResult)) (bs : ListBucketResult)
      → (if b then r else ok none) ≡ ok (some bs)
      → (b ≡ true) × (r ≡ ok (some bs))
  if-some true r bs e = (refl, e)
  if-some false r bs e = cc

  -- Exactly the answers with a `count`, and as many `buckets` of four strings each, are taken, and
  -- the result is those buckets, in order.
  pub extract_list_bucket_content-HasBuckets :
      (resp : Json) (bs : ListBucketResult)
      → (extract_list_bucket_content client numbers resp ≡ ok (some bs)) ↔ HasBuckets resp bs
  unfolding extract_list_bucket_content
  extract_list_bucket_content-HasBuckets resp bs = (
    λ e.
        let (count, ec, e₁) = >>?-some _ (field client numbers resp (codes "count")) e in
        let (buckets, eb, e₂) = >>?-some _ (field client numbers resp (codes "buckets")) e₁ in
        let (same, e₃) =
          if-some (eqb_ℤ (array_length client numbers buckets) (numbers.get_int count))
            (each (extract_bucket client numbers) (numbers.elements buckets)) bs e₂ in
        record {
          count = count;
          buckets = buckets;
          counted = cc;
          listed = cc;
          agree = same;
          all = (each-AllPairs (numbers.elements buckets) bs).0 e₃;
        },
    λ h.
        rw (h.counted, h.listed, h.agree) ((each-AllPairs (numbers.elements h.buckets) bs).1 h.all),
  )
