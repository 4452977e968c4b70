-- ===== src/Pipeline/Bounds.antt =====
-- How much `read` of src/DownloadPipeline.cpp hands out.
use qing_stor_c_sdk.Prelude.{
  ℕ, ◌≤◌, ◌≡◌, refl, Bool, true, false, Bool-cases, ◌⊎◌, inl, inr, List, [], ◌∷◌, Bytes, length,
  drop, is_empty, ltb, if◌then◌else◌, Option, none, some, arith, length-take,
}
use qing_stor_c_sdk.Errors.{Result, ok, throw, fault}
use qing_stor_c_sdk.Common.Signature.{Crypto}
use qing_stor_c_sdk.Common.Url.{UrlParser}
use qing_stor_c_sdk.Fetcher.{Fetcher, Got, get, get_available, avail, slice, buffer, deliver}
use qing_stor_c_sdk.Pipeline.{
  Pipeline, Round, Ending, returned, continued, idle, restart, went_on, at_front, behind_launch,
  launch, round, resumed_by, read,
}

avail-bounded : (f : Fetcher) (n : ℕ) → avail f n ≤ n
avail-bounded f n = ground arith

available-bounded : (f : Fetcher) (n : ℕ) → length (slice (buffer f) f.read_off (avail f n)) ≤ n
available-bounded f n =
    omega (arith, length-take (avail f n) (drop f.read_off (buffer f)), avail-bounded f n)

if-bounded :
    (n : ℕ) (b : Bool) (x y : Got × Fetcher)
    → length x.0.bytes ≤ n
    → length y.0.bytes ≤ n
    → length (if b then x else y).0.bytes ≤ n
if-bounded n true x y p q = p
if-bounded n false x y p q = q

-- A call of `get` hands out no more than there is room for.
get-bounded : (rs : List (List Bytes)) (n : ℕ) (f : Fetcher) → length (get rs n f).0.bytes ≤ n
unfolding get get_available
get-bounded [] n f = elim (Bool-cases (ltb f.read_off f.nused)) [
  | inl e ↦ rw (e, get, get_available) (available-bounded f n)
  | inr e ↦ rw (e, get, get_available) (omega arith)
]
get-bounded (r ∷ rs) n f = elim (Bool-cases (ltb f.read_off f.nused)) [
  | inl e ↦ rw (e, get, get_available) (available-bounded f n)
  | inr e ↦
      rw (e, get, get_available)
        (if-bounded n f.paused _ _ (get-bounded rs n (deliver r (record f { paused = false })))
          (omega arith))
]

-- What `read` hands out: the end, or between one byte and `n` bytes.
abbrev pub Bounded : ℕ → Result Got × Pipeline → Type 0
Bounded n (ok got, p) = (length got.bytes ≤ n) × ((got.eof ≡ true) ⊎ (1 ≤ length got.bytes))
Bounded n (throw e, p) = Unit
Bounded n (fault, p) = Unit

abbrev pub BoundedIf : ℕ → Option (Result Got × Pipeline) → Type 0
BoundedIf n none = Unit
BoundedIf n (some o) = Bounded n o

module _ (crypto : Crypto) (scan : UrlParser) (max_write : ℕ) where
  abbrev EndBounded : ℕ → Ending crypto scan max_write → Type 0
  EndBounded n (continued p) = Unit
  EndBounded n (returned o) = Bounded n o

  went_on-bounded :
      (n : ℕ) (o : Result (Unit {0}) × Pipeline) → EndBounded n (went_on crypto scan max_write o)
  went_on-bounded n (ok u, p) = tt
  went_on-bounded n (throw e, p) = tt
  went_on-bounded n (fault, p) = tt

  decided :
      (n : ℕ) (eof : Bool) (bytes : Bytes) (p q : Pipeline) (x : Ending crypto scan max_write)
      → length bytes ≤ n
      → EndBounded n x
      → EndBounded n (
          if eof
          then continued p
          else if is_empty bytes
          then x
          else returned (ok (record { bytes = bytes; eof = eof }), q))
  decided n true bytes p q x le h = tt
  decided n false [] p q x le h = h
  decided n false (c ∷ cs) p q x le h = (le, inr (omega arith))

  at_front-bounded :
      (r : Round) (n : ℕ) (p : Pipeline) (fs : List Fetcher)
      → EndBounded n (at_front crypto scan max_write r n p fs)
  at_front-bounded r n p [] = (omega arith, inl refl)
  at_front-bounded r n p (f ∷ fs) =
      let (got, f') = get r.resumed n f in
      decided n got.eof got.bytes _ _ _ (get-bounded r.resumed n f)
        (went_on-bounded n (idle crypto scan max_write r p fs (restart crypto scan max_write r f')))

  round-bounded :
      (r : Round) (n : ℕ) (p : Pipeline) → EndBounded n (round crypto scan max_write r n p)
  unfolding round
  round-bounded r n p = behind (launch crypto scan max_write r.answers p)
    where
      behind :
          (o : Result (Unit {0}) × Pipeline)
          → EndBounded n (behind_launch crypto scan max_write r n o)
      behind (ok u, q) = at_front-bounded r n q q.active
      behind (throw e, q) = tt
      behind (fault, q) = tt

  then_read :
      (rs : List Round) (n : ℕ) (end : Ending crypto scan max_write)
      → EndBounded n end
      → ((q : Pipeline) → BoundedIf n (read crypto scan max_write rs n q))
      → BoundedIf n (resumed_by crypto scan max_write end (read crypto scan max_write rs n))
  then_read rs n (returned o) h later = h
  then_read rs n (continued q) h later = later q

  pub read-bounded :
      (rs : List Round) (n : ℕ) (p : Pipeline) → BoundedIf n (read crypto scan max_write rs n p)
  unfolding read
  read-bounded [] n p = tt
  read-bounded (r ∷ rs) n p =
      then_read rs n (round crypto scan max_write r n p) (round-bounded r n p) (read-bounded rs n)
