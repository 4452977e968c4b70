-- ===== src/Pipeline/Download/Front.antt =====
-- A round of `read` (src/DownloadPipeline.cpp) behind the launch, with curl that delivers the object.
use qing_stor_c_sdk.Prelude.{
  ℕ, ◌^◌, ◌<◌, ◌≡◌, refl, sym, ap, ◌∙◌, Bool, true, false, List, [], ◌∷◌, ◌++◌, append_assoc, Bytes,
  is_empty, if◌then◌else◌,
}
use qing_stor_c_sdk.Errors.{Result, ok, throw, fault}
use qing_stor_c_sdk.Common.Signature.{Crypto}
use qing_stor_c_sdk.Common.Url.{UrlParser}
use qing_stor_c_sdk.Fetcher.{Fetcher, Got, get}
use qing_stor_c_sdk.Fetcher.Content.{due, IsSound, Kept, Kept-trans}
use qing_stor_c_sdk.Fetcher.Content.Gets.{FitsGet, Gets, get-Gets}
use qing_stor_c_sdk.Fetcher.Content.Starts.{start-Kept}
use qing_stor_c_sdk.Pipeline.{
  Pipeline, Steps, Round, Ending, set_active, after_turn, turn, restart, idle, is_failed,
  with_front,
}
use qing_stor_c_sdk.Pipeline.Content.{AllSound, dues, AllKept, AllKept-trans, first-AllKept}
use qing_stor_c_sdk.Pipeline.Download.{
  left, Keeps, Keeps-active, FitsTurn, turn-AllKept, EndHandsOut, went_on-HandsOut,
}

is_empty-nil : (b : Bytes) → is_empty b ≡ true → b ≡ []
is_empty-nil [] e = refl
is_empty-nil (x ∷ b) e = absurd cc

module _ (object : Bytes) (crypto : Crypto) (scan : UrlParser) (max_write : ℕ)
    (small : max_write < 2 ^ 63) where
  -- What curl is to deliver in a round, branch by branch.
  abbrev FitsRestart : Round → (Result (Unit {0}) × Fetcher) → List Fetcher → Type 0
  FitsRestart r (ok u, f) fs = FitsTurn object crypto scan max_write small r (f ∷ fs)
  FitsRestart r (throw e, f) fs = Unit
  FitsRestart r (fault, f) fs = Unit

  abbrev FitsGot : Round → (Got × Fetcher) → List Fetcher → Type 0
  FitsGot r (got, f) fs =
      got.eof ≡ false
      → is_empty got.bytes ≡ true
      → FitsRestart r (restart crypto scan max_write r f) fs

  abbrev pub FitsFront : Round → ℕ → List Fetcher → Type 0
  FitsFront r n [] = Unit
  FitsFront r n (f ∷ fs) = FitsGet object r.resumed n f × FitsGot r (get r.resumed n f) fs

  abbrev pub FitsLaunched : Round → ℕ → (Result (Unit {0}) × Pipeline) → Type 0
  FitsLaunched r n (ok u, p) = FitsFront r n p.active
  FitsLaunched r n (throw e, p) = Unit
  FitsLaunched r n (fault, p) = Unit

  after_turn-Keeps :
      (p : Pipeline) (d : Steps)
      → AllSound object p.pending
      → AllKept object p.active d.1
      → Keeps object p (after_turn crypto scan max_write p d).1
  after_turn-Keeps p (d, fs) s k = Keeps-active object p fs s k

  idle-Keeps :
      (r : Round) (p : Pipeline) (fs : List Fetcher) (s : Result (Unit {0}) × Fetcher)
      → AllSound object p.pending
      → AllKept object p.active (s.1 ∷ fs)
      → FitsRestart r s fs
      → Keeps object p (idle crypto scan max_write r p fs s).1
  idle-Keeps r p fs (ok u, f) t k h = after_turn-Keeps p (turn crypto scan max_write r (f ∷ fs)) t (
      AllKept-trans object p.active (f ∷ fs) _ k
        (turn-AllKept object crypto scan max_write small r (f ∷ fs) k.sound h))
  idle-Keeps r p fs (throw x, f) t k h = Keeps-active object p (f ∷ fs) t k
  idle-Keeps r p fs (fault, f) t k h = Keeps-active object p (f ∷ fs) t k

  chosen-Kept :
      (f : Fetcher) (b : Bool) (x y : Result (Unit {0}) × Fetcher)
      → Kept object f x.1
      → Kept object f y.1
      → Kept object f (if b then x else y).1
  chosen-Kept f true x y p q = p
  chosen-Kept f false x y p q = q

  restart-Kept :
      (r : Round) (f : Fetcher)
      → IsSound object f
      → Kept object f (restart crypto scan max_write r f).1
  restart-Kept r f s =
      chosen-Kept f (is_failed f.state) _ _
        (start-Kept object crypto scan max_write small (r.answers f) f s)
        (record { sound = s; same = refl })

  -- The front fetcher is at its end, had nothing, or had bytes.
  chosen-end :
      (p : Pipeline) (b : Bool) (x y : Ending crypto scan max_write)
      → (b ≡ true → EndHandsOut object crypto scan max_write small p x)
      → (b ≡ false → EndHandsOut object crypto scan max_write small p y)
      → EndHandsOut object crypto scan max_write small p (if b then x else y)
  chosen-end p true x y a b = a refl
  chosen-end p false x y a b = b refl

  dropped-AllKept :
      (all : List Fetcher) (f : Fetcher) (fs : List Fetcher)
      → AllKept object all (f ∷ fs)
      → due object f ≡ []
      → AllKept object all fs
  dropped-AllKept all f fs k e = record {
    sound = k.sound.1;
    same = ap (λ t. t ++ dues object fs) (sym e) ∙ k.same;
  }

  Gets-Kept :
      (f : Fetcher) (out : Got × Fetcher)
      → Gets object f out
      → is_empty out.0.bytes ≡ true
      → Kept object f out.1
  Gets-Kept f out g e = record {
    sound = g.sound;
    same = sym (g.bytes ∙ ap (λ t. t ++ due object out.1) (is_empty-nil out.0.bytes e));
  }

  handed :
      (p : Pipeline) (f g : Fetcher) (fs : List Fetcher) (bytes : Bytes)
      → AllKept object p.active (f ∷ fs)
      → due object f ≡ bytes ++ due object g
      → left object p ≡ bytes ++ left object (set_active crypto scan max_write p (g ∷ fs))
  handed p f g fs bytes k e =
      let rest = dues object p.pending in
      ap (λ t. t ++ rest) (sym k.same ∙ ap (λ t. t ++ dues object fs) e)
      ∙ ap (λ t. t ++ rest) (append_assoc bytes (due object g) (dues object fs))
      ∙ append_assoc bytes (due object g ++ dues object fs) rest

  pub with_front-HandsOut :
      (r : Round) (n : ℕ) (p : Pipeline) (f : Fetcher) (fs : List Fetcher)
      → AllSound object p.pending
      → AllKept object p.active (f ∷ fs)
      → FitsFront r n (f ∷ fs)
      → EndHandsOut object crypto scan max_write small p
          (with_front crypto scan max_write r n p f fs)
  with_front-HandsOut r n p f fs t k (h, next) =
      let out = get r.resumed n f in
      let g = get-Gets object r.resumed n f k.sound.0 h in
      chosen-end p out.0.eof _ _
        (λ e. Keeps-active object p fs t (dropped-AllKept p.active f fs k (g.end e)))
        λ e.
          chosen-end p (is_empty out.0.bytes) _ _
            (λ z.
              let back = restart-Kept r out.1 g.sound in
              went_on-HandsOut object crypto scan max_write small p _ (
                idle-Keeps r p fs (restart crypto scan max_write r out.1) t
                  (AllKept-trans object p.active (f ∷ fs) _ k (
                    first-AllKept object f _ fs k.sound.1
                      (Kept-trans object f out.1 _ (Gets-Kept f out g z) back)))
                  (next e z)))
            λ z. (
              ((g.sound, k.sound.1), t),
              handed p f out.1 fs out.0.bytes k g.bytes,
              λ d. absurd (let u = e in cc),
            )
