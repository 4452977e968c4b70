-- ===== src/Fetcher/Resume.antt =====
-- The range that `HTTPFetcher::start` (src/HTTPFetcher.cpp) asks for, at the first start and after a
-- failure.
use qing_stor_c_sdk.Prelude.{
  ℕ, ◌+◌, ◌-◌, ◌^◌, ◌≤◌, ◌<◌, ◌≡◌, refl, sym, ap, ap₂, ◌∙◌, Bool, true, false, [], ◌∷◌, ◌++◌,
  append_assoc, Bytes, codes, Bool-cases, Option-cases, inl, inr, none, some, arith, if◌then◌else◌,
  is_empty,
}
use qing_stor_c_sdk.Prelude.Int.{
  ℤ, pos, ◌+ℤ◌, ◌-ℤ◌, ◌≤ℤ◌, int_laws, ltb_ℤ, decimal_ℤ, lt_of_ltb_ℤ, ge_of_ltb_ℤ, ltb_ℤ_of_lt,
  ltb_ℤ_of_ge,
}
use qing_stor_c_sdk.Errors.{Result, ok, throw, fault, out_of_memory, >>=-ok}
use qing_stor_c_sdk.Common.Header.{
  HeaderContent, HeaderField, host, range, header_line, header_add, add, get_data,
}
use qing_stor_c_sdk.Common.Signature.{Crypto}
use qing_stor_c_sdk.Common.Signature.Laws.{signature-Outcome, data_lines}
use qing_stor_c_sdk.Common.Url.{UrlParser, ParsedUrl, qs_parse_url, resource}
use qing_stor_c_sdk.Fetcher.{Fetcher, running}
use qing_stor_c_sdk.Fetcher.Start.{
  Answers, resume_offset, missing, left_over, range_text, wants_range, request_headers, attach,
  sign_headers, ensure_buffer, go_on, begin, start, can_start,
}

-- The bytes of the range that have arrived: handed out, or still in the buffer.
abbrev pub arrived : Fetcher → ℕ
arrived f = f.bytes_done + (f.nused - f.read_off)

-- The marks of the buffer, in order and without a wrap; so also before there is a buffer.
abbrev pub InOrder : Fetcher → Type 0
InOrder f = (f.read_off ≤ f.nused) × (f.nused < 2 ^ 63)

add_both : (o : ℤ) (u b : ℕ) → o +ℤ pos u +ℤ pos b ≡ o +ℤ pos (b + u)
add_both o u b = omega int_laws

sub_both : (l : ℤ) (u b : ℕ) → l -ℤ pos u -ℤ pos b ≡ l -ℤ pos (b + u)
sub_both l u b = omega int_laws

add_back : (o l : ℤ) (n : ℕ) → o +ℤ pos n +ℤ (l -ℤ pos n) ≡ o +ℤ l
add_back o l n = omega int_laws

-- Whatever has arrived, the range that is asked for begins at the first missing byte and ends with
-- the last byte of the fetcher's own range.
pub resume_range :
    (f : Fetcher)
    → InOrder f
    → (resume_offset f ≡ f.offset +ℤ pos (arrived f))
      × (missing f ≡ f.len -ℤ pos (arrived f))
      × (resume_offset f +ℤ missing f ≡ f.offset +ℤ f.len)
resume_range f v =
    let w : left_over f ≡ f.nused - f.read_off = omega arith in
    let p : resume_offset f ≡ f.offset +ℤ pos (arrived f) =
      rw w (add_both f.offset (f.nused - f.read_off) f.bytes_done) in
    let q : missing f ≡ f.len -ℤ pos (arrived f) =
      rw w (sub_both f.len (f.nused - f.read_off) f.bytes_done) in
    (p, q, ap₂ ◌+ℤ◌ p q ∙ add_back f.offset f.len (arrived f))

-- The two headers that every request of a range begins with, behind what was there: the host, and
-- the bytes from the first missing one to the last of the range, or to the end of the object if more
-- has arrived than the range has.
abbrev pub range_request : Fetcher → HeaderContent
range_request f =
    (codes "Host: " ++ f.host)
    ∷ (codes "Range: bytes="
        ++ (decimal_ℤ (f.offset +ℤ pos (arrived f))
            ++ (codes "-"
                ++ (if ltb_ℤ f.len (pos (arrived f))
                    then []
                    else decimal_ℤ (f.offset +ℤ f.len -ℤ pos 1)))))
    ∷ []

-- The text of the Range, from the offset, the length and what has arrived.
range_text-eq :
    (offset len : ℤ) (n : ℕ)
    → range_text (offset +ℤ pos n) (len -ℤ pos n)
      ≡ codes "bytes="
        ++ (decimal_ℤ (offset +ℤ pos n)
            ++ (codes "-"
                ++ (if ltb_ℤ len (pos n) then [] else decimal_ℤ (offset +ℤ len -ℤ pos 1))))
range_text-eq offset len n =
    let back : offset +ℤ pos n +ℤ (len -ℤ pos n) ≡ offset +ℤ len = add_back offset len n in
    elim (Bool-cases (ltb_ℤ len (pos n))) [
      | inl e ↦
          let less = lt_of_ltb_ℤ len (pos n) e in
          let t : ltb_ℤ (len -ℤ pos n) (pos 0) ≡ true =
            ltb_ℤ_of_lt (len -ℤ pos n) (pos 0) (omega (int_laws, less)) in
          rw (t, e) refl
      | inr e ↦
          let more = ge_of_ltb_ℤ len (pos n) e in
          let t : ltb_ℤ (len -ℤ pos n) (pos 0) ≡ false =
            ltb_ℤ_of_ge (len -ℤ pos n) (pos 0) (omega (int_laws, more)) in
          rw (t, e, back) refl
    ]

range_text-ne-nil : (a b : ℤ) → is_empty (range_text a b) ≡ false
range_text-ne-nil a b = ground arith

add-ne_nil :
    (h : HeaderContent) (k : HeaderField) (v : Bytes)
    → is_empty v ≡ false
    → add h k v ≡ h ++ (header_line k v ∷ [])
unfolding header_add
add-ne_nil h k v e = rw (e, add, header_add)

wants_range-true : (f : Fetcher) → pos 0 ≤ℤ f.len → wants_range f ≡ true
wants_range-true f long = ground arith

request_headers-eq :
    (f : Fetcher)
    → InOrder f
    → pos 0 ≤ℤ f.len
    → is_empty f.host ≡ false
    → request_headers f ≡ f.headers ++ range_request f
unfolding request_headers
request_headers-eq f v long named =
    let (p, q, _) = resume_range f v in
    let text = range_text (resume_offset f) (missing f) in
    rw (wants_range-true f long, request_headers)
      (rw
        (
          add-ne_nil (add f.headers host f.host) range text
              (range_text-ne-nil (resume_offset f) (missing f)),
          add-ne_nil f.headers host f.host named,
          append_assoc,
          p,
          q,
          range_text-eq f.offset f.len (arrived f),
        )
        refl)

-- What a successful start at a date leaves behind.
pub record Started (crypto : Crypto) (scan : UrlParser) (timebuf : Bytes) (f f' : Fetcher)
    : Type 0 where
  pub runs : f'.state ≡ running
  pub attached : f'.parent ≡ true
  pub sent :
      (u : ParsedUrl) × (qs_parse_url scan (some f.url) ≡ ok u)
      × (f'.headers
          ≡ (f.headers ++ range_request f)
            ++ data_lines crypto (resource (some f.bucket) u) f.cred timebuf)
  pub passed : f'.http_headers ≡ some f'.headers

go_on-eq :
    (g : Fetcher) (r : Result HeaderContent) {f' : Fetcher}
    → go_on g r ≡ (ok tt, f')
    → (hs : HeaderContent) × (r ≡ ok hs)
      × (f' ≡ record g { headers = hs; http_headers = some hs; state = running })
go_on-eq g (ok hs) e = (hs, refl, ap (λ (p : Result (Unit {0}) × Fetcher). p.1) (sym e))
go_on-eq g (throw x) e = let e' = ap (λ (p : Result (Unit {0}) × Fetcher). p.0) e in cc e'
go_on-eq g fault e = let e' = ap (λ (p : Result (Unit {0}) × Fetcher). p.0) e in cc e'

module _ (crypto : Crypto) (scan : UrlParser) where
  sign_headers-extends :
      (f : Fetcher) (timebuf : Bytes) {hs : HeaderContent}
      → sign_headers crypto scan f timebuf ≡ ok hs
      → (u : ParsedUrl) × (qs_parse_url scan (some f.url) ≡ ok u)
        × (hs ≡ f.headers ++ data_lines crypto (resource (some f.bucket) u) f.cred timebuf)
  unfolding sign_headers
  sign_headers-extends f timebuf e =
      let (u, e₁, parsed) = >>=-ok _ (qs_parse_url scan (some f.url)) e in
      let e₂ =
        signature-Outcome crypto f.headers (resource (some f.bucket) u) f.cred timebuf get_data
          none in
      (u, parsed, cc (e₁, e₂))

  -- The part of `start` behind the tests.
  go_on-Started :
      (f : Fetcher) (h : ℕ) (timebuf : Bytes) {f' : Fetcher}
      → InOrder f
      → pos 0 ≤ℤ f.len
      → is_empty f.host ≡ false
      → go_on (attach f h) (sign_headers crypto scan (attach f h) timebuf) ≡ (ok tt, f')
      → Started crypto scan timebuf f f'
  unfolding attach
  go_on-Started f h timebuf v long named e =
      let (hs, e₁, e₂) = go_on-eq _ _ e in
      let (u, parsed, e₃) = sign_headers-extends (attach f h) timebuf e₁ in
      rw e₂ (record {
        runs = refl;
        attached = refl;
        sent = (
          u,
          parsed,
          e₃
              ∙ ap (λ l. l ++ data_lines crypto (resource (some f.bucket) u) f.cred timebuf)
                  (request_headers-eq f v long named),
        );
        passed = refl;
      })

-- What the allotment of the buffer leaves alone.
abbrev SameRequest : Fetcher → Fetcher → Type 0
SameRequest f g =
    (g.headers ≡ f.headers)
    × (range_request g ≡ range_request f)
    × (g.read_off ≡ f.read_off)
    × (g.nused ≡ f.nused)
    × (g.len ≡ f.len)
    × (g.host ≡ f.host)
    × (g.url ≡ f.url)
    × (g.bucket ≡ f.bucket)
    × (g.cred ≡ f.cred)

ensure_buffer-SameRequest :
    (m : ℕ) (malloc_ok : Bool) (f : Fetcher) → SameRequest f (ensure_buffer m malloc_ok f).1
unfolding ensure_buffer
ensure_buffer-SameRequest m malloc_ok f = elim (Option-cases f.read_buff) [
  | inr (buf, e) ↦ rw (e, ensure_buffer) (refl, refl, refl, refl, refl, refl, refl, refl, refl)
  | inl e ↦ elim (Bool-cases malloc_ok) [
    | inl b ↦ rw (e, b, ensure_buffer) (refl, refl, refl, refl, refl, refl, refl, refl, refl)
    | inr b ↦ rw (e, b, ensure_buffer) (refl, refl, refl, refl, refl, refl, refl, refl, refl)
  ]
]

Started-SameRequest :
    {crypto : Crypto} {scan : UrlParser} {timebuf : Bytes} {f g f' : Fetcher}
    → SameRequest f g
    → Started crypto scan timebuf g f'
    → Started crypto scan timebuf f f'
Started-SameRequest s t = record {
  runs = t.runs;
  attached = t.attached;
  sent = (t.sent.0, rw (← s.6) t.sent.1, rw (← s.0, ← s.1, ← s.7, ← s.8) t.sent.2);
  passed = t.passed;
}

module _ (crypto : Crypto) (scan : UrlParser) where
  begin-Started :
      (a : Answers) (f : Fetcher) {f' : Fetcher}
      → InOrder f
      → pos 0 ≤ℤ f.len
      → is_empty f.host ≡ false
      → begin crypto scan a f ≡ (ok tt, f')
      → Started crypto scan a.timebuf f f'
  unfolding begin
  begin-Started a f v long named e = elim (Bool-cases (can_start f.state)) [
    | inr p ↦ let e' = ap (λ (r : Result (Unit {0}) × Fetcher). r.0) (rw (p, begin) at e) in cc e'
    | inl p ↦ elim (Option-cases a.easy_handle) [
      | inl q ↦
          let e' = ap (λ (r : Result (Unit {0}) × Fetcher). r.0) (rw (p, q, begin) at e) in cc e'
      | inr (h, q) ↦ go_on-Started crypto scan f h a.timebuf v long named (rw (p, q, begin) at e)
    ]
  ]

  -- A successful start of a fetcher with a range and a host, whose buffer marks are in order, leaves
  -- it running in the multi handle, and what curl is given is the old headers, then Host and the
  -- Range from the first missing byte to the last byte of the range, or without an end if more than
  -- the range has arrived; and then Content-Length 0 and, unless they are empty, the date and the
  -- signature of GET for the path in the bucket, by the key id and the secret.
  pub start-Started :
      (max_write : ℕ) (a : Answers) (f : Fetcher) {f' : Fetcher}
      → InOrder f
      → pos 0 ≤ℤ f.len
      → is_empty f.host ≡ false
      → start crypto scan max_write a f ≡ (ok tt, f')
      → Started crypto scan a.timebuf f f'
  unfolding start
  start-Started max_write a f {f'} v long named e =
      let s = ensure_buffer-SameRequest max_write a.malloc_ok f in
      go (ensure_buffer max_write a.malloc_ok f).0 (ensure_buffer max_write a.malloc_ok f).1 s e
    where
      go :
          (allotted : Bool) (f₁ : Fetcher)
          → SameRequest f f₁
          → (if allotted then begin crypto scan a f₁ else (throw out_of_memory, f₁)) ≡ (ok tt, f')
          → Started crypto scan a.timebuf f f'
      go true f₁ s e =
          Started-SameRequest s
            (begin-Started a f₁ (omega (arith, s.2, s.3, v)) (rw s.4 long) (rw s.5 named) e)
      go false f₁ s e = let e' = ap (λ (r : Result (Unit {0}) × Fetcher). r.0) e in cc e'
