-- ===== src/Fetcher/Content/Starts.antt =====
-- `start` (src/HTTPFetcher.cpp) leaves the bytes that a fetcher holds.
use qing_stor_c_sdk.Prelude.{
  ℕ, ◌^◌, ◌<◌, ◌≡◌, refl, sym, ap, ◌∙◌, Bool, true, false, ◌++◌, ◌⊎◌, inl, inr, [], Bytes, some,
  arith, if◌then◌else◌, replicate, length-replicate,
}
use qing_stor_c_sdk.Prelude.Int.{ℤ, pos_part}
use qing_stor_c_sdk.Errors.{Result}
use qing_stor_c_sdk.Common.Signature.{Crypto}
use qing_stor_c_sdk.Common.Url.{UrlParser}
use qing_stor_c_sdk.Fetcher.{Fetcher, done, running, buffer}
use qing_stor_c_sdk.Fetcher.Start.{Answers, wanted_size, ensure_buffer, attach, begin, start}
use qing_stor_c_sdk.Fetcher.Stream.{unread, IsFetcher}
use qing_stor_c_sdk.Fetcher.Content.{
  IsUnstarted, unread-IsUnstarted, due, IsSound, Kept, Kept-trans,
}
use qing_stor_c_sdk.Fetcher.Content.Moves.{Same8, SameBuffer-Same8, IsFetcher-same, IsSound-same}

running-done : running ≡ done → ⊥
running-done e = cc

module _ (object : Bytes) (crypto : Crypto) (scan : UrlParser) (max_write : ℕ)
    (small : max_write < 2 ^ 63) where
  begin-Same :
      (a : Answers) (f : Fetcher)
      → Same8 f (begin crypto scan a f).1
        × (((begin crypto scan a f).1.state ≡ f.state)
            ⊎ ((begin crypto scan a f).1.state ≡ running))
  unfolding begin attach
  begin-Same a f = ground arith

  wanted_size-small : (conf : ℤ) → pos_part conf < 2 ^ 63 → wanted_size max_write conf < 2 ^ 63
  wanted_size-small conf h = ground (arith, small, h)

  -- What the allotment leaves: a fetcher that is sound, and has its array if it succeeded.
  record Allotted (f : Fetcher) (out : Bool × Fetcher) : Type 0 where
    kept : Kept object f out.1
    array : out.0 ≡ true → IsFetcher out.1

  already :
      (f : Fetcher) (malloc_ok : Bool) (buf : Bytes)
      → f.read_buff ≡ some buf
      → IsSound object f
      → IsFetcher f
      → Allotted f (ensure_buffer max_write malloc_ok f)
  unfolding ensure_buffer
  already f malloc_ok buf e s v =
      rw (e, ensure_buffer) (record { kept = record { sound = s; same = refl }; array = λ t. v })

  fresh :
      (f : Fetcher) (malloc_ok : Bool)
      → IsSound object f
      → IsUnstarted f
      → Allotted f (ensure_buffer max_write malloc_ok f)
  unfolding ensure_buffer
  fresh f true s u =
      let size = wanted_size max_write f.conf_buff_size in
      let g = record f { buff_size = size; read_buff = some (replicate size 0) } in
      let none_held : unread g ≡ [] = rw (u.none_used, u.none_read) refl in
      let v : IsFetcher g = record {
        array = refl;
        sized = length-replicate size 0;
        order = omega (arith, u.none_read);
        inside = omega (arith, u.none_used);
        small = wanted_size-small f.conf_buff_size s.sized;
      } in
      rw (u.no_array, ensure_buffer)
        (record {
          kept = record {
            sound = record {
              ready = inr v;
              sized = s.sized;
              next = (due object f, ap (λ t. t ++ due object f) (sym none_held));
              complete = λ d. s.complete d ∙ unread-IsUnstarted f u ∙ sym none_held;
            };
            same = refl;
          };
          array = λ t. v;
        })
  fresh f false s u =
      let g = record f { buff_size = wanted_size max_write f.conf_buff_size } in
      rw (u.no_array, ensure_buffer)
        (record {
          kept = record {
            sound = record {
              ready = inl (record {
                no_array = u.no_array;
                none_used = u.none_used;
                none_read = u.none_read;
                not_paused = u.not_paused;
                no_handle = u.no_handle;
              });
              sized = s.sized;
              next = s.next;
              complete = s.complete;
            };
            same = refl;
          };
          array = λ t. cc;
        })

  ensure_buffer-Allotted :
      (f : Fetcher) (malloc_ok : Bool)
      → IsSound object f
      → Allotted f (ensure_buffer max_write malloc_ok f)
  ensure_buffer-Allotted f malloc_ok s = elim s.ready [
    | inl u ↦ fresh f malloc_ok s u
    | inr v ↦ already f malloc_ok (buffer f) v.array s v
  ]

  begin-Kept :
      (a : Answers) (f : Fetcher)
      → IsSound object f
      → IsFetcher f
      → Kept object f (begin crypto scan a f).1
  begin-Kept a f s v =
      let (same8, states) = begin-Same a f in
      let same = SameBuffer-Same8 f _ same8 in
      IsSound-same object f _ same s (inr (IsFetcher-same f _ same v)) λ d. elim states [
        | inl e ↦ s.complete (sym e ∙ d)
        | inr e ↦ absurd (running-done (sym e ∙ d))
      ]

  if-Kept :
      (f : Fetcher) (b : Bool) (x y : Result (Unit {0}) × Fetcher)
      → (b ≡ true → Kept object f x.1)
      → Kept object f y.1
      → Kept object f (if b then x else y).1
  if-Kept f true x y p q = p refl
  if-Kept f false x y p q = q

  -- A start keeps what the buffer holds, whether it succeeds or throws.
  pub start-Kept :
      (a : Answers) (f : Fetcher)
      → IsSound object f
      → Kept object f (start crypto scan max_write a f).1
  unfolding start
  start-Kept a f s =
      let out = ensure_buffer max_write a.malloc_ok f in
      let alloc = ensure_buffer-Allotted f a.malloc_ok s in
      if-Kept f out.0 _ _
        (λ t.
          Kept-trans object f out.1 _ alloc.kept
            (begin-Kept a out.1 alloc.kept.sound (alloc.array t)))
        alloc.kept
