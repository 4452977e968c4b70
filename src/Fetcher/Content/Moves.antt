-- ===== src/Fetcher/Content/Moves.antt =====
-- `handleResult` (src/HTTPFetcher.cpp) leaves the bytes that a fetcher holds.
use qing_stor_c_sdk.Prelude.{ℕ, ◌≡◌, refl, sym, ap, ◌∙◌, ◌++◌, ◌⊎◌, inr, List, Bytes, Option, arith}
use qing_stor_c_sdk.Errors.{Result, ok, throw, fault}
use qing_stor_c_sdk.Fetcher.{Fetcher, done, Release, CurlCode, cleanup, fail, finish, handle_result}
use qing_stor_c_sdk.Fetcher.Stream.{unread, IsFetcher}
use qing_stor_c_sdk.Fetcher.Content.{IsUnstarted, due, IsSound, Kept}

-- The buffer, its marks, the range, and the counts.
pub record SameBuffer (f g : Fetcher) : Type 0 where
  pub offset : g.offset ≡ f.offset
  pub len : g.len ≡ f.len
  pub bytes_done : g.bytes_done ≡ f.bytes_done
  pub nused : g.nused ≡ f.nused
  pub read_off : g.read_off ≡ f.read_off
  pub read_buff : g.read_buff ≡ f.read_buff
  pub buff_size : g.buff_size ≡ f.buff_size
  pub conf : g.conf_buff_size ≡ f.conf_buff_size

SameBuffer-refl : (f : Fetcher) → SameBuffer f f
SameBuffer-refl f = record {
  offset = refl;
  len = refl;
  bytes_done = refl;
  nused = refl;
  read_off = refl;
  read_buff = refl;
  buff_size = refl;
  conf = refl;
}

pub IsFetcher-same : (f g : Fetcher) → SameBuffer f g → IsFetcher f → IsFetcher g
IsFetcher-same f g s v = record {
  array = rw s.read_buff v.array;
  sized = rw (s.read_buff, s.buff_size) v.sized;
  order = rw (s.read_off, s.nused) v.order;
  inside = rw (s.nused, s.buff_size) v.inside;
  small = rw s.buff_size v.small;
}

unread-same : (f g : Fetcher) → SameBuffer f g → unread g ≡ unread f
unread-same f g s = rw (s.read_buff, s.read_off, s.nused) refl

-- The same, as the tactics read it.
abbrev pub Same8 : Fetcher → Fetcher → Type 0
Same8 f g =
    (g.offset ≡ f.offset)
    × (g.len ≡ f.len)
    × (g.bytes_done ≡ f.bytes_done)
    × (g.nused ≡ f.nused)
    × (g.read_off ≡ f.read_off)
    × (g.read_buff ≡ f.read_buff)
    × (g.buff_size ≡ f.buff_size)
    × (g.conf_buff_size ≡ f.conf_buff_size)

pub SameBuffer-Same8 : (f g : Fetcher) → Same8 f g → SameBuffer f g
SameBuffer-Same8 f g (a, b, c, d, e, r, u, v) = record {
  offset = a;
  len = b;
  bytes_done = c;
  nused = d;
  read_off = e;
  read_buff = r;
  buff_size = u;
  conf = v;
}

-- What is reported of a transfer leaves the buffer.
abbrev pub EndedSame : Fetcher → Result (Fetcher × List Release) → Type 0
EndedSame f fault = Unit
EndedSame f (throw e) = Unit
EndedSame f (ok r) = Same8 f r.0

pub handle_result-EndedSame :
    (res : CurlCode) (code : Option ℕ) (f : Fetcher) → EndedSame f (handle_result res code f)
unfolding handle_result fail finish cleanup
handle_result-EndedSame res code f = ground arith

module _ (object : Bytes) where
  due-same : (f g : Fetcher) → SameBuffer f g → due object g ≡ due object f
  due-same f g s = rw (s.bytes_done, s.len, s.offset) refl

  pub IsSound-same :
      (f g : Fetcher)
      → SameBuffer f g
      → IsSound object f
      → (IsUnstarted g ⊎ IsFetcher g)
      → (g.state ≡ done → due object f ≡ unread f)
      → Kept object f g
  IsSound-same f g s h ready complete = record {
    sound = record {
      ready = ready;
      sized = rw s.conf h.sized;
      next =
          (h.next.0, due-same f g s ∙ h.next.1 ∙ ap (λ t. t ++ h.next.0) (sym (unread-same f g s)));
      complete = λ d. due-same f g s ∙ complete d ∙ sym (unread-same f g s);
    };
    same = due-same f g s;
  }

  -- A transfer that is reported as successful has delivered all.
  abbrev pub Completes : Fetcher → Result (Fetcher × List Release) → Type 0
  Completes f fault = Unit
  Completes f (throw e) = Unit
  Completes f (ok r) = r.0.state ≡ done → due object f ≡ unread f

  abbrev pub KeptIf : Fetcher → Result (Fetcher × List Release) → Type 0
  KeptIf f fault = Unit
  KeptIf f (throw e) = Unit
  KeptIf f (ok r) = Kept object f r.0

  ended :
      (f : Fetcher) (r : Result (Fetcher × List Release))
      → EndedSame f r
      → IsSound object f
      → IsFetcher f
      → Completes f r
      → KeptIf f r
  ended f fault e s v c = tt
  ended f (throw x) e s v c = tt
  ended f (ok r) e s v c =
      let same = SameBuffer-Same8 f r.0 e in
      IsSound-same f r.0 same s (inr (IsFetcher-same f r.0 same v)) c

  pub handle_result-KeptIf :
      (res : CurlCode) (code : Option ℕ) (f : Fetcher)
      → IsSound object f
      → IsFetcher f
      → Completes f (handle_result res code f)
      → KeptIf f (handle_result res code f)
  handle_result-KeptIf res code f s v c = ended f _ (handle_result-EndedSame res code f) s v c
