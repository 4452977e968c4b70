-- ===== src/Fetcher/Content.antt =====
-- The bytes of the object that a fetcher (src/HTTPFetcher.cpp) is there for: what has been handed
-- out, what is in the buffer, and what curl still has to deliver.
pub mod Gets
pub mod Moves
pub mod Starts
use qing_stor_c_sdk.Prelude.{
  ℕ, zero, suc, ◌+◌, ◌-◌, ◌^◌, ◌≤◌, ◌<◌, ◌≡◌, refl, sym, ap, ◌∙◌, Bool, true, false, Bool-cases,
  ◌⊎◌, inl, inr, List, [], ◌∷◌, ◌++◌, append-nil, append_assoc, Bytes, length, length-append, take,
  drop, ltb, if◌then◌else◌, Option, none, some, arith,
}
use qing_stor_c_sdk.Prelude.Slices.{drop-drop, drop_exact}
use qing_stor_c_sdk.Prelude.Int.{ℤ, pos_part}
use qing_stor_c_sdk.Fetcher.{
  Fetcher, FetcherState, done, Handle, handle, indeterminate, null, buffer, slice, Got, nothing,
  get, get_available, at_end, avail, writer_callback, deliver,
}
use qing_stor_c_sdk.Fetcher.Stream.{unread, IsFetcher, writer_callback-Wrote}
use qing_stor_c_sdk.Fetcher.Stream.Session.{Read, available-Read, empty-Read}

abbrev pub IsPrefix : Bytes → Bytes → Type 0
IsPrefix front text = (rest : Bytes) × (text ≡ front ++ rest)

abbrev pub has_handle : Handle → Bool
has_handle (handle h) = true
has_handle _ = false

-- A fetcher without its array: nothing has happened to it but starts that failed.
pub record IsUnstarted (f : Fetcher) : Type 0 where
  pub no_array : f.read_buff ≡ none
  pub none_used : f.nused ≡ 0
  pub none_read : f.read_off ≡ 0
  pub not_paused : f.paused ≡ false
  pub no_handle : has_handle f.curl ≡ false

unread-IsUnstarted : (f : Fetcher) → IsUnstarted f → unread f ≡ []
unread-IsUnstarted f u = rw (u.none_used, u.none_read) refl

module _ (object : Bytes) where
  -- The bytes of the range, and those of them that have not been handed out.
  abbrev pub whole : Fetcher → Bytes
  whole f = take (pos_part f.len) (drop (pos_part f.offset) object)

  abbrev pub due : Fetcher → Bytes
  due f = drop f.bytes_done (whole f)

  -- The buffer holds the next bytes of the range, and all that are due once the transfer is done.
  pub record IsSound (f : Fetcher) : Type 0 where
    pub ready : IsUnstarted f ⊎ IsFetcher f
    pub sized : pos_part f.conf_buff_size < 2 ^ 63
    pub next : IsPrefix (unread f) (due f)
    pub complete : f.state ≡ done → due f ≡ unread f

  -- A chunk is what the server is to send next.
  abbrev pub Fits : Bytes → Fetcher → Type 0
  Fits c f = IsPrefix (unread f ++ c) (due f)

  -- From `f` to `g` nothing was handed out.
  pub record Kept (f g : Fetcher) : Type 0 where
    pub sound : IsSound g
    pub same : due g ≡ due f

  writer_callback-conf :
      (c : Bytes) (f : Fetcher) → (writer_callback c f).1.conf_buff_size ≡ f.conf_buff_size
  unfolding writer_callback
  writer_callback-conf c f = ground arith

  none_more : (front c rest : Bytes) → (front ++ c) ++ rest ≡ front → c ≡ []
  none_more front [] rest e = refl
  none_more front (x ∷ c) rest e = absurd (
      omega
        (arith, ap length e, length-append (front ++ (x ∷ c)) rest, length-append front (x ∷ c)))

  pub writer_callback-Kept :
      (c : Bytes) (f : Fetcher)
      → IsSound f
      → IsFetcher f
      → Fits c f
      → Kept f (writer_callback c f).1
  writer_callback-Kept c f s v (rest, e) =
      let w = writer_callback-Wrote f c v in
      let g = (writer_callback c f).1 in
      let same : due g ≡ due f = rw (w.same.1, w.same.3, w.same.4) refl in
      elim w.reply [
        | inl (_, b) ↦ record {
          sound = record {
            ready = inr w.valid;
            sized = omega (arith, s.sized, ap pos_part (writer_callback-conf c f));
            next = (rest, same ∙ e ∙ ap (λ t. t ++ rest) (sym b));
            complete = λ d.
                let all = s.complete (sym w.same.2 ∙ d) in
                same
                ∙ all
                ∙ sym (append-nil (unread f))
                ∙ ap (λ t. unread f ++ t) (sym (none_more (unread f) c rest (sym e ∙ all)))
                ∙ sym b;
          };
          same = same;
        }
        | inr (_, b, _, _) ↦ record {
          sound = record {
            ready = inr w.valid;
            sized = omega (arith, s.sized, ap pos_part (writer_callback-conf c f));
            next = (s.next.0, same ∙ s.next.1 ∙ ap (λ t. t ++ s.next.0) (sym b));
            complete = λ d. same ∙ s.complete (sym w.same.2 ∙ d) ∙ sym b;
          };
          same = same;
        }
      ]

  -- The chunks that come while a pause is lifted.
  abbrev pub FitsAll : List Bytes → Fetcher → Type 0
  FitsAll [] f = Unit
  FitsAll (c ∷ cs) f = Fits c f × FitsAll cs (writer_callback c f).1

  pub Kept-trans : (f g h : Fetcher) → Kept f g → Kept g h → Kept f h
  Kept-trans f g h p q = record { sound = q.sound; same = q.same ∙ p.same }

  writer_callback-IsFetcher :
      (c : Bytes) (f : Fetcher) → IsFetcher f → IsFetcher (writer_callback c f).1
  writer_callback-IsFetcher c f v = (writer_callback-Wrote f c v).valid

  pub deliver-Kept :
      (cs : List Bytes) (f : Fetcher)
      → IsSound f
      → IsFetcher f
      → FitsAll cs f
      → Kept f (deliver cs f) × IsFetcher (deliver cs f)
  unfolding deliver
  deliver-Kept [] f s v h = (record { sound = s; same = refl }, v)
  deliver-Kept (c ∷ cs) f s v (h, hs) =
      let k = writer_callback-Kept c f s v h in
      let v' = writer_callback-IsFetcher c f v in
      let (k', v'') = deliver-Kept cs (writer_callback c f).1 k.sound v' hs in
      (Kept-trans f (writer_callback c f).1 (deliver cs (writer_callback c f).1) k k', v'')
