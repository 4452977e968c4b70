-- ===== src/Fetcher/Content/Gets.antt =====
-- A call of `get` (src/HTTPFetcher.cpp) hands out the next bytes of the object.
use qing_stor_c_sdk.Prelude.{
  ℕ, ◌+◌, ◌-◌, ◌≡◌, refl, sym, ap, ◌∙◌, Bool, true, false, Bool-cases, inl, inr, List, [], ◌∷◌,
  ◌++◌, append_assoc, Bytes, length, ltb, if◌then◌else◌, arith,
}
use qing_stor_c_sdk.Prelude.Slices.{drop-drop, drop_exact}
use qing_stor_c_sdk.Prelude.Int.{pos_part}
use qing_stor_c_sdk.Fetcher.{
  Fetcher, FetcherState, done, Got, nothing, get, get_available, at_end, deliver,
}
use qing_stor_c_sdk.Fetcher.Stream.{unread, IsFetcher}
use qing_stor_c_sdk.Fetcher.Stream.Session.{Read, available-Read, empty-Read}
use qing_stor_c_sdk.Fetcher.Content.{
  IsUnstarted, due, whole, IsSound, FitsAll, Kept, Kept-trans, deliver-Kept,
}

module _ (object : Bytes) where
  -- What a call of `get` comes to: the next bytes are handed out, and the end is reported only
  -- behind the last.
  pub record Gets (f : Fetcher) (out : Got × Fetcher) : Type 0 where
    pub sound : IsSound object out.1
    pub bytes : due object f ≡ out.0.bytes ++ due object out.1
    pub end : (out.0.eof ≡ true) → due object f ≡ []

  due-handed :
      (f g : Fetcher) (bytes rest : Bytes)
      → g.offset ≡ f.offset
      → g.len ≡ f.len
      → g.bytes_done ≡ f.bytes_done + length bytes
      → due object f ≡ bytes ++ rest
      → due object g ≡ rest
  due-handed f g bytes rest o l d e =
      rw (o, l, d, ← drop-drop f.bytes_done (length bytes) (whole object f), e)
        (drop_exact bytes rest (length bytes) refl)

  at_end-done : (state : FetcherState) → at_end state ≡ true → state ≡ done
  at_end-done state e = ground arith

  -- An outcome of `get` by which no byte arrived.
  Read-Gets :
      (f : Fetcher) (n : ℕ) (out : Got × Fetcher)
      → IsSound object f
      → Read f n out
      → out.1.offset ≡ f.offset
      → out.1.len ≡ f.len
      → out.1.state ≡ f.state
      → out.1.conf_buff_size ≡ f.conf_buff_size
      → Gets f out
  Read-Gets f n out s r o l t c =
      let rest = s.next.0 in
      let left : due object f ≡ out.0.bytes ++ (unread out.1 ++ rest) =
        s.next.1
        ∙ ap (λ b. b ++ rest) (sym r.bytes)
        ∙ append_assoc out.0.bytes (unread out.1) rest in
      let now : due object out.1 ≡ unread out.1 ++ rest =
        due-handed f out.1 out.0.bytes (unread out.1 ++ rest) o l r.progress left in
      record {
        sound = record {
          ready = inr r.valid;
          sized = omega (arith, s.sized, ap pos_part c);
          next = (rest, now);
          complete = λ d.
              due-handed f out.1 out.0.bytes (unread out.1) o l r.progress
                (s.complete (sym t ∙ d) ∙ sym r.bytes);
        };
        bytes = left ∙ ap (λ b. out.0.bytes ++ b) (sym now);
        end = λ d. let (empty, ended) = r.end d in s.complete (at_end-done f.state ended) ∙ empty;
      }

  -- With nothing in the buffer and no pause to lift.
  nothing-Gets : (f : Fetcher) → IsSound object f → unread f ≡ [] → Gets f (nothing f)
  nothing-Gets f s z = record {
    sound = s;
    bytes = refl;
    end = λ d. s.complete (at_end-done f.state d) ∙ z;
  }

  -- The chunks that curl delivers when a call of `get` lifts a pause.
  abbrev pub FitsGet : List (List Bytes) → ℕ → Fetcher → Type 0
  FitsGet [] n f = Unit
  FitsGet (r ∷ rs) n f =
      let g = record f { paused = false } in
      f.paused ≡ true
      → ltb f.read_off f.nused ≡ false
      → FitsAll object r g × FitsGet rs n (deliver r g)

  empty : (f : Fetcher) → ltb f.read_off f.nused ≡ false → unread f ≡ []
  empty f e = let z : f.nused - f.read_off ≡ 0 = ground arith in rw z

  unpaused :
      (f : Fetcher)
      → IsSound object f
      → IsFetcher f
      → Kept object f (record f { paused = false }) × IsFetcher (record f { paused = false })
  unpaused f s v =
      let v' : IsFetcher (record f { paused = false }) = record {
        array = v.array;
        sized = v.sized;
        order = v.order;
        inside = v.inside;
        small = v.small;
      } in
      (
        record {
          sound = record { ready = inr v'; sized = s.sized; next = s.next; complete = s.complete };
          same = refl;
        },
        v',
      )

  if-Gets :
      (f : Fetcher) (b : Bool) (x y : Got × Fetcher)
      → (b ≡ true → Gets f x)
      → (b ≡ false → Gets f y)
      → Gets f (if b then x else y)
  if-Gets f true x y p q = p refl
  if-Gets f false x y p q = q refl

  Gets-Kept : (f g : Fetcher) (out : Got × Fetcher) → Kept object f g → Gets g out → Gets f out
  Gets-Kept f g out k h = record {
    sound = h.sound;
    bytes = sym k.same ∙ h.bytes;
    end = λ d. sym k.same ∙ h.end d;
  }

  get-IsFetcher :
      (rs : List (List Bytes)) (n : ℕ) (f : Fetcher)
      → IsSound object f
      → IsFetcher f
      → FitsGet rs n f
      → Gets f (get rs n f)
  unfolding get get_available
  get-IsFetcher [] n f s v h = elim (Bool-cases (ltb f.read_off f.nused)) [
    | inl e ↦
        rw (e, get, get_available) (Read-Gets f n _ s (available-Read f n v) refl refl refl refl)
    | inr e ↦
        rw (e, get, get_available) (Read-Gets f n _ s (empty-Read f n v e) refl refl refl refl)
  ]
  get-IsFetcher (r ∷ rs) n f s v h = elim (Bool-cases (ltb f.read_off f.nused)) [
    | inl e ↦
        rw (e, get, get_available) (Read-Gets f n _ s (available-Read f n v) refl refl refl refl)
    | inr e ↦
        let g = record f { paused = false } in
        rw (e, get, get_available)
          (if-Gets f f.paused (get rs n (deliver r g)) (nothing f)
            (λ p.
              let (fits, later) = h p e in
              let (k, v') = unpaused f s v in
              let (k', v'') = deliver-Kept object r g k.sound v' fits in
              Gets-Kept f (deliver r g) _ (Kept-trans object f g (deliver r g) k k')
                (get-IsFetcher rs n (deliver r g) k'.sound v'' later))
            λ p. nothing-Gets f s (empty f e))
  ]

  get-IsUnstarted :
      (rs : List (List Bytes)) (n : ℕ) (f : Fetcher)
      → IsSound object f
      → IsUnstarted f
      → Gets f (get rs n f)
  unfolding get get_available
  get-IsUnstarted [] n f s u =
      let e : ltb f.read_off f.nused ≡ false = rw (u.none_used, u.none_read) refl in
      let g = record f { paused = false } in
      let s' : IsSound object g = record {
        ready = inl (record {
          no_array = u.no_array;
          none_used = u.none_used;
          none_read = u.none_read;
          not_paused = refl;
          no_handle = u.no_handle;
        });
        sized = s.sized;
        next = s.next;
        complete = s.complete;
      } in
      rw (e, get, get_available)
        (Gets-Kept f g _ (record { sound = s'; same = refl }) (nothing-Gets g s' (empty f e)))
  get-IsUnstarted (r ∷ rs) n f s u =
      let e : ltb f.read_off f.nused ≡ false = rw (u.none_used, u.none_read) refl in
      rw (e, get, get_available)
        (if-Gets f f.paused _ (nothing f) (λ p. cc) λ p. nothing-Gets f s (empty f e))

  -- A call of `get`, if what curl delivers in it is what comes next.
  pub get-Gets :
      (rs : List (List Bytes)) (n : ℕ) (f : Fetcher)
      → IsSound object f
      → FitsGet rs n f
      → Gets f (get rs n f)
  get-Gets rs n f s h = elim s.ready [
    | inl u ↦ get-IsUnstarted rs n f s u
    | inr v ↦ get-IsFetcher rs n f s v h
  ]
