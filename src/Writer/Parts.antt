-- ===== src/Writer/Parts.antt =====
-- `transferData` (src/QingStorWriter.cpp) with a buffer: which parts it uploads, and what it keeps.
use qing_stor_c_sdk.Prelude.{
  ℕ, zero, suc, ◌+◌, ◌-◌, ◌≤◌, ◌<◌, ◌≡◌, refl, sym, min, ◌⊎◌, ◌≢◌, ap, ◌∙◌, true, Bool-cases, inl,
  inr, [], ◌∷◌, ◌++◌, Bytes, take, drop, length, ◌==◌, if◌then◌else◌, Option, some, arith,
  append_assoc, append-nil, length-append, take-append-drop, length-take, length-drop,
}
use mathlib.Core.Path.{subst}
use qing_stor_c_sdk.Prelude.Slices.{take_all, drop_all}
use qing_stor_c_sdk.Errors.{ok, throw, fault}
use qing_stor_c_sdk.Writer.{
  Writer, Session, held, do_send, send_full, pump, transfer_data, Step, pumped,
}
use qing_stor_c_sdk.Writer.Requests.{Client}
use qing_stor_c_sdk.Writer.Fill.{
  IsWriter, IsWriter-IsBuffered, filled, fill_lem, filled-IsWriter, emptied-IsWriter,
}
use qing_stor_c_sdk.Writer.Moves.{
  emptied, Sent, send_full-Sent, send_full_skip, loaded, Pumped, Moved-emptied, Moved-refl,
  Moved-nil,
}

module _ {World Json : Type 0} (client : Client World Json) where
  -- Enough rounds: one for each byte, and one more if the buffer is full at first.
  abbrev Enough : ℕ → Bytes → Writer → Type 0
  Enough fuel text w = length text + (1 - (w.buff_size - w.write_pos)) ≤ fuel

  abbrev Pumps : Session World → Bytes → Option (Step client) → Type 0
  Pumps s text o = (step : Step client) × (o ≡ some step) × Pumped client s text step

  -- The part went out: the rest of the loop, seen from before it.
  Pumped-emptied :
      (s : Session World) (x : World) (now later : Bytes) (step : Step client)
      → length (held s.writer ++ now) ≡ s.writer.buff_size
      → Pumped client (emptied client (loaded client s now) x) later step
      → Pumped client s (now ++ later) step
  Pumped-emptied s x now later (fault, s') full h = h
  Pumped-emptied s x now later (ok u, s') full (parts, m, low) = (
    (held s.writer ++ now) ∷ parts,
    Moved-emptied client s s' x now later parts parts full m,
    low,
  )
  Pumped-emptied s x now later (throw e, s') full (q, bad, parts, taken, lost, t, m, top) = (
    q,
    bad,
    (held s.writer ++ now) ∷ parts,
    now ++ taken,
    lost,
    ap (λ r. now ++ r) t ∙ sym (append_assoc now taken lost),
    Moved-emptied client s s' x now taken parts _ full m,
    top,
  )

  -- The end of a round with a full buffer.
  round_full :
      (fuel : ℕ) (s : Session World) (now later : Bytes) (step : Step client)
      → IsWriter (filled s.writer now)
      → length (held s.writer ++ now) ≡ s.writer.buff_size
      → s.writer.write_pos + length now ≡ s.writer.buff_size
      → Sent client (loaded client s now) step
      → ((x : World)
          → Pumps
              (emptied client (loaded client s now) x)
              later
              (pump client fuel later (emptied client (loaded client s now) x)))
      → Pumps s (now ++ later) (pumped client step (pump client fuel later step.1))
  round_full fuel s now later (fault, s') v full top h rest = ((fault, s'), refl, h)
  round_full fuel s now later (throw e, s') v full top (q, bad, x, r) rest = (
    (throw e, s'),
    refl,
    (
      q,
      bad,
      [],
      now,
      later,
      refl,
      rw r (Moved-refl client s x now ((held s.writer ++ now) ∷ []) _ v refl),
      rw r top,
    ),
  )
  round_full fuel s now later (ok u, s') v full top (x, r) rest =
      let (step, e, p) = rest x in (step, rw r e, Pumped-emptied s x now later step full p)

  -- The end of a round that used the text up.
  round_done :
      (fuel : ℕ) (s : Session World) (text : Bytes)
      → IsWriter (filled s.writer text)
      → s.writer.write_pos + length text < s.writer.buff_size
      → Pumps s text (pump client fuel [] (loaded client s text))
  unfolding pump
  round_done fuel s text v low = (
    (ok tt, loaded client s text),
    refl,
    ([], Moved-refl client s s.world text [] s.issued v (sym (append-nil s.issued)), low),
  )

  -- A round with `now` taken, if the buffer is full then and if it is not.
  round_Pumps :
      (fuel : ℕ) (s : Session World) (text : Bytes)
      → IsWriter s.writer
      → ((s' : Session World)
          → IsWriter s'.writer
          → s'.writer.write_pos < s'.writer.buff_size
          → Enough fuel (drop (s.writer.buff_size - s.writer.write_pos) text) s'.writer
          → Pumps s'
              (drop (s.writer.buff_size - s.writer.write_pos) text)
              (pump client fuel (drop (s.writer.buff_size - s.writer.write_pos) text) s'))
      → Enough (suc fuel) text s.writer
      → let n = s.writer.buff_size - s.writer.write_pos in
        let step = send_full client (loaded client s (take n text)) in
        Pumps s text (pumped client step (pump client fuel (drop n text) step.1))
  round_Pumps fuel s text v rest enough =
      let w = s.writer in
      let n = w.buff_size - w.write_pos in
      let now = take n text in
      let len : length now ≡ min n (length text) = length-take n text in
      let v' = filled-IsWriter w now v (omega (arith, len, v.inside)) in
      elim (Bool-cases (w.write_pos + length now == w.buff_size)) [
        | inl e ↦
            let top : w.write_pos + length now ≡ w.buff_size = ground (arith, e) in
            let full : length (held w ++ now) ≡ w.buff_size =
              omega (arith, length-append (held w) now, v.counted, top) in
            subst
              (λ t. Pumps s t (
                pumped client (send_full client (loaded client s now))
                  (pump client fuel (drop n text) (send_full client (loaded client s now)).1)))
              (take-append-drop n text)
              (round_full fuel s now (drop n text) _ v' full top
                (send_full-Sent client (loaded client s now) full top v.small)
                λ x.
                  rest (emptied client (loaded client s now) x) (emptied-IsWriter w v) v.room
                    (omega (arith, length-drop n text, enough, v.room)))
        | inr e ↦
            let short : length text < n = ground (arith, e, len, v.inside) in
            let all : take n text ≡ text = take_all text n (omega (arith, short)) in
            let none_left : drop n text ≡ [] = drop_all text n (omega (arith, short)) in
            rw (send_full_skip client (loaded client s now) e, none_left, all)
              (round_done fuel s text (filled-IsWriter w text v (omega (arith, short)))
                (omega (arith, short)))
      ]

  pump-Pumped :
      (fuel : ℕ) (text : Bytes) (s : Session World)
      → IsWriter s.writer
      → s.writer.write_pos < s.writer.buff_size ⊎ (text ≢ [])
      → Enough fuel text s.writer
      → Pumps s text (pump client fuel text s)
  unfolding pump
  pump-Pumped fuel [] s v (inl low) enough = ((ok tt, s), refl, ([], Moved-nil client s v, low))
  pump-Pumped fuel [] s v (inr h) enough = absurd (h refl)
  pump-Pumped zero (c ∷ cs) s v low enough = absurd (omega (arith, enough))
  pump-Pumped (suc fuel) (c ∷ cs) s v low enough =
      rw (fill_lem (c ∷ cs) s.writer (IsWriter-IsBuffered s.writer v))
        (round_Pumps fuel s (c ∷ cs) v (λ s' v' low'. pump-Pumped fuel _ s' v' (inl low')) enough)

  transfer_data-cache :
      (s : Session World) (text : Bytes)
      → s.writer.cache ≡ true
      → transfer_data client text s ≡ pump client (suc (length text)) text s
  unfolding transfer_data
  transfer_data-cache s text e =
      ap
        (λ b.
          if b
          then pump client (suc (length text)) text s
          else some (do_send client text (length text) s))
        e

  -- `transferData` with a buffer of fewer than 2 ^ 31 bytes that has room comes to an end. It calls
  -- `DoGetJSON` for as many full buffers as the held and the new bytes make up, each with the whole
  -- buffer and its length, in order and with consecutive part numbers, and keeps the
  -- bytes that are left over; if an upload fails it throws a plain `QingStorException` and the full
  -- buffer still holds the refused part. Between them the parts and the buffer hold every byte that
  -- was taken, once. It throws only if a request can throw, and its behaviour is undefined only if
  -- that of a request can be.
  pub transfer_data-Pumped :
      (s : Session World) (text : Bytes)
      → IsWriter s.writer
      → s.writer.write_pos < s.writer.buff_size
      → (step : Step client) × (transfer_data client text s ≡ some step) × Pumped client s text step
  transfer_data-Pumped s text v low =
      rw (transfer_data-cache s text v.caches)
        (pump-Pumped (suc (length text)) text s v (inl low) (omega arith))
