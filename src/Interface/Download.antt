-- ===== src/Interface/Download.antt =====
-- A download through the C interface (`qingstorRead`, src/QingStor.cpp), with curl that delivers the
-- object.
pub mod Whole
use qing_stor_c_sdk.Prelude.{
  ℕ, ◌^◌, ◌<◌, ◌≤◌, ◌≡◌, refl, sym, ap, ◌∙◌, Bool, true, false, ◌&&◌, ◌⊎◌, inl, inr, List, [], ◌∷◌,
  ◌++◌, append_assoc, Bytes, length, if◌then◌else◌, Option, none, some, arith,
}
use mathlib.Core.Path.{subst}
use qing_stor_c_sdk.Prelude.Int.{ℤ, pos, pos_part, neg_part, ◌≤ℤ◌, ltb_ℤ}
use qing_stor_c_sdk.Errors.{Result, ok, throw, fault, Exception}
use qing_stor_c_sdk.Common.Signature.{Crypto}
use qing_stor_c_sdk.Common.Url.{UrlParser}
use qing_stor_c_sdk.Config.{Configuration}
use qing_stor_c_sdk.Fetcher.{Got}
use qing_stor_c_sdk.Pipeline.{Pipeline, Round, read, transfer_data, end_checked}
use qing_stor_c_sdk.Pipeline.Order.{Reads, Answered, read-Reads}
use qing_stor_c_sdk.Pipeline.Bounds.{Bounded, BoundedIf, read-bounded}
use qing_stor_c_sdk.Fetcher.Throws.{Goes}
use qing_stor_c_sdk.Pipeline.Throws.{GoesIf, read-Goes}
use qing_stor_c_sdk.Pipeline.Download.{IsSoundPipeline, left, HandsOut}
use qing_stor_c_sdk.Pipeline.Download.Read.{FitsRounds, ReadHandsOut, read-HandsOut}
use qing_stor_c_sdk.Interface.{Api, Texts, is_some, refused, on_exception}
use qing_stor_c_sdk.Interface.Contexts.{failure}
use qing_stor_c_sdk.Interface.Handles.{
  Pointer, null, reader_of, writer_of, Object, as_read, get_reader,
}
use qing_stor_c_sdk.Interface.Objects.{read_result, read_rounds, read_object}

behind_nil : (xs ys : Bytes) → xs ++ ys ≡ [] → ys ≡ []
behind_nil [] ys e = e
behind_nil (x ∷ xs) ys e = absurd cc

failure-pos : failure ≡ pos 0 → ⊥
failure-pos e = omega (arith, ap neg_part e)

module _ (object : Bytes) where
  -- What a call that returns `v` and puts `bytes` into the caller's array has done to the bytes that
  -- the pipeline `p` still had to hand out.
  abbrev pub After : Pipeline → ℤ → Bytes → Pointer → Type 0
  After p v bytes (reader_of q) =
      (q.connections ≡ p.connections)
      × IsSoundPipeline object q
      × (left object p ≡ bytes ++ left object q)
      × (v ≡ pos 0 → left object p ≡ [])
  After p v bytes null = ⊥
  After p v bytes (writer_of w) = ⊥

  abbrev pub Handed :
      {World : Type 0}
      → Pipeline
      → Option (Result (ℤ × Bytes) × (Option Object × Api World))
      → Type 0
  Handed p (some (ok (v, bytes), (some o, a))) = After p v bytes o.rw
  Handed p (some (ok (v, bytes), (none, a))) = ⊥
  Handed p (some (throw e, s)) = ⊥
  Handed p (some (fault, s)) = Unit
  Handed p none = Unit

module _ {World : Type 0} (texts : Texts) (object : Bytes) (crypto : Crypto) (scan : UrlParser)
    (max_write : ℕ) (small : max_write < 2 ^ 63) where
  read_result-Handed :
      (n : ℕ) (p : Pipeline) (a : Api World) (o : Result Got × Pipeline)
      → Answered p o
      → Bounded n o
      → Goes o.0
      → HandsOut object crypto scan max_write small p o
      → Handed object p
          (some (read_result texts crypto scan max_write (end_checked crypto scan max_write o) a))
  read_result-Handed n p a (fault, q) s b g h = tt
  read_result-Handed n p a (throw e, q) s b g h =
      rw g (s.kept, h.sound, sym h.same, λ z. absurd (failure-pos z))
  read_result-Handed n p a (ok got, q) s b g h = checked_got got.eof got.bytes b.1 h
    where
      checked_got :
          (eof : Bool) (bytes : Bytes)
          → (eof ≡ true) ⊎ (1 ≤ length bytes)
          → HandsOut object crypto scan max_write small p
              (ok (record { bytes = bytes; eof = eof }), q)
          → Handed object p (
              some (
                read_result texts crypto scan max_write
                  (end_checked crypto scan max_write (ok (record { bytes = bytes; eof = eof }), q))
                  a))
      checked_got true bytes some_byte (t, e, d) =
          let z = d refl in
          (s.0.kept, t, z ∙ sym (behind_nil bytes (left object q) (sym e ∙ z)), λ u. z)
      checked_got false bytes (inl wrong) h = absurd (cc)
      checked_got false bytes (inr some_byte) (t, e, d) =
          (s.0.kept, t, e, λ z. absurd (omega (arith, some_byte, ap pos_part z)))

  read_rounds-Handed :
      (n : ℕ) (p : Pipeline) (a : Api World) (o : Option (Result Got × Pipeline))
      → Reads p o
      → BoundedIf n o
      → GoesIf crypto scan max_write o
      → ReadHandsOut object crypto scan max_write small p o
      → Handed object p (
          read_rounds texts crypto scan max_write
            (elim o [ none ↦ none | some x ↦ some (end_checked crypto scan max_write x) ])
            a)
  read_rounds-Handed n p a none s b g h = tt
  read_rounds-Handed n p a (some o) s b g h = read_result-Handed n p a o s b g h

  if-Handed :
      (valid : Bool) (p : Pipeline) (a : Api World)
      (o : Option (Result (ℤ × Bytes) × (Option Object × Api World)))
      → IsSoundPipeline object p
      → Handed object p o
      → Handed object p
          (if valid then o else some (ok (failure, []), (some (as_read p), refused texts a)))
  if-Handed true p a o s h = h
  if-Handed false p a o s h = (refl, s, refl, λ z. absurd (failure-pos z))

  -- A call of `qingstorRead` for an object that is read, with the same conditions as `read`, the
  -- parameters as they may be: the bytes it puts into the array are the next of those that are left,
  -- none if it returns -1, and it returns 0 only when none are left.
  pub read_object-Handed :
      (rs : List Round) (c : Option Configuration) (p : Pipeline) (has_buffer : Bool) (n : ℤ)
      (a : Api World)
      → pos 1 ≤ℤ p.connections
      → IsSoundPipeline object p
      → FitsRounds object crypto scan max_write small rs (pos_part n) p
      → Handed object p
          (read_object texts crypto scan max_write rs c (some (as_read p)) has_buffer n a)
  unfolding read_object get_reader transfer_data
  read_object-Handed rs c p has_buffer n a one s h =
      if-Handed (is_some c && has_buffer && ltb_ℤ (pos 0) n && true) p a _ s (
        read_rounds-Handed (pos_part n) p a (read crypto scan max_write rs (pos_part n) p)
          (read-Reads crypto scan max_write rs (pos_part n) p one)
          (read-bounded crypto scan max_write rs (pos_part n) p)
          (read-Goes crypto scan max_write rs (pos_part n) p)
          (read-HandsOut object crypto scan max_write small rs (pos_part n) p one s h))
