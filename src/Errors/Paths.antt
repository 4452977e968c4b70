-- ===== src/Errors/Paths.antt =====
-- `SkipPathPrefix` (src/ExceptionInternal.h) cuts the directories off a file's name.
use qing_stor_c_sdk.Prelude.{
  ℕ, ◌≡◌, ap, [], ◌∷◌, ◌++◌, Bytes, Option, none, some, ◌==◌, inl, inr, Bool-cases, if◌then◌else◌,
  arith, Lacks,
}
use qing_stor_c_sdk.Errors.Messages.{after_last_slash, skip_path_prefix}

-- What is behind the last slash of a text, if it has one.
abbrev pub Cut : Bytes → Option Bytes → Type 0
Cut text none = Lacks b'/' text
Cut text (some rest) = (dir : Bytes) × (text ≡ dir ++ (b'/' ∷ rest)) × Lacks b'/' rest

Cut-cons :
    (c : ℕ) (cs : Bytes) (o : Option Bytes)
    → Cut cs o
    → Cut (c ∷ cs) (elim o [ some rest ↦ some rest | none ↦ if c == b'/' then some cs else none ])
Cut-cons c cs (some rest) (dir, e, l) = (c ∷ dir, ap (λ t. c ∷ t) e, l)
Cut-cons c cs none l = elim (Bool-cases (c == b'/')) [
  | inl e ↦ rw e ([], ap (λ d. d ∷ cs) (ground (arith, e)), l)
  | inr e ↦ rw e (λ d. ground (arith, e), l)
]

after_last_slash-Cut : (text : Bytes) → Cut text (after_last_slash text)
after_last_slash-Cut [] = tt
after_last_slash-Cut (c ∷ cs) = Cut-cons c cs (after_last_slash cs) (after_last_slash-Cut cs)

-- Of a file's name with at least one byte, `SkipPathPrefix` gives what is behind the last slash that
-- is not its first byte; it has none, and then an assertion fails, just if there is no such slash.
pub skip_path_prefix-Cut : (c : ℕ) (cs : Bytes) → Cut cs (skip_path_prefix (c ∷ cs))
unfolding skip_path_prefix
skip_path_prefix-Cut c cs = after_last_slash-Cut cs
