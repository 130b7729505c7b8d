-- ===== src/Base/Text/Pieces.antt =====
-- What `split`, `split_once` and `trim_matches` give on texts that are joined from pieces.
use honey_mind.Base.{ap, false}
use honey_mind.Base.Text.{split_at_byte, split_lines, split_once, onto_pair}
use honey_mind.Base.Lists.{Bytes, all, ends_with}
use honey_mind.Base.Tests.{◌==◌, ==_iff, Bool-cases}
use mathlib.Core.Logic.{inl, inr}
use Prim.Native.Nat.{ℕ}
use mathlib.Core.Bool.{Bool, true, not, ◌&&◌}
use mathlib.Core.List.{[], ◌∷◌, ◌++◌}
use mathlib.Core.Option.{Option, none, some}
use mathlib.Core.Path.{◌≡◌, refl}
use native.Mathlib.Omega.{arith}

-- No byte of the text is `s`.
abbrev pub lacks : ℕ → Bytes → Bool
lacks s = all (λ b. not (b == s))

pub all-append : (p : ℕ → Bool) (xs ys : Bytes) → all p (xs ++ ys) ≡ (all p xs && all p ys)
all-append p [] ys = refl
all-append p (x ∷ xs) ys = ground (arith, all-append p xs ys)

pub all_of_all :
    (p q : ℕ → Bool) (xs : Bytes)
    → ((b : ℕ) → p b ≡ true → q b ≡ true)
    → all p xs ≡ true
    → all q xs ≡ true
all_of_all p q [] h a = refl
all_of_all p q (x ∷ xs) h a = ground (arith, h x, all_of_all p q xs h)

pub split_at_byte-append :
    (s : ℕ) (xs rest : Bytes)
    → lacks s xs ≡ true
    → split_at_byte s (xs ++ s ∷ rest) ≡ xs ∷ split_at_byte s rest
unfolding split_at_byte
split_at_byte-append s [] rest h = ground arith
split_at_byte-append s (x ∷ xs) rest h = ground (arith, split_at_byte-append s xs rest)

pub split_at_byte-last : (s : ℕ) (xs : Bytes) → lacks s xs ≡ true → split_at_byte s xs ≡ xs ∷ []
unfolding split_at_byte
split_at_byte-last s [] h = refl
split_at_byte-last s (x ∷ xs) h = ground (arith, split_at_byte-last s xs)

pub split_once-append :
    (s : ℕ) (xs rest : Bytes) → lacks s xs ≡ true → split_once s (xs ++ s ∷ rest) ≡ some (xs, rest)
unfolding split_once
split_once-append s [] rest h = ground arith
split_once-append s (x ∷ xs) rest h = ground (arith, split_once-append s xs rest)

pub split_lines-append :
    (xs rest : Bytes)
    → lacks b'\r' xs ≡ true
    → split_lines (xs ++ b'\r' ∷ b'\n' ∷ rest) ≡ xs ∷ split_lines rest
unfolding split_lines
split_lines-append [] rest h = refl
split_lines-append (x ∷ []) rest h = ground arith
split_lines-append (x ∷ y ∷ xs) rest h = ground (arith, split_lines-append (y ∷ xs) rest)

pub ends_with-append : (s xs ys : Bytes) → ends_with s ys ≡ true → ends_with s (xs ++ ys) ≡ true
ends_with-append s [] ys h = h
ends_with-append s (x ∷ xs) ys h = ground (arith, ends_with-append s xs ys)

-- What `split_once` finds, and what it means that it finds nothing.
abbrev pub IsSplit : ℕ → Bytes → Option (Bytes × Bytes) → Type 0
IsSplit s bytes none = lacks s bytes ≡ true
IsSplit s bytes (some (xs, rest)) = (bytes ≡ xs ++ s ∷ rest) × (lacks s xs ≡ true)

IsSplit-onto_pair :
    (s b : ℕ) (bytes : Bytes) (o : Option (Bytes × Bytes))
    → (b == s) ≡ false
    → IsSplit s bytes o
    → IsSplit s (b ∷ bytes) (onto_pair b o)
IsSplit-onto_pair s b bytes none e h = ground arith
IsSplit-onto_pair s b bytes (some (xs, rest)) e h = (ap (◌∷◌ b) h.0, ground arith)

pub split_once-IsSplit : (s : ℕ) (bytes : Bytes) → IsSplit s bytes (split_once s bytes)
unfolding split_once
split_once-IsSplit s [] = refl
split_once-IsSplit s (b ∷ bytes) = elim (Bool-cases (b == s)) [
  | inl e ↦ rw e (ap (λ x. x ∷ bytes) ((==_iff b s).0 e), refl)
  | inr e ↦ rw e (IsSplit-onto_pair s b bytes (split_once s bytes) e (split_once-IsSplit s bytes))
]
