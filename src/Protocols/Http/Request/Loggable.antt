-- ===== src/Protocols/Http/Request/Loggable.antt =====
-- What the headers that a request is recorded with can hold: no control byte but the tab.
use honey_mind.Base.Text.{take_chars, trim, trim_start, lowercase, split_once}
use honey_mind.Base.{
  Bool-cases, length, is_empty, all, any, Bytes, Result, ok, err, ℕ, zero, suc, ◌≤◌, ◌<◌, String,
  ◌≡◌, refl, ◌∙◌, inl, inr, Bool, false, not, ◌||◌, Option, none, some, [], ◌∷◌, ◌++◌, arith, ◌>>=◌,
  leb, ◌+◌, List,
}
use mathlib.Core.List.{reverse, reverse-cons}
use honey_mind.Protocols.Http.Request.{
  Fields, header_loop, is_bad_value_byte, named_field, split_field, header_line, token_byte,
  max_header_count, is_blank,
}

-- Texts with no byte that `p` tells.
any-append : (p : ℕ → Bool) (xs ys : Bytes) → any p (xs ++ ys) ≡ (any p xs || any p ys)
any-append p [] ys = refl
any-append p (x ∷ xs) ys = ground (arith, any-append p xs ys)

any-reverse : (p : ℕ → Bool) (xs : Bytes) → any p (reverse xs) ≡ any p xs
any-reverse p [] = refl
any-reverse p (x ∷ xs) = rw (reverse-cons, any-append) (ground (arith, any-reverse p xs))

any-trim_start : (p q : ℕ → Bool) (xs : Bytes) → any p xs ≡ false → any p (trim_start q xs) ≡ false
unfolding trim_start
any-trim_start p q [] h = refl
any-trim_start p q (x ∷ xs) h = ground (arith, any-trim_start p q xs)

any-trim : (p q : ℕ → Bool) (xs : Bytes) → any p xs ≡ false → any p (trim q xs) ≡ false
unfolding trim
any-trim p q xs h =
    any-reverse p (trim_start q (reverse (trim_start q xs)))
    ∙ any-trim_start p q (reverse (trim_start q xs))
        (any-reverse p (trim_start q xs) ∙ any-trim_start p q xs h)

any-take_chars :
    (p : ℕ → Bool) (n : ℕ) (xs : Bytes) → any p xs ≡ false → any p (take_chars n xs) ≡ false
unfolding take_chars
any-take_chars p n [] h = refl
any-take_chars p zero (x ∷ xs) h = ground (arith, any-take_chars p zero xs)
any-take_chars p (suc n) (x ∷ xs) h =
    ground (arith, any-take_chars p n xs, any-take_chars p (suc n) xs)

-- No control byte but the tab.
abbrev pub IsLoggable : Bytes → Type 0
IsLoggable xs = any is_bad_value_byte xs ≡ false

abbrev pub IsHost : Option Bytes → Type 0
IsHost none = Unit {0}
IsHost (some h) = IsLoggable h × (0 < length h) × (length h ≤ 2048)

abbrev pub IsAgent : Option Bytes → Type 0
IsAgent none = Unit {0}
IsAgent (some u) = IsLoggable u

pub record Clean (f : Fields) : Type 0 where
  pub host : IsHost f.host
  pub agent : IsAgent f.user_agent

abbrev pub CleanOk : Result Fields String → Type 0
CleanOk (ok f) = Clean f
CleanOk (err e) = Unit {0}

named_field-Clean :
    (f : Fields) (name value : Bytes)
    → Clean f
    → IsLoggable value
    → CleanOk (named_field f name value)
unfolding named_field
named_field-Clean f name value c h = ground (arith, any-take_chars is_bad_value_byte 1024 value h)

split_field-Clean : (f : Fields) (o : Option (Bytes × Bytes)) → Clean f → CleanOk (split_field f o)
unfolding split_field
split_field-Clean f none c = tt
split_field-Clean f (some (name, value)) c =
    elim (Bool-cases (is_empty name || not (all token_byte name) || any is_bad_value_byte value)) [
      | inl e ↦ rw e tt
      | inr e ↦ rw e (
          named_field-Clean f (lowercase name) (trim is_blank value) c
            (any-trim is_bad_value_byte is_blank value (ground arith)))
    ]

CleanOk->>= :
    (r : Result Fields String) (k : Fields → Result Fields String)
    → CleanOk r
    → ((f : Fields) → Clean f → CleanOk (k f))
    → CleanOk (r >>= k)
CleanOk->>= (ok f) k c h = h f c
CleanOk->>= (err e) k c h = tt

pub header_loop-Clean :
    (lines : List Bytes) (count : ℕ) (f : Fields) → Clean f → CleanOk (header_loop count lines f)
unfolding header_loop header_line
header_loop-Clean [] count f c = c
header_loop-Clean (line ∷ lines) count f c = elim (Bool-cases (is_empty line)) [
  | inl e ↦ rw e c
  | inr e ↦ rw e (elim (Bool-cases (leb max_header_count count)) [
    | inl k ↦ rw k tt
    | inr k ↦ rw k (
        CleanOk->>= (split_field f (split_once b':' line)) _ (split_field-Clean f _ c)
          (header_loop-Clean lines (count + 1)))
  ])
]
