-- ===== src/Protocols/Http/Exchange/HeaderEnd.antt =====
-- The incremental search for the end of the headers finds what a search of all the bytes would.
use honey_mind.Protocols.Http.Request.{head_end}
use honey_mind.Base.{
  option_map, length, drop, Bytes, starts_with, ℕ, suc, ◌+◌, ◌≤◌, ◌≡◌, refl, ap, Option, none, some,
  [], ◌∷◌, ◌++◌, arith, zero, sym, ◌∙◌, ◌<◌, true, Bool-cases, ◌⊎◌, inl, inr, false,
}
use native.Mathlib.Decide.{dec_lt}
use honey_mind.Protocols.Http.Exchange.{find_end, scan_start}

-- Whether four bytes begin a text is decided by its first four.
starts_with-append :
    (p xs ys : Bytes) → length p ≤ length xs → starts_with p (xs ++ ys) ≡ starts_with p xs
starts_with-append [] xs ys h = refl
starts_with-append (b ∷ p) [] ys h = absurd (omega arith)
starts_with-append (b ∷ p) (x ∷ xs) ys h = ground (arith, starts_with-append p xs ys)

shifted :
    (k : ℕ) (o : Option ℕ) → option_map suc (option_map (◌+◌ k) o) ≡ option_map (◌+◌ (suc k)) o
shifted k none = refl
shifted k (some n) = ap some (omega arith)

find_end-skip :
    (b : ℕ) (xs ys : Bytes)
    → find_end (b ∷ xs) ≡ none
    → 3 ≤ length xs
    → (find_end (b ∷ xs ++ ys) ≡ option_map suc (find_end (xs ++ ys))) × (find_end xs ≡ none)
unfolding find_end
find_end-skip b xs ys e h = ground (arith, starts_with-append head_end (b ∷ xs) ys)

unshifted : (o : Option ℕ) → option_map (◌+◌ 0) o ≡ o
unshifted none = refl
unshifted (some n) = ap some (omega arith)

find_end-drop :
    (k : ℕ) (xs ys : Bytes)
    → find_end xs ≡ none
    → k + 3 ≤ length xs
    → find_end (xs ++ ys) ≡ option_map (◌+◌ k) (find_end (drop k (xs ++ ys)))
find_end-drop zero xs ys e h = sym (unshifted (find_end (xs ++ ys)))
find_end-drop (suc k) [] ys e h = absurd (omega arith)
find_end-drop (suc k) (x ∷ xs) ys e h =
    let (found, none_left) = find_end-skip x xs ys e (omega arith) in
    found
    ∙ ap (option_map suc) (find_end-drop k xs ys none_left (omega arith))
    ∙ shifted k (find_end (drop k (xs ++ ys)))

-- While the bytes so far hold no end, the first end in them and a chunk is the first one from three
-- bytes before the chunk on, counted from the start.
pub find_end-incremental :
    (headers chunk : Bytes)
    → find_end headers ≡ none
    → find_end (headers ++ chunk)
      ≡ option_map
          (◌+◌ (scan_start headers))
          (find_end (drop (scan_start headers) (headers ++ chunk)))
find_end-incremental headers chunk e = elim (dec_lt (length headers) 3) [
  | no long ↦ find_end-drop (scan_start headers) headers chunk e (omega arith)
  | yes short ↦
      let start : scan_start headers ≡ 0 = omega arith in
      rw start (sym (unshifted (find_end (headers ++ chunk))))
]

starts_with-le :
    (p xs ys : Bytes)
    → starts_with p xs ≡ true
    → (starts_with p (xs ++ ys) ≡ true) × (length p ≤ length xs)
starts_with-le [] xs ys h = (refl, omega arith)
starts_with-le (b ∷ p) [] ys h = cc
starts_with-le (b ∷ p) (x ∷ xs) ys h = ground (arith, starts_with-le p xs ys)

find_end-cases :
    (b : ℕ) (xs : Bytes)
    → ((starts_with head_end (b ∷ xs) ≡ true) × (find_end (b ∷ xs) ≡ some 0))
      ⊎ ((starts_with head_end (b ∷ xs) ≡ false)
          × (find_end (b ∷ xs) ≡ option_map suc (find_end xs)))
unfolding find_end
find_end-cases b xs = elim (Bool-cases (starts_with head_end (b ∷ xs))) [
  | inl s ↦ inl (s, rw s refl)
  | inr s ↦ inr (s, rw s refl)
]

option_map-some :
    (o : Option ℕ) (i : ℕ) → option_map suc o ≡ some i → (j : ℕ) × (o ≡ some j) × (i ≡ suc j)
option_map-some none i h = absurd (ground arith)
option_map-some (some j) i h = (j, refl, ground arith)

option_map-none : (o : Option ℕ) → option_map suc o ≡ none → o ≡ none
option_map-none none h = refl
option_map-none (some j) h = absurd (ground arith)

-- An end that is found is found again, whatever follows it.
pub find_end-prefix :
    (xs ys : Bytes) (i : ℕ)
    → find_end xs ≡ some i
    → (find_end (xs ++ ys) ≡ some i) × (i + 4 ≤ length xs)
find_end-prefix [] ys i e = unfold find_end in absurd (ground arith)
find_end-prefix (x ∷ xs) ys i e = elim (find_end-cases x xs) [
  | inl (s, z) ↦
      let (again, long) = starts_with-le head_end (x ∷ xs) ys s in
      elim (find_end-cases x (xs ++ ys)) [
        | inl (t, y) ↦ (y ∙ sym z ∙ e, ground (arith, long))
        | inr (t, y) ↦ absurd (cc)
      ]
  | inr (s, z) ↦
      let (j, f, k) = option_map-some (find_end xs) i (sym z ∙ e) in
      let (found, long) = find_end-prefix xs ys j f in
      elim (find_end-cases x (xs ++ ys)) [
        | inl (t, y) ↦ absurd (ground (arith, starts_with-append head_end (x ∷ xs) ys))
        | inr (t, y) ↦ (y ∙ ap (option_map suc) found ∙ ap some (sym k), ground arith)
      ]
]

-- Bytes without an end are too few to hold the one that comes.
pub find_end-none :
    (xs ys : Bytes) (i : ℕ) → find_end xs ≡ none → find_end (xs ++ ys) ≡ some i → length xs < i + 4
find_end-none [] ys i n e = omega arith
find_end-none (x ∷ xs) ys i n e = elim (find_end-cases x xs) [
  | inl (s, z) ↦ absurd (ground arith)
  | inr (s, z) ↦
      let none_left = option_map-none (find_end xs) (sym z ∙ n) in
      elim (find_end-cases x (xs ++ ys)) [
        | inl (t, y) ↦ elim (dec_lt (length xs) 3) [
          | yes short ↦ omega arith
          | no long ↦ absurd (ground (arith, starts_with-append head_end (x ∷ xs) ys))
        ]
        | inr (t, y) ↦
            let (j, f, k) = option_map-some (find_end (xs ++ ys)) i (sym y ∙ e) in
            omega (arith, find_end-none xs ys j none_left f, k)
      ]
]
