-- ===== src/Protocols/Http/Exchange/Joined.antt =====
-- Lines joined by CR LF, an empty line and what follows it, as `find_end` and `split` see them.
use honey_mind.Protocols.Http.Request.{head_end}
use honey_mind.Base.{
  length, is_empty, All, length-append, Bytes, ℕ, ◌+◌, ◌≡◌, refl, ap, ◌∙◌, true, false, some, List,
  [], ◌∷◌, ◌++◌, arith, starts_with, sym, append_assoc,
}
use honey_mind.Base.Text.{split_lines}
use honey_mind.Base.Text.Pieces.{lacks, split_lines-append}
use honey_mind.Protocols.Http.Request.Framing.{header_lines}
use honey_mind.Protocols.Http.Exchange.{find_end}

unfoldable pub join : List Bytes → Bytes → Bytes
join [] rest = b'\r' ∷ b'\n' ∷ rest
join (line ∷ lines) rest = line ++ b'\r' ∷ b'\n' ∷ join lines rest

-- How many bytes the lines take.
abbrev pub size : List Bytes → ℕ
size [] = 0
size (line ∷ lines) = length line + 2 + size lines

-- A line has a byte, and no CR.
abbrev pub IsLine : Bytes → Type 0
IsLine line = (is_empty line ≡ false) × (lacks b'\r' line ≡ true)

pub split_lines-join :
    (lines : List Bytes) (rest : Bytes)
    → All IsLine lines
    → split_lines (join lines rest) ≡ lines ++ [] ∷ split_lines rest
unfolding join
split_lines-join [] rest h = unfold split_lines in refl
split_lines-join (line ∷ lines) rest h =
    split_lines-append line (join lines rest) h.0.1
    ∙ ap (◌∷◌ line) (split_lines-join lines rest h.1)

pub header_lines-join :
    (lines xs : List Bytes) → All IsLine lines → header_lines (lines ++ [] ∷ xs) ≡ lines
header_lines-join [] xs h = refl
header_lines-join (line ∷ lines) xs h = rw (h.0.0) (ap (◌∷◌ line) (header_lines-join lines xs h.1))

-- A text without CR is passed over.
find_end-append :
    (xs rest : Bytes) (n : ℕ)
    → lacks b'\r' xs ≡ true
    → find_end rest ≡ some n
    → find_end (xs ++ rest) ≡ some (length xs + n)
unfolding find_end
find_end-append [] rest n h e = e ∙ ap some (omega arith)
find_end-append (x ∷ xs) rest n h e = ground (arith, find_end-append xs rest n)

find_end-skip :
    (b : ℕ) (xs : Bytes) (n : ℕ)
    → starts_with head_end (b ∷ xs) ≡ false
    → find_end xs ≡ some n
    → find_end (b ∷ xs) ≡ some (n + 1)
unfolding find_end
find_end-skip b xs n h e = rw (h, e) (ap some (omega arith))

find_end-step :
    (line rest : Bytes) (n : ℕ)
    → IsLine line
    → find_end rest ≡ some n
    → find_end (b'\r' ∷ b'\n' ∷ line ++ rest) ≡ some (length line + n + 1 + 1)
find_end-step [] rest n h e = cc
find_end-step (x ∷ line) rest n h e =
    let found = find_end-append (x ∷ line) rest n h.1 e in
    find_end-skip b'\r' _ _ (ground arith) (find_end-skip b'\n' _ _ refl found)

find_end-next :
    (lines : List Bytes) (rest : Bytes)
    → All IsLine lines
    → find_end (b'\r' ∷ b'\n' ∷ join lines rest) ≡ some (size lines)
unfolding join
find_end-next [] rest h = unfold find_end in refl
find_end-next (line ∷ lines) rest h =
    find_end-step line (b'\r' ∷ b'\n' ∷ join lines rest) (size lines) h.0
      (find_end-next lines rest h.1)
    ∙ ap some (omega arith)

-- The end is found behind the last line.
pub find_end-join :
    (line : Bytes) (lines : List Bytes) (rest : Bytes)
    → All IsLine (line ∷ lines)
    → find_end (join (line ∷ lines) rest) ≡ some (length line + size lines)
unfolding join
find_end-join line lines rest h =
    find_end-append line _ (size lines) h.0.1 (find_end-next lines rest h.1)

pub length-join :
    (lines : List Bytes) (rest : Bytes) → length (join lines rest) ≡ size lines + 2 + length rest
unfolding join
length-join [] rest = omega arith
length-join (line ∷ lines) rest =
    omega (arith, length-append line (b'\r' ∷ b'\n' ∷ join lines rest), length-join lines rest)

pub join-append : (lines : List Bytes) (rest : Bytes) → join lines rest ≡ join lines [] ++ rest
unfolding join
join-append [] rest = refl
join-append (line ∷ lines) rest =
    ap (λ xs. line ++ b'\r' ∷ b'\n' ∷ xs) (join-append lines rest)
    ∙ sym (append_assoc line (b'\r' ∷ b'\n' ∷ join lines []) rest)
