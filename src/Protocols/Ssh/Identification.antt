-- ===== src/Protocols/Ssh/Identification.antt =====
-- The identification that is read does not depend on how the network splits it.
use honey_mind.Base.{
  length, length-append, Bytes, ℕ, ◌+◌, ◌≤◌, ◌<◌, ◌≡◌, refl, sym, ap, ◌∙◌, [], ◌∷◌, ◌++◌,
  append-nil, append_assoc, arith, ltb, if◌then◌else◌, Bool-cases, inl, inr, true, Option, none,
  some,
}
use honey_mind.Base.Text.{split_once}
use honey_mind.Base.Text.Pieces.{lacks, IsSplit, split_once-IsSplit}
use honey_mind.Protocols.Ssh.{
  Scan, scan, incomplete, max_identification_bytes, strip_last, line_found, too_long,
}

-- Scanning on, after a chunk.
abbrev pub resume : Scan → Bytes → Scan
resume (incomplete identification) chunk = scan identification chunk
resume done' chunk = done'

-- Two chunks are scanned as one: after the first, the scan goes on with the second if it has found
-- neither a line nor an excess.
pub scan-append :
    (identification xs ys : Bytes)
    → scan identification (xs ++ ys) ≡ resume (scan identification xs) ys
unfolding scan
scan-append identification [] ys = refl
scan-append identification (x ∷ xs) ys =
    ground (arith, scan-append (identification ++ x ∷ []) xs ys)

strip_last-snoc : (b : ℕ) (xs : Bytes) → strip_last b (xs ++ b ∷ []) ≡ xs
unfolding strip_last
strip_last-snoc b [] = ground arith
strip_last-snoc b (x ∷ []) = ground arith
strip_last-snoc b (x ∷ y ∷ xs) = ap (◌∷◌ x) (strip_last-snoc b (y ∷ xs))

scan_line :
    (identification line rest : Bytes)
    → lacks b'\n' line ≡ true
    → length identification + length line < max_identification_bytes
    → scan identification (line ++ (b'\n' ∷ rest))
      ≡ line_found (strip_last b'\r' (identification ++ line))
unfolding scan
scan_line identification [] rest n h =
    ap (λ t. line_found (strip_last b'\r' t))
      (strip_last-snoc b'\n' identification ∙ sym (append-nil identification))
scan_line identification (b ∷ line) rest n h = ground (
  arith,
  scan_line (identification ++ b ∷ []) line rest,
  length-append identification (b ∷ []),
  append_assoc identification (b ∷ []) line,
)

scan-too_long :
    (identification line : Bytes)
    → lacks b'\n' line ≡ true
    → length identification < max_identification_bytes
    → max_identification_bytes ≤ length identification + length line
    → scan identification line ≡ too_long
unfolding scan
scan-too_long identification [] n h k = absurd (omega arith)
scan-too_long identification (b ∷ line) n h k =
    ground
      (arith, scan-too_long (identification ++ b ∷ []) line, length-append identification (b ∷ []))

scan-incomplete :
    (identification line : Bytes)
    → lacks b'\n' line ≡ true
    → length identification + length line < max_identification_bytes
    → scan identification line ≡ incomplete (identification ++ line)
unfolding scan
scan-incomplete identification [] n h = ap incomplete (sym (append-nil identification))
scan-incomplete identification (b ∷ line) n h = ground (
  arith,
  scan-incomplete (identification ++ b ∷ []) line,
  length-append identification (b ∷ []),
  append_assoc identification (b ∷ []) line,
)

-- The reference: the first line is what stands before the first newline.
abbrev pub scan_of : Bytes → Option (Bytes × Bytes) → Scan
scan_of bytes none =
    if ltb (length bytes) max_identification_bytes then incomplete bytes else too_long
scan_of bytes (some (line, rest)) =
    if ltb (length line) max_identification_bytes
    then line_found (strip_last b'\r' line)
    else too_long

scan_split :
    (bytes : Bytes) (o : Option (Bytes × Bytes))
    → IsSplit b'\n' bytes o
    → scan [] bytes ≡ scan_of bytes o
scan_split bytes none h = elim (Bool-cases (ltb (length bytes) max_identification_bytes)) [
  | inl e ↦ rw e (scan-incomplete [] bytes h (ground arith))
  | inr e ↦ rw e (scan-too_long [] bytes h (omega arith) (ground arith))
]
scan_split bytes (some (line, rest)) h =
    elim (Bool-cases (ltb (length line) max_identification_bytes)) [
      | inl e ↦ rw e (ap (scan []) h.0 ∙ scan_line [] line rest h.1 (ground arith))
      | inr e ↦ rw e (
          ap (scan []) h.0
          ∙ scan-append [] line (b'\n' ∷ rest)
          ∙ ap (λ r. resume r (b'\n' ∷ rest))
              (scan-too_long [] line h.1 (omega arith) (ground arith)))
    ]

-- The scan of an identification by bytes agrees, on every input, with a split at the first newline: a line
-- of at most 254 bytes before it is found, without its last CR, whatever follows; without a newline
-- up to 254 bytes are incomplete; and in every other case the identification is too long.
pub scan-split_once : (bytes : Bytes) → scan [] bytes ≡ scan_of bytes (split_once b'\n' bytes)
scan-split_once bytes = scan_split bytes (split_once b'\n' bytes) (split_once-IsSplit b'\n' bytes)
