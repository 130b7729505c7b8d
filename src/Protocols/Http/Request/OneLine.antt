-- ===== src/Protocols/Http/Request/OneLine.antt =====
-- The request line as a client writes it, through `split` and the checks of `parse_request`.
use honey_mind.Protocols.Http.Request.OneHeader.{token_byte_lem}
use honey_mind.Protocols.Http.Request.Printed.{print_line}
use honey_mind.Base.{
  ltb, within, all, Bytes, ok, ◌≡◌, refl, ap, ◌∙◌, inl, inr, true, false, [], ◌∷◌, arith, length,
  is_empty, ◌<◌, ℕ, Bool,
}
use honey_mind.Base.Text.{split_at_byte}
use honey_mind.Base.Text.Pieces.{
  all_of_all, split_at_byte-append, split_at_byte-last, lacks, all-append,
}
use honey_mind.Protocols.Http.Request.Sound.{IsRequestLine}
use honey_mind.Protocols.Http.Request.{
  check_line, request_parts, is_bad_line, is_bad_target, is_known_version, request_line, token_byte,
}

nonempty_lem : (xs : Bytes) → 0 < length xs → is_empty xs ≡ false
nonempty_lem [] h = elim h [ ]
nonempty_lem (x ∷ xs) h = refl

module _ (m p v : Bytes) (l : IsRequestLine m p v) where
  method_lacks : lacks b' ' m ≡ true
  method_lacks = all_of_all token_byte _ m (λ b t. (token_byte_lem b t).1) l.method_token

  path_lacks : lacks b' ' p ≡ true
  path_lacks = all_of_all (within 0x21 0x7e) _ p (λ b t. ground arith) l.path_visible

  version_lacks : lacks b' ' v ≡ true
  version_lacks = elim (l.version_known) [ inl e ↦ rw e refl | inr e ↦ rw e refl ]

  split_print_line : split_at_byte b' ' (print_line m p v) ≡ m ∷ p ∷ v ∷ []
  unfolding print_line
  split_print_line =
      split_at_byte-append b' ' m _ method_lacks
      ∙ ap (◌∷◌ m) (
          split_at_byte-append b' ' p v path_lacks
          ∙ ap (◌∷◌ p) (split_at_byte-last b' ' v version_lacks))

  line_good : is_bad_line false m ≡ false
  line_good = ground (arith, l.method_some, l.method_short, l.method_token)

  version_good : is_known_version v ≡ true
  version_good = elim (l.version_known) [ inl e ↦ rw e refl | inr e ↦ rw e refl ]

  target_good : is_bad_target m p ≡ false
  target_good = elim (l.path_origin) [
    | inl s ↦ rw (nonempty_lem p l.path_some, s, l.path_visible) refl
    | inr (x, y) ↦ rw (x, y) refl
  ]

  pub request_line-print : request_line (print_line m p v) ≡ ok (m, p, v)
  unfolding request_line request_parts check_line
  request_line-print = rw (split_print_line, line_good, version_good, target_good) refl

  -- A test that a blank and every byte of the three parts passes.
  line_all :
      (q : ℕ → Bool)
      → q b' ' ≡ true
      → all q m ≡ true
      → all q p ≡ true
      → all q v ≡ true
      → all q (print_line m p v) ≡ true
  unfolding print_line
  line_all q a b c d = all-append q m _ ∙ ground (arith, all-append q p (b' ' ∷ v))

  pub line_lacks_cr : lacks b'\r' (print_line m p v) ≡ true
  line_lacks_cr =
      line_all _ refl (all_of_all token_byte _ m (λ b t. (token_byte_lem b t).0) l.method_token)
        (all_of_all (within 0x21 0x7e) _ p (λ b t. ground arith) l.path_visible)
        (elim (l.version_known) [ inl e ↦ rw e refl | inr e ↦ rw e refl ])

  pub line_ascii : all (λ b. ltb b 0x80) (print_line m p v) ≡ true
  line_ascii =
      line_all _ refl (all_of_all token_byte _ m (λ b t. (token_byte_lem b t).3) l.method_token)
        (all_of_all (within 0x21 0x7e) _ p (λ b t. ground arith) l.path_visible)
        (elim (l.version_known) [ inl e ↦ rw e refl | inr e ↦ rw e refl ])
