-- ===== src/Session/Capture.antt =====
-- What the capture of a session's bytes comes to, however the network splits them.
use honey_mind.Config.Schema.{full}
use honey_mind.Base.{
  length, take, Bytes, ℕ, zero, suc, ◌-◌, min, ◌≡◌, ap, List, [], ◌∷◌, ◌++◌, ◌∙◌, arith, ltb,
  length-append, length-take, ◌<◌, refl, Bool, ◌&&◌, append-nil, append_assoc, take-nil, sym,
}
use honey_mind.Session.State.{
  SessionState, record_bytes, u64_max, SessionRecord, finalize, CloseReason, ascii_preview,
}

-- The bytes of all chunks.
abbrev pub joined : List Bytes → Bytes
joined [] = []
joined (c ∷ cs) = c ++ joined cs

pub record_all : SessionState → List Bytes → SessionState
record_all s [] = s
record_all s (c ∷ cs) = record_all (record_bytes s c) cs

take-min : (n : ℕ) (ys : Bytes) → take (min n (length ys)) ys ≡ take n ys
take-min zero ys = let shape : min 0 (length ys) ≡ 0 = omega arith in ap (λ k. take k ys) shape
take-min (suc n) [] = let shape : min (suc n) 0 ≡ 0 = omega arith in ap (λ k. take k []) shape
take-min (suc n) (y ∷ ys) =
    let shape : min (suc n) (suc (length ys)) ≡ suc (min n (length ys)) = omega arith in
    ap (λ k. take k (y ∷ ys)) shape ∙ ap (◌∷◌ y) (take-min n ys)

take_room :
    (n : ℕ) (xs ys : Bytes) → take n xs ++ take (n - length (take n xs)) ys ≡ take n (xs ++ ys)
take_room zero xs ys = refl
take_room (suc n) [] ys = let shape : suc n - 0 ≡ suc n = omega arith in ap (λ k. take k ys) shape
take_room (suc n) (x ∷ xs) ys =
    let shape : suc n - suc (length (take n xs)) ≡ n - length (take n xs) = omega arith in
    ap (◌∷◌ x) (ap (λ k. take n xs ++ take k ys) shape ∙ take_room n xs ys)

-- Filling up with what there is room for keeps a prefix of the whole.
take-append :
    (n : ℕ) (xs ys : Bytes)
    → take n xs ++ take (min (n - length (take n xs)) (length ys)) ys ≡ take n (xs ++ ys)
take-append n xs ys =
    ap (λ t. take n xs ++ t) (take-min (n - length (take n xs)) ys) ∙ take_room n xs ys

-- The state after the bytes `xs`, captured in full mode.
record Captures (s : SessionState) (xs : Bytes) : Type 0 where
  mode : s.privacy.mode ≡ full
  preview : s.preview ≡ take s.preview_limit xs
  counted : s.bytes_received ≡ min (length xs) u64_max

record_bytes-Captures :
    (s : SessionState) (xs bytes : Bytes)
    → Captures s xs
    → Captures (record_bytes s bytes) (xs ++ bytes)
unfolding record_bytes
record_bytes-Captures s xs bytes k = record {
  mode = ground arith;
  preview = ground (arith, take-append s.preview_limit xs bytes);
  counted = ground (arith, length-append xs bytes);
}

record_all-Captures :
    (s : SessionState) (xs : Bytes) (cs : List Bytes)
    → Captures s xs
    → Captures (record_all s cs) (xs ++ joined cs)
unfolding record_all
record_all-Captures s xs [] k = rw append-nil k
record_all-Captures s xs (c ∷ cs) k =
    rw (← append_assoc)
      (record_all-Captures (record_bytes s c) (xs ++ c) cs (record_bytes-Captures s xs c k))

record_bytes-preview_limit :
    (s : SessionState) (c : Bytes) → (record_bytes s c).preview_limit ≡ s.preview_limit
unfolding record_bytes
record_bytes-preview_limit s c = ground arith

record_all-preview_limit :
    (s : SessionState) (cs : List Bytes) → (record_all s cs).preview_limit ≡ s.preview_limit
unfolding record_all
record_all-preview_limit s [] = refl
record_all-preview_limit s (c ∷ cs) =
    record_all-preview_limit (record_bytes s c) cs ∙ record_bytes-preview_limit s c

-- The part of a record that tells of the payload.
abbrev pub capture_of : SessionRecord → Bytes × ℕ × Bool
capture_of r = (r.data_preview_ascii, r.bytes_received, r.bytes_truncated)

-- In full mode the record of a new session shows the first `preview_limit` bytes of what the peer
-- sent, with a dot for each byte that is not printable, and how many bytes came, at most
-- `u64::MAX`. It is marked truncated exactly when the limit is positive and more bytes came than
-- it allows. The chunks in which the bytes came make no difference. The limit is below `u64::MAX`.
pub finalize-record_all :
    (hex_encode : Bytes → Bytes) (s : SessionState) (cs : List Bytes) (reason : CloseReason)
    (now : ℕ)
    → s.privacy.mode ≡ full
    → s.preview ≡ []
    → s.bytes_received ≡ 0
    → s.preview_limit < u64_max
    → capture_of (finalize hex_encode (record_all s cs) reason now) ≡ (
      ascii_preview (take s.preview_limit (joined cs)),
      min (length (joined cs)) u64_max,
      ltb 0 s.preview_limit && ltb s.preview_limit (length (joined cs)),
    )
unfolding finalize
finalize-record_all hex_encode s cs reason now m p b h =
    let start : Captures s [] = record {
      mode = m;
      preview = p ∙ sym (take-nil s.preview_limit);
      counted = b;
    } in
    let k = record_all-Captures s [] cs start in
    ground (
      arith,
      k.mode,
      k.preview,
      k.counted,
      record_all-preview_limit s cs,
      length-take s.preview_limit (joined cs),
    )
