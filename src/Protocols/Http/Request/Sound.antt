-- ===== src/Protocols/Http/Request/Sound.antt =====
-- What an accepted request holds: texts that are safe to print on a line of a log.
use honey_mind.Protocols.Http.Request.Loggable.{Clean, CleanOk, IsHost, header_loop-Clean, IsAgent}
use honey_mind.Base.Utf8.{from_utf8_lossy}
use honey_mind.Session.State.{SessionEvent, http_request}
use honey_mind.Base.Text.{split_lines, split_at_byte}
use honey_mind.Base.{
  Bool-cases, length, is_empty, all, Bytes, Result, ok, err, ◌≤◌, ◌<◌, String, ◌≡◌, inl, inr, Bool,
  false, not, ◌||◌, [], ◌∷◌, arith, ◌>>=◌, List, within, codes, bytes_eq, bytes_eq_iff, starts_with,
  ◌⊎◌, true, ◌&&◌, ltb, is_some, ends_with, subst,
}
use honey_mind.Protocols.Http.Request.{
  Fields, header_loop, token_byte, is_bad_target, is_known_version, is_bad_line, check_line,
  check_fields, no_fields, parse_lines, parse_request, head_end, request_line, is_http_1_1,
  request_parts,
}

-- The request line that is accepted: method, path and version.
pub record IsRequestLine (method path version : Bytes) : Type 0 where
  pub method_some : 0 < length method
  pub method_short : length method ≤ 32
  pub method_token : all token_byte method ≡ true
  pub version_known : (version ≡ codes "HTTP/1.0") ⊎ (version ≡ codes "HTTP/1.1")
  pub path_some : 0 < length path
  pub path_visible : all (within 0x21 0x7e) path ≡ true
  pub path_origin :
      (starts_with (codes "/") path ≡ true) ⊎ ((method ≡ codes "OPTIONS") × (path ≡ codes "*"))

not_empty : (xs : Bytes) → is_empty xs ≡ false → 0 < length xs
not_empty [] h = cc
not_empty (x ∷ xs) h = omega arith

known_version :
    (v : Bytes) → is_known_version v ≡ true → (v ≡ codes "HTTP/1.0") ⊎ (v ≡ codes "HTTP/1.1")
known_version v h = elim (Bool-cases (bytes_eq v (codes "HTTP/1.0"))) [
  | inl e ↦ inl ((bytes_eq_iff v _).0 e)
  | inr e ↦ inr ((bytes_eq_iff v _).0 (rw e at h))
]

target_tests :
    (a b c d e : Bool)
    → (a || not (b || c && d) || not e) ≡ false
    → (a ≡ false) × (e ≡ true) × ((b ≡ true) ⊎ ((c ≡ true) × (d ≡ true)))
target_tests a b c d e h = ground arith

origin :
    (m p : Bytes) (b : Bool)
    → (b ≡ true) ⊎ ((bytes_eq m (codes "OPTIONS") ≡ true) × (bytes_eq p (codes "*") ≡ true))
    → (b ≡ true) ⊎ ((m ≡ codes "OPTIONS") × (p ≡ codes "*"))
origin m p b (inl h) = inl h
origin m p b (inr (x, y)) = inr ((bytes_eq_iff m _).0 x, (bytes_eq_iff p _).0 y)

IsLine : Result (Bytes × Bytes × Bytes) String → Type 0
IsLine (ok (m, p, v)) = IsRequestLine m p v
IsLine (err e) = Unit {0}

line_tests :
    (a b c d : Bool) → (a || b || c || not d) ≡ false → (b ≡ false) × (c ≡ false) × (d ≡ true)
line_tests a b c d h = ground arith

line_sound :
    (m p v : Bytes) (more : Bool)
    → is_bad_line more m ≡ false
    → is_known_version v ≡ true
    → is_bad_target m p ≡ false
    → IsRequestLine m p v
line_sound m p v more a b c =
    let (some_method, short, token) = line_tests more (is_empty m) (ltb 32 (length m)) _ a in
    let (full, visible, start) = target_tests (is_empty p) _ _ _ _ c in
    record {
      method_some = not_empty m some_method;
      method_short = ground arith;
      method_token = token;
      version_known = known_version v b;
      path_some = not_empty p full;
      path_visible = visible;
      path_origin = origin m p _ start;
    }

check_line_sound : (m p v : Bytes) (more : Bool) → IsLine (check_line (m, p, v, more))
unfolding check_line IsLine
check_line_sound m p v more = elim (Bool-cases (is_bad_line more m)) [
  | inl e ↦ rw e tt
  | inr e ↦ rw e (elim (Bool-cases (is_known_version v)) [
    | inl k ↦ rw k (elim (Bool-cases (is_bad_target m p)) [
      | inl q ↦ rw q tt
      | inr q ↦ rw q (line_sound m p v more e k q)
    ])
    | inr k ↦ rw k tt
  ])
]

-- What is recorded of an accepted request.
abbrev pub IsAccepted : SessionEvent → Type 0
IsAccepted (http_request m p v h u) =
    IsRequestLine m p v × IsHost h × IsAgent u × ((not (is_http_1_1 v) || is_some h) ≡ true)
IsAccepted _ = ⊥

Accepts : Result SessionEvent String → Type 0
Accepts (ok e) = IsAccepted e
Accepts (err e) = Unit {0}

host_tests : (a b : Bool) → not (a && not b) ≡ true → (not a || b) ≡ true
host_tests a b h = ground arith

checked_sound :
    (m p v : Bytes) (f : Fields)
    → IsRequestLine m p v
    → Clean f
    → Accepts (check_fields v f >>= λ g. ok (http_request m p v g.host g.user_agent))
unfolding check_fields Accepts
checked_sound m p v f l c = elim (Bool-cases (not (is_http_1_1 v && not (is_some f.host)))) [
  | inr e ↦ rw e tt
  | inl e ↦ rw e (elim (Bool-cases (not (f.transfer_encoding && is_some f.content_length))) [
    | inr k ↦ rw k tt
    | inl k ↦ rw k (l, c.host, c.agent, host_tests _ _ e)
  ])
]

fields_sound :
    (m p v : Bytes) (q : Result Fields String)
    → IsRequestLine m p v
    → CleanOk q
    → Accepts (q >>= λ f. check_fields v f >>= λ g. ok (http_request m p v g.host g.user_agent))
unfolding Accepts
fields_sound m p v (ok f) l c = checked_sound m p v f l c
fields_sound m p v (err e) l c = tt

rest_sound :
    (lines : List Bytes) (r : Result (Bytes × Bytes × Bytes) String)
    → IsLine r
    → Accepts (
        r >>= λ (r' : Bytes × Bytes × Bytes). header_loop 0 lines no_fields >>= λ f.
        check_fields r'.2 f >>= λ g. ok (http_request r'.0 r'.1 r'.2 g.host g.user_agent))
unfolding IsLine Accepts
rest_sound lines (err e) h = tt
rest_sound lines (ok (m, p, v)) h =
    fields_sound m p v (header_loop 0 lines no_fields) h
      (header_loop-Clean lines 0 no_fields (record { host = tt; agent = tt }))

request-IsLine_sound :
    (r : Result (Bytes × Bytes × Bytes × Bool) String) → IsLine (r >>= check_line)
unfolding IsLine
request-IsLine_sound (ok (m, p, v, more)) = check_line_sound m p v more
request-IsLine_sound (err e) = tt

parse_lines_sound : (lines : List Bytes) → Accepts (parse_lines lines)
unfolding parse_lines request_line Accepts
parse_lines_sound [] = tt
parse_lines_sound (line ∷ lines) =
    rest_sound lines _ (request-IsLine_sound (request_parts (split_at_byte b' ' line)))

request_sound : (bytes : Bytes) → Accepts (parse_request bytes)
unfolding parse_request Accepts
request_sound bytes = elim (Bool-cases (ends_with head_end bytes)) [
  | inr k ↦ rw k tt
  | inl k ↦ rw k (parse_lines_sound (split_lines (from_utf8_lossy bytes)))
]

-- Whatever bytes a client sends, an accepted request has a method of 1 to 32 token bytes, version 1.0
-- or 1.1, and a path of visible ASCII that starts with a slash, or is the asterisk of OPTIONS. Its
-- host, which version 1.1 must have, is of 1 to 2048 bytes. The host and the user agent have no
-- control byte but the tab.
pub parse_request-IsAccepted :
    (bytes : Bytes) (e : SessionEvent) → parse_request bytes ≡ ok e → IsAccepted e
unfolding Accepts
parse_request-IsAccepted bytes e h = subst Accepts h (request_sound bytes)
