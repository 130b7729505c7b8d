-- ===== src/Protocols/Http/Request/Framing.antt =====
-- What `parse_request` accepts is unambiguous: how often the headers that matter can occur.
use honey_mind.Base.Utf8.{from_utf8_lossy}
use honey_mind.Session.State.{SessionEvent}
use honey_mind.Base.{
  if◌then◌else◌, Bool-cases, is_some, is_empty, Bytes, codes, bytes_eq, bytes_eq_iff, Result, ok,
  err, ℕ, ◌+◌, String, ◌≡◌, inl, inr, Bool, true, false, Option, none, some, List, [], ◌∷◌, arith,
  leb, length, all, any, bind-ok, ◌≤◌, sym, subst, not, ◌||◌, ends_with, ◌&&◌,
}
use honey_mind.Base.Text.{split_once, lowercase, trim, split_lines}
use honey_mind.Protocols.Http.Request.{
  host_field, user_agent_field, content_length_field, transfer_encoding_field, Fields, named_field,
  header_loop, split_field, header_line, token_byte, is_bad_value_byte, is_blank, check_fields,
  no_fields, parse_lines, parse_request, request_line, head_end,
}

-- The lines of the headers, up to the first empty one.
abbrev pub header_lines : List Bytes → List Bytes
header_lines [] = []
header_lines (line ∷ lines) = if is_empty line then [] else line ∷ header_lines lines

-- The headers of a request: what follows its first line.
abbrev pub headers_in : List Bytes → List Bytes
headers_in [] = []
headers_in (line ∷ lines) = header_lines lines

abbrev tally : Bool → ℕ
tally true = 1
tally false = 0

abbrev named : Bytes → Option (Bytes × Bytes) → Bool
named key none = false
named key (some (name, value)) = bytes_eq (lowercase name) key

-- How many of the lines have the name `key` before their first colon, in any case.
abbrev pub occurrences : Bytes → List Bytes → ℕ
occurrences key [] = 0
occurrences key (line ∷ lines) = tally (named key (split_once b':' line)) + occurrences key lines

-- What `n key` headers of each name add to the fields that may be set once.
abbrev Gains : Fields → Fields → (Bytes → ℕ) → Type 0
Gains f g n =
    (tally (is_some g.host) ≡ n (codes "host") + tally (is_some f.host))
    × (tally (is_some g.content_length)
        ≡ n (codes "content-length") + tally (is_some f.content_length))
    × (tally g.transfer_encoding ≡ n (codes "transfer-encoding") + tally f.transfer_encoding)

abbrev Adds : Fields → Bytes → Result Fields String → Type 0
Adds f name (err e) = Unit {0}
Adds f name (ok g) = Gains f g (λ key. tally (bytes_eq name key))

host-Adds : (f : Fields) (v : Bytes) → Adds f (codes "host") (host_field f v)
unfolding host_field
host-Adds f v = ground arith

agent-Adds : (f : Fields) (v : Bytes) → Adds f (codes "user-agent") (user_agent_field f v)
unfolding user_agent_field
agent-Adds f v = ground arith

length-Adds : (f : Fields) (v : Bytes) → Adds f (codes "content-length") (content_length_field f v)
unfolding content_length_field
length-Adds f v = ground arith

encoding-Adds :
    (f : Fields) (v : Bytes) → Adds f (codes "transfer-encoding") (transfer_encoding_field f v)
unfolding transfer_encoding_field
encoding-Adds f v = ground arith

named_as :
    (f : Fields) (v n key : Bytes)
    → bytes_eq n key ≡ true
    → Adds f key (named_field f key v)
    → Adds f n (named_field f n v)
named_as f v n key e h =
    subst (λ (x : Bytes). Adds f x (named_field f x v)) (sym ((bytes_eq_iff n key).0 e)) h

named_field-Adds : (f : Fields) (n v : Bytes) → Adds f n (named_field f n v)
unfolding named_field
named_field-Adds f n v = elim (Bool-cases (bytes_eq n (codes "host"))) [
  | inl e ↦ named_as f v n (codes "host") e (host-Adds f v)
  | inr e ↦ elim (Bool-cases (bytes_eq n (codes "user-agent"))) [
    | inl k ↦ named_as f v n (codes "user-agent") k (agent-Adds f v)
    | inr k ↦ elim (Bool-cases (bytes_eq n (codes "content-length"))) [
      | inl l ↦ named_as f v n (codes "content-length") l (length-Adds f v)
      | inr l ↦ elim (Bool-cases (bytes_eq n (codes "transfer-encoding"))) [
        | inl t ↦ named_as f v n (codes "transfer-encoding") t (encoding-Adds f v)
        | inr t ↦ rw (e, k, l, t) (ground arith)
      ]
    ]
  ]
]

err-ne-ok {ℓ} : {A : Type ℓ} {x : String} {g : A} → err x ≡ ok g → ⊥
err-ne-ok h = ground arith

split_field-Adds :
    (f g : Fields) (o : Option (Bytes × Bytes))
    → split_field f o ≡ ok g
    → Gains f g (λ key. tally (named key o))
unfolding split_field
split_field-Adds f g none h = absurd (ground arith)
split_field-Adds f g (some (n, v)) h =
    elim (Bool-cases (is_empty n || not (all token_byte n) || any is_bad_value_byte v)) [
      | inl e ↦ absurd (err-ne-ok (rw e at h))
      | inr e ↦
          let k : named_field f (lowercase n) (trim is_blank v) ≡ ok g = rw e at h in
          subst (Adds f (lowercase n)) k (named_field-Adds f (lowercase n) (trim is_blank v))
    ]

loop-Gains :
    (lines : List Bytes) (count : ℕ) (f g : Fields)
    → header_loop count lines f ≡ ok g
    → count ≤ 64
    → (count + length (header_lines lines) ≤ 64)
      × Gains f g (λ key. occurrences key (header_lines lines))
unfolding header_loop header_line
loop-Gains [] count f g h c = ground arith
loop-Gains (line ∷ lines) count f g h c = elim (Bool-cases (is_empty line)) [
  | inl e ↦ rw e (let same : ok f ≡ ok g = rw e at h in ground arith)
  | inr e ↦ elim (Bool-cases (leb 64 count)) [
    | inl k ↦ absurd (err-ne-ok (rw (e, k) at h))
    | inr k ↦
        let (f', one, rest) = bind-ok (header_line f line) _ g (rw (e, k) at h) in
        let (few, more) = loop-Gains lines (count + 1) f' g rest (ground arith) in
        let first = split_field-Adds f f' (split_once b':' line) one in rw e (ground arith)
  ]
]

-- At most 64 headers, one host, and one header about the framing of a body.
abbrev pub IsUnambiguous : List Bytes → Type 0
IsUnambiguous lines =
    (length lines ≤ 64)
    × (occurrences (codes "host") lines ≤ 1)
    × (occurrences (codes "content-length") lines + occurrences (codes "transfer-encoding") lines
        ≤ 1)

check_fields-framing :
    (v : Bytes) (f g : Fields)
    → check_fields v f ≡ ok g
    → (f.transfer_encoding && is_some f.content_length) ≡ false
unfolding check_fields
check_fields-framing v f g h = ground arith

loop-IsUnambiguous :
    (v : Bytes) (lines : List Bytes) (f g : Fields)
    → header_loop 0 lines no_fields ≡ ok f
    → check_fields v f ≡ ok g
    → IsUnambiguous (header_lines lines)
loop-IsUnambiguous v lines f g h c =
    let (few, adds) = loop-Gains lines 0 no_fields f h (omega arith) in
    let framing = check_fields-framing v f g c in ground arith

parse_lines-IsUnambiguous :
    (lines : List Bytes) (e : SessionEvent)
    → parse_lines lines ≡ ok e
    → IsUnambiguous (headers_in lines)
unfolding parse_lines
parse_lines-IsUnambiguous [] e h = ground arith
parse_lines-IsUnambiguous (line ∷ lines) e h =
    let (r, a, b) = bind-ok (request_line line) _ e h in
    let (f, c, d) = bind-ok (header_loop 0 lines no_fields) _ e b in
    let (g, k, l) = bind-ok (check_fields r.2 f) _ e d in loop-IsUnambiguous r.2 lines f g c k

-- Whatever bytes a client sends, an accepted request leaves no doubt about where it ends and whom it
-- is for: among its headers, which are the lines between the first one and the first empty one, there
-- are at most 64, at most one names the host, and at most one of them all names a content length or a
-- transfer encoding, in any case of the letters.
pub parse_request-IsUnambiguous :
    (bytes : Bytes) (e : SessionEvent)
    → parse_request bytes ≡ ok e
    → IsUnambiguous (headers_in (split_lines (from_utf8_lossy bytes)))
unfolding parse_request
parse_request-IsUnambiguous bytes e h = elim (Bool-cases (ends_with head_end bytes)) [
  | inl k ↦ parse_lines-IsUnambiguous (split_lines (from_utf8_lossy bytes)) e (rw k at h)
  | inr k ↦ absurd (err-ne-ok (rw k at h))
]
