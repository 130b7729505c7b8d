-- ===== src/Protocols/Http/Request/OneHeader.antt =====
-- One header as a client writes it, through one turn of the loop of `parse_request`.
use honey_mind.Base.Text.{trim, take_chars, split_once, lowercase}
use honey_mind.Protocols.Http.Request.Printed.{
  Header, IsHeader, value_of, print_header, is_named, IsOnlyHost,
}
use honey_mind.Base.{
  ltb, ◌==◌, ℕ, ◌≡◌, true, not, arith, option_map, length, Bytes, codes, ok, ◌≤◌, ◌<◌, refl, ◌⊎◌,
  Option, none, some, List, ◌∷◌, is_empty, bytes_eq, false, [], inl, inr, Bool-cases, bytes_eq_iff,
}
use honey_mind.Base.Text.Pieces.{all_of_all, split_once-append}
use honey_mind.Protocols.Http.Request.{
  token_byte, Fields, header_line, named_field, is_blank, split_field,
}

pub token_byte_lem :
    (b : ℕ)
    → token_byte b ≡ true
    → (not (b == b'\r') ≡ true)
      × (not (b == b' ') ≡ true)
      × (not (b == b':') ≡ true)
      × (ltb b 0x80 ≡ true)
unfolding token_byte
token_byte_lem b h = ground arith

-- The first of two values that is there.
abbrev pub or_else {ℓ} : {A : Type ℓ} → Option A → Option A → Option A
or_else none o = o
or_else (some a) o = some a

or_else-none {ℓ} : {A : Type ℓ} (o : Option A) → or_else o none ≡ o
or_else-none none = refl
or_else-none (some a) = refl

-- What the loop keeps after the headers.
abbrev pub after : Fields → List Header → Fields
after f headers = record f {
  host = or_else f.host (value_of (codes "host") headers);
  user_agent =
      or_else f.user_agent (option_map (take_chars 1024) (value_of (codes "user-agent") headers));
}

-- A host in hand rules out a further one.
abbrev pub HostLeft : Fields → List Header → Type 0
HostLeft f headers = (f.host ≡ none) ⊎ (value_of (codes "host") headers ≡ none)

split_print_header :
    (h : Header) → IsHeader h → split_once b':' (print_header h) ≡ some (h.0, b' ' ∷ h.1)
split_print_header h k =
    split_once-append b':' h.0 (b' ' ∷ h.1)
      (all_of_all token_byte _ h.0 (λ b t. (token_byte_lem b t).2) k.name_token)

trim_blank : (v : Bytes) → trim is_blank (b' ' ∷ v) ≡ trim is_blank v
unfolding trim
trim_blank v = refl

pub header_line-print :
    (f : Fields) (h : Header)
    → IsHeader h
    → header_line f (print_header h) ≡ named_field f (lowercase h.0) h.1
unfolding header_line split_field
header_line-print f h k =
    rw
      (
        split_print_header h k,
        k.name_some,
        k.name_token,
        k.value_clean,
        trim_blank h.1,
        k.value_trimmed,
      )
      refl

named_field-host :
    (f : Fields) (n v : Bytes)
    → n ≡ codes "host"
    → f.host ≡ none
    → 0 < length v
    → length v ≤ 2048
    → named_field f n v ≡ ok (record f { host = some v })
unfolding named_field
named_field-host f n [] e h p q = elim p [ ]
named_field-host f n (x ∷ v) e h p q = rw (e, h) (ground arith)

named_field-agent :
    (f : Fields) (n v : Bytes)
    → n ≡ codes "user-agent"
    → named_field f n v
      ≡ ok (record f { user_agent = or_else f.user_agent (some (take_chars 1024 v)) })
unfolding named_field
named_field-agent f n v e = rw e (ground arith)

named_field-other :
    (f : Fields) (n v : Bytes)
    → bytes_eq n (codes "host") ≡ false
    → bytes_eq n (codes "user-agent") ≡ false
    → bytes_eq n (codes "content-length") ≡ false
    → bytes_eq n (codes "transfer-encoding") ≡ false
    → named_field f n v ≡ ok f
unfolding named_field
named_field-other f n v a b c d = rw (a, b, c, d) refl

pub is_empty-print_header : (h : Header) → IsHeader h → is_empty (print_header h) ≡ false
is_empty-print_header ([], v) k = cc
is_empty-print_header (x ∷ n, v) k = refl

-- One header: what the loop keeps is what the headers say so far.
abbrev pub Kept : Fields → Header → List Header → Type 0
Kept f h headers =
    (g : Fields) × (named_field f (lowercase h.0) h.1 ≡ ok g)
    × (after g headers ≡ after f (h ∷ headers))
    × HostLeft g headers

host_kept :
    (f : Fields) (h : Header) (headers : List Header)
    → lowercase h.0 ≡ codes "host"
    → f.host ≡ none
    → after (record f { host = some h.1 }) headers ≡ after f (h ∷ headers)
host_kept f h headers e l = rw (e, l) refl

named-Kept_host :
    (f : Fields) (h : Header) (headers : List Header)
    → lowercase h.0 ≡ codes "host"
    → IsOnlyHost h headers
    → HostLeft f (h ∷ headers)
    → Kept f h headers
named-Kept_host f h headers e (p, q, last) (inr l) = absurd (ground arith)
named-Kept_host f h headers e (p, q, last) (inl l) = (
  record f { host = some h.1 },
  named_field-host f _ h.1 e l p q,
  host_kept f h headers e l,
  inr last,
)

named-Kept_agent :
    (f : Fields) (h : Header) (headers : List Header)
    → lowercase h.0 ≡ codes "user-agent"
    → HostLeft f (h ∷ headers)
    → Kept f h headers
named-Kept_agent f h headers e l = (
  record f { user_agent = or_else f.user_agent (some (take_chars 1024 h.1)) },
  named_field-agent f _ h.1 e,
  rw e (ground arith),
  rw e at l,
)

only_host :
    (h : Header) (headers : List Header)
    → is_named (codes "host") h ≡ true
    → (is_named (codes "host") h ≡ false) ⊎ IsOnlyHost h headers
    → IsOnlyHost h headers
only_host h headers e (inr o) = o
only_host h headers e (inl o) = absurd (cc)

pub named-Kept :
    (f : Fields) (h : Header) (headers : List Header)
    → IsHeader h
    → (is_named (codes "host") h ≡ false) ⊎ IsOnlyHost h headers
    → HostLeft f (h ∷ headers)
    → Kept f h headers
named-Kept f h headers k o l = elim (Bool-cases (is_named (codes "host") h)) [
  | inl e ↦ named-Kept_host f h headers ((bytes_eq_iff _ _).0 e) (only_host h headers e o) l
  | inr e ↦ elim (Bool-cases (is_named (codes "user-agent") h)) [
    | inl a ↦ named-Kept_agent f h headers ((bytes_eq_iff _ _).0 a) l
    | inr a ↦
        (f, named_field-other f _ h.1 e a k.no_length k.no_encoding, rw (e, a) refl, rw e at l)
  ]
]
