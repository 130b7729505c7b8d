-- ===== src/Protocols/Http/Exchange/Reply.antt =====
-- What a client reads of a response: where its headers end, and how long it says its body is.
use honey_mind.Protocols.Http.Request.Framing.{headers_in}
use honey_mind.Protocols.Http.Exchange.{find_end}
use honey_mind.Base.Text.Pieces.{lacks, all_of_all, all-append}
use honey_mind.Base.{
  ◌==◌, if◌then◌else◌, length, drop, Bytes, codes, starts_with, ℕ, ◌≡◌, ◌||◌, Option, none, some,
  List, [], ◌∷◌, ◌++◌, Bool-cases, inl, inr, append_assoc, All, refl, ap, ◌∙◌, true, arith,
  All-append, is_empty, take, ◌+◌, sym, false, take-append_length, drop-append_length, subst,
}
use honey_mind.Base.Decimal.Digits.{number_of-decimal, all-decimal}
use honey_mind.Base.Decimal.{decimal}
use honey_mind.Base.Text.{number_of, is_digit, split_lines}
use honey_mind.Protocols.Http.Response.{headers_of, body_of, reason_of, is_one_of, response}
use honey_mind.Protocols.Http.Exchange.Joined.{
  join, IsLine, join-append, size, length-join, find_end-join, split_lines-join, header_lines-join,
}

-- The length that the headers announce, if they do.
abbrev pub announced : List Bytes → Option ℕ
announced [] = none
announced (line ∷ lines) =
    if starts_with (codes "Content-Length: ") line
    then some (number_of 0 (drop 16 line))
    else announced lines

module _ (canonical_reason : ℕ → Option Bytes) (status : ℕ) (server : Bytes) where
  status_line : Bytes
  status_line =
      codes "HTTP/1.1 " ++ (decimal status ++ (codes " " ++ reason_of canonical_reason status))

  length_lines : List Bytes
  length_lines =
      if status == 204 || status == 304
      then []
      else (codes "Content-Length: " ++ decimal (length (body_of canonical_reason status))) ∷ []

  login_lines : List Bytes
  login_lines =
      if status == 401 then codes "WWW-Authenticate: Basic realm=\"Administration\"" ∷ [] else []

  lines_of : List Bytes
  lines_of =
      (codes "Server: " ++ server)
        ∷ codes "Content-Type: text/plain; charset=utf-8"
        ∷ codes "Connection: close"
        ∷ length_lines
      ++ login_lines

  headers-eq-join : headers_of canonical_reason status server ≡ join (status_line ∷ lines_of) []
  unfolding headers_of status_line lines_of length_lines login_lines join
  headers-eq-join = elim (Bool-cases (status == 204 || status == 304)) [
    | inl e ↦ rw e (elim (Bool-cases (status == 401)) [
      | inl k ↦ rw k (simp append_assoc)
      | inr k ↦ rw k (simp append_assoc)
    ])
    | inr e ↦ rw e (elim (Bool-cases (status == 401)) [
      | inl k ↦ rw k (simp append_assoc)
      | inr k ↦ rw k (simp append_assoc)
    ])
  ]

lacks-decimal : (n : ℕ) → lacks b'\r' (decimal n) ≡ true
lacks-decimal n = all_of_all is_digit _ (decimal n) (λ b h. ground arith) (all-decimal n)

module _ (canonical_reason : ℕ → Option Bytes) (status : ℕ) (server : Bytes) where
  module _ (s : lacks b'\r' server ≡ true)
      (r : lacks b'\r' (reason_of canonical_reason status) ≡ true) where
    status-IsLine : IsLine (status_line canonical_reason status server)
    unfolding status_line
    status-IsLine = (refl, all-append _ (decimal status) _ ∙ ground (arith, lacks-decimal status))

    length_lines-IsLine : All IsLine (length_lines canonical_reason status server)
    unfolding length_lines
    length_lines-IsLine = elim (Bool-cases (status == 204 || status == 304)) [
      | inl e ↦ rw e tt
      | inr e ↦ rw e ((refl, lacks-decimal (length (body_of canonical_reason status))), tt)
    ]

    login_lines-IsLine : All IsLine (login_lines canonical_reason status server)
    unfolding login_lines
    login_lines-IsLine = elim (Bool-cases (status == 401)) [
      | inl e ↦ rw e ((refl, refl), tt)
      | inr e ↦ rw e tt
    ]

    lines_of-IsLine : All IsLine (lines_of canonical_reason status server)
    unfolding lines_of
    lines_of-IsLine = (
      (refl, s),
      ((refl, refl), ((refl, refl), All-append IsLine _ _ length_lines-IsLine login_lines-IsLine)),
    )

  announced-lines_of : announced (lines_of canonical_reason status server) ≡ (
      if status == 204 || status == 304
      then none
      else some (length (body_of canonical_reason status)))
  unfolding lines_of length_lines login_lines
  announced-lines_of = elim (Bool-cases (status == 204 || status == 304)) [
    | inl e ↦ rw e (elim (Bool-cases (status == 401)) [ inl k ↦ rw k refl | inr k ↦ rw k refl ])
    | inr e ↦ rw e (ap some (number_of-decimal (length (body_of canonical_reason status))))
  ]

-- What a client makes of the response to a request that is no HEAD, `whole`, and of the one to HEAD: the
-- headers end at `n`, and the rest is the body.
abbrev pub IsFramed : ℕ → Bytes → Bytes → Type 0
IsFramed status whole head =
    (n : ℕ) × (find_end whole ≡ some n)
    × (take (n + 4) whole ≡ head)
    × (announced (headers_in (split_lines whole))
        ≡ (if status == 204 || status == 304 then none else some (length (drop (n + 4) whole))))
    × (is_empty (drop (n + 4) whole) ≡ is_one_of status 204 205 304)

-- Lines that are joined, with a body behind them.
joined-IsFramed :
    (status : ℕ) (first : Bytes) (lines : List Bytes) (body : Bytes)
    → All IsLine (first ∷ lines)
    → announced lines ≡ (if status == 204 || status == 304 then none else some (length body))
    → is_empty body ≡ is_one_of status 204 205 304
    → IsFramed status (join (first ∷ lines) [] ++ body) (join (first ∷ lines) [])
joined-IsFramed status first lines body good a e =
    let headers = join (first ∷ lines) [] in
    let whole = join-append (first ∷ lines) body in
    let long : length first + size lines + 4 ≡ length headers =
      omega (arith, length-join (first ∷ lines) []) in
    let rest : drop (length first + size lines + 4) (headers ++ body) ≡ body =
      rw long (drop-append_length headers body) in
    let read : headers_in (split_lines (headers ++ body)) ≡ lines = rw (← whole) (
      ap headers_in (split_lines-join (first ∷ lines) body good)
      ∙ header_lines-join lines (split_lines body) good.1) in
    (
      length first + size lines,
      rw (← whole) (find_end-join first lines body good),
      rw long (take-append_length headers body),
      rw (read, rest) a,
      rw rest e,
    )

is_empty-append : (b : ℕ) (xs : Bytes) → is_empty (xs ++ b ∷ []) ≡ false
is_empty-append b [] = refl
is_empty-append b (x ∷ xs) = refl

module _ (canonical_reason : ℕ → Option Bytes) (status : ℕ) (server : Bytes) where
  body-is_empty : is_empty (body_of canonical_reason status) ≡ is_one_of status 204 205 304
  unfolding body_of
  body-is_empty = elim (Bool-cases (is_one_of status 204 205 304)) [
    | inl e ↦ rw e refl
    | inr e ↦ rw e (is_empty-append b'\n' _)
  ]

  -- The response is framed so that a client reads it the way it is meant. The first empty line of a
  -- response ends its headers, and the response to HEAD is exactly these headers. What
  -- follows them otherwise is as long as the announced content length, which only 204 and 304 leave out,
  -- and it is empty just for 204, 205 and 304. This needs a server name and a reason phrase without
  -- CR.
  pub response-IsFramed :
      lacks b'\r' server ≡ true
      → lacks b'\r' (reason_of canonical_reason status) ≡ true
      → IsFramed status
          (response canonical_reason status false server)
          (response canonical_reason status true server)
  unfolding response
  response-IsFramed s r =
      let lines = lines_of canonical_reason status server in
      let first = status_line canonical_reason status server in
      let good : All IsLine (first ∷ lines) = (
        status-IsLine canonical_reason status server s r,
        lines_of-IsLine canonical_reason status server s r,
      ) in
      let framed =
        joined-IsFramed status first lines (body_of canonical_reason status) good
          (announced-lines_of canonical_reason status server) body-is_empty in
      subst
        (λ (headers : Bytes). IsFramed status (headers ++ body_of canonical_reason status) headers)
        (sym (headers-eq-join canonical_reason status server)) framed
