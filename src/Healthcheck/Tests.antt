-- ===== src/Healthcheck/Tests.antt =====
-- A ready sensor whose management is bound to the wildcard address.
use honey_mind.Base.Decimal.Digits.{all-decimal}
use honey_mind.Healthcheck.{Peer}
use honey_mind.Base.Decimal.{decimal}
use honey_mind.Config.Address.{SocketAddr, v4}
use honey_mind.Base.{
  ◌==◌, within, all, Bytes, codes, ℕ, ◌≡◌, refl, true, not, Option, none, some, [], ◌∷◌, ◌++◌,
  arith, ltb, ap, ◌∙◌,
}
use honey_mind.Base.Text.Pieces.{all_of_all, split_once-append, all-append}
use honey_mind.Base.Text.{split_once, is_digit}
use honey_mind.Healthcheck.Readiness.{Hyper, sensor_peer}
use honey_mind.Metrics.{Reply, Metrics, new_metrics}

abbrev pub ready_sensor : Metrics
ready_sensor = record new_metrics { ready = 1 }

abbrev wildcard : SocketAddr
wildcard = record { ip = v4 0; port = 9090 }

-- The word behind the method.
abbrev pub with_path : Bytes → Option (Bytes × Bytes) → Option (Bytes × Bytes)
with_path method none = none
with_path method (some (path, rest)) = some (method, path)

abbrev pub second_word : Option (Bytes × Bytes) → Option (Bytes × Bytes)
second_word none = none
second_word (some (method, rest)) = with_path method (split_once b' ' rest)

abbrev pub plain_layout : Reply → Bytes
plain_layout r = codes "HTTP/1.1 " ++ (decimal r.status ++ (b' ' ∷ (codes "\r\n\r\n" ++ r.body)))

upper_no_blank : (b : ℕ) → within b'A' b'Z' b ≡ true → not (b == b' ') ≡ true
upper_no_blank b h = ground (arith, h)

visible_no_blank : (b : ℕ) → within 0x21 0x7e b ≡ true → not (b == b' ') ≡ true
visible_no_blank b h = ground (arith, h)

pub reads_words :
    (method path rest : Bytes)
    → all (within b'A' b'Z') method ≡ true
    → all (within 0x21 0x7e) path ≡ true
    → second_word (split_once b' ' (method ++ (b' ' ∷ (path ++ (b' ' ∷ rest)))))
      ≡ some (method, path)
reads_words method path rest m p =
    let method_lacks = all_of_all _ _ method upper_no_blank m in
    let path_lacks = all_of_all _ _ path visible_no_blank p in
    ap second_word (split_once-append b' ' method (path ++ (b' ' ∷ rest)) method_lacks)
    ∙ ap (with_path method) (split_once-append b' ' path rest path_lacks)

digit_is_low : (b : ℕ) → is_digit b ≡ true → ltb b 0x80 ≡ true
digit_is_low b h = ground (arith, h)

pub lays_ascii :
    (r : Reply)
    → all (λ b. ltb b 0x80) r.body ≡ true
    → all (λ b. ltb b 0x80) (plain_layout r) ≡ true
lays_ascii r ascii =
    all-append (λ b. ltb b 0x80) (decimal r.status) (b' ' ∷ (codes "\r\n\r\n" ++ r.body))
    ∙ rw
        (all_of_all is_digit (λ b. ltb b 0x80) (decimal r.status) digit_is_low
          (all-decimal r.status))
        ascii

abbrev pub plain_hyper : Hyper
plain_hyper = record {
  read_request = λ bytes. second_word (split_once b' ' bytes);
  layout = plain_layout;
  reads = λ method path a some_method m slash p. reads_words method path _ m p;
  lays = λ r ascii. record {
    rest = codes "\r\n\r\n" ++ r.body;
    line = refl;
    ascii = lays_ascii r ascii;
  };
}

abbrev pub local_peer : Peer
local_peer = sensor_peer plain_hyper (λ m. some []) ready_sensor wildcard
