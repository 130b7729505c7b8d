-- ===== src/Ratelimit/History/Tracks.antt =====
-- What a bucket knows of the admissions of its address.
use honey_mind.Config.Address.Canonical.{ip_eq_iff}
use honey_mind.Base.{
  ℕ, ◌≤◌, ◌≡◌, refl, ◌∙◌, Bool, false, List, [], ◌∷◌, ◌++◌, arith, All, All-append, inl, inr,
  Bool-cases, filter, filter-append, if◌then◌else◌, ap, append-nil,
}
use honey_mind.Config.Address.{IpAddr, ip_eq}
use honey_mind.Ratelimit.{is_stale, expire}
use honey_mind.Ratelimit.History.{Log, times, is_fresh}

-- No later instant stands before an earlier one.
abbrev pub Ascending : List ℕ → Type 0
Ascending [] = Unit {0}
Ascending (t ∷ w) = All (λ u. t ≤ u) w × Ascending w

filter-All_fresh :
    (now t : ℕ) (w : List ℕ)
    → is_stale now t ≡ false
    → All (λ u. t ≤ u) w
    → filter (is_fresh now) w ≡ w
filter-All_fresh now t [] f a = refl
filter-All_fresh now t (u ∷ w) f a = ground (arith, filter-All_fresh now t w f a.1)

pub expire-eq-filter : (now : ℕ) (w : List ℕ) → Ascending w → expire now w ≡ filter (is_fresh now) w
unfolding expire
expire-eq-filter now [] a = refl
expire-eq-filter now (t ∷ w) a =
    ground (arith, expire-eq-filter now w a.1, filter-All_fresh now t w)

filter_later :
    (n m : ℕ) (w : List ℕ)
    → n ≤ m
    → filter (is_fresh m) (filter (is_fresh n) w) ≡ filter (is_fresh m) w
filter_later n m [] h = refl
filter_later n m (t ∷ w) h = ground (arith, filter_later n m w h)

All-filter {κ} : (P : ℕ → Type κ) (p : ℕ → Bool) (w : List ℕ) → All P w → All P (filter p w)
All-filter P p [] a = tt
All-filter P p (t ∷ w) a = elim (Bool-cases (p t)) [
  | inl e ↦ rw e (a.0, All-filter P p w a.1)
  | inr e ↦ rw e (All-filter P p w a.1)
]

filter-Ascending : (p : ℕ → Bool) (w : List ℕ) → Ascending w → Ascending (filter p w)
filter-Ascending p [] a = tt
filter-Ascending p (t ∷ w) a = elim (Bool-cases (p t)) [
  | inl e ↦ rw e (All-filter (λ u. t ≤ u) p w a.0, filter-Ascending p w a.1)
  | inr e ↦ rw e (filter-Ascending p w a.1)
]

pub snoc-Ascending :
    (w : List ℕ) (n : ℕ) → Ascending w → All (λ t. t ≤ n) w → Ascending (w ++ n ∷ [])
snoc-Ascending [] n a b = (tt, tt)
snoc-Ascending (t ∷ w) n a b =
    (All-append (λ u. t ≤ u) w (n ∷ []) a.0 (b.0, tt), snoc-Ascending w n a.1 b.1)

All-le_mono : (n m : ℕ) (w : List ℕ) → n ≤ m → All (λ t. t ≤ n) w → All (λ t. t ≤ m) w
All-le_mono n m [] h a = tt
All-le_mono n m (t ∷ w) h a = (omega arith, All-le_mono n m w h a.1)

pub times-append : (ip : IpAddr) (l k : Log) → times ip (l ++ k) ≡ times ip l ++ times ip k
unfolding times
times-append ip [] k = refl
times-append ip ((j, t) ∷ l) k = ground (arith, times-append ip l k)

pub times-append_self :
    (ip : IpAddr) (now : ℕ) (l : Log) → times ip (l ++ (ip, now) ∷ []) ≡ times ip l ++ now ∷ []
unfolding times
times-append_self ip now l =
    times-append ip l ((ip, now) ∷ [])
    ∙ ap (λ b. times ip l ++ (if b then now ∷ [] else [])) ((ip_eq_iff ip ip).1 refl)

pub times-append_ne :
    (ip j : IpAddr) (now : ℕ) (l : Log)
    → ip_eq ip j ≡ false
    → times j (l ++ (ip, now) ∷ []) ≡ times j l
unfolding times
times-append_ne ip j now l e = rw (times-append, e) (append-nil (times j l))

-- What a bucket knows of the admissions of its address, at any instant from `last` on.
pub record Tracks (last : ℕ) (w : List ℕ) (ts : List ℕ) : Type 0 where
  pub ascending : Ascending w
  pub past : All (λ t. t ≤ last) w
  pub same : (now : ℕ) → last ≤ now → filter (is_fresh now) w ≡ filter (is_fresh now) ts

pub Tracks-later : {last now : ℕ} {w ts : List ℕ} → last ≤ now → Tracks last w ts → Tracks now w ts
Tracks-later {last} {now} {w} h k = record {
  ascending = k.ascending;
  past = All-le_mono last now w h k.past;
  same = λ m p. k.same m (omega arith);
}

-- An expiry forgets nothing that counts.
pub Tracks-expire :
    {last : ℕ} {w ts : List ℕ} (now : ℕ)
    → last ≤ now
    → Tracks last w ts
    → Tracks now (expire now w) ts
Tracks-expire {last} {w} {ts} now h k = rw (expire-eq-filter now w k.ascending) (record {
  ascending = filter-Ascending (is_fresh now) w k.ascending;
  past = All-filter (λ t. t ≤ now) (is_fresh now) w (All-le_mono last now w h k.past);
  same = λ m p. filter_later now m w p ∙ k.same m (omega arith);
})

pub Tracks-snoc :
    {w ts : List ℕ} (now : ℕ) → Tracks now w ts → Tracks now (w ++ now ∷ []) (ts ++ now ∷ [])
Tracks-snoc {w} {ts} now k = record {
  ascending = snoc-Ascending w now k.ascending k.past;
  past = All-append (λ t. t ≤ now) w (now ∷ []) k.past (omega arith, tt);
  same = λ m p. simp (filter-append, k.same m p);
}
