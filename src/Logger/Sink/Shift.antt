-- ===== src/Logger/Sink/Shift.antt =====
-- What the loop of a rotation does to the files.
use native.Mathlib.Decide.{dec_lt}
use honey_mind.Base.{
  ◌>>=◌, if◌then◌else◌, ok, ℕ, zero, suc, ◌≡◌, false, none, arith, Bool-cases, ◌+◌, refl, sym, ap,
  ◌∙◌, inl, inr, true, Option, some, ◌≤◌, ◌<◌, bind-ok,
}
use honey_mind.Logger.Sink.{
  FileSystem, LogPath, active, rotated, Found, missing, regular, irregular, unreadable, exists_of,
  if_exists, path_eq, move_up, or_io, shift,
}

pub path_eq_sound : (p q : LogPath) → path_eq p q ≡ true → p ≡ q
path_eq_sound active active h = refl
path_eq_sound active (rotated k) h = absurd (ground arith)
path_eq_sound (rotated j) active h = absurd (ground arith)
path_eq_sound (rotated j) (rotated k) h = ap rotated (ground arith)

pub or_io_ok : {A : Type 0} (o : Option A) (x : A) → or_io o ≡ ok x → o ≡ some x
or_io_ok none x h = absurd (ground arith)
or_io_ok (some y) x h = ground arith

module _ {F : Type 0} (fs : FileSystem F) where
  -- A file that is moved if it is there.
  pub moved :
      (f f' : F) (p q : LogPath) (x : Found)
      → fs.symlink_metadata f p ≡ x
      → (exists_of fs x >>= λ b. if_exists fs b f (fs.rename f p q)) ≡ ok f'
      → path_eq q p ≡ false
      → fs.content f q ≡ none
      → (r : LogPath)
      → fs.content f' r
        ≡ (if path_eq q r then fs.content f p else if path_eq p r then none else fs.content f r)
  moved f f' p q missing e h d n r =
      let same : f ≡ f' = ground arith in
      let empty = fs.missing_none f p e in
      let at_p = path_eq_sound p r in
      let at_q = path_eq_sound q r in
      elim (Bool-cases (path_eq q r)) [
        | inl k ↦
            rw k (
              ap (λ g. fs.content g r) (sym same)
              ∙ ap (fs.content f) (sym (at_q k))
              ∙ n
              ∙ sym empty)
        | inr k ↦ rw k (elim (Bool-cases (path_eq p r)) [
          | inl j ↦
              rw j (ap (λ g. fs.content g r) (sym same) ∙ ap (fs.content f) (sym (at_p j)) ∙ empty)
          | inr j ↦ rw j (ap (λ g. fs.content g r) (sym same))
        ])
      ]
  moved f f' p q regular e h d n r = fs.rename_some f f' p q r (or_io_ok (fs.rename f p q) f' h)
  moved f f' p q irregular e h d n r = absurd (ground arith)
  moved f f' p q unreadable e h d n r = absurd (ground arith)

  move_up-content :
      (f f' : F) (k : ℕ)
      → move_up fs k f ≡ ok f'
      → fs.content f (rotated (k + 1)) ≡ none
      → (r : LogPath)
      → fs.content f' r ≡ (
          if path_eq (rotated (k + 1)) r
          then fs.content f (rotated k)
          else if path_eq (rotated k) r
          then none
          else fs.content f r)
  unfolding move_up
  move_up-content f f' k h n r =
      moved f f' (rotated k) (rotated (k + 1)) (fs.symlink_metadata f (rotated k)) refl h
        (ground arith) n r

  -- The round of the loop, and the rounds behind it.
  shift-round :
      (k : ℕ) (f f' : F)
      → shift fs (suc k) f ≡ ok f'
      → (g : F) × (move_up fs (suc k) f ≡ ok g) × (shift fs k g ≡ ok f')
  unfolding shift
  shift-round k f f' h = bind-ok (move_up fs (suc k) f) (shift fs k) f' h

  -- A round leaves its own place free.
  move_up-freed :
      (f g : F) (k : ℕ)
      → move_up fs (suc k) f ≡ ok g
      → fs.content f (rotated (suc k + 1)) ≡ none
      → fs.content g (rotated (k + 1)) ≡ none
  move_up-freed f g k h n = ground (arith, move_up-content f g (suc k) h n (rotated (k + 1)))

  -- The loop frees the first place, if the one above its first index is free.
  pub shift-freed :
      (k : ℕ) (f f' : F)
      → shift fs k f ≡ ok f'
      → fs.content f (rotated (k + 1)) ≡ none
      → fs.content f' (rotated 1) ≡ none
  shift-freed zero f f' h n = unfold shift in ground arith
  shift-freed (suc k) f f' h n =
      let (g, first, rest) = shift-round k f f' h in
      shift-freed k g f' rest (move_up-freed f g k first n)

  pub shift-active :
      (k : ℕ) (f f' : F)
      → shift fs k f ≡ ok f'
      → fs.content f (rotated (k + 1)) ≡ none
      → fs.content f' active ≡ fs.content f active
  shift-active zero f f' h n = unfold shift in ground arith
  shift-active (suc k) f f' h n =
      let (g, first, rest) = shift-round k f f' h in
      shift-active k g f' rest (move_up-freed f g k first n)
      ∙ move_up-content f g (suc k) first n active

  -- It leaves what lies above its first index as it is,
  shift-above :
      (j k : ℕ) (f f' : F)
      → shift fs k f ≡ ok f'
      → fs.content f (rotated (k + 1)) ≡ none
      → k + 1 < j
      → fs.content f' (rotated j) ≡ fs.content f (rotated j)
  shift-above j zero f f' h n b = unfold shift in ground arith
  shift-above j (suc k) f f' h n b =
      let (g, first, rest) = shift-round k f f' h in
      let one = move_up-content f g (suc k) first n (rotated j) in
      shift-above j k g f' rest (move_up-freed f g k first n) (omega arith) ∙ ground (arith, one)

  -- and moves each file from there down by one place.
  pub shift-up :
      (j k : ℕ) (f f' : F)
      → shift fs k f ≡ ok f'
      → fs.content f (rotated (k + 1)) ≡ none
      → 1 ≤ j
      → j ≤ k
      → fs.content f' (rotated (j + 1)) ≡ fs.content f (rotated j)
  shift-up j zero f f' h n a b = absurd (omega arith)
  shift-up j (suc k) f f' h n a b =
      let (g, first, rest) = shift-round k f f' h in
      let free = move_up-freed f g k first n in
      elim (dec_lt k j) [
        | yes last ↦
            let top : j ≡ suc k = omega arith in
            shift-above (j + 1) k g f' rest free (omega arith)
            ∙ ground (arith, move_up-content f g (suc k) first n (rotated (j + 1)))
        | no below ↦
            shift-up j k g f' rest free a (omega arith)
            ∙ ground (arith, move_up-content f g (suc k) first n (rotated j))
      ]
