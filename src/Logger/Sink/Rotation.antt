-- ===== src/Logger/Sink/Rotation.antt =====
-- What a rotation does to the files, and how large the active log gets.
use honey_mind.Base.{
  bind-ok, ◌>>=◌, if◌then◌else◌, ok, ℕ, zero, suc, ◌≡◌, none, arith, Bool-cases, ◌+◌, refl, sym, ap,
  ◌∙◌, inl, inr, some, ◌>>◌, unwrap_or, length, Bytes, ensure, [], ◌-◌, ◌<◌,
}
use honey_mind.Logger.Sink.{
  FileSystem, LogPath, active, rotated, Found, missing, regular, irregular, unreadable, exists_of,
  if_exists, path_eq, or_io, move_active, open_log, opened, remove_oldest, regular_exists, vanished,
  FileSink, rotate, shift,
}
use honey_mind.Logger.Sink.Shift.{path_eq_sound, or_io_ok, shift-up, shift-active}

-- The log of each age: the active one, then the rotated ones.
abbrev pub name : ℕ → LogPath
name zero = active
name (suc k) = rotated (k + 1)

module _ {F : Type 0} (fs : FileSystem F) where
  remove_oldest-content :
      (n : ℕ) (f f' : F)
      → remove_oldest fs n f ≡ ok f'
      → (r : LogPath) → fs.content f' r ≡ (if path_eq (rotated n) r then none else fs.content f r)
  unfolding remove_oldest
  remove_oldest-content n f f' h r = go (fs.symlink_metadata f (rotated n)) refl h
    where
      go :
          (x : Found)
          → fs.symlink_metadata f (rotated n) ≡ x
          → (exists_of fs x >>= λ b. if_exists fs b f (fs.remove_file f (rotated n))) ≡ ok f'
          → fs.content f' r ≡ (if path_eq (rotated n) r then none else fs.content f r)
      go missing e k =
          let same : f ≡ f' = ground arith in
          elim (Bool-cases (path_eq (rotated n) r)) [
            | inl q ↦ rw q (
                ap (λ g. fs.content g r) (sym same)
                ∙ ap (fs.content f) (sym (path_eq_sound (rotated n) r q))
                ∙ fs.missing_none f (rotated n) e)
            | inr q ↦ rw q (ap (λ g. fs.content g r) (sym same))
          ]
      go regular e k =
          fs.remove_some f f' (rotated n) r (or_io_ok (fs.remove_file f (rotated n)) f' k)
      go irregular e k = absurd (ground arith)
      go unreadable e k = absurd (ground arith)

  move_active-content :
      (f f' : F)
      → move_active fs f ≡ ok f'
      → (r : LogPath)
      → fs.content f' r ≡ (
          if path_eq (rotated 1) r
          then fs.content f active
          else if path_eq active r
          then none
          else fs.content f r)
  unfolding move_active
  move_active-content f f' h r = go (fs.symlink_metadata f active) h
    where
      go :
          (x : Found)
          → (exists_of fs x >>= λ b. ensure b vanished >> or_io (fs.rename f active (rotated 1)))
            ≡ ok f'
          → fs.content f' r ≡ (
              if path_eq (rotated 1) r
              then fs.content f active
              else if path_eq active r
              then none
              else fs.content f r)
      go missing k = absurd (ground arith)
      go regular k =
          fs.rename_some f f' active (rotated 1) r (or_io_ok (fs.rename f active (rotated 1)) f' k)
      go irregular k = absurd (ground arith)
      go unreadable k = absurd (ground arith)

  pub opened-ok :
      (f f' : F) (bytes : Bytes) (n : ℕ)
      → opened fs f bytes ≡ ok (f', n)
      → (f ≡ f') × (length bytes ≡ n)
  opened-ok f f' bytes n h = ground arith

  open_log-content :
      (f f' : F) (n : ℕ)
      → open_log fs f ≡ ok (f', n)
      → fs.content f active ≡ none
      → (r : LogPath)
      → (fs.content f' r ≡ (if path_eq active r then some [] else fs.content f r)) × (n ≡ 0)
  unfolding open_log
  open_log-content f f' n h e r =
      let (b, found, rest) = bind-ok (regular_exists fs f active) _ (f', n) h in
      let (g, open', last) = bind-ok (or_io (fs.open_append f active)) _ (f', n) rest in
      let made = or_io_ok (fs.open_append f active) g open' in
      let (same, size) = opened-ok g f' (unwrap_or (fs.content g active) []) n last in
      (
        ap (λ w. fs.content w r) (sym same) ∙ fs.open_some f g active r made ∙ ground (arith, e),
        ground (arith, e, fs.open_some f g active active made, size),
      )

  -- The stages of a rotation that succeeds, and the free place that the loop starts with.
  record Stages (s : FileSink) (f f' : F) (s' : FileSink) : Type 0 where
    cleared : F
    shifted : F
    vacated : F
    first : remove_oldest fs s.max_files f ≡ ok cleared
    second : shift fs (s.max_files - 1) cleared ≡ ok shifted
    third : move_active fs shifted ≡ ok vacated
    last : open_log fs vacated ≡ ok (f', s'.size)
    same : s' ≡ record s { size = s'.size }

  rotate-Stages : (s s' : FileSink) (f f' : F) → rotate fs s f ≡ ok (f', s') → Stages s f f' s'
  unfolding rotate
  rotate-Stages s s' f f' h =
      let (f1, first, h1) = bind-ok (remove_oldest fs s.max_files f) _ (f', s') h in
      let (f2, second, h2) = bind-ok (shift fs (s.max_files - 1) f1) _ (f', s') h1 in
      let (f3, third, h3) = bind-ok (move_active fs f2) _ (f', s') h2 in
      let (o, last, h4) = bind-ok (open_log fs f3) _ (f', s') h3 in
      record {
        cleared = f1;
        shifted = f2;
        vacated = f3;
        first = first;
        second = second;
        third = third;
        last = ground (arith, last, h4);
        same = ground (arith, h4);
      }

  -- A rotation that succeeds leaves an empty active log, and each log of an age below `max_files`,
  -- the active one being of age 0, is a place further on. Only the oldest is lost.
  pub rotate-content :
      (s s' : FileSink) (f f' : F) (j : ℕ)
      → rotate fs s f ≡ ok (f', s')
      → j < s.max_files
      → (fs.content f' (name (suc j)) ≡ fs.content f (name j))
        × (fs.content f' active ≡ some [])
        × (s' ≡ record s { size = 0 })
  rotate-content s s' f f' j h b =
      let k = rotate-Stages s s' f f' h in
      let cleared = remove_oldest-content s.max_files f k.cleared k.first in
      let moved' = move_active-content k.shifted k.vacated k.third in
      let made = open_log-content k.vacated f' s'.size k.last (moved' active) in
      let top : s.max_files - 1 + 1 ≡ s.max_files = omega arith in
      let free : fs.content k.cleared (rotated (s.max_files - 1 + 1)) ≡ none =
        ground (arith, top, cleared (rotated s.max_files)) in
      let first = shift-active fs (s.max_files - 1) k.cleared k.shifted k.second free in
      let go : (i : ℕ) → i < s.max_files → fs.content f' (name (suc i)) ≡ fs.content f (name i) =
        elim [
          | zero ↦ λ c. (made (rotated 1)).0 ∙ moved' (rotated 1) ∙ first ∙ cleared active
          | suc i ↦ λ c.
              let up =
                shift-up fs (i + 1) (s.max_files - 1) k.cleared k.shifted k.second free
                  (omega arith) (omega arith) in
              (made (name (suc (suc i)))).0
              ∙ ground (arith, moved' (name (suc (suc i))), up, cleared (rotated (i + 1)))
        ] in
      (go j b, (made active).0, k.same ∙ ap (λ n. record s { size = n }) (made active).1)
