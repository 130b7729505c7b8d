-- ===== src/Logger/Advances.antt =====
-- What an interleaving does to the channel and the counters.
use honey_mind.Session.Bounds.{Unless, Unless_intro}
use honey_mind.Logger.Events.{Event, logs, writes, offered, step, run, accepted, accounted, waiting}
use honey_mind.Base.{
  length, length-append, ℕ, ◌+◌, ◌≡◌, Bool, false, List, [], ◌∷◌, arith, Bool-cases, ◌≤◌, refl, sym,
  ap, ◌∙◌, inl, inr, true, Option, none, some, ◌++◌, append-nil, append_assoc, subst,
}
use honey_mind.Logger.{
  Channel, Logging, SendResult, sent, full, closed, log, write_next, after_send, after_recv,
}
use honey_mind.Session.State.{SessionRecord}

module _ {Q : Type 0} (channel : Channel Q) where
  -- The channel is closed exactly when the writer has failed, and holds no more than it may.
  pub record Inv (most : ℕ) (s : Logging Q) : Type 0 where
    pub shut : s.failed ≡ channel.is_closed s.queue
    pub fits : length (channel.content s.queue) ≤ most
    pub same : channel.capacity s.queue ≡ most

  -- What one event does: it keeps the invariant, accounts for its records, and, unless the writer
  -- has failed at its end, adds to the records written and waiting those that it accepts.
  pub record Advances (most : ℕ) (s t : Logging Q) (n : ℕ) (new_records : List SessionRecord)
      : Type 0 where
    pub inv : Inv most t
    pub counted :
        accounted t.metrics + waiting channel t ≡ accounted s.metrics + waiting channel s + n
    pub ordered : Unless t.failed (
        (s.failed ≡ false)
        × (t.output ++ channel.content t.queue
            ≡ (s.output ++ channel.content s.queue) ++ new_records))

  abbrev taken : SessionRecord → Bool → List SessionRecord
  taken r true = r ∷ []
  taken r false = []

  after_send-Advances :
      (most : ℕ) (s : Logging Q) (r : SessionRecord) (o : SendResult Q)
      → channel.try_send s.queue r ≡ o
      → Inv most s
      → Advances most s (after_send channel s o).0 1 (taken r (after_send channel s o).1)
  unfolding waiting
  after_send-Advances most s r (sent q) e v =
      let (k, c, room, open', still) = channel.send_sent s.queue q r e in
      let grown = length-append (channel.content s.queue) (r ∷ []) in
      record {
        inv = record {
          shut = cc (v.shut, open', still);
          fits = ground (arith, k, grown, v.same);
          same = c ∙ v.same;
        };
        counted = ground (arith, k, grown, v.shut);
        ordered = Unless_intro s.failed _ λ f. (
          f,
          ap (λ t. s.output ++ t) k
              ∙ sym (append_assoc s.output (channel.content s.queue) (r ∷ [])),
        );
      }
  after_send-Advances most s r full e v = record {
    inv = record { shut = v.shut; fits = v.fits; same = v.same };
    counted = ground arith;
    ordered = Unless_intro s.failed _ λ f. (f, sym (append-nil _));
  }
  after_send-Advances most s r closed e v = record {
    inv = record { shut = v.shut; fits = v.fits; same = v.same };
    counted = ground arith;
    ordered = Unless_intro s.failed _ λ f. (f, sym (append-nil _));
  }

  after_recv-Advances :
      (most : ℕ) (s : Logging Q) (ok' : Bool) (o : Option (SessionRecord × Q))
      → channel.recv s.queue ≡ o
      → s.failed ≡ false
      → Inv most s
      → Advances most s (after_recv channel s ok' o) 0 []
  unfolding waiting
  after_recv-Advances most s ok' none e f v = record {
    inv = v;
    counted = omega arith;
    ordered = Unless_intro s.failed _ λ g. (g, sym (append-nil _));
  }
  after_recv-Advances most s true (some (r, q)) e f v =
      let (k, c, shut) = channel.recv_some s.queue q r e in
      record {
        inv = record {
          shut = v.shut ∙ sym shut;
          fits = ground (arith, k, v.fits);
          same = c ∙ v.same;
        };
        counted = ground (arith, k);
        ordered = Unless_intro s.failed _ λ g. (
          g,
          append_assoc s.output (r ∷ []) (channel.content q)
              ∙ ap (λ t. s.output ++ t) (sym k)
              ∙ sym (append-nil _),
        );
      }
  after_recv-Advances most s false (some (r, q)) e f v =
      let (k, c, shut) = channel.recv_some s.queue q r e in
      let (kept, cap, now_shut) = channel.close_content q in
      record {
        inv = record {
          shut = sym now_shut;
          fits = ground (arith, k, kept, v.fits);
          same = cap ∙ c ∙ v.same;
        };
        counted = ground (arith, k, kept);
        ordered = tt;
      }

  write_next-Advances :
      (most : ℕ) (s : Logging Q) (ok' : Bool)
      → Inv most s
      → Advances most s (write_next channel s ok') 0 []
  unfolding write_next
  write_next-Advances most s ok' v = elim (Bool-cases s.failed) [
    | inl f ↦ simp f (record {
      inv = v;
      counted = omega arith;
      ordered = Unless_intro s.failed _ λ g. absurd (cc (f, g));
    })
    | inr f ↦ simp f (after_recv-Advances most s ok' (channel.recv s.queue) refl f v)
  ]

  step-Advances :
      (most : ℕ) (s : Logging Q) (r : SessionRecord)
      → Inv most s
      → Advances most s (log channel s r).0 1 (taken r (log channel s r).1)
  unfolding log
  step-Advances most s r v = after_send-Advances most s r (channel.try_send s.queue r) refl v

  joined-Advances :
      (most m n : ℕ) (s t u : Logging Q) (xs ys : List SessionRecord)
      → Advances most s t m xs
      → Advances most t u n ys
      → Advances most s u (m + n) (xs ++ ys)
  joined-Advances most m n s t u xs ys a b = record {
    inv = b.inv;
    counted = omega (arith, a.counted, b.counted);
    ordered = both t.failed u.failed a.ordered b.ordered;
  }
    where
      both :
          (f g : Bool)
          → Unless f (
              (s.failed ≡ false)
              × (t.output ++ channel.content t.queue ≡ (s.output ++ channel.content s.queue) ++ xs))
          → Unless g (
              (f ≡ false)
              × (u.output ++ channel.content u.queue ≡ (t.output ++ channel.content t.queue) ++ ys))
          → Unless g (
              (s.failed ≡ false)
              × (u.output ++ channel.content u.queue
                  ≡ (s.output ++ channel.content s.queue) ++ (xs ++ ys)))
      both f true p q = tt
      both true false p q = absurd (cc (q.0))
      both false false p q = (
        p.0,
        q.1 ∙ ap (λ w. w ++ ys) p.1 ∙ append_assoc (s.output ++ channel.content s.queue) xs ys,
      )

  accepted-logs :
      (s : Logging Q) (r : SessionRecord) (es : List Event)
      → accepted channel s (logs r ∷ es)
        ≡ taken r (log channel s r).1 ++ accepted channel (step channel s (logs r)) es
  unfolding accepted
  accepted-logs s r es = elim (Bool-cases (log channel s r).1) [
    | inl e ↦ rw e refl
    | inr e ↦ rw e refl
  ]

  pub run-Advances :
      (most : ℕ) (s : Logging Q) (es : List Event)
      → Inv most s
      → Advances most s (run channel s es) (offered es) (accepted channel s es)
  unfolding run step accepted
  run-Advances most s [] v = record {
    inv = v;
    counted = omega arith;
    ordered = Unless_intro s.failed _ λ f. (f, sym (append-nil _));
  }
  run-Advances most s (logs r ∷ es) v =
      let a = step-Advances most s r v in
      rw (accepted-logs s r es) (
        joined-Advances most 1 (offered es) s (step channel s (logs r))
          (run channel (step channel s (logs r)) es) (taken r (log channel s r).1)
          (accepted channel (step channel s (logs r)) es) a
          (run-Advances most (step channel s (logs r)) es a.inv))
  run-Advances most s (writes ok' ∷ es) v =
      let a = write_next-Advances most s ok' v in
      let all_offered : 0 + offered es ≡ offered es = omega arith in
      subst
        (λ n.
          Advances most s (run channel (step channel s (writes ok')) es) n
            (accepted channel (step channel s (writes ok')) es))
        all_offered
        (joined-Advances most 0 (offered es) s (step channel s (writes ok'))
          (run channel (step channel s (writes ok')) es) []
          (accepted channel (step channel s (writes ok')) es) a
          (run-Advances most (step channel s (writes ok')) es a.inv))
