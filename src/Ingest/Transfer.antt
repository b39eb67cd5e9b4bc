-- ===== src/Ingest/Transfer.antt =====
-- The ingest as a queue in order: what it writes, loses and holds against what it accepted.
use mathlib.Core.List.{append_assoc, append-nil, map-append}
use abb_accelerator_submissi.Prelude.{
  ℕ, zero, suc, ◌≡◌, ◌≤◌, ◌<◌, refl, sym, ap, subst, ◌∙◌, inl, inr, Bool, true, false, not, List,
  [], ◌∷◌, ◌++◌, map, length, select, ltb, ltb→lt, arith, Bool-cases, List-cases, length-append,
  if◌then◌else◌,
}
use abb_accelerator_submissi.Ingest.{
  Message, Ingest, Write, maxsize, batch_size, empty, on_msg, take_one, fill, flush,
}

module _ {R : Type 0} where
  -- The states that the callback and the writer lead to, with the messages that the queue accepted.
  pub data Run : List (Message R) → Ingest R → Type 0 where
    begin : Run [] empty
    accepted :
        (log : List (Message R)) (s : Ingest R) (m : Message R)
        → Run log s
        → ltb (length s.queue) maxsize ≡ true
        → Run (log ++ m ∷ []) (on_msg m s)
    dropped :
        (log : List (Message R)) (s : Ingest R) (m : Message R)
        → Run log s
        → ltb (length s.queue) maxsize ≡ false
        → Run log (on_msg m s)
    wrote : (log : List (Message R)) (s s' : Ingest R) → Run log s → Write s s' → Run log s'

  -- The messages of the log stand in their order: those that left the batch, each with
  -- whether it was written, the batch, the queue. The table and
  -- the lost batches share the ones that left.
  pub record IsInOrder (log : List (Message R)) (s : Ingest R) : Type 0 where
    pub gone : List (Message R × Bool)
    pub same : log ≡ map (λ g. g.0) gone ++ (s.batch ++ s.queue)
    pub written : s.readings ≡ map (λ g. g.0) (select (λ g. g.1) gone)
    pub missed : s.lost ≡ map (λ g. g.0) (select (λ g. not g.1) gone)
    pub queue_bound : length s.queue ≤ maxsize
    pub batch_bound : length s.batch ≤ batch_size

  -- What one step of the writer inside a batch keeps.
  record IsFill (s s' : Ingest R) : Type 0 where
    same : s.batch ++ s.queue ≡ s'.batch ++ s'.queue
    readings : s'.readings ≡ s.readings
    lost : s'.lost ≡ s.lost
    queue_bound : length s'.queue ≤ length s.queue
    batch_bound : length s.batch ≤ batch_size → length s'.batch ≤ batch_size

  stays : (s : Ingest R) → IsFill s s
  stays s = record {
    same = refl;
    readings = refl;
    lost = refl;
    queue_bound = omega arith;
    batch_bound = λ h. h;
  }

  take_one-none : (s : Ingest R) → s.queue ≡ [] → take_one s ≡ s
  unfolding take_one
  take_one-none s e = simp (e, take_one)

  take_one-some :
      (s : Ingest R) (m : Message R) (queue : List (Message R))
      → s.queue ≡ m ∷ queue
      → take_one s ≡ record s { queue = queue; batch = s.batch ++ m ∷ [] }
  unfolding take_one
  take_one-some s m queue e = simp (e, take_one)

  take_one-IsFill : (s : Ingest R) → length s.batch < batch_size → IsFill s (take_one s)
  take_one-IsFill s h = elim (List-cases s.queue) [
    | inl e ↦ subst (IsFill s) (sym (take_one-none s e)) (stays s)
    | inr (m, queue, e) ↦ subst (IsFill s) (sym (take_one-some s m queue e)) (record {
      same = ap (λ q. s.batch ++ q) e ∙ sym (append_assoc s.batch (m ∷ []) queue);
      readings = refl;
      lost = refl;
      queue_bound = rw e (omega arith);
      batch_bound = λ b. rw (length-append s.batch (m ∷ [])) (omega arith);
    })
  ]

  chain : (s t u : Ingest R) → IsFill s t → IsFill t u → IsFill s u
  chain s t u h k = record {
    same = h.same ∙ k.same;
    readings = k.readings ∙ h.readings;
    lost = k.lost ∙ h.lost;
    queue_bound = omega (arith, h.queue_bound, k.queue_bound);
    batch_bound = λ b. k.batch_bound (h.batch_bound b);
  }

  fill-none : (n : ℕ) (s : Ingest R) → s.queue ≡ [] → fill (suc n) s ≡ s
  unfolding fill
  fill-none n s e = simp (e, fill)

  fill-more :
      (n : ℕ) (s : Ingest R) (m : Message R) (queue : List (Message R))
      → s.queue ≡ m ∷ queue
      → fill (suc n) s ≡ (if ltb (length s.batch) batch_size then fill n (take_one s) else s)
  unfolding fill
  fill-more n s m queue e = simp (e, fill)

  fill-IsFill : (n : ℕ) (s : Ingest R) → IsFill s (fill n s)
  unfolding fill
  fill-IsFill zero s = stays s
  fill-IsFill (suc n) s = elim (List-cases s.queue) [
    | inl e ↦ subst (IsFill s) (sym (fill-none n s e)) (stays s)
    | inr (m, queue, e) ↦ elim (Bool-cases (ltb (length s.batch) batch_size)) [
      | inl room ↦ subst (IsFill s) (sym (fill-more n s m queue e ∙ simp room)) (
          chain s (take_one s) (fill n (take_one s)) (take_one-IsFill s (ltb→lt _ _ room))
            (fill-IsFill n (take_one s)))
      | inr full ↦ subst (IsFill s) (sym (fill-more n s m queue e ∙ simp full)) (stays s)
    ]
  ]

  -- a step inside a batch keeps the order
  fill-IsInOrder :
      (log : List (Message R)) (s s' : Ingest R) → IsFill s s' → IsInOrder log s → IsInOrder log s'
  fill-IsInOrder log s s' k h = record {
    gone = h.gone;
    same = h.same ∙ ap (λ q. map (λ g. g.0) h.gone ++ q) k.same;
    written = k.readings ∙ h.written;
    missed = k.lost ∙ h.missed;
    queue_bound = omega (arith, k.queue_bound, h.queue_bound);
    batch_bound = k.batch_bound h.batch_bound;
  }

  -- The batch with its fate.
  marked : Bool → List (Message R) → List (Message R × Bool)
  marked ok = map (λ m. (m, ok))

  names-marked : (ok : Bool) (ms : List (Message R)) → map (λ g. g.0) (marked ok ms) ≡ ms
  unfolding marked
  names-marked ok [] = refl
  names-marked ok (m ∷ ms) = ap (λ q. m ∷ q) (names-marked ok ms)

  kept-marked :
      (p : Bool → Bool) (ok : Bool) (gone : List (Message R × Bool)) (ms : List (Message R))
      → map (λ g. g.0) (select (λ g. p g.1) (gone ++ marked ok ms))
        ≡ map (λ g. g.0) (select (λ g. p g.1) gone) ++ (if p ok then ms else [])
  unfolding marked
  kept-marked p ok [] [] = elim (Bool-cases (p ok)) [ inl e ↦ rw e refl | inr e ↦ rw e refl ]
  kept-marked p ok [] (m ∷ ms) =
      let rest = kept-marked p ok [] ms in
      elim (Bool-cases (p ok)) [
        | inl e ↦ rw e (ap (λ q. m ∷ q) (rw e at rest))
        | inr e ↦ rw e (rw e at rest)
      ]
  kept-marked p ok (g ∷ gone) ms =
      let rest = kept-marked p ok gone ms in
      elim (Bool-cases (p g.1)) [ inl e ↦ rw e (ap (λ q. g.0 ∷ q) rest) | inr e ↦ rw e rest ]

  moved :
      (log : List (Message R)) (ok : Bool) (s : Ingest R) (h : IsInOrder log s)
      → map (λ g. g.0) h.gone ++ (s.batch ++ s.queue)
        ≡ map (λ g. g.0) (h.gone ++ marked ok s.batch) ++ ([] ++ s.queue)
  moved log ok s h =
      sym (append_assoc (map (λ g. g.0) h.gone) s.batch s.queue)
      ∙ ap (λ q. q ++ s.queue)
          (ap (λ q. map (λ g. g.0) h.gone ++ q) (sym (names-marked ok s.batch))
            ∙ sym (map-append (λ g. g.0) h.gone (marked ok s.batch)))

  on_msg-room :
      (m : Message R) (s : Ingest R)
      → ltb (length s.queue) maxsize ≡ true
      → on_msg m s ≡ record s { queue = s.queue ++ m ∷ [] }
  unfolding on_msg
  on_msg-room m s room = simp room

  on_msg-full :
      (m : Message R) (s : Ingest R) → ltb (length s.queue) maxsize ≡ false → on_msg m s ≡ s
  unfolding on_msg
  on_msg-full m s full = simp full

  flush-IsInOrder :
      (log : List (Message R)) (ok : Bool) (s : Ingest R)
      → IsInOrder log s
      → IsInOrder log (flush ok s)
  unfolding flush
  flush-IsInOrder log true s h = record {
    gone = h.gone ++ marked true s.batch;
    same = h.same ∙ moved log true s h;
    written = ap (λ q. q ++ s.batch) h.written ∙ sym (kept-marked (λ b. b) true h.gone s.batch);
    missed = h.missed ∙ sym (kept-marked not true h.gone s.batch ∙ append-nil _);
    queue_bound = h.queue_bound;
    batch_bound = omega arith;
  }
  flush-IsInOrder log false s h = record {
    gone = h.gone ++ marked false s.batch;
    same = h.same ∙ moved log false s h;
    written = h.written ∙ sym (kept-marked (λ b. b) false h.gone s.batch ∙ append-nil _);
    missed = ap (λ q. q ++ s.batch) h.missed ∙ sym (kept-marked not false h.gone s.batch);
    queue_bound = h.queue_bound;
    batch_bound = omega arith;
  }

  on_msg-IsInOrder :
      (log : List (Message R)) (s : Ingest R) (m : Message R)
      → ltb (length s.queue) maxsize ≡ true
      → IsInOrder log s
      → IsInOrder (log ++ m ∷ []) (on_msg m s)
  on_msg-IsInOrder log s m room h =
      subst (IsInOrder (log ++ m ∷ [])) (sym (on_msg-room m s room)) (record {
        gone = h.gone;
        same =
            ap (λ q. q ++ m ∷ []) h.same
            ∙ append_assoc (map (λ g. g.0) h.gone) (s.batch ++ s.queue) (m ∷ [])
            ∙ ap (λ q. map (λ g. g.0) h.gone ++ q) (append_assoc s.batch s.queue (m ∷ []));
        written = h.written;
        missed = h.missed;
        queue_bound =
            rw (length-append s.queue (m ∷ []))
              (omega (arith, ltb→lt (length s.queue) maxsize room));
        batch_bound = h.batch_bound;
      })

  Write-IsInOrder :
      (log : List (Message R)) (s s' : Ingest R) → Write s s' → IsInOrder log s → IsInOrder log s'
  Write-IsInOrder log _ _ (Write.started s e) h =
      fill-IsInOrder log s (take_one s) (take_one-IsFill s (rw e (omega arith))) h
  Write-IsInOrder log _ _ (Write.filled n s) h = fill-IsInOrder log s (fill n s) (fill-IsFill n s) h
  Write-IsInOrder log _ _ (Write.flushed ok s) h = flush-IsInOrder log ok s h

  -- In every state of the ingest the queue holds at most 50000 messages and the batch at most 500, and the
  -- accepted messages are, in their order: those that left, the batch, and the queue. Of those that left the
  -- table has the written ones, and the other ones, of the batches whose insert failed, are in no table. No
  -- message is written twice or out of order.
  pub Run-IsInOrder : (log : List (Message R)) (s : Ingest R) → Run log s → IsInOrder log s
  Run-IsInOrder _ _ Run.begin = record {
    gone = [];
    same = refl;
    written = refl;
    missed = refl;
    queue_bound = omega arith;
    batch_bound = omega arith;
  }
  Run-IsInOrder _ _ (Run.accepted log s m before room) =
      on_msg-IsInOrder log s m room (Run-IsInOrder log s before)
  Run-IsInOrder _ _ (Run.dropped log s m before full) =
      subst (IsInOrder log) (sym (on_msg-full m s full)) (Run-IsInOrder log s before)
  Run-IsInOrder _ _ (Run.wrote log s s' before step) =
      Write-IsInOrder log s s' step (Run-IsInOrder log s before)
