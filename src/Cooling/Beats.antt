-- ===== src/Cooling/Beats.antt =====
-- What the steps keep: the calls of `fsync`, the length of the journal, and the storms against the requests.
use abb_accelerator_submissi.Prelude.{
  ℕ, zero, suc, ◌+◌, ◌/◌, ◌≤◌, ◌<◌, ◌%◌, ◌≡◌, refl, sym, subst, ◌⊎◌, inl, inr, Bool, not, ◌&&◌,
  true, false, some, List, [], ◌∷◌, ◌++◌, String, length, length-append, arith, Bool-cases,
  if◌then◌else◌, Float, ◌==◌, text_key, number_key,
}
use abb_accelerator_submissi.Cooling.{
  Settings, Phase, Cooling, Event, replicate, is_flush, syncs, heartbeat, loop_step, fio_command,
}

-- `b` as a number.
abbrev pub one_if : Bool → ℕ
one_if b = if b then 1 else 0

-- The requests that arm a storm.
abbrev pub arms : {R : Type 0} → List (Event R) → ℕ
arms [] = 0
arms (Event.post path ∷ events) = one_if (is_flush path) + arms events
arms (Event.round now ∷ events) = arms events

abbrev pub is_storming : Phase → Bool
is_storming Phase.storming = true
is_storming _ = false

-- A flag is in place wherever the loop is about to remove it.
abbrev pub IsFlagged : Phase → Bool → Type 0
IsFlagged Phase.removing flag = flag ≡ true
IsFlagged _ flag = Unit

-- A state after `armed` requests.
pub record IsTidy {R : Type 0} (set : Settings R) (armed : ℕ) (s : Cooling R) : Type 0 where
  pub synced :
      s.fsyncs ≡ (if set.journal_fsync_every == 0 then 0 else s.writes / set.journal_fsync_every)
  pub short : (s.writes ≡ 0) ⊎ (length s.thermal_log ≡ set.journal_lines)
  pub flagged : IsFlagged s.phase s.flag
  pub paid : length s.ran + (one_if s.flag + one_if (is_storming s.phase)) ≤ armed

length-replicate {ℓ} : {A : Type ℓ} (n : ℕ) (a : A) → length (replicate n a) ≡ n
unfolding replicate
length-replicate zero a = omega arith
length-replicate (suc n) a = omega (arith, length-replicate n a)

div-suc : (w k : ℕ) → 0 < k → (w + 1) / k ≡ w / k + one_if ((w + 1) % k == 0)
div-suc w k h = elim (Bool-cases ((w + 1) % k == 0)) [
  | inl e ↦ rw e (grind (arith, number_key.same_iff ((w + 1) % k) 0))
  | inr e ↦ rw e (grind (arith, number_key.same_iff ((w + 1) % k) 0))
]

next-quotient :
    (w k n : ℕ)
    → n ≡ (if k == 0 then 0 else w / k)
    → (if not (k == 0) && ((w + 1) % k == 0) then n + 1 else n)
      ≡ (if k == 0 then 0 else (w + 1) / k)
next-quotient w k n h = elim (Bool-cases (k == 0)) [
  | inl e ↦ rw e (rw e at h)
  | inr e ↦ rw (e, div-suc w k (ground (arith, number_key.same_iff k 0))) (ground arith)
]

pub Phase-cases :
    (p : Phase)
    → (p ≡ Phase.beating) ⊎ (p ≡ Phase.checking) ⊎ (p ≡ Phase.removing) ⊎ (p ≡ Phase.storming)
Phase-cases Phase.beating = inl refl
Phase-cases Phase.checking = inr (inl refl)
Phase-cases Phase.removing = inr (inr (inl refl))
Phase-cases Phase.storming = inr (inr (inr refl))

module _ {R : Type 0} ⦃f : Float R⦄ (set : Settings R) (line : R → String) where
  -- What a heartbeat that is due writes.
  abbrev pub written : R → Cooling R → Cooling R
  written now s = record s {
    thermal_log = replicate set.journal_lines (line now);
    writes = s.writes + 1;
    fsyncs = if syncs set (s.writes + 1) then s.fsyncs + 1 else s.fsyncs;
    last_journal = now;
  }

  pub heartbeat-cases :
      (now : R) (s : Cooling R)
      → (heartbeat set line now s ≡ written now s) ⊎ (heartbeat set line now s ≡ s)
  unfolding heartbeat
  heartbeat-cases now s = elim (Bool-cases (f.le set.journal_period_s (f.sub now s.last_journal))) [
    | inl due ↦ inl (simp (due))
    | inr early ↦ inr (simp (early))
  ]

  heartbeat-IsTidy :
      (now : R) (armed : ℕ) (s : Cooling R)
      → IsTidy set armed s
      → s.phase ≡ Phase.beating
      → IsTidy set armed (record (heartbeat set line now s) { phase = Phase.checking })
  heartbeat-IsTidy now armed s h e = elim (heartbeat-cases now s) [
    | inl due ↦
        subst (λ t. IsTidy set armed (record t { phase = Phase.checking })) (sym due)
          (record {
            synced = next-quotient s.writes set.journal_fsync_every s.fsyncs h.synced;
            short = inr (length-replicate set.journal_lines (line now));
            flagged = tt;
            paid = omega (arith, h.paid);
          })
    | inr early ↦
        subst (λ t. IsTidy set armed (record t { phase = Phase.checking })) (sym early)
          (record {
            synced = h.synced;
            short = h.short;
            flagged = tt;
            paid = omega (arith, h.paid);
          })
  ]

  -- The steps of the loop, by its place.
  pub loop_step-beating :
      (now : R) (s : Cooling R)
      → s.phase ≡ Phase.beating
      → loop_step set line now s
        ≡ some (record (heartbeat set line now s) { phase = Phase.checking })
  unfolding loop_step
  loop_step-beating now s e = rw e refl

  pub loop_step-checking :
      (now : R) (s : Cooling R)
      → s.phase ≡ Phase.checking
      → loop_step set line now s
        ≡ some (record s { phase = if s.flag then Phase.removing else Phase.beating })
  unfolding loop_step
  loop_step-checking now s e = rw e refl

  pub loop_step-removing :
      (now : R) (s : Cooling R)
      → s.phase ≡ Phase.removing
      → s.flag ≡ true
      → loop_step set line now s ≡ some (record s { phase = Phase.storming; flag = false })
  unfolding loop_step
  loop_step-removing now s e up = rw (e, up) refl

  pub loop_step-storming :
      (now : R) (s : Cooling R)
      → s.phase ≡ Phase.storming
      → loop_step set line now s
        ≡ some (record s { phase = Phase.beating; ran = s.ran ++ fio_command set ∷ [] })
  unfolding loop_step
  loop_step-storming now s e = rw e refl

  checked-IsTidy :
      (armed : ℕ) (s : Cooling R)
      → IsTidy set armed s
      → IsTidy set armed (record s { phase = if s.flag then Phase.removing else Phase.beating })
  checked-IsTidy armed s h = elim (Bool-cases s.flag) [
    | inl e ↦ record {
      synced = h.synced;
      short = h.short;
      flagged = rw e refl;
      paid = rw e (omega (arith, rw e at h.paid));
    }
    | inr e ↦ record {
      synced = h.synced;
      short = h.short;
      flagged = rw e tt;
      paid = rw e (omega (arith, rw e at h.paid));
    }
  ]

  pub loop_step-IsTidy :
      (now : R) (armed : ℕ) (s : Cooling R)
      → IsTidy set armed s
      → (s' : Cooling R) × (loop_step set line now s ≡ some s') × IsTidy set armed s'
  loop_step-IsTidy now armed s h = elim (Phase-cases s.phase) [
    | inl e ↦ (_, loop_step-beating now s e, heartbeat-IsTidy now armed s h e)
    | inr (inl e) ↦ (_, loop_step-checking now s e, checked-IsTidy armed s h)
    | inr (inr (inl e)) ↦
        let up : s.flag ≡ true = rw e at h.flagged in
        (
          _,
          loop_step-removing now s e up,
          record {
            synced = h.synced;
            short = h.short;
            flagged = tt;
            paid = omega (arith, rw (e, up) at h.paid);
          },
        )
    | inr (inr (inr e)) ↦ (
      _,
      loop_step-storming now s e,
      record {
        synced = h.synced;
        short = h.short;
        flagged = tt;
        paid = rw (length-append s.ran (fio_command set ∷ [])) (omega (arith, rw e at h.paid));
      },
    )
  ]

  pub flag-IsTidy :
      (armed : ℕ) (s : Cooling R)
      → IsTidy set armed s
      → IsTidy set (armed + 1) (record s { flag = true })
  flag-IsTidy armed s h = record {
    synced = h.synced;
    short = h.short;
    flagged = ground (arith, h.flagged);
    paid = ground (arith, h.paid);
  }
