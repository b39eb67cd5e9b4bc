-- ===== src/Cooling/Runs.antt =====
-- The loop under any requests.
use abb_accelerator_submissi.Prelude.{
  ℕ, ◌+◌, ◌≡◌, refl, subst, inl, inr, Bool, true, some, List, [], ◌∷◌, String, arith, Bool-cases,
  Float, text_key, number_key,
}
use abb_accelerator_submissi.Cooling.{
  Settings, Cooling, Event, is_flush, do_post, event_step, run, started,
}
use abb_accelerator_submissi.Cooling.Beats.{IsTidy, arms, one_if, loop_step-IsTidy, flag-IsTidy}

module _ {R : Type 0} ⦃f : Float R⦄ (set : Settings R) (line : R → String) where
  pub event_step-IsTidy :
      (e : Event R) (armed : ℕ) (s : Cooling R)
      → IsTidy set armed s
      → (s' : Cooling R) × (event_step set line e s ≡ some s')
        × IsTidy set (armed + arms (e ∷ [])) s'
  unfolding event_step do_post
  event_step-IsTidy (Event.round now) armed s h =
      let (s', same, tidy) = loop_step-IsTidy set line now armed s h in
      (s', same, subst (λ n. IsTidy set n s') (omega arith) tidy)
  event_step-IsTidy (Event.post path) armed s h = elim (Bool-cases (is_flush path)) [
    | inl e ↦ (record s { flag = true }, simp e, rw e (flag-IsTidy set line armed s h))
    | inr e ↦ (s, simp e, rw e (subst (λ n. IsTidy set n s) (omega arith) h))
  ]

  arms-next :
      (e : Event R) (events : List (Event R)) (armed : ℕ)
      → armed + arms (e ∷ []) + arms events ≡ armed + arms (e ∷ events)
  arms-next (Event.post path) events armed = omega arith
  arms-next (Event.round now) events armed = omega arith

  pub run-IsTidy_from :
      (events : List (Event R)) (armed : ℕ) (s : Cooling R)
      → IsTidy set armed s
      → (s' : Cooling R) × (run set line events s ≡ some s') × IsTidy set (armed + arms events) s'
  unfolding run
  run-IsTidy_from [] armed s h = (s, refl, subst (λ n. IsTidy set n s) (omega arith) h)
  run-IsTidy_from (e ∷ events) armed s h =
      let (next, same, tidy) = event_step-IsTidy e armed s h in
      let (s', over, kept) = run-IsTidy_from events (armed + arms (e ∷ [])) next tidy in
      (s', rw (same, run) over, subst (λ n. IsTidy set n s') (arms-next e events armed) kept)

  -- From its start, under any sequence of requests and steps of the loop, the monitor goes on: the loop never removes
  -- a flag that is not there. Without `JOURNAL_FSYNC_EVERY` it has made no call of `fsync`, with it one in that many
  -- heartbeats, rounded down. The journal has the lines of one heartbeat, once there was one. The storms that ran,
  -- that run and that are due are at most the requests that armed one, and the flag that the start found.
  pub run-IsTidy :
      (events : List (Event R)) (flag : Bool) (log : List String)
      → (s : Cooling R) × (run set line events (started flag log) ≡ some s)
        × IsTidy set (one_if flag + arms events) s
  run-IsTidy events flag log = run-IsTidy_from events (one_if flag) (started flag log) (record {
    synced = ground (arith, number_key.same_iff set.journal_fsync_every 0);
    short = inl refl;
    flagged = tt;
    paid = omega arith;
  })
