-- ===== src/Packetized/Device/Follows.antt =====
-- `vb_device.pem` (packetized/vb_device.py) follows the state machine.
use grip_absorption_pipeline.Base.{
  ℕ, zero, suc, ◌+◌, ◌≡◌, refl, inl, inr, Bool, true, false, Option, none, some, arith, ◌∙◌, ltb,
  ◌≤◌, Bool-cases, sym, subst, if◌then◌else◌,
}
use grip_absorption_pipeline.Base.Exec.{
  Exec, Result, ok, err, continue, Ensures, ◌>>=◌, >>=-Ensures, Ensures-map,
}
use grip_absorption_pipeline.Num.{Num}
use grip_absorption_pipeline.Gridlab.{Gridlab}
use grip_absorption_pipeline.Packetized.World.{World}
use grip_absorption_pipeline.Packetized.Reading.{update_from_gld}
use grip_absorption_pipeline.Packetized.CheckStat.{control_epoch_sec, request, check_stat}
use grip_absorption_pipeline.Packetized.CheckStat
use grip_absorption_pipeline.Packetized.CheckStat.Bands.{
  needs_on, needs_off, check_stat-on, check_stat-off,
}
use grip_absorption_pipeline.Packetized.Device.{
  PemState, pem_off, pem_on, exit_off, exit_on, power_request, turn_on, turn_off, VbDevice, Answer,
  first_effect, turn_on_effect, turn_off_effect, update, when_off, restart, when_on, when_exit,
  dispatch, check_exits, pem, ask, come_back, then_exits, exit_to, exit_if_high, exit_if_low,
  accept, request_accepted,
}
use grip_absorption_pipeline.Packetized.Device.During.{
  still_low, still_high, back_low, back_high, IsStill, IsBack, During, start, reads, rolls,
  During-trans, IsLow, IsHigh,
}
use grip_absorption_pipeline.Packetized.Device.Step.{
  given_end-pos, waits, asks, declines, holds, stays, Stepped, Moved, ExitStep, inside, low, high,
  Updated, packet_over, back_inside, exits_after, Granted,
}

result-Ensures : {S A : Type 0} (r : Result A × S) → Ensures (λ a s. r ≡ (ok a, s)) r
result-Ensures (ok a, s) = refl
result-Ensures (err e, s) = tt

>>=-Ensures_eq :
    {S A B : Type 0} (Q : B → S → Type 0) (f : A → Exec S B) (m : Exec S A) (s : S) {a : A} {s' : S}
    → m s ≡ (ok a, s')
    → Ensures Q (f a s')
    → Ensures Q ((m >>= f) s)
>>=-Ensures_eq Q f m s {a} {s'} e h = subst (λ r. Ensures Q (continue f r.0 r.1)) (sym e) h

module _ {F Sim : Type 0} ⦃num : Num F⦄ ⦃gld : Gridlab Sim⦄ where
  pub update-Updated :
      (d : VbDevice F) (s : Option PemState) (e : Option ℕ) (w : World F Sim)
      → Ensures (λ next w'. Updated d s e next × During d.device_id w w') (update d s e w)
  unfolding update
  update-Updated d s e w =
      >>=-Ensures (λ _ w'. update_from_gld d.device_id w ≡ (ok tt, w'))
        (λ next w'. Updated d s e next × During d.device_id w w') _ (update_from_gld d.device_id) w
        (result-Ensures (update_from_gld d.device_id w))
        (λ _ _ e. (record { same_id = refl; state = refl; ends = refl }, reads start e))

  -- the result of an update, with the states in between
  abbrev UpdatedIn :
      World F Sim → VbDevice F → Option PemState → Option ℕ → VbDevice F → World F Sim → Type 0
  UpdatedIn w d s e next w' = Updated d s e next × During d.device_id w w'

  abbrev ExitsIn : World F Sim → VbDevice F → Answer F → World F Sim → Type 0
  ExitsIn w d a w' = ExitStep w d a × During d.device_id w w'

  exit_to-low :
      (d : VbDevice F) (w : World F Sim)
      → IsLow (w.heap d.device_id)
      → Ensures (ExitsIn w d) (exit_to d exit_on (turn_on (turn_on_effect d)) w)
  unfolding exit_to
  exit_to-low d w at =
      >>=-Ensures (UpdatedIn w d (some exit_on) (some 0)) (ExitsIn w d) _
        (update d (some exit_on) (some 0)) w (update-Updated d (some exit_on) (some 0) w)
        (λ next _ (u, p). (low at u.same_id u.state (turn_on_effect d, refl, refl), p))

  exit_to-high :
      (d : VbDevice F) (w : World F Sim)
      → IsHigh (w.heap d.device_id)
      → Ensures (ExitsIn w d) (exit_to d exit_off (turn_off (turn_off_effect d)) w)
  unfolding exit_to
  exit_to-high d w at =
      >>=-Ensures (UpdatedIn w d (some exit_off) (some 0)) (ExitsIn w d) _
        (update d (some exit_off) (some 0)) w (update-Updated d (some exit_off) (some 0) w)
        (λ next _ (u, p). (high at u.same_id u.state refl, p))

  exit_if_high-ExitStep :
      (d : VbDevice F) (b : Bool) (w : World F Sim)
      → needs_on (w.heap d.device_id) 0 ≡ false
      → needs_off (w.heap d.device_id) 0 ≡ b
      → Ensures (ExitsIn w d) (exit_if_high d b w)
  unfolding exit_if_high
  exit_if_high-ExitStep d true w n h = exit_to-high d w (n, h)
  exit_if_high-ExitStep d false w n h = (inside (n, h) refl refl, start)

  exit_if_low-ExitStep :
      (d : VbDevice F) (b : Bool) (w : World F Sim)
      → needs_on (w.heap d.device_id) 0 ≡ b
      → Ensures (ExitsIn w d) (exit_if_low d b w)
  unfolding exit_if_low
  exit_if_low-ExitStep d true w n = exit_to-low d w n
  exit_if_low-ExitStep d false w n =
      >>=-Ensures_eq (ExitsIn w d) _ (check_stat d.device_id CheckStat.exit_off 0) w
        (check_stat-off d.device_id 0 w) (exit_if_high-ExitStep d _ w n refl)

  check_exits-ExitStep :
      (d : VbDevice F) (w : World F Sim) → Ensures (ExitsIn w d) (check_exits d w)
  unfolding check_exits
  check_exits-ExitStep d w =
      >>=-Ensures_eq (ExitsIn w d) _ (check_stat d.device_id CheckStat.exit_on 0) w
        (check_stat-on d.device_id 0 w) (exit_if_low-ExitStep d _ w refl)

  -- a step, with the states in between
  abbrev MovedIn : World F Sim → ℕ → VbDevice F → Answer F → World F Sim → Type 0
  MovedIn w t d a w' = Moved w t d a × During d.device_id w w'

  abbrev SteppedIn : World F Sim → ℕ → VbDevice F → Answer F → World F Sim → Type 0
  SteppedIn w t d a w' = Stepped w t d a × During d.device_id w w'

  ask-Moved :
      (t : ℕ) (d : VbDevice F) (b : Bool) (w v : World F Sim)
      → d.state_ends_at ≤ t
      → check_stat d.device_id request 0 w ≡ (ok b, v)
      → d.pem_state ≡ pem_off
      → Ensures (MovedIn w t d) (ask d t b v)
  unfolding ask
  ask-Moved t d b w v late e idle =
      >>=-Ensures (UpdatedIn v d none (some (t + 30))) (MovedIn w t d) _
        (update d none (some (t + 30))) v (update-Updated d none (some (t + 30)) v)
        λ next _ (u, p). (asked b e next u, During-trans (rolls start e) p)
    where
      asked :
          (b : Bool)
          → check_stat d.device_id request 0 w ≡ (ok b, v)
          → (next : VbDevice F) → Updated d none (some (t + 30)) next
          → Moved w t d (
            next,
            some (
                if b
                then power_request (record {
                  device_id = d.device_id;
                  kw = d.last_power_draw_kw;
                  sec = control_epoch_sec;
                })
                else turn_off (turn_off_effect d)),
          )
      asked true e next u = record {
        same_id = u.same_id;
        step =
            asks (inl late) (w, v, start, e) (u.state ∙ idle)
              (u.ends ∙ given_end-pos (t + 30) d.state_ends_at (omega arith)) (_, refl, refl, refl);
      }
      asked false e next u = record {
        same_id = u.same_id;
        step =
            declines (inl late) (w, v, start, e) (u.state ∙ idle)
              (u.ends ∙ given_end-pos (t + 30) d.state_ends_at (omega arith)) refl;
      }

  when_off-Moved :
      (t : ℕ) (d : VbDevice F) (w : World F Sim)
      → d.pem_state ≡ pem_off
      → Ensures (MovedIn w t d) (when_off d t w)
  unfolding when_off
  when_off-Moved t d w idle = elim (Bool-cases (ltb t d.state_ends_at)) [
    | inl early ↦
        rw early (record { same_id = refl; step = waits idle (ground arith) refl refl }, start)
    | inr late ↦ rw late (
        >>=-Ensures (λ b v. check_stat d.device_id request 0 w ≡ (ok b, v)) (MovedIn w t d) _
          (check_stat d.device_id request 0) w (result-Ensures (check_stat d.device_id request 0 w))
          (λ b v e. ask-Moved t d b w v (ground arith) e idle))
  ]

  -- `rest` is the inner call of `pem`.
  abbrev Follows : (VbDevice F → ℕ → Exec (World F Sim) (Answer F)) → Type 0
  Follows rest = (t : ℕ) (d : VbDevice F) (w : World F Sim) → Ensures (SteppedIn w t d) (rest d t w)

  module _ (rest : VbDevice F → ℕ → Exec (World F Sim) (Answer F)) (follows : Follows rest) where
    -- back to idle, and what the inner call makes of it
    restart-Stepped :
        (Q : Answer F → World F Sim → Type 0) (t : ℕ) (d : VbDevice F) (w : World F Sim)
        → ((next : VbDevice F) (v : World F Sim) (a : Answer F)
            → Updated d (some pem_off) (some t) next
            → During d.device_id w v
            → Stepped v t next a
            → (w' : World F Sim) → During d.device_id w w'
            → Q a w')
        → Ensures Q (restart rest d t w)
    unfolding restart
    restart-Stepped Q t d w k =
        >>=-Ensures (UpdatedIn w d (some pem_off) (some t)) Q _ (update d (some pem_off) (some t)) w
          (update-Updated d (some pem_off) (some t) w)
          λ next v (u, p). Ensures-map (rest next t v) (follows t next v) (λ a w' (s, q).
            k next v a u p s w' (During-trans p (subst (λ i. During i v w') u.same_id q)))

    when_on-Moved :
        (t : ℕ) (d : VbDevice F) (w : World F Sim)
        → d.pem_state ≡ pem_on
        → Ensures (MovedIn w t d) (when_on rest d t w)
    unfolding when_on
    when_on-Moved t d w on = elim (Bool-cases (ltb t d.state_ends_at)) [
      | inl early ↦
          rw early
            (record { same_id = refl; step = holds on (ground arith) refl (_, refl, refl) }, start)
      | inr late ↦ rw late (
          restart-Stepped (MovedIn w t d) t d w (λ next v a u p s w' q. (
            record {
              same_id = s.same_id ∙ u.same_id;
              step = packet_over w v t d next a p (ground arith) u s.step;
            },
            q,
          )))
    ]

    come_back-Moved :
        (t : ℕ) (b : Bool) (d : VbDevice F) (w : World F Sim)
        → (b ≡ true → IsStill d.pem_state (w.heap d.device_id))
        → (b ≡ false → IsBack d.pem_state (w.heap d.device_id))
        → Ensures (MovedIn w t d) (come_back rest b d t w)
    unfolding come_back
    come_back-Moved t true d w still back =
        (record { same_id = refl; step = stays (w, start, still refl) refl refl }, start)
    come_back-Moved t false d w still back =
        >>=-Ensures
          (λ a w'. MovedIn w t d (a.0, first_effect a.1 (some (turn_off (turn_off_effect d)))) w')
          (MovedIn w t d) _ (restart rest d t) w
          (restart-Stepped _ t d w (λ next v a u p s w' q. (
            record {
              same_id = s.same_id ∙ u.same_id;
              step = back_inside w v t d next a p (w, start, back refl) u s.step;
            },
            q,
          )))
          (λ a w1 s. s)

    dispatch-Moved :
        (t : ℕ) (s : PemState) (d : VbDevice F) (w : World F Sim)
        → d.pem_state ≡ s
        → Ensures (MovedIn w t d) (dispatch rest s d t w)
    unfolding dispatch when_exit
    dispatch-Moved t pem_off d w e = when_off-Moved t d w e
    dispatch-Moved t pem_on d w e = when_on-Moved t d w e
    dispatch-Moved t exit_off d w e =
        >>=-Ensures_eq (MovedIn w t d) _ (check_stat d.device_id CheckStat.exit_off 2) w
          (check_stat-off d.device_id 2 w)
          (come_back-Moved t _ d w (λ b. rw e (still_high b)) (λ b. rw e (back_high b)))
    dispatch-Moved t exit_on d w e =
        >>=-Ensures_eq (MovedIn w t d) _ (check_stat d.device_id CheckStat.exit_on 2) w
          (check_stat-on d.device_id 2 w)
          (come_back-Moved t _ d w (λ b. rw e (still_low b)) (λ b. rw e (back_low b)))

  then_exits-Stepped :
      (w : World F Sim) (t : ℕ) (d : VbDevice F) (a : Answer F) (v : World F Sim)
      → MovedIn w t d a v
      → Ensures (SteppedIn w t d) (then_exits a v)
  unfolding then_exits
  then_exits-Stepped w t d (next, effect) v (s, p) =
      >>=-Ensures (ExitsIn v next) (SteppedIn w t d) _ (check_exits next) v
        (check_exits-ExitStep next v)
        (λ a v' (e, q). (
          exits_after w v t d next effect a p s e,
          During-trans p (subst (λ i. During i v v') s.same_id q),
        ))

  -- Every answer of `pem` is a step of the state machine, whatever the simulation and the rolls.
  pub pem-Stepped :
      (fuel t : ℕ) (d : VbDevice F) (w : World F Sim) → Ensures (SteppedIn w t d) (pem fuel d t w)
  unfolding pem
  pem-Stepped zero t d w = tt
  pem-Stepped (suc fuel) t d w =
      >>=-Ensures (MovedIn w t d) (SteppedIn w t d) then_exits (dispatch (pem fuel) d.pem_state d t)
        w (dispatch-Moved (pem fuel) (λ t d w. pem-Stepped fuel t d w) t d.pem_state d w refl)
        (then_exits-Stepped w t d)

  accept_state :
      (s : PemState) (d : VbDevice F) (t : ℕ) (w : World F Sim)
      → d.pem_state ≡ s
      → Ensures (λ a _. Granted t d a) (accept s d t w)
  unfolding accept
  accept_state pem_off d t w e =
      >>=-Ensures
        (λ next w'. Updated d (some pem_on) (some (t + 180)) next × During d.device_id w w')
        (λ a _. Granted t d a) _ (update d (some pem_on) (some (t + 180))) w
        (update-Updated d (some pem_on) (some (t + 180)) w)
        λ next _ (u, _). record {
          same_id = u.same_id;
          effect = refl;
          packet = inl (e, u.state, u.ends ∙ given_end-pos (t + 180) d.state_ends_at (omega arith));
        }
  accept_state pem_on d t w e = record {
    same_id = refl;
    effect = refl;
    packet = inr ((λ off. cc), refl);
  }
  accept_state exit_off d t w e = record {
    same_id = refl;
    effect = refl;
    packet = inr ((λ off. cc), refl);
  }
  accept_state exit_on d t w e = record {
    same_id = refl;
    effect = refl;
    packet = inr ((λ off. cc), refl);
  }

  -- A granted request turns its device on: an idle device gets a packet of 180 s from now, any
  -- other device stays as it is.
  pub request_accepted-Granted :
      (d : VbDevice F) (t : ℕ) (w : World F Sim)
      → Ensures (λ a _. Granted t d a) (request_accepted d t w)
  unfolding request_accepted
  request_accepted-Granted d t w = accept_state d.pem_state d t w refl
