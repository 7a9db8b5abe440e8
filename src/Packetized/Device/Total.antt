-- ===== src/Packetized/Device/Total.antt =====
-- `vb_device.pem` and `request_accepted` (packetized/vb_device.py) return: where the texts of the
-- simulator parse there is no exception, and the recursion of `pem` is two calls deep at most.
use grip_absorption_pipeline.Base.{
  ℕ, suc, ◌+◌, ◌≡◌, Bool, true, false, Option, none, some, ltb, Bool-cases, inl, inr,
}
use grip_absorption_pipeline.Base.Exec.{
  Exec, Returns, >>=-Returns, Ensures-Returns, Ensures-map, ◌>>=◌,
}
use grip_absorption_pipeline.Num.{Num, NumZero}
use grip_absorption_pipeline.Gridlab.{Gridlab}
use grip_absorption_pipeline.Packetized.World.{World}
use grip_absorption_pipeline.Packetized.Reading.{update_from_gld}
use grip_absorption_pipeline.Packetized.Ready.{IsReady, update_from_gld-Returns}
use grip_absorption_pipeline.Packetized.CheckStat.{Stat, request, check_stat}
use grip_absorption_pipeline.Packetized.CheckStat
use grip_absorption_pipeline.Packetized.CheckStat.Total.{check_stat-Returns}
use grip_absorption_pipeline.Packetized.Device.{
  PemState, pem_off, pem_on, exit_off, exit_on, Effect, VbDevice, Answer, update, when_off, restart,
  when_on, when_exit, dispatch, check_exits, pem, ask, come_back, then_exits, exit_to, exit_if_high,
  exit_if_low, accept, request_accepted,
}
use grip_absorption_pipeline.Packetized.Device.During.{During}
use grip_absorption_pipeline.Packetized.Device.Step.{Stepped, Updated, Granted}
use grip_absorption_pipeline.Packetized.Device.Follows.{
  update-Updated, pem-Stepped, request_accepted-Granted,
}

module _ {F Sim : Type 0} ⦃num : Num F⦄ ⦃gld : Gridlab Sim⦄ (zero_laws : NumZero F) where
  abbrev pub Readily : {A : Type 0} → Exec (World F Sim) A → Type 0
  Readily m = (w : World F Sim) → IsReady w → Returns (λ _ w'. IsReady w') (m w)

  pub Readily-bind :
      {A B : Type 0} (m : Exec (World F Sim) A) (f : A → Exec (World F Sim) B)
      → Readily m
      → ((a : A) → Readily (f a))
      → (w : World F Sim) → IsReady w
      → Returns (λ _ w'. IsReady w') (◌>>=◌ m f w)
  Readily-bind m f hm hf w ready =
      >>=-Returns (λ _ w'. IsReady w') (λ _ w'. IsReady w') f m w (hm w ready) hf

  pub update-Readily :
      (d : VbDevice F) (s : Option PemState) (e : Option ℕ) → Readily (update d s e)
  unfolding update
  update-Readily d s e w ready =
      >>=-Returns (λ _ w'. IsReady w') (λ _ w'. IsReady w') _ (update_from_gld d.device_id) w
        (update_from_gld-Returns zero_laws d.device_id w ready) (λ _ _ ready'. ready')

  check-Readily : (d : VbDevice F) (s : Stat) (h : ℕ) → Readily (check_stat d.device_id s h)
  check-Readily d s h w ready = check_stat-Returns zero_laws d.device_id s h w ready

  exit_to-Readily : (d : VbDevice F) (s : PemState) (e : Effect F) → Readily (exit_to d s e)
  unfolding exit_to
  exit_to-Readily d s e w ready =
      Readily-bind (update d (some s) (some 0)) _ (update-Readily d (some s) (some 0))
        (λ _ _ ready'. ready') w ready

  exit_if_high-Readily : (d : VbDevice F) (b : Bool) → Readily (exit_if_high d b)
  unfolding exit_if_high
  exit_if_high-Readily d true w ready = exit_to-Readily d exit_off _ w ready
  exit_if_high-Readily d false w ready = ready

  exit_if_low-Readily : (d : VbDevice F) (b : Bool) → Readily (exit_if_low d b)
  unfolding exit_if_low
  exit_if_low-Readily d true w ready = exit_to-Readily d exit_on _ w ready
  exit_if_low-Readily d false w ready =
      Readily-bind (check_stat d.device_id CheckStat.exit_off 0) _
        (check-Readily d CheckStat.exit_off 0) (exit_if_high-Readily d) w ready

  then_exits-Readily : (a : Answer F) → Readily (then_exits a)
  unfolding then_exits check_exits
  then_exits-Readily (d, effect) w ready =
      Readily-bind (check_exits d) _
        (λ w1 r1.
          Readily-bind (check_stat d.device_id CheckStat.exit_on 0) _
            (check-Readily d CheckStat.exit_on 0) (exit_if_low-Readily d) w1 r1)
        (λ _ _ ready'. ready') w ready

  ask-Readily : (d : VbDevice F) (t : ℕ) (b : Bool) → Readily (ask d t b)
  unfolding ask
  ask-Readily d t b w ready =
      Readily-bind (update d none (some (t + 30))) _ (update-Readily d none (some (t + 30)))
        (λ _ _ ready'. ready') w ready

  when_off-Readily : (d : VbDevice F) (t : ℕ) → Readily (when_off d t)
  unfolding when_off
  when_off-Readily d t w ready = elim (Bool-cases (ltb t d.state_ends_at)) [
    | inl early ↦ rw early ready
    | inr late ↦ rw late (
        Readily-bind (check_stat d.device_id request 0) _ (check-Readily d request 0)
          (ask-Readily d t) w ready)
  ]

  -- The inner call of `pem`, which is only made on an idle device.
  abbrev IdleReadily : (VbDevice F → ℕ → Exec (World F Sim) (Answer F)) → Type 0
  IdleReadily rest = (d : VbDevice F) (t : ℕ) → d.pem_state ≡ pem_off → Readily (rest d t)

  module _ (rest : VbDevice F → ℕ → Exec (World F Sim) (Answer F)) (inner : IdleReadily rest) where
    restart-Readily : (d : VbDevice F) (t : ℕ) → Readily (restart rest d t)
    unfolding restart
    restart-Readily d t w ready =
        >>=-Returns
          (λ next w'.
            (Updated d (some pem_off) (some t) next × During d.device_id w w') × IsReady w')
          (λ _ w'. IsReady w') _ (update d (some pem_off) (some t)) w
          (Ensures-Returns _ _ (update d (some pem_off) (some t) w)
            (update-Updated d (some pem_off) (some t) w)
            (update-Readily d (some pem_off) (some t) w ready))
          (λ next w1 ((u, _), r1). inner next t u.state w1 r1)

    come_back-Readily : (b : Bool) (d : VbDevice F) (t : ℕ) → Readily (come_back rest b d t)
    unfolding come_back
    come_back-Readily true d t w ready = ready
    come_back-Readily false d t w ready =
        Readily-bind (restart rest d t) _ (restart-Readily d t) (λ _ _ ready'. ready') w ready

    when_exit-Readily : (s : Stat) (d : VbDevice F) (t : ℕ) → Readily (when_exit rest s d t)
    unfolding when_exit
    when_exit-Readily s d t w ready =
        Readily-bind (check_stat d.device_id s 2) _ (check-Readily d s 2)
          (λ b. come_back-Readily b d t) w ready

    dispatch-Readily : (s : PemState) (d : VbDevice F) (t : ℕ) → Readily (dispatch rest s d t)
    unfolding dispatch when_on
    dispatch-Readily pem_off d t w ready = when_off-Readily d t w ready
    dispatch-Readily pem_on d t w ready = elim (Bool-cases (ltb t d.state_ends_at)) [
      | inl early ↦ rw early ready
      | inr late ↦ rw late (restart-Readily d t w ready)
    ]
    dispatch-Readily exit_off d t w ready = when_exit-Readily CheckStat.exit_off d t w ready
    dispatch-Readily exit_on d t w ready = when_exit-Readily CheckStat.exit_on d t w ready

  dispatch_idle-Readily :
      (rest : VbDevice F → ℕ → Exec (World F Sim) (Answer F)) (s : PemState) (d : VbDevice F)
      (t : ℕ)
      → s ≡ pem_off
      → Readily (dispatch rest s d t)
  unfolding dispatch
  dispatch_idle-Readily rest pem_off d t e w ready = when_off-Readily d t w ready
  dispatch_idle-Readily rest pem_on d t e w ready = cc
  dispatch_idle-Readily rest exit_off d t e w ready = cc
  dispatch_idle-Readily rest exit_on d t e w ready = cc

  pem_idle-Readily : (fuel : ℕ) → IdleReadily (pem (suc fuel))
  unfolding pem
  pem_idle-Readily fuel d t idle w ready =
      Readily-bind (dispatch (pem fuel) d.pem_state d t) then_exits
        (dispatch_idle-Readily (pem fuel) d.pem_state d t idle) then_exits-Readily w ready

  pub pem-Readily : (fuel : ℕ) (d : VbDevice F) (t : ℕ) → Readily (pem (suc (suc fuel)) d t)
  unfolding pem
  pem-Readily fuel d t w ready =
      Readily-bind (dispatch (pem (suc fuel)) d.pem_state d t) then_exits
        (dispatch-Readily (pem (suc fuel)) (pem_idle-Readily fuel) d.pem_state d t)
        then_exits-Readily w ready

  -- From a world whose texts parse, `pem` with fuel of two or more returns, for every device and
  -- time; its answer is a step of the state machine, for the temperatures that the object of the
  -- device shows during the call, and the texts still parse.
  pub pem-Returns :
      (fuel : ℕ) (d : VbDevice F) (t : ℕ) (w : World F Sim)
      → IsReady w
      → Returns (λ a w'. Stepped w t d a × IsReady w') (pem (suc (suc fuel)) d t w)
  pem-Returns fuel d t w ready =
      Ensures-Returns _ _ (pem (suc (suc fuel)) d t w)
        (Ensures-map (pem (suc (suc fuel)) d t w) (pem-Stepped (suc (suc fuel)) t d w)
          (λ a w' s. s.0))
        (pem-Readily fuel d t w ready)

  accept-Readily : (s : PemState) (d : VbDevice F) (t : ℕ) → Readily (accept s d t)
  unfolding accept
  accept-Readily pem_off d t w ready =
      Readily-bind (update d (some pem_on) (some (t + 180))) _
        (update-Readily d (some pem_on) (some (t + 180))) (λ _ _ ready'. ready') w ready
  accept-Readily pem_on d t w ready = ready
  accept-Readily exit_off d t w ready = ready
  accept-Readily exit_on d t w ready = ready

  pub request_accepted-Readily : (d : VbDevice F) (t : ℕ) → Readily (request_accepted d t)
  unfolding request_accepted
  request_accepted-Readily d t w ready = accept-Readily d.pem_state d t w ready

  -- From such a world `request_accepted` returns, and grants a packet to an idle device only.
  pub request_accepted-Returns :
      (d : VbDevice F) (t : ℕ) (w : World F Sim)
      → IsReady w
      → Returns (λ a w'. Granted t d a × IsReady w') (request_accepted d t w)
  unfolding request_accepted
  request_accepted-Returns d t w ready =
      Ensures-Returns _ _ (accept d.pem_state d t w) (request_accepted-Granted d t w)
        (accept-Readily d.pem_state d t w ready)
