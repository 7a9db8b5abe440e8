-- ===== src/Packetized/Device/Step.antt =====
-- The packet state machine as a relation, which `vb_device.pem` (packetized/vb_device.py) is shown
-- to follow, and how the steps of its parts compose.
use grip_absorption_pipeline.Base.{
  ℕ, zero, suc, ◌+◌, ◌≤◌, ◌<◌, String, ◌≡◌, ◌≢◌, refl, sym, ap, ◌⊎◌, inl, inr, Option, none, some,
  arith, ◌∙◌, true, false,
}
use grip_absorption_pipeline.Num.{Num}
use grip_absorption_pipeline.Gridlab.{Gridlab}
use grip_absorption_pipeline.Packetized.World.{World}
use grip_absorption_pipeline.Packetized.Device.{
  PemState, pem_off, pem_on, exit_off, exit_on, PowerRequest, Effect, power_request, turn_on,
  turn_off, TurnOn, VbDevice, Answer, first_effect, given_state, given_end, turn_off_effect,
  turn_on_effect,
}
use grip_absorption_pipeline.Packetized.Device.During.{
  IsStill, IsBack, IsLow, IsHigh, IsInside, not_still, not_back, During, Sees, Rolls, Sees-before,
  Rolls-before, IsDue,
}

pub given_end-pos : (n old : ℕ) → 0 < n → given_end (some n) old ≡ n
given_end-pos zero old h = absurd (omega arith)
given_end-pos (suc n) old h = refl

-- Only at time 0 does a device that goes idle "now" keep an old timer.
early_restart :
    (t old end : ℕ) → end ≡ given_end (some t) old → t < end → (t ≡ 0) × (end ≡ old) × (t < old)
early_restart zero old end e h = (refl, e, rw e at h)
early_restart (suc n) old end e h = absurd (omega (arith, e))

module _ {F : Type 0} where
  abbrev pub IsRequest : String → Option (Effect F) → Type 0
  IsRequest id effect =
      (r : PowerRequest F) × (effect ≡ some (power_request r)) × (r.device_id ≡ id) × (r.sec ≡ 180)

  abbrev pub IsTurnOn : String → Option (Effect F) → Type 0
  IsTurnOn id effect = (e : TurnOn F) × (effect ≡ some (turn_on e)) × (e.gld ≡ id)

  abbrev pub IsTurnOff : String → Option (Effect F) → Type 0
  IsTurnOff id effect = effect ≡ some (turn_off (record { gld = id }))

  -- What `request_accepted` answers.
  pub record Granted (t : ℕ) (d : VbDevice F) (a : VbDevice F × TurnOn F) : Type 0 where
    pub same_id : a.0.device_id ≡ d.device_id
    pub effect : a.1 ≡ turn_on_effect d
    pub packet :
        (d.pem_state ≡ pem_off) × (a.0.pem_state ≡ pem_on) × (a.0.state_ends_at ≡ t + 180)
        ⊎ (d.pem_state ≢ pem_off) × (a.0 ≡ d)

  -- What `update` leaves of its arguments.
  pub record Updated (d : VbDevice F) (s : Option PemState) (e : Option ℕ) (next : VbDevice F)
      : Type 0 where
    pub same_id : next.device_id ≡ d.device_id
    pub state : next.pem_state ≡ given_state s d.pem_state
    pub ends : next.state_ends_at ≡ given_end e d.state_ends_at

module _ {F Sim : Type 0} ⦃num : Num F⦄ ⦃gld : Gridlab Sim⦄ where
  -- One call of `pem` on `d` at time `t` from `w`: the next device, and the effect.
  pub data PemStep (w : World F Sim) (t : ℕ) (d next : VbDevice F) (effect : Option (Effect F))
      : Type 0 where
    -- an idle device before its time does nothing
    waits :
        d.pem_state ≡ pem_off
        → t < d.state_ends_at
        → next ≡ d
        → effect ≡ none
        → PemStep w t d next effect
    -- a device that is due goes idle for 30 s, and asks for a packet or is switched off
    asks :
        IsDue w t d
        → Rolls w d.device_id true
        → next.pem_state ≡ pem_off
        → next.state_ends_at ≡ t + 30
        → IsRequest d.device_id effect
        → PemStep w t d next effect
    declines :
        IsDue w t d
        → Rolls w d.device_id false
        → next.pem_state ≡ pem_off
        → next.state_ends_at ≡ t + 30
        → IsTurnOff d.device_id effect
        → PemStep w t d next effect
    -- a packet that has not ended goes on
    holds :
        d.pem_state ≡ pem_on
        → t < d.state_ends_at
        → next ≡ d
        → IsTurnOn d.device_id effect
        → PemStep w t d next effect
    -- a device out of its band, less the hysteresis, stays out
    stays :
        Sees w d.device_id (IsStill d.pem_state)
        → next ≡ d
        → effect ≡ none
        → PemStep w t d next effect
    -- at time 0 a device that comes back keeps its old timer
    comes_back :
        Sees w d.device_id (IsBack d.pem_state)
        → t ≡ 0
        → next.pem_state ≡ pem_off
        → next.state_ends_at ≡ d.state_ends_at
        → IsTurnOff d.device_id effect
        → PemStep w t d next effect
    -- out of the band: on where it needs power, off where it has too much
    leaves_low :
        Sees w d.device_id IsLow
        → next.pem_state ≡ exit_on
        → IsTurnOn d.device_id effect
        → PemStep w t d next effect
    leaves_high :
        Sees w d.device_id IsHigh
        → next.pem_state ≡ exit_off
        → IsTurnOff d.device_id effect
        → PemStep w t d next effect

  -- the last check of the band
  pub data LastCheck (w : World F Sim) (d : VbDevice F) (next : PemState) : Type 0 where
    was_inside : Sees w d.device_id IsInside → LastCheck w d next
    was_low : Sees w d.device_id IsLow → next ≡ exit_on → LastCheck w d next
    was_high : Sees w d.device_id IsHigh → next ≡ exit_off → LastCheck w d next

  pub record Stepped (w : World F Sim) (t : ℕ) (d : VbDevice F) (a : Answer F) : Type 0 where
    pub same_id : a.0.device_id ≡ d.device_id
    pub step : PemStep w t d a.0 a.1
    pub checked : LastCheck w d a.0.pem_state

  -- the same, before the last check
  pub record Moved (w : World F Sim) (t : ℕ) (d : VbDevice F) (a : Answer F) : Type 0 where
    pub same_id : a.0.device_id ≡ d.device_id
    pub step : PemStep w t d a.0 a.1

  -- What `check_exits` does to a device.
  pub data ExitStep (w : World F Sim) (d : VbDevice F) (a : Answer F) : Type 0 where
    inside : IsInside (w.heap d.device_id) → a.0 ≡ d → a.1 ≡ none → ExitStep w d a
    low :
        IsLow (w.heap d.device_id)
        → a.0.device_id ≡ d.device_id
        → a.0.pem_state ≡ exit_on
        → IsTurnOn d.device_id a.1
        → ExitStep w d a
    high :
        IsHigh (w.heap d.device_id)
        → a.0.device_id ≡ d.device_id
        → a.0.pem_state ≡ exit_off
        → IsTurnOff d.device_id a.1
        → ExitStep w d a

  -- The answer of the inner call, after a packet has ended.
  pub packet_over :
      (w v : World F Sim) (t : ℕ) (d next : VbDevice F) (a : Answer F)
      → During d.device_id w v
      → d.state_ends_at ≤ t
      → Updated d (some pem_off) (some t) next
      → PemStep v t next a.0 a.1
      → PemStep w t d a.0 a.1
  packet_over w v t d next a p0 late u (waits idle early same none_) =
      absurd (omega (arith, (early_restart t d.state_ends_at next.state_ends_at u.ends early).2))
  packet_over w v t d next a p0 late u (asks due roll idle ends (r, e, id, sec)) =
      asks (inl late) (Rolls-before p0 u.same_id roll) idle ends (r, e, id ∙ u.same_id, sec)
  packet_over w v t d next a p0 late u (declines due roll idle ends e) =
      declines (inl late) (Rolls-before p0 u.same_id roll) idle ends (rw u.same_id at e)
  packet_over w v t d next a p0 late u (holds on early same e) = cc (sym u.state ∙ on)
  packet_over w v t d next a p0 late u (stays (_, _, out) same e) = absurd (not_still out u.state)
  packet_over w v t d next a p0 late u (comes_back (_, _, out) t0 idle ends e) =
      absurd (not_back out u.state)
  packet_over w v t d next a p0 late u (leaves_low at state (e, p, id)) =
      leaves_low (Sees-before IsLow p0 u.same_id at) state (e, p, id ∙ u.same_id)
  packet_over w v t d next a p0 late u (leaves_high at state e) =
      leaves_high (Sees-before IsHigh p0 u.same_id at) state (rw u.same_id at e)

  -- The answer of the inner call, when a device comes back into its band.
  pub back_inside :
      (w v : World F Sim) (t : ℕ) (d next : VbDevice F) (a : Answer F)
      → During d.device_id w v
      → Sees w d.device_id (IsBack d.pem_state)
      → Updated d (some pem_off) (some t) next
      → PemStep v t next a.0 a.1
      → PemStep w t d a.0 (first_effect a.1 (some (turn_off (turn_off_effect d))))
  back_inside w v t d next a p0 out u (waits idle early same e) =
      let (t0, ends, _) = early_restart t d.state_ends_at next.state_ends_at u.ends early in
      comes_back out t0 (ap (λ (x : VbDevice F). x.pem_state) same ∙ idle)
        (ap (λ (x : VbDevice F). x.state_ends_at) same ∙ ends) (rw e)
  back_inside w v t d next a p0 out u (asks due roll idle ends (r, e, id, sec)) =
      asks (inr out) (Rolls-before p0 u.same_id roll) idle ends (r, rw e, id ∙ u.same_id, sec)
  back_inside w v t d next a p0 out u (declines due roll idle ends e) =
      declines (inr out) (Rolls-before p0 u.same_id roll) idle ends (rw (e, u.same_id))
  back_inside w v t d next a p0 out u (holds on early same e) = cc (sym u.state ∙ on)
  back_inside w v t d next a p0 out u (stays (_, _, still) same e) =
      absurd (not_still still u.state)
  back_inside w v t d next a p0 out u (comes_back (_, _, back) t0 idle ends e) =
      absurd (not_back back u.state)
  back_inside w v t d next a p0 out u (leaves_low at state (e, p, id)) =
      leaves_low (Sees-before IsLow p0 u.same_id at) state (e, rw p, id ∙ u.same_id)
  back_inside w v t d next a p0 out u (leaves_high at state e) =
      leaves_high (Sees-before IsHigh p0 u.same_id at) state (rw (e, u.same_id))

  -- The answer after the last check of the band.
  pub exits_after :
      (w v : World F Sim) (t : ℕ) (d next : VbDevice F) (effect : Option (Effect F)) (a : Answer F)
      → During d.device_id w v
      → Moved w t d (next, effect)
      → ExitStep v next a
      → Stepped w t d (a.0, first_effect a.1 effect)
  exits_after w v t d next effect a p s (inside at same e) = record {
    same_id = ap (λ (x : VbDevice F). x.device_id) same ∙ s.same_id;
    step = rw (same, e) s.step;
    checked = was_inside (v, p, rw s.same_id at at);
  }
  exits_after w v t d next effect a p s (low at id state (e, q, gid)) = record {
    same_id = id ∙ s.same_id;
    step = leaves_low (v, p, rw s.same_id at at) state (e, rw q, gid ∙ s.same_id);
    checked = was_low (v, p, rw s.same_id at at) state;
  }
  exits_after w v t d next effect a p s (high at id state e) = record {
    same_id = id ∙ s.same_id;
    step = leaves_high (v, p, rw s.same_id at at) state (rw (e, s.same_id));
    checked = was_high (v, p, rw s.same_id at at) state;
  }
