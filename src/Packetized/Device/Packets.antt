-- ===== src/Packetized/Device/Packets.antt =====
-- Packets end: the calls of `vb_device.pem` (packetized/vb_device.py) that a device gets, round by
-- round, each on the device that the call before returned.
use grip_absorption_pipeline.Base.{
  ℕ, ◌≤◌, ◌<◌, ◌≡◌, ◌≢◌, ◌⊎◌, inl, inr, List, [], ◌∷◌, ◌++◌, ap, sym, subst, ◌∙◌, arith, Option,
}
use grip_absorption_pipeline.Base.Exec.{Exec, Returns, pure, >>=-Returns, ◌>>=◌}
use grip_absorption_pipeline.Num.{Num, NumZero}
use grip_absorption_pipeline.Gridlab.{Gridlab}
use grip_absorption_pipeline.Packetized.World.{GldDevice, World}
use grip_absorption_pipeline.Packetized.Ready.{IsReady}
use grip_absorption_pipeline.Packetized.Device.{PemState, pem_on, Effect, VbDevice, pem}
use grip_absorption_pipeline.Packetized.Device.During.{IsStill, still_low, still_high}
use grip_absorption_pipeline.Packetized.Device.Step.{
  PemStep, waits, asks, declines, holds, stays, comes_back, leaves_low, leaves_high,
}
use grip_absorption_pipeline.Packetized.Device.Total.{pem-Returns}

-- the calls of `pem` at the times of a list
abbrev pub rounds :
    {F Sim : Type 0} ⦃num : Num F⦄ ⦃gld : Gridlab Sim⦄
    → List ℕ
    → VbDevice F
    → Exec (World F Sim) (VbDevice F)
rounds [] d = pure d
rounds (t ∷ ts) d = pem 2 d t >>= λ a. rounds ts a.0

still-not_on :
    {F : Type 0} ⦃num : Num F⦄ {s : PemState} {g : GldDevice F} → IsStill s g → s ≢ pem_on
still-not_on (still_low n) e = cc
still-not_on (still_high n) e = cc

module _ {F : Type 0} where
  abbrev pub HasNoPacket : VbDevice F → Type 0
  HasNoPacket d = d.pem_state ≢ pem_on

  same-HasNoPacket : (d next : VbDevice F) → next ≡ d → HasNoPacket d → HasNoPacket next
  same-HasNoPacket d next same h on = h (ap (λ (x : VbDevice F). x.pem_state) (sym same) ∙ on)

module _ {F Sim : Type 0} ⦃num : Num F⦄ ⦃gld : Gridlab Sim⦄ where
  -- No call starts a packet, and one that goes on has not ended.
  step-HasNoPacket :
      (w : World F Sim) (t : ℕ) (d next : VbDevice F) (effect : Option (Effect F))
      → PemStep w t d next effect
      → HasNoPacket next ⊎ ((next ≡ d) × (t < d.state_ends_at))
  step-HasNoPacket w t d next effect (waits idle early same e) = inr (same, early)
  step-HasNoPacket w t d next effect (asks due roll idle ends e) = inl λ on. cc
  step-HasNoPacket w t d next effect (declines due roll idle ends e) = inl λ on. cc
  step-HasNoPacket w t d next effect (holds on early same e) = inr (same, early)
  step-HasNoPacket w t d next effect (stays (_, _, still) same e) =
      inl (same-HasNoPacket d next same (still-not_on still))
  step-HasNoPacket w t d next effect (comes_back back t0 idle ends e) = inl λ on. cc
  step-HasNoPacket w t d next effect (leaves_low at state e) = inl λ on. cc
  step-HasNoPacket w t d next effect (leaves_high at state e) = inl λ on. cc

module _ {F Sim : Type 0} ⦃num : Num F⦄ ⦃gld : Gridlab Sim⦄ (zero_laws : NumZero F) where
  abbrev Over : VbDevice F → World F Sim → Type 0
  Over d w = HasNoPacket d

  rounds-Over :
      (ts : List ℕ) (d : VbDevice F) (w : World F Sim)
      → IsReady w
      → HasNoPacket d
      → Returns Over (rounds ts d w)
  rounds-Over [] d w ready h = h
  rounds-Over (t ∷ ts) d w ready h =
      >>=-Returns _ Over (λ a. rounds ts a.0) (pem 2 d t) w (pem-Returns zero_laws 0 d t w ready)
        (λ (next, effect) w1 (s, r1). elim (step-HasNoPacket w t d next effect s.step) [
          | inl over ↦ rounds-Over ts next w1 r1 over
          | inr (same, early) ↦ rounds-Over ts next w1 r1 (same-HasNoPacket d next same h)
        ])

  -- A packet ends. From a world whose texts parse, if `pem` is called at any times, at one of which
  -- the timer of the device at the start has run out, the calls return, and the device that the
  -- last one returns is not PEM_ON.
  pub rounds-Returns :
      (before : List ℕ) (t : ℕ) (after : List ℕ) (d : VbDevice F) (w : World F Sim)
      → IsReady w
      → d.state_ends_at ≤ t
      → Returns (λ next w'. next.pem_state ≢ pem_on) (rounds (before ++ t ∷ after) d w)
  rounds-Returns [] t after d w ready late =
      >>=-Returns _ Over (λ a. rounds after a.0) (pem 2 d t) w (pem-Returns zero_laws 0 d t w ready)
        (λ (next, effect) w1 (s, r1). elim (step-HasNoPacket w t d next effect s.step) [
          | inl over ↦ rounds-Over after next w1 r1 over
          | inr (same, early) ↦ absurd (omega (arith, early, late))
        ])
  rounds-Returns (u ∷ before) t after d w ready late =
      >>=-Returns _ Over (λ a. rounds (before ++ t ∷ after) a.0) (pem 2 d u) w
        (pem-Returns zero_laws 0 d u w ready)
        (λ (next, effect) w1 (s, r1). elim (step-HasNoPacket w u d next effect s.step) [
          | inl over ↦ rounds-Over (before ++ t ∷ after) next w1 r1 over
          | inr (same, early) ↦
              rounds-Returns before t after next w1 r1
                (subst (λ (x : VbDevice F). x.state_ends_at ≤ t) (sym same) late)
        ])
