-- ===== src/Packetized/Device/During.antt =====
-- What the object of a device shows during a call of `vb_device.pem` (packetized/vb_device.py): the
-- temperatures and the answers to requests that its steps depend on.
use grip_absorption_pipeline.Base.{ℕ, ◌≤◌, String, ◌≡◌, ◌⊎◌, Bool, true, false, subst}
use grip_absorption_pipeline.Base.Exec.{ok}
use grip_absorption_pipeline.Num.{Num}
use grip_absorption_pipeline.Gridlab.{Gridlab}
use grip_absorption_pipeline.Packetized.World.{GldDevice, World}
use grip_absorption_pipeline.Packetized.Reading.{update_from_gld}
use grip_absorption_pipeline.Packetized.CheckStat.{request, check_stat}
use grip_absorption_pipeline.Packetized.CheckStat.Bands.{needs_on, needs_off}
use grip_absorption_pipeline.Packetized.Device.{PemState, pem_off, exit_off, exit_on, VbDevice}

module _ {F : Type 0} ⦃num : Num F⦄ where
  -- A device that is out of its band, less the hysteresis of 2, on the side of its state.
  pub data IsStill : PemState → GldDevice F → Type 0 where
    still_low : {g : GldDevice F} → needs_on g 2 ≡ true → IsStill exit_on g
    still_high : {g : GldDevice F} → needs_off g 2 ≡ true → IsStill exit_off g

  pub data IsBack : PemState → GldDevice F → Type 0 where
    back_low : {g : GldDevice F} → needs_on g 2 ≡ false → IsBack exit_on g
    back_high : {g : GldDevice F} → needs_off g 2 ≡ false → IsBack exit_off g

  -- below its band, and above it
  abbrev pub IsLow : GldDevice F → Type 0
  IsLow g = needs_on g 0 ≡ true

  abbrev pub IsHigh : GldDevice F → Type 0
  IsHigh g = (needs_on g 0 ≡ false) × (needs_off g 0 ≡ true)

  abbrev pub IsInside : GldDevice F → Type 0
  IsInside g = (needs_on g 0 ≡ false) × (needs_off g 0 ≡ false)

  pub not_still : {s : PemState} {g : GldDevice F} → IsStill s g → s ≡ pem_off → ⊥
  not_still (still_low n) e = cc
  not_still (still_high n) e = cc

  pub not_back : {s : PemState} {g : GldDevice F} → IsBack s g → s ≡ pem_off → ⊥
  not_back (back_low n) e = cc
  not_back (back_high n) e = cc

module _ {F Sim : Type 0} ⦃num : Num F⦄ ⦃gld : Gridlab Sim⦄ where
  -- The states of a call from w on: after readings of its device, and after rolls.
  pub data During (id : String) (w : World F Sim) : World F Sim → Type 0 where
    start : During id w w
    reads :
        {v v' : World F Sim} → During id w v → update_from_gld id v ≡ (ok tt, v') → During id w v'
    rolls :
        {v v' : World F Sim} {b : Bool}
        → During id w v
        → check_stat id request 0 v ≡ (ok b, v')
        → During id w v'

  pub During-trans :
      {id : String} {w v v' : World F Sim} → During id w v → During id v v' → During id w v'
  During-trans a start = a
  During-trans a (reads b e) = reads (During-trans a b) e
  During-trans a (rolls b e) = rolls (During-trans a b) e

  -- The object of the device has the property in one of these states.
  abbrev pub Sees : World F Sim → String → (GldDevice F → Type 0) → Type 0
  Sees w id P = (v : World F Sim) × During id w v × P (v.heap id)

  -- A request is answered so in one of these states.
  abbrev pub Rolls : World F Sim → String → Bool → Type 0
  Rolls w id b =
      (v : World F Sim) × (v' : World F Sim) × During id w v
      × (check_stat id request 0 v ≡ (ok b, v'))

  pub Sees-before :
      {w v : World F Sim} {id later : String} (P : GldDevice F → Type 0)
      → During id w v
      → later ≡ id
      → Sees v later P
      → Sees w id P
  Sees-before {w} {v} {id} {later} P a e (x, b, p) =
      let (b', p') = subst (λ i. During i v x × P (x.heap i)) e (b, p) in (x, During-trans a b', p')

  pub Rolls-before :
      {w v : World F Sim} {id later : String} {b : Bool}
      → During id w v
      → later ≡ id
      → Rolls v later b
      → Rolls w id b
  Rolls-before {w} {v} {id} {later} {b} a e (x, x', c, q) =
      let (c', q') = subst (λ i. During i v x × (check_stat i request 0 x ≡ (ok b, x'))) e (c, q) in
      (x, x', During-trans a c', q')

  -- The device's timer has run out, or it has come back into its band.
  abbrev pub IsDue : World F Sim → ℕ → VbDevice F → Type 0
  IsDue w t d = (d.state_ends_at ≤ t) ⊎ Sees w d.device_id (IsBack d.pem_state)
