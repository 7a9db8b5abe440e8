-- ===== src/Packetized/CheckStat.antt =====
-- `REQ_die_roll` and the two methods `check_stat` (packetized/vb_device.py): is the device in the
-- range of a status, and does it ask for a packet?
pub mod Bands
pub mod Total
use grip_absorption_pipeline.Base.{
  ℕ, String, Bool, true, false, ◌&&◌, ◌||◌, List, [], ◌∷◌, if◌then◌else◌,
}
use grip_absorption_pipeline.Base.Exec.{Exec, pure, ◌>>=◌}
use grip_absorption_pipeline.Num.{Num, divide}
use grip_absorption_pipeline.Packetized.World.{
  WaterHeater, Hvac, GldDevice, water_heater, hvac, World, object_at, r_random,
}

abbrev pub comm_epoch_sec : ℕ
comm_epoch_sec = 30

abbrev pub control_epoch_sec : ℕ
control_epoch_sec = 180

-- the argument `stat` of `check_stat`
pub data Stat : Type 0 where
  request exit_on exit_off : Stat

abbrev is_request : Stat → Bool
is_request request = true
is_request _ = false

abbrev is_exit_on : Stat → Bool
is_exit_on exit_on = true
is_exit_on _ = false

abbrev is_exit_off : Stat → Bool
is_exit_off exit_off = true
is_exit_off _ = false

module _ {F : Type 0} ⦃num : Num F⦄ where
  abbrev pub in_band : F → F → F → Bool
  in_band centre band t = num.lt (num.sub centre band) t && num.lt t (num.add centre band)

  -- `0 > -T*dir + (setpoint + (pem_range + hysteresis)*dir)*dir`
  abbrev pub beyond : F → F → F → F → Bool
  beyond t band setpoint dir =
      num.lt (num.add (num.mul (num.neg t) dir) (num.mul (num.add setpoint (num.mul band dir)) dir))
        (num.lit 0)

  -- The second loop, with the same result.
  exit_loop : Hvac F → Stat → F → Bool → List (F × F) → Bool × Bool
  exit_loop d stat band exitoff [] = (false, exitoff)
  exit_loop d stat band exitoff ((setpoint, dir) ∷ rest) =
      let visited = exit_loop d stat band false rest in
      let passed = exit_loop d stat band exitoff rest in
      if beyond d.temperature band setpoint dir
      then (if is_exit_on stat then (true, false) else visited)
      else passed

  after_requests : Hvac F → Stat → F → Bool × Bool → Bool
  unfolding exit_loop
  after_requests d stat band (true, exitoff) = true
  after_requests d stat band (false, exitoff) =
      let (returned, exitoff') =
        exit_loop d stat band exitoff
          ((d.setpoint_upp, num.lit 1) ∷ (d.setpoint_low, num.neg (num.lit 1)) ∷ []) in
      returned || (exitoff' && is_exit_off stat)

module _ {F Sim : Type 0} ⦃num : Num F⦄ where
  -- `r_random() < 1.0 - np.exp(-u)`
  roll_below : F → Exec (World F Sim) Bool
  roll_below u = do r ← r_random; pure (num.lt r (num.sub (num.lit 1) (num.exp (num.neg u))))

  roll_between : F → Exec (World F Sim) Bool
  unfolding roll_below
  roll_between soc = do
    empty_to_full ← divide (num.sub (num.lit 1) soc) (num.sub soc (num.lit 0))
    epochs ← divide (num.lit comm_epoch_sec) (num.lit control_epoch_sec)
    roll_below (num.mul empty_to_full epochs)

  unfoldable pub req_die_roll : F → Exec (World F Sim) Bool
  unfolding roll_between
  req_die_roll soc =
      if num.le soc (num.lit 0)
      then pure true
      else if num.le (num.lit 1) soc
      then pure false
      else roll_between soc

  -- A lost roll returns None, which is as false as False.
  unfoldable pub check_water_heater : WaterHeater F → Stat → ℕ → Exec (World F Sim) Bool
  unfolding req_die_roll
  check_water_heater d stat hysteresis =
      let band = num.add d.pem_range (num.lit hysteresis) in
      if in_band d.setpoint band d.temperature && is_request stat
      then req_die_roll d.soc
      else pure (
          num.lt d.temperature (num.sub d.setpoint band) && is_exit_on stat
          || num.lt (num.add d.setpoint band) d.temperature && is_exit_off stat)

  -- A request in the band of a setpoint rolls; `visited` is the rest of the loop.
  try_request : Stat → F → Exec (World F Sim) (Bool × Bool) → Exec (World F Sim) (Bool × Bool)
  unfolding req_die_roll
  try_request request soc visited = do
    won ← req_die_roll soc
    if won then pure (true, false) else visited
  try_request _ soc visited = visited

  -- The first loop of `gldHVAC.check_stat`: has it returned True, and the variable `exitoff`.
  request_loop : Hvac F → Stat → F → Bool → List F → Exec (World F Sim) (Bool × Bool)
  unfolding try_request
  request_loop d stat band exitoff [] = pure (false, exitoff)
  request_loop d stat band exitoff (setpoint ∷ rest) =
      let visited = request_loop d stat band false rest in
      let passed = request_loop d stat band exitoff rest in
      if in_band setpoint band d.temperature then try_request stat d.soc visited else passed

  unfoldable pub check_hvac : Hvac F → Stat → ℕ → Exec (World F Sim) Bool
  unfolding request_loop after_requests
  check_hvac d stat hysteresis = do
    let band = num.add d.pem_range (num.lit hysteresis)
    first ← request_loop d stat band true (d.setpoint_upp ∷ d.setpoint_low ∷ [])
    pure (after_requests d stat band first)

  check_object : GldDevice F → Stat → ℕ → Exec (World F Sim) Bool
  unfolding check_water_heater check_hvac
  check_object (water_heater d) = check_water_heater d
  check_object (hvac d) = check_hvac d

  -- `gld_dev.check_stat(stat, hysteresis)`
  unfoldable pub check_stat : String → Stat → ℕ → Exec (World F Sim) Bool
  unfolding check_object
  check_stat id stat hysteresis = do d ← object_at id; check_object d stat hysteresis
