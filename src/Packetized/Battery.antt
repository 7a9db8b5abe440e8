-- ===== src/Packetized/Battery.antt =====
-- Class `VirtualBattery` (packetized/virtual_battery.py). A method returns the object as it leaves
-- it. The `prints` branches only print. `r_shuffle` is an argument: any function on lists.
pub mod Load
pub mod Requests
pub mod Keys
pub mod Keeps
pub mod Dropped
pub mod Total
use grip_absorption_pipeline.Base.{
  ℕ, Bool, true, false, Option, none, some, List, [], ◌∷◌, ◌++◌, if◌then◌else◌,
}
use grip_absorption_pipeline.Base.Dict.{Dict, get, put, values}
use grip_absorption_pipeline.Base.Exec.{Exec, pure, ◌>>=◌}
use grip_absorption_pipeline.Num.{Num}
use grip_absorption_pipeline.Gridlab.{Gridlab}
use grip_absorption_pipeline.Packetized.World.{World}
use grip_absorption_pipeline.Packetized.Switching.{soc_kwh}
use grip_absorption_pipeline.Packetized.Device.{
  pem_off, PowerRequest, Effect, power_request, turn_on, turn_off, TurnOn, Effects, no_effects,
  append, VbDevice, given_end, turn_off_effect, update, pem, request_accepted,
}

pub record VirtualBattery (F : Type 0) : Type 0 where
  pub devices : Dict (VbDevice F)
  pub setpoint : F
  pub time_sec : ℕ
  pub soc : F

-- the local variables of `apply_pem_changes`
pub record Round (F : Type 0) : Type 0 where
  pub devices : Dict (VbDevice F)
  pub effects : Effects F
  pub totalload : F

-- the devices and the local variables of `handle_power_requests`
pub record Grants (F : Type 0) : Type 0 where
  pub devices : Dict (VbDevice F)
  pub totalkw : F
  pub accepted : List (TurnOn F)

module _ {F : Type 0} where
  -- `{device.device_id: device for device in devices}`, into a dict that begins as `dict`
  abbrev pub index : Dict (VbDevice F) → List (VbDevice F) → Dict (VbDevice F)
  index dict [] = dict
  index dict (d ∷ ds) = index (put d.device_id d dict) ds

  -- `add_device`
  unfoldable pub add_device : VirtualBattery F → VbDevice F → VirtualBattery F
  add_device vb d = record vb { devices = put d.device_id d vb.devices }

  replace_known : Dict (VbDevice F) → VbDevice F → Option (VbDevice F) → Dict (VbDevice F)
  replace_known devices next_state none = devices
  replace_known devices next_state (some d) = put d.device_id next_state devices

  -- the loop of `apply_updates`
  unfoldable pub replace_all : Dict (VbDevice F) → List (VbDevice F) → Dict (VbDevice F)
  unfolding replace_known
  replace_all devices [] = devices
  replace_all devices (n ∷ ns) = replace_all (replace_known devices n (get n.device_id devices)) ns

  abbrev or_empty : Option (List (VbDevice F)) → List (VbDevice F)
  or_empty none = []
  or_empty (some ds) = ds

module _ {F : Type 0} ⦃num : Num F⦄ where
  -- `if setpoint`: None leaves the setpoint, and so does 0
  abbrev given_setpoint : Option F → F → F
  given_setpoint none old = old
  given_setpoint (some x) old = if num.is_zero x then old else x

  -- Python's `sum`
  abbrev pub sum_kw : F → List (VbDevice F) → F
  sum_kw acc [] = acc
  sum_kw acc (d ∷ ds) = sum_kw (num.add acc d.kw) ds

  -- `abs(totalkw + power_request.kw - self.setpoint) <= abs(totalkw - self.setpoint)`
  abbrev pub comes_closer : F → F → F → Bool
  comes_closer setpoint totalkw kw =
      num.le (num.abs (num.sub (num.add totalkw kw) setpoint)) (num.abs (num.sub totalkw setpoint))

  abbrev pub first_round : Round F
  first_round = record { devices = []; effects = no_effects; totalload = num.lit 0 }

module _ {F Sim : Type 0} ⦃num : Num F⦄ ⦃gld : Gridlab Sim⦄ where
  each_soc : List (VbDevice F) → Exec (World F Sim) (List F)
  each_soc [] = pure []
  each_soc (d ∷ ds) = do soc ← soc_kwh d.device_id; socs ← each_soc ds; pure (soc ∷ socs)

  -- `np.sum([d.gld_dev.soc_kWh() for d in self.devices.values()])`
  unfoldable pub total_soc : Dict (VbDevice F) → Exec (World F Sim) F
  unfolding each_soc
  total_soc devices = do socs ← each_soc (values devices); pure (num.np_sum socs)

  -- `VirtualBattery(devices)`, with the default setpoint
  unfoldable pub new_battery : List (VbDevice F) → Exec (World F Sim) (VirtualBattery F)
  new_battery devices = do
    let indexed = index [] devices
    soc ← total_soc indexed
    pure (record { devices = indexed; setpoint = num.lit 100; time_sec = 0; soc = soc })

  unfoldable pub apply_updates :
      VirtualBattery F → List (VbDevice F) → Exec (World F Sim) (VirtualBattery F)
  apply_updates vb updates = do
    let devices = replace_all vb.devices updates
    soc ← total_soc devices
    pure (record vb { devices = devices; soc = soc })

  -- A device that is on, or wants to stay on: only while the load is below the setpoint.
  unfoldable pub admit :
      Bool → VbDevice F → VbDevice F → TurnOn F → Round F → Exec (World F Sim) (Round F)
  admit true d next e r = pure (record {
    devices = put d.device_id next r.devices;
    effects = append r.effects (turn_on e);
    totalload = num.add r.totalload e.kw;
  })
  admit false d next e r = do
    idle ← update d (some pem_off) none
    pure (record r {
      devices = put d.device_id idle r.devices;
      effects = append r.effects (turn_off (turn_off_effect d));
    })

  -- the body of the loop, after the call of `pem`: a device without an effect is not kept
  unfoldable pub take_answer :
      F → VbDevice F → VbDevice F → Option (Effect F) → Round F → Exec (World F Sim) (Round F)
  take_answer limit d next none r = pure r
  take_answer limit d next (some (turn_on e)) r = admit (num.lt r.totalload limit) d next e r
  take_answer limit d next (some (turn_off e)) r = pure (record r {
    devices = put d.device_id next r.devices;
    effects = append r.effects (turn_off e);
  })
  take_answer limit d next (some (power_request e)) r = pure (record r {
    devices = put d.device_id next r.devices;
    effects = append r.effects (power_request e);
  })

  unfoldable pub pem_round : F → ℕ → List (VbDevice F) → Round F → Exec (World F Sim) (Round F)
  pem_round limit time_sec [] r = pure r
  pem_round limit time_sec (d ∷ ds) r = do
    (next, effect) ← pem 2 d time_sec
    r' ← take_answer limit d next effect r
    pem_round limit time_sec ds r'

  unfoldable pub apply_pem_changes : VirtualBattery F → Exec (World F Sim) (Round F)
  apply_pem_changes vb =
      pem_round (num.round vb.setpoint) vb.time_sec (values vb.devices) first_round

  unfoldable pub grant_to :
      ℕ → PowerRequest F → Option (VbDevice F) → Grants F → Exec (World F Sim) (Grants F)
  grant_to time_sec request none g = pure g
  grant_to time_sec request (some d) g = do
    (next, e) ← request_accepted d time_sec
    pure (record {
      devices = put next.device_id next g.devices;
      totalkw = num.add g.totalkw request.kw;
      accepted = g.accepted ++ e ∷ [];
    })

  unfoldable pub consider : F → ℕ → PowerRequest F → Grants F → Exec (World F Sim) (Grants F)
  consider setpoint time_sec request g =
      if comes_closer setpoint g.totalkw request.kw
      then grant_to time_sec request (get request.device_id g.devices) g
      else pure g

  unfoldable pub grant_all :
      F → ℕ → List (PowerRequest F) → Grants F → Exec (World F Sim) (Grants F)
  grant_all setpoint time_sec [] g = pure g
  grant_all setpoint time_sec (request ∷ requests) g = do
    g' ← consider setpoint time_sec request g
    grant_all setpoint time_sec requests g'

  -- The requests come shuffled.
  unfoldable pub handle_power_requests :
      VirtualBattery F → List (PowerRequest F) → Exec (World F Sim) (Grants F)
  handle_power_requests vb requests = grant_all vb.setpoint vb.time_sec requests (record {
    devices = vb.devices;
    totalkw = sum_kw (num.lit 0) (values vb.devices);
    accepted = [];
  })

  -- the end of `next`
  unfoldable pub answer_requests :
      (List (PowerRequest F) → List (PowerRequest F))
      → VirtualBattery F
      → Round F
      → List (PowerRequest F)
      → Exec (World F Sim) (VirtualBattery F × Effects F × F)
  answer_requests shuffle vb r [] = pure (record vb { devices = r.devices }, r.effects, r.totalload)
  answer_requests shuffle vb r (first ∷ more) = do
    let requests = shuffle (first ∷ more)
    g ← handle_power_requests (record vb { devices = r.devices }) requests
    pure (
      record vb { devices = g.devices },
      record {
        power_requests = requests;
        turn_ons = r.effects.turn_ons ++ g.accepted;
        turn_offs = r.effects.turn_offs;
      },
      g.totalkw,
    )

  -- `next(setpoint, device_updates, time)`
  unfoldable pub next :
      (List (PowerRequest F) → List (PowerRequest F))
      → VirtualBattery F
      → Option F
      → Option (List (VbDevice F))
      → Option ℕ
      → Exec (World F Sim) (VirtualBattery F × Effects F × F)
  next shuffle vb setpoint device_updates time = do
    let vb1 = record vb {
      setpoint = given_setpoint setpoint vb.setpoint;
      time_sec = given_end time vb.time_sec;
    }
    vb2 ← apply_updates vb1 (or_empty device_updates)
    r ← apply_pem_changes vb2
    answer_requests shuffle vb2 r r.effects.power_requests
