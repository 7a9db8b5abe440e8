-- ===== src/Packetized/Device.antt =====
-- The effects and class `vb_device` (packetized/vb_device.py): the packet state machine of one
-- device.
pub mod Packets
pub mod During
pub mod Step
pub mod Follows
pub mod Waiting
pub mod Total
use grip_absorption_pipeline.Base.{
  ℕ, zero, suc, ◌+◌, String, Bool, true, false, Option, none, some, List, [], ◌∷◌, ◌++◌, ltb,
  if◌then◌else◌,
}
use grip_absorption_pipeline.Base.Exec.{Exec, pure, raise, out_of_fuel, ◌>>=◌, ◌>>◌}
use grip_absorption_pipeline.Num.{Num}
use grip_absorption_pipeline.Gridlab.{Gridlab}
use grip_absorption_pipeline.Packetized.World.{World, kw_of, object_at}
use grip_absorption_pipeline.Packetized.Reading.{update_from_gld}
use grip_absorption_pipeline.Packetized.CheckStat.{
  comm_epoch_sec, control_epoch_sec, request, check_stat,
}
use grip_absorption_pipeline.Packetized.CheckStat

pub data PemState : Type 0 where
  pem_off pem_on exit_off exit_on : PemState

pub record PowerRequest (F : Type 0) : Type 0 where
  pub device_id : String
  pub kw : F
  pub sec : ℕ

-- `gld` is the address of the device's object.
pub record TurnOn (F : Type 0) : Type 0 where
  pub gld : String
  pub kw : F

pub record TurnOff : Type 0 where
  pub gld : String

pub data Effect (F : Type 0) : Type 0 where
  power_request : PowerRequest F → Effect F
  turn_on : TurnOn F → Effect F
  turn_off : TurnOff → Effect F

pub record Effects (F : Type 0) : Type 0 where
  pub power_requests : List (PowerRequest F)
  pub turn_ons : List (TurnOn F)
  pub turn_offs : List TurnOff

-- `gld_dev` is an address, and so is `device_id`: both are the id of the device.
pub record VbDevice (F : Type 0) : Type 0 where
  pub device_id : String
  pub pem_state : PemState
  pub state_ends_at : ℕ
  pub last_power_draw_kw : F
  pub kw : F

abbrev pub given_state : Option PemState → PemState → PemState
given_state none old = old
given_state (some s) old = s

-- `if not state_ends_at`: None, and 0 as well
abbrev pub given_end : Option ℕ → ℕ → ℕ
given_end none old = old
given_end (some zero) old = old
given_end (some (suc n)) old = suc n

-- what a method of the state machine returns: the next device, and an effect or None
abbrev pub Answer : Type 0 → Type 0
Answer F = VbDevice F × Option (Effect F)

module _ {F : Type 0} where
  abbrev pub no_effects : Effects F
  no_effects = record { power_requests = []; turn_ons = []; turn_offs = [] }

  -- `Effects._append`
  abbrev pub append : Effects F → Effect F → Effects F
  append es (power_request r) = record es { power_requests = es.power_requests ++ r ∷ [] }
  append es (turn_on e) = record es { turn_ons = es.turn_ons ++ e ∷ [] }
  append es (turn_off e) = record es { turn_offs = es.turn_offs ++ e ∷ [] }

  -- `TurnOn(dev)` and `TurnOff(dev)`
  abbrev pub turn_on_effect : VbDevice F → TurnOn F
  turn_on_effect d = record { gld = d.device_id; kw = d.last_power_draw_kw }

  abbrev pub turn_off_effect : VbDevice F → TurnOff
  turn_off_effect d = record { gld = d.device_id }

  -- `a if a else b`
  abbrev pub first_effect : Option (Effect F) → Option (Effect F) → Option (Effect F)
  first_effect (some e) other = some e
  first_effect none other = other

module _ {F : Type 0} ⦃num : Num F⦄ where
  -- No call of `update` passes `last_power_draw_kw`.
  abbrev pub power_draw : VbDevice F → F
  power_draw d = if num.lt (num.lit 0) d.kw then d.kw else d.last_power_draw_kw

module _ {F Sim : Type 0} ⦃num : Num F⦄ ⦃gld : Gridlab Sim⦄ where
  -- `vb_device(gld_dev, state_ends_at=…)`, with the default state and 4.5 kW
  unfoldable pub new_device : String → ℕ → Exec (World F Sim) (VbDevice F)
  new_device id state_ends_at = do
    g ← object_at id
    pure (record {
      device_id = id;
      pem_state = pem_off;
      state_ends_at = state_ends_at;
      last_power_draw_kw = num.tenths 45;
      kw = kw_of g;
    })

  unfoldable pub update : VbDevice F → Option PemState → Option ℕ → Exec (World F Sim) (VbDevice F)
  update d pem_state state_ends_at = do
    update_from_gld d.device_id
    g ← object_at d.device_id
    pure (record {
      device_id = d.device_id;
      pem_state = given_state pem_state d.pem_state;
      state_ends_at = given_end state_ends_at d.state_ends_at;
      last_power_draw_kw = power_draw d;
      kw = kw_of g;
    })

  unfoldable pub ask : VbDevice F → ℕ → Bool → Exec (World F Sim) (Answer F)
  ask d time_sec asks = do
    next ← update d none (some (time_sec + comm_epoch_sec))
    pure (
      next,
      some (
          if asks
          then power_request (record {
            device_id = d.device_id;
            kw = d.last_power_draw_kw;
            sec = control_epoch_sec;
          })
          else turn_off (turn_off_effect d)),
    )

  -- the method `pem_off`
  unfoldable pub when_off : VbDevice F → ℕ → Exec (World F Sim) (Answer F)
  when_off d time_sec =
      if ltb time_sec d.state_ends_at
      then pure (d, none)
      else (do asks ← check_stat d.device_id request 0; ask d time_sec asks)

  module _ (rest : VbDevice F → ℕ → Exec (World F Sim) (Answer F)) where
    -- back to PEM_OFF, and through `pem` again
    unfoldable pub restart : VbDevice F → ℕ → Exec (World F Sim) (Answer F)
    restart d time_sec = do next ← update d (some pem_off) (some time_sec); rest next time_sec

    -- the method `pem_on`
    unfoldable pub when_on : VbDevice F → ℕ → Exec (World F Sim) (Answer F)
    when_on d time_sec =
        if ltb time_sec d.state_ends_at
        then pure (d, some (turn_on (turn_on_effect d)))
        else restart d time_sec

    unfoldable pub come_back : Bool → VbDevice F → ℕ → Exec (World F Sim) (Answer F)
    come_back true d time_sec = pure (d, none)
    come_back false d time_sec = do
      (next, effect) ← restart d time_sec
      pure (next, first_effect effect (some (turn_off (turn_off_effect d))))

    -- the methods `exit_off` and `exit_on`, which differ in the status that they check
    unfoldable pub when_exit : CheckStat.Stat → VbDevice F → ℕ → Exec (World F Sim) (Answer F)
    when_exit stat d time_sec = do still ← check_stat d.device_id stat 2; come_back still d time_sec

    unfoldable pub dispatch : PemState → VbDevice F → ℕ → Exec (World F Sim) (Answer F)
    dispatch pem_off d time_sec = when_off d time_sec
    dispatch pem_on d time_sec = when_on d time_sec
    dispatch exit_off d time_sec = when_exit CheckStat.exit_off d time_sec
    dispatch exit_on d time_sec = when_exit CheckStat.exit_on d time_sec

  exit_to : VbDevice F → PemState → Effect F → Exec (World F Sim) (Answer F)
  exit_to d state effect = do next ← update d (some state) (some 0); pure (next, some effect)

  exit_if_high : VbDevice F → Bool → Exec (World F Sim) (Answer F)
  exit_if_high d true = exit_to d exit_off (turn_off (turn_off_effect d))
  exit_if_high d false = pure (d, none)

  exit_if_low : VbDevice F → Bool → Exec (World F Sim) (Answer F)
  exit_if_low d true = exit_to d exit_on (turn_on (turn_on_effect d))
  exit_if_low d false = do high ← check_stat d.device_id CheckStat.exit_off 0; exit_if_high d high

  unfoldable pub check_exits : VbDevice F → Exec (World F Sim) (Answer F)
  unfolding exit_to exit_if_high exit_if_low
  check_exits d = do low ← check_stat d.device_id CheckStat.exit_on 0; exit_if_low d low

  -- the end of the method `pem`
  unfoldable pub then_exits : Answer F → Exec (World F Sim) (Answer F)
  then_exits (next, effect) = do
    (next', exit_effect) ← check_exits next
    pure (next', first_effect exit_effect effect)

  -- The method `pem` calls itself through `restart`; the fuel bounds the depth.
  unfoldable pub pem : ℕ → VbDevice F → ℕ → Exec (World F Sim) (Answer F)
  pem zero d time_sec = raise out_of_fuel
  pem (suc fuel) d time_sec = do
    answer ← dispatch (pem fuel) d.pem_state d time_sec
    then_exits answer

  unfoldable pub accept : PemState → VbDevice F → ℕ → Exec (World F Sim) (VbDevice F × TurnOn F)
  accept pem_off d time = do
    next ← update d (some pem_on) (some (time + control_epoch_sec))
    pure (next, turn_on_effect d)
  accept _ d time = pure (d, turn_on_effect d)

  unfoldable pub request_accepted : VbDevice F → ℕ → Exec (World F Sim) (VbDevice F × TurnOn F)
  request_accepted d time = accept d.pem_state d time
