-- ===== src/Control/Dropped.antt =====
-- `turn_off_house` (absorption.py), whose exceptions are swallowed: what becomes of the battery.
use Prim.Native.String.{◌++◌ as str_append}
use grip_absorption_pipeline.Base.{
  ◌≡◌, refl, ap, ◌∙◌, sym, subst, String, Option, none, some, [], ◌∷◌, if◌then◌else◌, ◌||◌, ◌==◌,
  Option-cases, Bool-cases, eq_iff, inl, inr, arith,
}
use grip_absorption_pipeline.Base.Text.{split_second}
use grip_absorption_pipeline.Base.Dict.{Dict, get, pop, IsDict, pop-IsDict, get-pop}
use grip_absorption_pipeline.Base.Exec.{
  ok, err, Returns, >>=-Returns_eq, attempt, swallowed, index_error, or_raise, modify, type_error,
  >>=-ok, >>=-err, key_error, ◌>>=◌, ◌>>◌,
}
use grip_absorption_pipeline.Num.{Num}
use grip_absorption_pipeline.Gridlab.{Gridlab}
use grip_absorption_pipeline.Packetized.World.{World, GldDevice, water_heater, hvac}
use grip_absorption_pipeline.Packetized.Switching.{turn_off_device, turn_off_object}
use grip_absorption_pipeline.Packetized.Device.{VbDevice}
use grip_absorption_pipeline.Packetized.Battery.{VirtualBattery}
use grip_absorption_pipeline.Faults.{assign}
use grip_absorption_pipeline.Control.{
  Island, PerIsland, Control, get_for, put_for, battery_at, battery_of, in_area, in_world,
  put_battery,
}
use grip_absorption_pipeline.Control.Houses.{
  switched, take_out, drop_device, turn_off_house, heater_of, interrupt,
}

module _ {V : Type 0} where
  get_for-put_for_self :
      (i : Island) (v old : V) (d : PerIsland V)
      → get_for i d ≡ some old
      → get_for i (put_for i v d) ≡ some v
  get_for-put_for_self i v old [] e = ground arith
  get_for-put_for_self i v old ((j, w) ∷ d) e = ground (arith, get_for-put_for_self i v old d)

module _ {F : Type 0} where
  -- A device of the battery after the house h was dropped.
  abbrev pub after_drop :
      String → Option (VbDevice F) → String → Option (VbDevice F) → Option (VbDevice F)
  after_drop h none id found = found
  after_drop h (some d) id found = if h == id || heater_of h == id then none else found

  gone_one :
      (h id : String) (D : Dict (VbDevice F)) (d : VbDevice F)
      → IsDict D
      → get h D ≡ some d
      → get (heater_of h) (pop h D) ≡ none
      → get id (pop h D) ≡ after_drop h (get h D) id (get id D)
  gone_one h id D d dict e missing = sym (
      ap (λ o. after_drop h o id (get id D)) e ∙ elim (Bool-cases (heater_of h == id)) [
        | inl eq ↦
            let none_there : get id (pop h D) ≡ none =
              subst (λ z. get z (pop h D) ≡ none) ((eq_iff (heater_of h) id).0 eq) missing in
            ground (arith, eq, none_there)
        | inr ne ↦ ground (arith, ne, get-pop h id D dict)
      ])

  gone_two :
      (h id : String) (D : Dict (VbDevice F)) (d : VbDevice F)
      → IsDict D
      → get h D ≡ some d
      → get id (pop (heater_of h) (pop h D)) ≡ after_drop h (get h D) id (get id D)
  gone_two h id D d dict e =
      get-pop (heater_of h) id (pop h D) (pop-IsDict h D dict)
      ∙ sym (ap (λ o. after_drop h o id (get id D)) e ∙ ground (arith, get-pop h id D dict))

module _ {F Sim : Type 0} ⦃num : Num F⦄ ⦃gld : Gridlab Sim⦄ where
  turn_off_object-ok :
      (id : String) (d : GldDevice F) (w : World F Sim)
      → (w' : World F Sim) × (turn_off_object id d w ≡ (ok tt, w'))
  unfolding turn_off_object
  turn_off_object-ok id (water_heater d) w = (_, refl)
  turn_off_object-ok id (hvac d) w = (_, refl)

  turn_off_device-ok :
      (id : String) (w : World F Sim) → (w' : World F Sim) × (turn_off_device id w ≡ (ok tt, w'))
  unfolding turn_off_device
  turn_off_device-ok id w = turn_off_object-ok id (w.heap id) w

  battery_of-ok :
      (island : Island) (c : Control F Sim) (bs : PerIsland (VirtualBattery F))
      (vb : VirtualBattery F)
      → c.batteries ≡ some bs
      → get_for island bs ≡ some vb
      → battery_of island c ≡ (ok vb, c)
  battery_of-ok island c bs vb eb ev = looked c.batteries eb
    where
      looked :
          (o : Option (PerIsland (VirtualBattery F)))
          → o ≡ some bs
          → (or_raise o type_error >>= λ d. or_raise (get_for island d) key_error) c ≡ (ok vb, c)
      looked o e = rw (e, ev) refl

  put_battery-ok :
      (island : Island) (vb : VirtualBattery F) (c : Control F Sim)
      (bs : PerIsland (VirtualBattery F))
      → c.batteries ≡ some bs
      → put_battery island vb c ≡ (ok tt, record c { batteries = some (put_for island vb bs) })
  put_battery-ok island vb c bs eb = written c.batteries eb
    where
      written :
          (o : Option (PerIsland (VirtualBattery F)))
          → o ≡ some bs
          → (or_raise o type_error >>= λ d.
                modify λ c'. record c' { batteries = some (put_for island vb d) })
              c
            ≡ (ok tt, record c { batteries = some (put_for island vb bs) })
      written o e = rw e refl

  -- A device that is not there: nothing happens.
  drop_device_missing :
      (island : Island) (id : String) (c : Control F Sim) (bs : PerIsland (VirtualBattery F))
      (vb : VirtualBattery F)
      → c.batteries ≡ some bs
      → get_for island bs ≡ some vb
      → get id vb.devices ≡ none
      → drop_device island id c ≡ (err key_error, c)
  unfolding drop_device
  drop_device_missing island id c bs vb eb ev ed =
      >>=-ok (battery_of island) (take_out island id) c (battery_of-ok island c bs vb eb ev)
      ∙ >>=-err (or_raise (get id vb.devices) key_error) (switched island id vb) c
          (ap (λ o. or_raise o key_error c) ed)

  -- A device that is there is turned off and taken out.
  drop_device_found :
      (island : Island) (id : String) (c : Control F Sim) (bs : PerIsland (VirtualBattery F))
      (vb : VirtualBattery F) (d : VbDevice F)
      → c.batteries ≡ some bs
      → get_for island bs ≡ some vb
      → get id vb.devices ≡ some d
      → (w : World F Sim) × (drop_device island id c ≡ (
        ok tt,
        record c {
          world = w;
          batteries = some (put_for island (record vb { devices = pop id vb.devices }) bs);
        },
      ))
  unfolding drop_device
  drop_device_found island id c bs vb d eb ev ed =
      let (w, off) = turn_off_device-ok d.device_id c.world in
      let c' = record c { world = w } in
      let vb' = record vb { devices = pop id vb.devices } in
      (
        w,
        >>=-ok (battery_of island) (take_out island id) c (battery_of-ok island c bs vb eb ev)
            ∙ (>>=-ok (or_raise (get id vb.devices) key_error) (switched island id vb) c
                  (ap (λ o. or_raise o key_error c) ed)
                ∙ (>>=-ok (in_world (turn_off_device d.device_id)) (λ _. put_battery island vb') c
                      (ap (λ r. (r.0, record c { world = r.1 })) off)
                    ∙ put_battery-ok island vb' c' bs eb)),
      )

  interrupt-ok :
      (h value part : String) (c : Control F Sim)
      → split_second "_" h ≡ some part
      → (s : Sim) × (interrupt h value c ≡ (ok tt, record c { world = record c.world { sim = s } }))
  unfolding interrupt
  interrupt-ok h value part c e = (
    gld.set_value c.world.sim (str_append "meter_" part) "customer_interrupted" value,
    >>=-ok (or_raise (split_second "_" h) index_error)
        (λ part'. in_area (assign (str_append "meter_" part') "customer_interrupted" value)) c
        (ap (λ o. or_raise o index_error c) e),
  )

  -- What the statement under `try` does to the batteries.
  pub record IsDropped (island : Island) (h : String) (vb : VirtualBattery F) (c c' : Control F Sim)
      : Type 0 where
    pub devices : Dict (VbDevice F)
    pub stored : battery_at island c'.batteries ≡ some (record vb { devices = devices })
    pub gone :
        (id : String) → get id devices ≡ after_drop h (get h vb.devices) id (get id vb.devices)
    pub others : c'.all_devices ≡ c.all_devices

  drop_both :
      (island : Island) (h : String) (c : Control F Sim) (bs : PerIsland (VirtualBattery F))
      (vb : VirtualBattery F) (found : Option (VbDevice F))
      → get h vb.devices ≡ found
      → c.batteries ≡ some bs
      → get_for island bs ≡ some vb
      → IsDict vb.devices
      → (c' : Control F Sim) × (attempt (drop_device island h >> drop_device island (heater_of h)) c
          ≡ (ok tt, c'))
        × IsDropped island h vb c c'
  drop_both island h c bs vb none e eb ev dict = (
    c,
    ap swallowed (
        >>=-err (drop_device island h) (λ _. drop_device island (heater_of h)) c
          (drop_device_missing island h c bs vb eb ev e)),
    record {
      devices = vb.devices;
      stored = ap (battery_at island) eb ∙ ev;
      gone = λ id. sym (ap (λ o. after_drop h o id (get id vb.devices)) e);
      others = refl;
    },
  )
  drop_both island h c bs vb (some d) e eb ev dict =
      let (w, first) = drop_device_found island h c bs vb d eb ev e in
      let vb1 = record vb { devices = pop h vb.devices } in
      let bs1 = put_for island vb1 bs in
      let c1 = record c { world = w; batteries = some bs1 } in
      let at = get_for-put_for_self island vb1 vb bs ev in
      elim (Option-cases (get (heater_of h) vb1.devices)) [
        | inl missing ↦ (
          c1,
          ap swallowed (
              >>=-ok (drop_device island h) (λ _. drop_device island (heater_of h)) c first
              ∙ drop_device_missing island (heater_of h) c1 bs1 vb1 refl at missing),
          record {
            devices = vb1.devices;
            stored = at;
            gone = λ id. gone_one h id vb.devices d dict e missing;
            others = refl;
          },
        )
        | inr (d2, e2) ↦
            let (w2, second) = drop_device_found island (heater_of h) c1 bs1 vb1 d2 refl at e2 in
            let vb2 = record vb { devices = pop (heater_of h) vb1.devices } in
            (
              record c1 { world = w2; batteries = some (put_for island vb2 bs1) },
              ap swallowed (
                  >>=-ok (drop_device island h) (λ _. drop_device island (heater_of h)) c first
                  ∙ second),
              record {
                devices = vb2.devices;
                stored = get_for-put_for_self island vb2 vb1 bs1 at;
                gone = λ id. gone_two h id vb.devices d dict e;
                others = refl;
              },
            )
      ]

  -- Where the island has a battery with a dict of devices and the name of the house has an
  -- underscore, `turn_off_house` returns. If the house is in the battery, it is taken out, and its
  -- water heater too, if that is there; if not, no device is. All other devices stay, and so do the
  -- setpoint of the battery and the devices of the module. An exception of the first part never
  -- comes out.
  pub turn_off_house-IsDropped :
      (island : Island) (h part : String) (c : Control F Sim) (bs : PerIsland (VirtualBattery F))
      (vb : VirtualBattery F)
      → c.batteries ≡ some bs
      → get_for island bs ≡ some vb
      → IsDict vb.devices
      → split_second "_" h ≡ some part
      → Returns (λ _ c'. IsDropped island h vb c c') (turn_off_house island h c)
  unfolding turn_off_house
  turn_off_house-IsDropped island h part c bs vb eb ev dict es =
      let (c1, tried, dropped) = drop_both island h c bs vb (get h vb.devices) refl eb ev dict in
      let (s, shown) = interrupt-ok h "TRUE" part c1 es in
      >>=-Returns_eq _ (λ _. interrupt h "TRUE")
        (attempt (drop_device island h >> drop_device island (heater_of h))) c tried
        (subst (Returns (λ _ c'. IsDropped island h vb c c')) (sym shown) (record {
          devices = dropped.devices;
          stored = dropped.stored;
          gone = dropped.gone;
          others = dropped.others;
        }))
