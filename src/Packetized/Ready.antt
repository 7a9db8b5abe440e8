-- ===== src/Packetized/Ready.antt =====
-- When the classes `gldWaterHeater` and `gldHVAC` (packetized/vb_device.py) raise no exception: the
-- texts that the simulator gives for a device parse, and the width of its band is not zero. The
-- calls of this file keep that, since they write the simulation nowhere.
use grip_absorption_pipeline.Base.{
  String, ◌≡◌, refl, false, some, if◌then◌else◌, Bool-cases, inl, inr, ◌==◌, eq_iff,
}
use grip_absorption_pipeline.Base.Text.{split_first}
use grip_absorption_pipeline.Base.Exec.{ok, Returns, >>=-Returns, >>=-Returns_eq}
use grip_absorption_pipeline.Num.{Num, NumZero}
use grip_absorption_pipeline.Gridlab.{Gridlab}
use grip_absorption_pipeline.Packetized.Units.{convert_power_units}
use grip_absorption_pipeline.Packetized.World.{
  WaterHeater, Hvac, GldDevice, water_heater, hvac, World,
}
use grip_absorption_pipeline.Packetized.Reading.{
  read_number, read_kw, water_heater_soc, hvac_soc, update_water_heater, update_hvac, update_object,
  update_from_gld, heating_soc, cooling_soc,
}

module _ (F : Type 0) {Sim : Type 0} ⦃num : Num F⦄ ⦃gld : Gridlab Sim⦄ where
  abbrev pub NumberAt : Sim → String → String → Type 0
  NumberAt sim id prop =
      (x : F) × (num.float (split_first " " (gld.get_value sim id prop)) ≡ some x)

  abbrev pub KwAt : Sim → String → String → Type 0
  KwAt sim id prop =
      (x : F) × ((w : World F Sim)
        → convert_power_units (gld.get_value sim id prop) "kW" "kW" w ≡ (ok x, w))

module _ {F Sim : Type 0} ⦃num : Num F⦄ ⦃gld : Gridlab Sim⦄ where
  abbrev pub Readable : Sim → String → GldDevice F → Type 0
  Readable sim id (water_heater d) =
      NumberAt F sim id "temperature"
      × KwAt F sim id "actual_load"
      × (num.is_zero (num.sub d.upper_temp d.lower_temp) ≡ false)
  Readable sim id (hvac d) =
      NumberAt F sim id "air_temperature"
      × KwAt F sim id "hvac_load"
      × NumberAt F sim id "outdoor_temperature"
      × (num.is_zero (num.mul d.pem_range (num.lit 2)) ≡ false)

  pub record IsReady (w : World F Sim) : Type 0 where
    pub at : (id : String) → Readable w.sim id (w.heap id)

  read_number-eq :
      (id prop : String) (w : World F Sim) (n : NumberAt F w.sim id prop)
      → read_number id prop w ≡ (ok n.0, w)
  unfolding read_number
  read_number-eq id prop w n = rw n.1

  read_kw-eq :
      (id prop : String) (w : World F Sim) (k : KwAt F w.sim id prop)
      → read_kw id prop w ≡ (ok k.0, w)
  unfolding read_kw
  read_kw-eq id prop w k = k.1 w

  water_heater_soc-eq :
      (t lower upper : F) (w : World F Sim)
      → num.is_zero (num.sub upper lower) ≡ false
      → water_heater_soc t lower upper w ≡ (ok (num.div (num.sub t lower) (num.sub upper lower)), w)
  unfolding water_heater_soc
  water_heater_soc-eq t lower upper w h = rw h

  hvac_soc-Returns :
      (low upp range t outside : F) (w : World F Sim)
      → num.is_zero (num.lit 2) ≡ false
      → num.is_zero (num.mul range (num.lit 2)) ≡ false
      → Returns (λ _ w'. w' ≡ w) (hvac_soc low upp range t outside w)
  unfolding hvac_soc heating_soc cooling_soc
  hvac_soc-Returns low upp range t outside w two h =
      rw two
        (elim (Bool-cases (num.le outside (num.add low (num.div (num.sub upp low) (num.lit 2))))) [
          | inl heats ↦ rw heats (rw h refl)
          | inr cools ↦ rw cools (rw h refl)
        ])

  write-IsReady :
      (id : String) (d : GldDevice F) (w : World F Sim)
      → Readable w.sim id d
      → IsReady w
      → IsReady (record w { heap = λ j. if id == j then d else w.heap j })
  write-IsReady id d w h ready = record {
    at = λ j. elim (Bool-cases (id == j)) [
      | inl same ↦ rw same (rw ((eq_iff id j).0 same) at h)
      | inr other ↦ rw other (ready.at j)
    ];
  }

  update_water_heater-Returns :
      (id : String) (d : WaterHeater F) (w : World F Sim)
      → Readable w.sim id (water_heater d)
      → IsReady w
      → Returns (λ _ w'. IsReady w') (update_water_heater id d w)
  unfolding update_water_heater
  update_water_heater-Returns id d w h ready =
      >>=-Returns_eq (λ _ w'. IsReady w') _ (read_number id "temperature") w
        (read_number-eq id "temperature" w h.0)
        (>>=-Returns_eq (λ _ w'. IsReady w') _ (read_kw id "actual_load") _
          (read_kw-eq id "actual_load" _ h.1)
          (>>=-Returns_eq (λ _ w'. IsReady w') _ (water_heater_soc h.0.0 d.lower_temp d.upper_temp)
            _ (water_heater_soc-eq h.0.0 d.lower_temp d.upper_temp _ h.2)
            (write-IsReady id (water_heater _) _ h (
              write-IsReady id (water_heater _) _ h
                (write-IsReady id (water_heater _) w h ready)))))

  update_hvac-Returns :
      (zero_laws : NumZero F) (id : String) (d : Hvac F) (w : World F Sim)
      → Readable w.sim id (hvac d)
      → IsReady w
      → Returns (λ _ w'. IsReady w') (update_hvac id d w)
  unfolding update_hvac
  update_hvac-Returns zero_laws id d w h ready =
      >>=-Returns_eq (λ _ w'. IsReady w') _ (read_number id "air_temperature") w
        (read_number-eq id "air_temperature" w h.0)
        (>>=-Returns_eq (λ _ w'. IsReady w') _ (read_kw id "hvac_load") _
          (read_kw-eq id "hvac_load" _ h.1)
          (>>=-Returns_eq (λ _ w'. IsReady w') _ (read_number id "outdoor_temperature") _
            (read_number-eq id "outdoor_temperature" _ h.2)
            (>>=-Returns (λ _ w'. w' ≡ _) (λ _ w'. IsReady w') _
              (hvac_soc d.setpoint_low d.setpoint_upp d.pem_range h.0.0 h.2.0) _
              (hvac_soc-Returns d.setpoint_low d.setpoint_upp d.pem_range h.0.0 h.2.0 _
                (zero_laws.lit_nonzero 1) h.3)
              (λ soc w' e. rw e (
                write-IsReady id (hvac _) _ h (
                  write-IsReady id (hvac _) _ h
                    (write-IsReady id (hvac _) _ h (write-IsReady id (hvac _) w h ready))))))))

  update_object-Returns :
      (zero_laws : NumZero F) (id : String) (d : GldDevice F) (w : World F Sim)
      → Readable w.sim id d
      → IsReady w
      → Returns (λ _ w'. IsReady w') (update_object id d w)
  unfolding update_object
  update_object-Returns zero_laws id (water_heater d) w h ready =
      update_water_heater-Returns id d w h ready
  update_object-Returns zero_laws id (hvac d) w h ready =
      update_hvac-Returns zero_laws id d w h ready

  -- Where the texts parse, `update_from_gld` returns, and they still do.
  pub update_from_gld-Returns :
      (zero_laws : NumZero F) (id : String) (w : World F Sim)
      → IsReady w
      → Returns (λ _ w'. IsReady w') (update_from_gld id w)
  unfolding update_from_gld
  update_from_gld-Returns zero_laws id w ready =
      update_object-Returns zero_laws id (w.heap id) w (ready.at id) ready
