-- ===== src/Thermostat/Modes.antt =====
-- The mode that `absorption` of load_control.py sets.
use grip_absorption_pipeline.Base.{
  String, Bool, true, false, not, ◌&&◌, ◌≡◌, ◌≢◌, ◌==◌, refl, sym, ◌∙◌, inl, inr, if◌then◌else◌,
  arith, eq_iff,
}
use grip_absorption_pipeline.Base.Exec.{pure, Returns, ◌>>◌}
use grip_absorption_pipeline.Gridlab.{Gridlab, GridlabLaws}
use grip_absorption_pipeline.Faults.{Area, assign}
use grip_absorption_pipeline.Thermostat.{text_lt, set_mode, absorption}

-- the mode for the texts of the air temperature and the two setpoints: whether the heating setpoint is
-- above the air, and the air above the cooling setpoint
pub mode_for : Bool → Bool → String
mode_for cold true = "COOL"
mode_for true false = "HEAT"
mode_for false false = "OFF"

unequal : (s t : String) → (s == t) ≡ false → s ≢ t
unequal s t h = ground (arith, eq_iff s t)

module _ {Sim : Type 0} ⦃gld : Gridlab Sim⦄ (laws : GridlabLaws Sim) (house : String) where
  -- The last write sets the mode, and no other object is changed.
  pub record IsModeSet (mode : String) (before after : Sim) : Type 0 where
    pub earlier : Sim
    pub last : after ≡ gld.set_value earlier house "system_mode" mode
    pub others : (o p : String) → o ≢ house → gld.get_value after o p ≡ gld.get_value before o p

  left :
      (s : Sim) (p v o q : String)
      → o ≢ house
      → gld.get_value (gld.set_value s house p v) o q ≡ gld.get_value s o q
  left s p v o q ne = laws.get-set s house p v o q (inl λ e. ne (sym e))

  -- the two `if` statements, by what their tests say
  modes-Returns :
      (cold warm : Bool) (before : Sim) (a : Area Sim)
      → ((o p : String) → o ≢ house → gld.get_value a.sim o p ≡ gld.get_value before o p)
      → Returns
          (λ _ a'. IsModeSet (mode_for cold warm) before a'.sim)
          (((if cold
                then assign house "system_mode" "HEAT"
                else if not cold && not warm
                then assign house "system_mode" "OFF"
                else pure tt)
              >> (if warm then assign house "system_mode" "COOL" else pure tt))
            a)
  unfolding mode_for
  modes-Returns true true before a h = record {
    earlier = gld.set_value a.sim house "system_mode" "HEAT";
    last = refl;
    others = λ o p ne.
        left (gld.set_value a.sim house "system_mode" "HEAT") "system_mode" "COOL" o p ne
        ∙ left a.sim "system_mode" "HEAT" o p ne
        ∙ h o p ne;
  }
  modes-Returns true false before a h = record {
    earlier = a.sim;
    last = refl;
    others = λ o p ne. left a.sim "system_mode" "HEAT" o p ne ∙ h o p ne;
  }
  modes-Returns false true before a h = record {
    earlier = a.sim;
    last = refl;
    others = λ o p ne. left a.sim "system_mode" "COOL" o p ne ∙ h o p ne;
  }
  modes-Returns false false before a h = record {
    earlier = a.sim;
    last = refl;
    others = λ o p ne. left a.sim "system_mode" "OFF" o p ne ∙ h o p ne;
  }

  -- the control flag is none of the three properties
  read_back :
      (s : Sim) (q : String)
      → "thermostat_control" ≢ q
      → gld.get_value (gld.set_value s house "thermostat_control" "NONE") house q
        ≡ gld.get_value s house q
  read_back s q ne = laws.get-set s house "thermostat_control" "NONE" house q (inr ne)

  -- `absorption` returns, its last write sets the mode that the texts of the air temperature and of the
  -- two setpoints before the call ask for, and it changes no other object.
  pub absorption-Returns :
      (a : Area Sim)
      → Returns
          (λ _ a'.
            IsModeSet
              (mode_for
                (text_lt
                  (gld.get_value a.sim house "air_temperature")
                  (gld.get_value a.sim house "heating_setpoint"))
                (text_lt
                  (gld.get_value a.sim house "cooling_setpoint")
                  (gld.get_value a.sim house "air_temperature")))
              a.sim
              a'.sim)
          (absorption house a)
  unfolding absorption set_mode
  absorption-Returns a =
      let s = gld.set_value a.sim house "thermostat_control" "NONE" in
      rw
        (sym
          (read_back a.sim "air_temperature" (unequal "thermostat_control" "air_temperature" refl)))
        (rw
          (sym (
            read_back a.sim "heating_setpoint"
              (unequal "thermostat_control" "heating_setpoint" refl)))
          (rw
            (sym (
              read_back a.sim "cooling_setpoint"
                (unequal "thermostat_control" "cooling_setpoint" refl)))
            (modes-Returns _ _ a.sim (record a { sim = s })
              (λ o p ne. left a.sim "thermostat_control" "NONE" o p ne))))
