-- ===== src/Thermostat.antt =====
-- load_control.py: the thermostat control without a virtual battery. It compares the texts that the
-- simulator returns, character by character.
pub mod Modes
mod Tests
use Prim.Native.String.{compare, ◌++◌ as str_append}
use Prim.Native.Nat.{Ordering}
use grip_absorption_pipeline.Base.{
  String, ◌≡◌, refl, Bool, true, false, not, ◌&&◌, Option, none, some, List, [], ◌∷◌, ◌++◌,
  if◌then◌else◌,
}
use grip_absorption_pipeline.Base.Text.{split_first, split_second}
use grip_absorption_pipeline.Base.Dict.{Dict, get}
use grip_absorption_pipeline.Base.Exec.{
  Exec, pure, gets, or_raise, key_error, syntax_error, ◌>>=◌, ◌>>◌,
}
use grip_absorption_pipeline.Gridlab.{Gridlab}
use grip_absorption_pipeline.Faults.{Area, value_of, assign, meets}

-- `s < t`
abbrev pub text_lt : String → String → Bool
text_lt s t = elim (compare s t) [ Ordering.lt ↦ true | _ ↦ false ]

-- 9.5 degrees are not less than 70, as texts.
text_lt_test : text_lt "9.5 degF" "70 degF" ≡ false
text_lt_test = refl

module _ {Sim : Type 0} ⦃gld : Gridlab Sim⦄ where
  -- `"%s:%s" % (item["class"],item["id"])`
  class_colon_id : Dict String → Exec (Area Sim) String
  class_colon_id item = do
    kind ← or_raise (get "class" item) key_error
    id ← or_raise (get "id" item) key_error
    pure (str_append kind (str_append ":" id))

  item_name : Dict String → Option String → Exec (Area Sim) String
  unfolding class_colon_id
  item_name item (some name) = pure name
  item_name item none = class_colon_id item

  one_item : Dict String → Exec (Area Sim) (List String)
  unfolding item_name
  one_item item = do name ← item_name item (get "name" item); pure (name ∷ [])

  items_among : String → String → List String → Exec (Area Sim) (List String)
  unfolding one_item
  items_among key wanted [] = pure []
  items_among key wanted (name ∷ names) = do
    item ← gets λ a. gld.get_object a.sim name
    found ← if meets key wanted (get key item) then one_item item else pure []
    more ← items_among key wanted names
    pure (found ++ more)

  -- `find` of load_control.py
  unfoldable pub find_items : String → Exec (Area Sim) (List String)
  unfolding items_among split_first split_second
  find_items criteria = do
    wanted ← or_raise (split_second "=" criteria) syntax_error
    names ← gets λ a. gld.objects a.sim
    items_among (split_first "=" criteria) wanted names

  -- the two `if` statements
  unfoldable pub set_mode : String → String → String → String → Exec (Area Sim) (Unit {0})
  set_mode house_id t_air t_heat t_cool = do
    if text_lt t_air t_heat
        then assign house_id "system_mode" "HEAT"
        else if not (text_lt t_air t_heat) && not (text_lt t_cool t_air)
        then assign house_id "system_mode" "OFF"
        else pure tt
    if text_lt t_cool t_air then assign house_id "system_mode" "COOL" else pure tt

  unfoldable pub absorption : String → Exec (Area Sim) (Unit {0})
  unfolding set_mode
  absorption house_id = do
    assign house_id "thermostat_control" "NONE"
    t_air ← value_of house_id "air_temperature"
    t_heat ← value_of house_id "heating_setpoint"
    t_cool ← value_of house_id "cooling_setpoint"
    set_mode house_id t_air t_heat t_cool

  absorb_each : List String → Exec (Area Sim) (Unit {0})
  unfolding absorption
  absorb_each [] = pure tt
  absorb_each (h ∷ hs) = absorption h >> absorb_each hs

  -- `on_commit`, but for the time that it returns
  pub on_commit : Exec (Area Sim) (Unit {0})
  unfolding find_items absorb_each
  on_commit = do houses ← find_items "class=house"; absorb_each houses
