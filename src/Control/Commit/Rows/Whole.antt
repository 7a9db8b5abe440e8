-- ===== src/Control/Commit/Rows/Whole.antt =====
-- The rows of virtual_battery_timeseries.csv over `island_management` (absorption.py).
use grip_absorption_pipeline.Base.{ℕ, zero, suc, String, Option, List, [], ◌∷◌}
use grip_absorption_pipeline.Base.Dict.{Dict, get, keys}
use grip_absorption_pipeline.Base.Exec.{Exec, modify, gets, or_raise, key_error}
use grip_absorption_pipeline.Base.Keeps.{
  Keeps, keeps_rules, modify-Keeps, bind-Keeps, pure-Keeps, gets-Keeps, or_raise-Keeps,
}
use grip_absorption_pipeline.Num.{Num}
use grip_absorption_pipeline.Gridlab.{Gridlab}
use grip_absorption_pipeline.Balance.{PowerBalance}
use grip_absorption_pipeline.Control.{Island, Control, battery_of}
use grip_absorption_pipeline.Faults.{all_but}
use grip_absorption_pipeline.Control.Houses
use grip_absorption_pipeline.Control.Manage
use grip_absorption_pipeline.Control.Manage.Shed
use grip_absorption_pipeline.Control.Manage.Columns
use grip_absorption_pipeline.Control.Manage.Columns.{Shuffles}
use grip_absorption_pipeline.Control.Commit.Rows.{
  HasRows, in_area-Keeps, in_world-Keeps, save_if_asked-Keeps, packetize-Keeps, devices_on-Keeps,
}

module _ {F Sim : Type 0} ⦃num : Num F⦄ ⦃gld : Gridlab Sim⦄ where
  abbrev Kept : {A : Type 0} → Exec (Control F Sim) A → Type 0
  Kept m = Keeps HasRows m

  drop_device-Keeps : (island : Island) (id : String) → Kept (Houses.drop_device island id)
  unfolding Houses.drop_device
  drop_device-Keeps island id = search (keeps_rules, in_world-Keeps) depth 20

  interrupt-Keeps : (h value : String) → Kept (Houses.interrupt h value)
  unfolding Houses.interrupt
  interrupt-Keeps h value = search (keeps_rules, in_area-Keeps)

  turn_off_house-Keeps : (island : Island) (h : String) → Kept (Houses.turn_off_house island h)
  unfolding Houses.turn_off_house
  turn_off_house-Keeps island h = search (keeps_rules, drop_device-Keeps, interrupt-Keeps)

  restart_timer-Keeps : (id : String) (ends : ℕ) → Kept (Houses.restart_timer id ends)
  unfolding Houses.restart_timer
  restart_timer-Keeps id ends = search keeps_rules

  add_known-Keeps : (island : Island) (id : String) → Kept (Houses.add_known island id)
  unfolding Houses.add_known
  add_known-Keeps island id = search keeps_rules depth 20

  turn_on_house-Keeps :
      (island : Island) (h : String) (t : ℕ) → Kept (Houses.turn_on_house island h t)
  unfolding Houses.turn_on_house
  turn_on_house-Keeps island h t =
      search (keeps_rules, restart_timer-Keeps, add_known-Keeps, interrupt-Keeps) depth 20

  choice-Keeps : {A : Type 0} (xs : List A) → Kept (Shed.choice xs)
  choice-Keeps xs = search keeps_rules depth 20

  disconnect_one-Keeps : (island : Island) (hs : List String) → Kept (Shed.disconnect_one island hs)
  disconnect_one-Keeps island [] = pure-Keeps tt
  disconnect_one-Keeps island (h ∷ hs) =
      search (keeps_rules, choice-Keeps, turn_off_house-Keeps) depth 20

  disconnect_houses-Keeps : (n : ℕ) (island : Island) → Kept (Shed.disconnect_houses n island)
  unfolding Shed.disconnect_houses
  disconnect_houses-Keeps zero island = pure-Keeps tt
  disconnect_houses-Keeps (suc n) island =
      bind-Keeps (Shed.choice (Shed.big_nodes island)) _ (choice-Keeps (Shed.big_nodes island))
        (λ b. bind-Keeps (battery_of island) _ (search keeps_rules depth 20) (λ vb.
          bind-Keeps (Shed.disconnect_one island (Shed.houses_among (keys vb.devices))) _
            (disconnect_one-Keeps island (Shed.houses_among (keys vb.devices)))
            (λ u. disconnect_houses-Keeps n island)))

  reconnect_houses-Keeps :
      (n : ℕ) (island : Island) (t : ℕ) → Kept (Shed.reconnect_houses n island t)
  unfolding Shed.reconnect_houses
  reconnect_houses-Keeps zero island t = pure-Keeps tt
  reconnect_houses-Keeps (suc n) island t =
      bind-Keeps (gets (λ c. c.houses_off)) _ (gets-Keeps _) (λ off.
        bind-Keeps (Shed.choice off) _ (choice-Keeps off) (λ h.
          bind-Keeps (Houses.turn_on_house island h t) _ (turn_on_house-Keeps island h t) (λ u.
            bind-Keeps (modify (λ c. record c { houses_off = all_but h c.houses_off })) _
              (modify-Keeps _ (λ c k. k)) (λ v. reconnect_houses-Keeps n island t))))

  set_houses_off-Keeps : (island : Island) (t n : ℕ) → Kept (Shed.set_houses_off island t n)
  unfolding Shed.set_houses_off
  set_houses_off-Keeps island t n =
      search (keeps_rules, disconnect_houses-Keeps, reconnect_houses-Keeps) depth 20

  count_houses-Keeps : (island : Island) → Kept (Manage.count_houses island)
  unfolding Manage.count_houses
  count_houses-Keeps [] = pure-Keeps 0
  count_houses-Keeps (n ∷ ns) =
      bind-Keeps _ _ (devices_on-Keeps _) (λ here.
        bind-Keeps (Manage.count_houses ns) _ (count_houses-Keeps ns) (λ more. pure-Keeps _))

  houses_for-Keeps : (island : Island) (x : F) → Kept (Manage.houses_for island x)
  unfolding Manage.houses_for
  houses_for-Keeps island x = search keeps_rules depth 20

  wanted_houses-Keeps :
      (island : Island) (results : Dict F) (x : F) → Kept (Manage.wanted_houses island results x)
  unfolding Manage.wanted_houses
  wanted_houses-Keeps island results x =
      search (keeps_rules, count_houses-Keeps, houses_for-Keeps) depth 40

  take_shed-Keeps :
      (island : Island) (t : ℕ) (results : Dict F) (x : F) (p : PowerBalance F)
      → Kept (Shed.take_shed island t results x p)
  unfolding Shed.take_shed
  take_shed-Keeps island t results x p =
      search (keeps_rules, wanted_houses-Keeps, set_houses_off-Keeps) depth 20

  take_solar-Keeps : (c : String) (x : F) (p : PowerBalance F) → Kept (Manage.take_solar c x p)
  unfolding Manage.take_solar Manage.set_output
  take_solar-Keeps c x p = search (keeps_rules, in_area-Keeps) depth 20

  take_battery-Keeps : (c : String) (x : F) (p : PowerBalance F) → Kept (Manage.take_battery c x p)
  unfolding Manage.take_battery Manage.set_output
  take_battery-Keeps c x p = search (keeps_rules, in_area-Keeps) depth 20

  take_setpoint-Keeps :
      (sh : Shuffles F) (t : ℕ) (island : Island) (x : F) (p : PowerBalance F)
      → Kept (Columns.take_setpoint sh t island x p)
  unfolding Columns.take_setpoint
  take_setpoint-Keeps sh t island x p = search (keeps_rules, packetize-Keeps) depth 40

  take_column-Keeps :
      (sh : Shuffles F) (t : ℕ) (island : Island) (results : Dict F) (c : String) (x : F)
      (p : PowerBalance F)
      → Kept (Columns.take_column sh t island results c x p)
  unfolding Columns.take_column
  take_column-Keeps sh t island results c x p =
      search
        (keeps_rules, take_solar-Keeps, take_shed-Keeps, take_setpoint-Keeps, take_battery-Keeps)
        depth 20

  take_columns-Keeps :
      (sh : Shuffles F) (t : ℕ) (island : Island) (results : Dict F) (cs : List String)
      (p : PowerBalance F)
      → Kept (Columns.take_columns sh t island results cs p)
  unfolding Columns.take_columns
  take_columns-Keeps sh t island results [] p = pure-Keeps p
  take_columns-Keeps sh t island results (c ∷ cs) p =
      bind-Keeps (or_raise (get c results) key_error) _ (or_raise-Keeps _ _) (λ x.
        bind-Keeps _ _ (take_column-Keeps sh t island results c x p)
          (λ q. take_columns-Keeps sh t island results cs q))

  data-Keeps : (island : Island) → Kept (Manage.get_island_management_data island)
  unfolding Manage.get_island_management_data
  data-Keeps island = search (keeps_rules, in_area-Keeps) depth 40

  manage_island-Keeps :
      (server : Dict String → Option (Dict F)) (sh : Shuffles F) (t : ℕ) (island : Island)
      → Kept (Columns.manage_island server sh t island)
  unfolding Columns.manage_island
  manage_island-Keeps server sh t island =
      search (keeps_rules, data-Keeps, take_columns-Keeps, in_area-Keeps, save_if_asked-Keeps) depth
        40

  manage_islands-Keeps :
      (server : Dict String → Option (Dict F)) (sh : Shuffles F) (t : ℕ) (islands : List Island)
      → Kept (Columns.manage_islands server sh t islands)
  unfolding Columns.manage_islands
  manage_islands-Keeps server sh t [] = pure-Keeps tt
  manage_islands-Keeps server sh t (island ∷ islands) =
      bind-Keeps _ _ (manage_island-Keeps server sh t island)
        (λ u. manage_islands-Keeps server sh t islands)

  pub island_management-Keeps :
      (server : Dict String → Option (Dict F)) (sh : Shuffles F) (t : ℕ)
      → Kept (Columns.island_management server sh t)
  unfolding Columns.island_management
  island_management-Keeps server sh t = search (keeps_rules, manage_islands-Keeps) depth 20
