-- ===== src/Faults/Keeps.antt =====
-- `shutoff_loads` (absorption.py): that it returns, and leaves what `new_fault_detected` reads.
use grip_absorption_pipeline.Base.{
  String, ◌≡◌, ◌≢◌, refl, ◌∙◌, inr, Bool, true, false, Option, none, some, List, [], ◌∷◌, ◌++◌,
  ◌==◌, if◌then◌else◌,
}
use grip_absorption_pipeline.Base.Text.{split_first, split_second}
use grip_absorption_pipeline.Base.Dict.{Dict, get, contains, get_of_contains}
use grip_absorption_pipeline.Base.Exec.{
  Exec, pure, or_raise, type_error, ◌>>=◌, ◌>>◌, Returns, >>=-Returns,
}
use grip_absorption_pipeline.Gridlab.{Gridlab, GridlabLaws}
use grip_absorption_pipeline.Faults.{
  NodeDevices, Area, assign, meets, log_power, name_of, one_name, find_among, find, stop_inverter,
  stop_inverters, stop_meters, stop_heaters, stop_mapped, stop_heaters_at, stop_found,
  shutoff_loads,
}

module _ {Sim : Type 0} ⦃gld : Gridlab Sim⦄ where
  -- The faults that the simulation shows, the list of the faulted supernodes, the map of the
  -- devices, and a name on every object.
  pub record IsArea (fault : String → String) (ns : List String) (m : Dict NodeDevices)
      (a : Area Sim) : Type 0 where
    pub faults : (sn : String) → gld.get_value a.sim sn "supernode_fault" ≡ fault sn
    pub nodes : a.faulted_nodes ≡ ns
    pub mapped : a.device_map ≡ some m
    pub named : (o : String) → contains "name" (gld.get_object a.sim o) ≡ true

module _ {Sim : Type 0} ⦃gld : Gridlab Sim⦄ (laws : GridlabLaws Sim) (fault : String → String)
    (ns : List String) (m : Dict NodeDevices) where
  -- The statement returns, and leaves all of this.
  abbrev Stays : {A : Type 0} → Exec (Area Sim) A → Type 0
  Stays k = (a : Area Sim) → IsArea fault ns m a → Returns (λ _ b. IsArea fault ns m b) (k a)

  then-Stays :
      {A B : Type 0} (k : Exec (Area Sim) A) (l : Exec (Area Sim) B)
      → Stays k
      → Stays l
      → Stays (k >> l)
  then-Stays k l h h' a ok_a = >>=-Returns _ _ (λ _. l) k a (h a ok_a) (λ _ b. h' b)

  bind-Stays :
      {A B : Type 0} (k : Exec (Area Sim) A) (f : A → Exec (Area Sim) B)
      → Stays k
      → ((x : A) → Stays (f x))
      → Stays (k >>= f)
  bind-Stays k f h h' a ok_a = >>=-Returns _ _ f k a (h a ok_a) h'

  assign-Stays : (id prop v : String) → prop ≢ "supernode_fault" → Stays (assign id prop v)
  assign-Stays id prop v other a h = record {
    faults = λ sn. laws.get-set a.sim id prop v sn "supernode_fault" (inr other) ∙ h.faults sn;
    nodes = h.nodes;
    mapped = h.mapped;
    named = λ o. laws.contains-set a.sim id prop v o "name" ∙ h.named o;
  }

  stop_heaters-Stays : (ws : List String) → Stays (stop_heaters ws)
  unfolding stop_heaters
  stop_heaters-Stays [] a h = h
  stop_heaters-Stays (w ∷ ws) a h =
      then-Stays (assign w "re_override" "OV_OFF") (stop_heaters ws)
        (assign-Stays w "re_override" "OV_OFF" cc) (stop_heaters-Stays ws) a h

  -- the same under a test
  if-Stays :
      {A : Type 0} (b : Bool) (k : Exec (Area Sim) A) (x : A)
      → Stays k
      → Stays (if b then k else pure x)
  if-Stays true k x h a ok_a = h a ok_a
  if-Stays false k x h a ok_a = ok_a

  log_power-Stays : (id text : String) → Stays (log_power id text)
  log_power-Stays id text a h = record {
    faults = h.faults;
    nodes = h.nodes;
    mapped = h.mapped;
    named = h.named;
  }

  stop_inverter-Stays : (inv : String) → Stays (stop_inverter inv)
  unfolding stop_inverter
  stop_inverter-Stays inv =
      then-Stays (assign inv "P_Out" "0" >> assign inv "generator_status" "OFFLINE")
        (log_power inv "0")
        (then-Stays (assign inv "P_Out" "0") (assign inv "generator_status" "OFFLINE")
          (assign-Stays inv "P_Out" "0" cc) (assign-Stays inv "generator_status" "OFFLINE" cc))
        (log_power-Stays inv "0")

  stop_inverters-Stays : (node : String) (invs : List String) → Stays (stop_inverters node invs)
  unfolding stop_inverters
  stop_inverters-Stays node [] a h = h
  stop_inverters-Stays node (inv ∷ invs) a h =
      then-Stays
        (if gld.get_value a.sim inv "supernode_name" == node then stop_inverter inv else pure tt)
        (stop_inverters node invs)
        (if-Stays (gld.get_value a.sim inv "supernode_name" == node) (stop_inverter inv) tt
          (stop_inverter-Stays inv))
        (stop_inverters-Stays node invs) a h

  stop_meters-Stays : (node : String) (ms : List String) → Stays (stop_meters node ms)
  unfolding stop_meters
  stop_meters-Stays node [] a h = h
  stop_meters-Stays node (x ∷ ms) a h =
      then-Stays
        (if gld.get_value a.sim x "supernode_name" == node
          then assign x "service_status" "OUT_OF_SERVICE"
          else pure tt)
        (stop_meters node ms)
        (if-Stays (gld.get_value a.sim x "supernode_name" == node)
          (assign x "service_status" "OUT_OF_SERVICE") tt
          (assign-Stays x "service_status" "OUT_OF_SERVICE" cc))
        (stop_meters-Stays node ms) a h

  one_name-Stays : (item : Dict String) → contains "name" item ≡ true → Stays (one_name item)
  unfolding one_name name_of
  one_name-Stays item has a h = let (v, e) = get_of_contains "name" item has in rw e h

  find_among-Stays :
      (key wanted : String) (names : List String) → Stays (find_among key wanted names)
  unfolding find_among
  find_among-Stays key wanted [] a h = h
  find_among-Stays key wanted (name ∷ names) a h =
      let item = gld.get_object a.sim name in
      bind-Stays (if meets key wanted (get key item) then one_name item else pure [])
        (λ found. find_among key wanted names >>= λ more. pure (found ++ more))
        (if-Stays _ (one_name item) [] (one_name-Stays item (h.named name)))
        (λ found.
          bind-Stays (find_among key wanted names) (λ more. pure (found ++ more))
            (find_among-Stays key wanted names) (λ more b hb. hb))
        a h

  find-Stays :
      (criteria wanted : String) → split_second "=" criteria ≡ some wanted → Stays (find criteria)
  unfolding find
  find-Stays criteria wanted e a h =
      rw e (find_among-Stays (split_first "=" criteria) wanted (gld.objects a.sim) a h)

  stop_mapped-Stays : (o : Option NodeDevices) → Stays (stop_mapped o)
  unfolding stop_mapped
  stop_mapped-Stays none a h = h
  stop_mapped-Stays (some d) a h = stop_heaters-Stays d.waterheaters a h

  stop_in-Stays :
      (node : String) (o : Option (Dict NodeDevices))
      → o ≡ some m
      → Stays (or_raise o type_error >>= λ device_map. stop_mapped (get node device_map))
  stop_in-Stays node o e a h = rw e (stop_mapped-Stays (get node m) a h)

  stop_heaters_at-Stays : (node : String) → Stays (stop_heaters_at node)
  unfolding stop_heaters_at
  stop_heaters_at-Stays node a h = stop_in-Stays node a.device_map h.mapped a h

  stop_found-Stays :
      (node : String) (invs meters : List String) → Stays (stop_found node invs meters)
  unfolding stop_found
  stop_found-Stays node invs meters =
      then-Stays (stop_inverters node invs >> stop_meters node meters) (stop_heaters_at node)
        (then-Stays (stop_inverters node invs) (stop_meters node meters)
          (stop_inverters-Stays node invs) (stop_meters-Stays node meters))
        (stop_heaters_at-Stays node)

  triplex_meter_test : split_second "=" "class=triplex_meter" ≡ some "triplex_meter"
  unfolding split_second
  triplex_meter_test = refl

  inverter_test : split_second "=" "class=inverter" ≡ some "inverter"
  unfolding split_second
  inverter_test = refl

  pub shutoff_loads-Stays :
      (node : String) (a : Area Sim)
      → IsArea fault ns m a
      → Returns (λ _ b. IsArea fault ns m b) (shutoff_loads node a)
  unfolding shutoff_loads
  shutoff_loads-Stays node =
      bind-Stays (find "class=triplex_meter")
        (λ meters. find "class=inverter" >>= λ invs. stop_found node invs meters)
        (find-Stays "class=triplex_meter" "triplex_meter" triplex_meter_test)
        (λ meters.
          bind-Stays (find "class=inverter") (λ invs. stop_found node invs meters)
            (find-Stays "class=inverter" "inverter" inverter_test)
            (λ invs. stop_found-Stays node invs meters))
