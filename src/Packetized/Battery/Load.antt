-- ===== src/Packetized/Battery/Load.antt =====
-- The load that `apply_pem_changes` (packetized/virtual_battery.py) admits.
use grip_absorption_pipeline.Base.{
  ◌≡◌, refl, Bool, true, false, Option, none, some, List, [], ◌∷◌, ◌++◌,
}
use grip_absorption_pipeline.Base.Exec.{Ensures, >>=-Ensures, >>=-Ensures_any}
use grip_absorption_pipeline.Num.{Num}
use grip_absorption_pipeline.Gridlab.{Gridlab}
use grip_absorption_pipeline.Packetized.World.{World}
use grip_absorption_pipeline.Packetized.Device.{
  pem_off, Effect, power_request, turn_on, turn_off, TurnOn, VbDevice, update, pem,
}
use grip_absorption_pipeline.Packetized.Battery.{
  VirtualBattery, Round, first_round, admit, take_answer, pem_round, apply_pem_changes,
}

module _ {F : Type 0} ⦃num : Num F⦄ where
  -- the loads one after another, added from the left
  abbrev pub sum_turn_ons : F → List (TurnOn F) → F
  sum_turn_ons acc [] = acc
  sum_turn_ons acc (e ∷ es) = sum_turn_ons (num.add acc e.kw) es

  -- Each was admitted while the load so far was below the limit.
  abbrev pub AllBelow : F → F → List (TurnOn F) → Type 0
  AllBelow limit acc [] = Unit
  AllBelow limit acc (e ∷ es) = (num.lt acc limit ≡ true) × AllBelow limit (num.add acc e.kw) es

  sum_turn_ons-append :
      (acc : F) (es : List (TurnOn F)) (e : TurnOn F)
      → sum_turn_ons acc (es ++ e ∷ []) ≡ num.add (sum_turn_ons acc es) e.kw
  sum_turn_ons-append acc [] e = refl
  sum_turn_ons-append acc (x ∷ es) e = sum_turn_ons-append (num.add acc x.kw) es e

  AllBelow-append :
      (limit acc : F) (es : List (TurnOn F)) (e : TurnOn F)
      → AllBelow limit acc es
      → num.lt (sum_turn_ons acc es) limit ≡ true
      → AllBelow limit acc (es ++ e ∷ [])
  AllBelow-append limit acc [] e h below = (below, tt)
  AllBelow-append limit acc (x ∷ es) e h below =
      (h.0, AllBelow-append limit (num.add acc x.kw) es e h.1 below)

  pub record IsAdmitted (limit : F) (r : Round F) : Type 0 where
    pub counted : r.totalload ≡ sum_turn_ons (num.lit 0) r.effects.turn_ons
    pub below : AllBelow limit (num.lit 0) r.effects.turn_ons

module _ {F Sim : Type 0} ⦃num : Num F⦄ ⦃gld : Gridlab Sim⦄ where
  admit-IsAdmitted :
      (limit : F) (b : Bool) (d next : VbDevice F) (e : TurnOn F) (r : Round F) (w : World F Sim)
      → num.lt r.totalload limit ≡ b
      → IsAdmitted limit r
      → Ensures (λ r' _. IsAdmitted limit r') (admit b d next e r w)
  unfolding admit
  admit-IsAdmitted limit true d next e r w test h = record {
    counted = rw (sum_turn_ons-append (num.lit 0) r.effects.turn_ons e, h.counted);
    below = AllBelow-append limit (num.lit 0) r.effects.turn_ons e h.below (rw h.counted at test);
  }
  admit-IsAdmitted limit false d next e r w test h =
      >>=-Ensures_any (λ r' _. IsAdmitted limit r') _ (update d (some pem_off) none) w
        (λ _ _. record { counted = h.counted; below = h.below })

  take_answer-IsAdmitted :
      (limit : F) (d next : VbDevice F) (effect : Option (Effect F)) (r : Round F) (w : World F Sim)
      → IsAdmitted limit r
      → Ensures (λ r' _. IsAdmitted limit r') (take_answer limit d next effect r w)
  unfolding take_answer
  take_answer-IsAdmitted limit d next none r w h = h
  take_answer-IsAdmitted limit d next (some (turn_on e)) r w h =
      admit-IsAdmitted limit (num.lt r.totalload limit) d next e r w refl h
  take_answer-IsAdmitted limit d next (some (turn_off e)) r w h = record {
    counted = h.counted;
    below = h.below;
  }
  take_answer-IsAdmitted limit d next (some (power_request e)) r w h = record {
    counted = h.counted;
    below = h.below;
  }

  pem_round-IsAdmitted :
      (limit : F) (t : _) (ds : List (VbDevice F)) (r : Round F) (w : World F Sim)
      → IsAdmitted limit r
      → Ensures (λ r' _. IsAdmitted limit r') (pem_round limit t ds r w)
  unfolding pem_round
  pem_round-IsAdmitted limit t [] r w h = h
  pem_round-IsAdmitted limit t (d ∷ ds) r w h =
      >>=-Ensures_any (λ r' _. IsAdmitted limit r') _ (pem 2 d t) w
        λ a w1.
          >>=-Ensures (λ r' _. IsAdmitted limit r') (λ r' _. IsAdmitted limit r') _
            (take_answer limit d a.0 a.1 r) w1 (take_answer-IsAdmitted limit d a.0 a.1 r w1 h)
            (pem_round-IsAdmitted limit t ds)

  -- The load that `apply_pem_changes` returns is the sum of what its effects turn on, and each of
  -- these was admitted while the sum of those before it was below the rounded setpoint.
  pub apply_pem_changes_admits :
      (vb : VirtualBattery F) (w : World F Sim)
      → Ensures (λ r _. IsAdmitted (num.round vb.setpoint) r) (apply_pem_changes vb w)
  unfolding apply_pem_changes
  apply_pem_changes_admits vb w =
      pem_round-IsAdmitted (num.round vb.setpoint) vb.time_sec _ first_round w
        (record { counted = refl; below = tt })
