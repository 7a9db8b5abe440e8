-- ===== src/Control/Manage/Bounds.antt =====
-- How many houses are off after the loops of the shed branch (absorption.py).
use grip_absorption_pipeline.Base.{
  ℕ, zero, suc, ◌+◌, ◌-◌, ◌≤◌, String, Bool, true, false, List, [], ◌∷◌, ◌++◌, some, ◌≡◌, refl,
  subst, sym, leb, if◌then◌else◌, eq_iff, arith, Option-cases, inl, inr,
}
use grip_absorption_pipeline.Base.Lists.{length, length-append}
use grip_absorption_pipeline.Base.Dict.{keys}
use grip_absorption_pipeline.Base.Exec.{Exec, modify, or_raise, value_error, ◌>>=◌, ◌>>◌}
use grip_absorption_pipeline.Base.Keeps.{Keeps, keeps_rules}
use grip_absorption_pipeline.Base.Outcomes.{Outcome, Leads, bind-Leads, Keeps-Leads, Outcome-map}
use grip_absorption_pipeline.Num.{Num}
use grip_absorption_pipeline.Gridlab.{Gridlab}
use grip_absorption_pipeline.Packetized.Battery.{VirtualBattery}
use grip_absorption_pipeline.Faults.{all_but}
use grip_absorption_pipeline.Control.{Island, Control, battery_of}
use grip_absorption_pipeline.Control.Keeps.{turn_off_house-Keeps, turn_on_house-Keeps}
use grip_absorption_pipeline.Control.Houses.{turn_off_house, turn_on_house}
use grip_absorption_pipeline.Control.Manage.Shed.{
  Plan, follow_plan, choice, nth, big_nodes, houses_among, disconnect_house, disconnect_one,
  disconnect_houses, reconnect_houses, set_houses_off,
}

-- no more than `b` houses, with room for `n` more
abbrev Room : ℕ → ℕ → List String → Type 0
Room n b off = length off + n ≤ b

all_but-length : (h : String) (xs : List String) → length (all_but h xs) ≤ length xs
all_but-length h [] = omega arith
all_but-length h (x ∷ xs) = ground (arith, all_but-length h xs)

nth-shorter :
    (h : String) (xs : List String) (n : ℕ)
    → nth xs n ≡ some h
    → suc (length (all_but h xs)) ≤ length xs
nth-shorter h [] n e = ground arith
nth-shorter h (x ∷ xs) zero e = ground (arith, all_but-length h xs, eq_iff x h)
nth-shorter h (x ∷ xs) (suc n) e = ground (arith, nth-shorter h xs n e)

module _ {F Sim : Type 0} ⦃num : Num F⦄ ⦃gld : Gridlab Sim⦄ (b : ℕ) where
  abbrev Off : (List String → Type 0) → Control F Sim → Type 0
  Off P c = P c.houses_off

  abbrev Small : Control F Sim → Type 0
  Small c = length c.houses_off ≤ b

  choice-Keeps : {A : Type 0} (P : List String → Type 0) (xs : List A) → Keeps (Off P) (choice xs)
  choice-Keeps P xs = search keeps_rules depth 20

  battery_of-Keeps :
      (P : List String → Type 0) (island : Island) → Keeps (Off P) (battery_of island)
  battery_of-Keeps P island = search keeps_rules depth 20

  small : (n : ℕ) (c : Control F Sim) → Off (Room n b) c → Small c
  small n c r = omega arith

  disconnect_house-Leads :
      (island : Island) (h : String) (n : ℕ)
      → Leads Small (Off (Room (suc n) b)) (λ _. Off (Room n b)) (disconnect_house island h)
  disconnect_house-Leads island h n =
      bind-Leads Small (Off (Room (suc n) b)) (λ _. Off (Room (suc n) b)) (λ _. Off (Room n b))
        (turn_off_house island h)
        (λ _. modify λ c. record c { houses_off = c.houses_off ++ h ∷ [] })
        (Keeps-Leads Small _ _ (turn_off_house-Keeps (Room (suc n) b) island h) (small (suc n)))
        (λ _ s r. ground (arith, length-append s.houses_off (h ∷ [])))

  disconnect_one-Leads :
      (island : Island) (hs : List String) (n : ℕ)
      → Leads Small (Off (Room (suc n) b)) (λ _. Off (Room n b)) (disconnect_one island hs)
  disconnect_one-Leads island [] n s r = omega arith
  disconnect_one-Leads island (h ∷ hs) n s r =
      bind-Leads Small (Off (Room (suc n) b)) (λ _. Off (Room (suc n) b)) (λ _. Off (Room n b))
        (choice (h ∷ hs)) (disconnect_house island)
        (Keeps-Leads Small _ _ (choice-Keeps (Room (suc n) b) (h ∷ hs)) (small (suc n)))
        (λ k. disconnect_house-Leads island k n) s r

  disconnect_houses-Leads :
      (n : ℕ) (island : Island)
      → Leads Small (Off (Room n b)) (λ _. Small) (disconnect_houses n island)
  unfolding disconnect_houses
  disconnect_houses-Leads zero island s r = omega arith
  disconnect_houses-Leads (suc n) island s r =
      bind-Leads Small (Off (Room (suc n) b)) (λ _. Off (Room (suc n) b)) (λ _. Small)
        (choice (big_nodes island)) (λ _. battery_of island >>= rest)
        (Keeps-Leads Small _ _ (choice-Keeps (Room (suc n) b) (big_nodes island)) (small (suc n)))
        (λ _.
          bind-Leads Small (Off (Room (suc n) b)) (λ _. Off (Room (suc n) b)) (λ _. Small)
            (battery_of island) rest
            (Keeps-Leads Small _ _ (battery_of-Keeps (Room (suc n) b) island) (small (suc n)))
            (λ vb.
              bind-Leads Small (Off (Room (suc n) b)) (λ _. Off (Room n b)) (λ _. Small)
                (disconnect_one island (houses_among (keys vb.devices)))
                (λ _. disconnect_houses n island)
                (disconnect_one-Leads island (houses_among (keys vb.devices)) n)
                (λ _. disconnect_houses-Leads n island)))
        s r
    where
      rest : VirtualBattery F → Exec (Control F Sim) (Unit {0})
      rest vb = disconnect_one island (houses_among (keys vb.devices)) >> disconnect_houses n island

  -- what is left after the choice of a house
  abbrev Taken : List String → String → Control F Sim → Type 0
  Taken off h c = (c.houses_off ≡ off) × (suc (length (all_but h off)) ≤ length off)

  chosen-Outcome :
      (off : List String) (n : ℕ) (s : Control F Sim)
      → length off ≤ b
      → s.houses_off ≡ off
      → Outcome (Taken off) Small (or_raise (nth off n) value_error s)
  chosen-Outcome off n s le e = elim (Option-cases (nth off n)) [
    | inl x ↦
        subst (λ o. Outcome (Taken off) Small (or_raise o value_error s)) (sym x)
          (subst (λ xs. length xs ≤ b) (sym e) le)
    | inr (h, x) ↦
        subst (λ o. Outcome (Taken off) Small (or_raise o value_error s)) (sym x)
          (e, nth-shorter h off n x)
  ]

  choice-Leads :
      (off : List String)
      → length off ≤ b
      → Leads Small (Off λ xs. xs ≡ off) (Taken off) (choice off)
  choice-Leads off le s e =
      chosen-Outcome off (s.choices s.chosen) (record s { chosen = suc s.chosen }) le e

  reconnect_houses-Leads :
      (n : ℕ) (island : Island) (t k : ℕ)
      → Leads Small
          (Off λ xs. (length xs ≤ k + n) × (length xs ≤ b))
          (λ _ c. length c.houses_off ≤ k)
          (reconnect_houses n island t)
  unfolding reconnect_houses
  reconnect_houses-Leads zero island t k s (h, l) = omega arith
  reconnect_houses-Leads (suc n) island t k s (h, l) =
      bind-Leads Small (Off λ xs. xs ≡ off) (Taken off) Good (choice off) turned
        (choice-Leads off l)
        (λ x.
          bind-Leads Small (Taken off x) (λ _. Taken off x) Good (turn_on_house island x t)
            (λ _. modify (left x) >> reconnect_houses n island t) (stays x)
            (λ _ c (e, lt). reconnect_houses-Leads n island t k (left x c) (shrunk x c e lt)))
        s refl
    where
      off : List String
      off = s.houses_off

      Good : Unit {0} → Control F Sim → Type 0
      Good u c = length c.houses_off ≤ k

      left : String → Control F Sim → Control F Sim
      left x c = record c { houses_off = all_but x c.houses_off }

      turned : String → Exec (Control F Sim) (Unit {0})
      turned x = turn_on_house island x t >> (modify (left x) >> reconnect_houses n island t)

      stays : (x : String) → Leads Small (Taken off x) (λ _. Taken off x) (turn_on_house island x t)
      stays x =
          Keeps-Leads Small _ _
            (turn_on_house-Keeps (λ xs. (xs ≡ off) × (suc (length (all_but x off)) ≤ length off))
              island x t)
            (λ c (e, lt). subst (λ xs. length xs ≤ b) (sym e) l)

      shrunk :
          (x : String) (c : Control F Sim)
          → c.houses_off ≡ off
          → suc (length (all_but x off)) ≤ length off
          → (length (all_but x c.houses_off) ≤ k + n) × (length (all_but x c.houses_off) ≤ b)
      shrunk x c e lt =
          subst (λ xs. (length (all_but x xs) ≤ k + n) × (length (all_but x xs) ≤ b)) (sym e)
            (ground arith)

  follow_plan-Leads :
      (p : Plan) (island : Island) (t k : ℕ)
      → b ≤ k + p.reconnect
      → Leads Small
          (Off (Room p.disconnect b))
          (λ _ c. length c.houses_off ≤ k)
          (follow_plan island t p)
  follow_plan-Leads p island t k le =
      bind-Leads Small (Off (Room p.disconnect b)) (λ _. Small) (λ _ c. length c.houses_off ≤ k)
        (disconnect_houses p.disconnect island) (λ _. reconnect_houses p.reconnect island t)
        (disconnect_houses-Leads p.disconnect island)
        (λ _ c l. reconnect_houses-Leads p.reconnect island t k c (omega arith, l))

-- after the loops, and after an exception in them, `before` houses having been off
abbrev pub most_off : ℕ → ℕ → ℕ
most_off before wanted = if leb before wanted then wanted else wanted + wanted

module _ {F Sim : Type 0} ⦃num : Num F⦄ ⦃gld : Gridlab Sim⦄ where
  planned-Outcome :
      (island : Island) (t wanted : ℕ) (c : Control F Sim) (q : Bool)
      → leb (length c.houses_off) wanted ≡ q
      → Outcome
          (λ _ c'. length c'.houses_off ≤ (if q then wanted else wanted + wanted))
          (λ c'. length c'.houses_off ≤ length c.houses_off + wanted)
          (follow_plan island t
            (if q
              then record { disconnect = wanted - length c.houses_off; reconnect = 0 }
              else record { disconnect = wanted; reconnect = length c.houses_off - wanted })
            c)
  planned-Outcome island t wanted c true e =
      Outcome-map
        (follow_plan island t (record { disconnect = wanted - length c.houses_off; reconnect = 0 })
          c)
        (follow_plan-Leads wanted _ island t wanted (omega arith) c (ground arith)) (λ _ s h. h)
        (λ s h. omega arith)
  planned-Outcome island t wanted c false e =
      follow_plan-Leads (length c.houses_off + wanted) _ island t (wanted + wanted) (ground arith) c
        (ground arith)

  -- Where the loops of the shed branch end, at most as many houses are off as are wanted, if not more
  -- were off before, and else at most twice as many as are wanted. Where an exception ends them, at
  -- most as many are off as were off before and are wanted, together.
  pub set_houses_off-Outcome :
      (island : Island) (t wanted : ℕ) (c : Control F Sim)
      → Outcome
          (λ _ c'. length c'.houses_off ≤ most_off (length c.houses_off) wanted)
          (λ c'. length c'.houses_off ≤ length c.houses_off + wanted)
          (set_houses_off island t wanted c)
  unfolding set_houses_off
  set_houses_off-Outcome island t wanted c =
      planned-Outcome island t wanted c (leb (length c.houses_off) wanted) refl
