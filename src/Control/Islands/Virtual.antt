-- ===== src/Control/Islands/Virtual.antt =====
-- What `process_islands` (absorption.py) keeps: islands of the closed branches that are cut off from
-- the swing bus.
use grip_absorption_pipeline.Base.{
  ℕ, ◌≡◌, refl, sym, ap, subst, ◌∙◌, String, Bool, some, true, false, List, [], ◌∷◌, map,
  if◌then◌else◌, arith, Bool-cases, inl, inr,
}
use grip_absorption_pipeline.Base.Decimal.{first_digits, int_of}
use grip_absorption_pipeline.Base.Dict.{listed}
use grip_absorption_pipeline.Base.Lists.{All}
use grip_absorption_pipeline.Base.Exec.{
  Exec, pure, gets, lift, Returns, >>=-Returns, Ensures-Returns, ◌>>=◌, ◌>>◌,
}
use grip_absorption_pipeline.Base.Neutral.{IsNeutral}
use grip_absorption_pipeline.Base.Preserves.{Preserves, Preserves-Ensures}
use grip_absorption_pipeline.Num.{Num}
use grip_absorption_pipeline.Gridlab.{Gridlab}
use grip_absorption_pipeline.Faults.{Area, assign, find, toggle_switches}
use grip_absorption_pipeline.Faults.Reads.{find-IsNeutral}
use grip_absorption_pipeline.Network.Sets.{mem}
use grip_absorption_pipeline.Network.Components.Group.{IsPick}
use grip_absorption_pipeline.Network.Components.Partition.{group_count}
use grip_absorption_pipeline.Network.Links.{Branch, supernodes, links}
use grip_absorption_pipeline.Network.Links.Symmetric.{AreProper, IsIsland, new_islands-IsIsland}
use grip_absorption_pipeline.Control.{Island, Control, in_area, area_of}
use grip_absorption_pipeline.Control.Houses.{supernode_of}
use grip_absorption_pipeline.Control.Islands.{
  ServerRow, to_toggle, branch_of, is_kept, kept, mark_inverters, mark_islands, process_islands,
}

-- without the swing bus, and of a first node that is not faulted
abbrev pub IsCutOff : ℕ → List String → Island → Type 0
IsCutOff swing_sn faulted_nodes [] = ⊥
IsCutOff swing_sn faulted_nodes (n ∷ ns) =
    (mem swing_sn (n ∷ ns) ≡ false) × (listed (supernode_of n) faulted_nodes ≡ false)

-- The second list has those of the first with the property, in the same order, and no other.
pub data Sifted (P : Island → Type 0) : List Island → List Island → Type 0 where
  none_left : Sifted P [] []
  keeps : {i : Island} {is js : List Island} → P i → Sifted P is js → Sifted P (i ∷ is) (i ∷ js)
  drops : {i : Island} {is js : List Island} → ¬ P i → Sifted P is js → Sifted P (i ∷ is) js

-- the classes of the buses of the table that closed branches connect
pub record AreClasses (rows : List Branch) (groups : List Island) : Type 0 where
  pub once : (v : ℕ) → group_count v groups ≡ (if mem v (supernodes rows) then 1 else 0)
  pub connected : All (IsIsland rows) groups

abbrev pub AreVirtual : List Branch → ℕ → List String → List Island → Type 0
AreVirtual rows swing_sn faulted_nodes islands =
    (groups : List Island) × AreClasses rows groups
    × Sifted (IsCutOff swing_sn faulted_nodes) groups islands

is_kept-IsCutOff :
    (swing_sn : ℕ) (faulted_nodes : List String) (i : Island)
    → is_kept swing_sn faulted_nodes i ≡ true
    → IsCutOff swing_sn faulted_nodes i
is_kept-IsCutOff swing_sn faulted_nodes [] e = ground (arith, e)
is_kept-IsCutOff swing_sn faulted_nodes (n ∷ ns) e = (ground (arith, e), ground (arith, e))

not-IsCutOff :
    (swing_sn : ℕ) (faulted_nodes : List String) (i : Island)
    → is_kept swing_sn faulted_nodes i ≡ false
    → ¬ IsCutOff swing_sn faulted_nodes i
not-IsCutOff swing_sn faulted_nodes [] e h = absurd h
not-IsCutOff swing_sn faulted_nodes (n ∷ ns) e (a, b) = ground (arith, e, a, b)

kept-Sifted :
    (swing_sn : ℕ) (faulted_nodes : List String) (islands : List Island)
    → Sifted (IsCutOff swing_sn faulted_nodes) islands (kept swing_sn faulted_nodes islands)
kept-Sifted swing_sn faulted_nodes [] = none_left
kept-Sifted swing_sn faulted_nodes (i ∷ is) = elim (Bool-cases (is_kept swing_sn faulted_nodes i)) [
  | inl yes_ ↦ rw yes_ (
      keeps (is_kept-IsCutOff swing_sn faulted_nodes i yes_)
        (kept-Sifted swing_sn faulted_nodes is))
  | inr no_ ↦
      rw no_
        (drops (not-IsCutOff swing_sn faulted_nodes i no_) (kept-Sifted swing_sn faulted_nodes is))
]

abbrev pub HasDigits : String → Type 0
HasDigits name = (n : String) × (first_digits name ≡ some n)

module _ {F Sim : Type 0} ⦃num : Num F⦄ ⦃gld : Gridlab Sim⦄ (swing_sn : ℕ)
    (faulted_nodes : List String) where
  -- the two variables that decide
  abbrev pub Decides : Control F Sim → Type 0
  Decides c = (c.swing_sn ≡ swing_sn) × (c.faulted_nodes ≡ faulted_nodes)

  in_area_neutral :
      {A : Type 0} (m : Exec (Area Sim) A) → IsNeutral m → Preserves Decides (in_area {F = F} m)
  in_area_neutral m n c h = (h.0, ap (λ a. a.faulted_nodes) (n (area_of c)) ∙ h.1)

  mark_inverters-Returns :
      (island : Island) (is : List String) (c : Control F Sim)
      → All HasDigits is
      → Decides c
      → Returns (λ _ d. Decides d) (mark_inverters island is c)
  unfolding mark_inverters
  mark_inverters-Returns island [] c ds h = h
  mark_inverters-Returns island (i ∷ is) c ((n, e), ds) h = rw e (
      >>=-Returns (λ _ d. Decides d) (λ _ d. Decides d) (λ _. mark_inverters island is)
        (if mem (int_of n) island then in_area (assign i "islanded_state" "TRUE") else pure tt) c
        (marked (mem (int_of n) island)) (λ _ d k. mark_inverters-Returns island is d ds k))
    where
      marked :
          (b : Bool)
          → Returns
              (λ _ d. Decides d)
              ((if b then in_area (assign i "islanded_state" "TRUE") else pure tt) c)
      marked true = h
      marked false = h

  mark_islands-Returns :
      (inverters : List String) (islands : List Island) (c : Control F Sim)
      → All HasDigits inverters
      → Decides c
      → Returns (λ _ d. Decides d) (mark_islands inverters islands c)
  unfolding mark_islands
  mark_islands-Returns inverters [] c ds h = h
  mark_islands-Returns inverters (island ∷ islands) c ds h =
      >>=-Returns (λ _ d. Decides d) (λ _ d. Decides d) (λ _. mark_islands inverters islands)
        (if mem c.swing_sn island then pure tt else mark_inverters island inverters) c
        (marked (mem c.swing_sn island)) (λ _ d k. mark_islands-Returns inverters islands d ds k)
    where
      marked :
          (b : Bool)
          → Returns (λ _ d. Decides d) ((if b then pure tt else mark_inverters island inverters) c)
      marked true = h
      marked false = mark_inverters-Returns island inverters c ds h

-- the state after the switches
abbrev pub toggled :
    {F Sim : Type 0} ⦃gld : Gridlab Sim⦄ → List ServerRow → Control F Sim → Control F Sim
toggled rows c = (in_area (toggle_switches (to_toggle rows)) c).1

-- Where the inverters can be listed and their names have digits, and no closed branch leads from a bus
-- to itself, `process_islands` returns. Of the classes of the buses of the table that closed branches
-- connect, each bus in exactly one, it gives those without the swing bus whose first node is not
-- faulted, and no other.
pub process_islands-IsVirtual :
    {F Sim : Type 0} ⦃num : Num F⦄ ⦃gld : Gridlab Sim⦄ (pick : ℕ → List ℕ → ℕ)
    (rows : List ServerRow) (c : Control F Sim)
    → IsPick pick
    → AreProper (links (map branch_of rows))
    → Returns
        (λ inverters d. All HasDigits inverters)
        (in_area (find "class=inverter") (toggled rows c))
    → Returns
        (λ islands c'. AreVirtual (map branch_of rows) c.swing_sn c.faulted_nodes islands)
        (process_islands pick rows c)
unfolding process_islands toggle_switches
process_islands-IsVirtual {F} {Sim} pick rows c picks proper listed_all =
    let (groups, e, count, all) = new_islands-IsIsland pick (map branch_of rows) picks proper in
    let result = AreVirtual (map branch_of rows) c.swing_sn c.faulted_nodes in
    let inv = Decides {F = F} {Sim = Sim} c.swing_sn c.faulted_nodes in
    let choose = λ (islands : List Island).
      gets {S = Control F Sim} (λ d. kept d.swing_sn d.faulted_nodes islands) in
    let finish = λ (islands : List Island).
      in_area {F = F} (find {Sim = Sim} "class=inverter") >>= λ inverters.
      mark_islands {F = F} inverters islands >> choose islands in
    let d = toggled rows c in
    subst (λ r. Returns (λ islands d'. result islands) ((lift r >>= finish) d)) (sym e)
      (>>=-Returns (λ inverters d'. inv d' × All HasDigits inverters) (λ islands d'. result islands)
        (λ inverters. mark_islands inverters groups >> choose groups)
        (in_area (find "class=inverter")) d
        (Ensures-Returns (λ _ d'. inv d') (λ inverters d'. All HasDigits inverters)
          (in_area (find "class=inverter") d)
          (Preserves-Ensures inv (in_area (find "class=inverter")) d
            (in_area_neutral c.swing_sn c.faulted_nodes (find "class=inverter")
              (find-IsNeutral "class=inverter"))
            (refl, refl))
          listed_all)
        (λ inverters d1 (h1, ds).
          >>=-Returns (λ _ d'. inv d') (λ islands d'. result islands) (λ _. choose groups)
            (mark_islands inverters groups) d1
            (mark_islands-Returns c.swing_sn c.faulted_nodes inverters groups d1 ds h1)
            (λ _ d2 h2.
              subst (λ x. result (kept x d2.faulted_nodes groups)) (sym h2.0)
                (subst (λ x. result (kept c.swing_sn x groups)) (sym h2.1)
                  (
                    groups,
                    record { once = count; connected = all },
                    kept-Sifted c.swing_sn c.faulted_nodes groups,
                  )))))
