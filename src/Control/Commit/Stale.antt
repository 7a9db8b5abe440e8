-- ===== src/Control/Commit/Stale.antt =====
-- The loop of `on_commit` (absorption.py) between the times of the optimisation, with an island that
-- no optimisation has seen.
use grip_absorption_pipeline.Base.{
  ℕ, true, false, Option, none, some, List, [], ◌∷◌, ◌++◌, ◌≡◌, refl, ap, nat_eq_iff, arith,
}
use grip_absorption_pipeline.Base.Exec.{Exec, or_raise, key_error, ◌>>=◌}
use grip_absorption_pipeline.Base.Keeps.{Keeps, keeps_rules}
use grip_absorption_pipeline.Base.Outcomes.{
  Outcome, Raises, Leads, bind-Leads, Keeps-Leads, Outcome-map,
}
use grip_absorption_pipeline.Num.{Num}
use grip_absorption_pipeline.Gridlab.{Gridlab}
use grip_absorption_pipeline.Packetized.World.{World}
use grip_absorption_pipeline.Faults.{Area}
use grip_absorption_pipeline.Control.{
  Island, PerIsland, BalanceEntry, Control, battery_of, island_eq, get_for, put_for, in_area,
  in_world,
}
use grip_absorption_pipeline.Control.Saved.{save_vb_data, save_if_asked}
use grip_absorption_pipeline.Control.Manage.Columns.{Shuffles, packetize}
use grip_absorption_pipeline.Control.Rounds.{
  entry_of, with_load, balance_again, note_balance, packetize_one, packetize_all,
}

island_eq-get_for :
    {V : Type 0} (i j : Island) (d : PerIsland V) → island_eq i j ≡ true → get_for i d ≡ get_for j d
island_eq-get_for i j d e = ap (λ k. get_for k d) (same i j e)
  where
    same : (i j : Island) → island_eq i j ≡ true → i ≡ j
    same [] [] e = refl
    same [] (n ∷ j) e = ground arith
    same (m ∷ i) [] e = ground arith
    same (m ∷ i) (n ∷ j) e = ground (arith, same i j, nat_eq_iff m n)

get_for-put_for :
    {V : Type 0} (i j : Island) (v : V) (d : PerIsland V)
    → island_eq j i ≡ false
    → get_for i d ≡ none
    → get_for i (put_for j v d) ≡ none
get_for-put_for i j v [] e h = ground arith
get_for-put_for i j v ((k, w) ∷ d) e h = ground (arith, get_for-put_for i j v d)

island_eq_refl : (i : Island) → island_eq i i ≡ true
island_eq_refl [] = refl
island_eq_refl (n ∷ i) = ground (arith, island_eq_refl i, nat_eq_iff n n)

module _ {F Sim : Type 0} ⦃num : Num F⦄ ⦃gld : Gridlab Sim⦄ (i : Island) where
  abbrev Missing : Control F Sim → Type 0
  Missing c = get_for i c.powerbal ≡ none

  abbrev Anything : Control F Sim → Type 0
  Anything c = Unit

  in_area-Keeps : {A : Type 0} (k : Exec (Area Sim) A) → Keeps Missing (in_area k)
  in_area-Keeps k = record { at = λ s h. h }

  in_world-Keeps : {A : Type 0} (k : Exec (World F Sim) A) → Keeps Missing (in_world k)
  in_world-Keeps k = record { at = λ s h. h }

  packetize-Keeps : (sh : Shuffles F) (t : ℕ) (j : Island) → Keeps Missing (packetize sh t j)
  unfolding packetize
  packetize-Keeps sh t j = search (keeps_rules, in_world-Keeps) depth 20

  note_balance-Keeps :
      (j : Island) (p : BalanceEntry F)
      → island_eq j i ≡ false
      → Keeps Missing (note_balance {Sim = Sim} j p)
  note_balance-Keeps j p e = record { at = λ s h. get_for-put_for i j p s.powerbal e h }

  battery_of-Keeps : (j : Island) → Keeps Missing (battery_of {F = F} {Sim = Sim} j)
  battery_of-Keeps j = search (keeps_rules) depth 20

  save_vb_data-Keeps :
      (p : BalanceEntry F) (j : Island) → Keeps Missing (save_vb_data {Sim = Sim} p j)
  unfolding save_vb_data
  save_vb_data-Keeps p j =
      search (keeps_rules, in_area-Keeps, in_world-Keeps, battery_of-Keeps) depth 60

  save_if_asked-Keeps :
      (p : BalanceEntry F) (j : Island) → Keeps Missing (save_if_asked {Sim = Sim} p j)
  unfolding save_if_asked
  save_if_asked-Keeps p j = search (keeps_rules, save_vb_data-Keeps) depth 20

  balance_again-Keeps :
      (sh : Shuffles F) (j : Island) (p : BalanceEntry F)
      → island_eq j i ≡ false
      → Keeps Missing (balance_again sh j p)
  balance_again-Keeps sh j p e =
      search (keeps_rules, in_area-Keeps, note_balance-Keeps, save_if_asked-Keeps) depth 20

  -- what an island that has an entry is
  abbrev Other : Island → BalanceEntry F → Control F Sim → Type 0
  Other j p c = Missing c × (island_eq j i ≡ false)

  found-Outcome :
      (j : Island) (c : Control F Sim) (o : Option (BalanceEntry F))
      → get_for j c.powerbal ≡ o
      → Missing c
      → Outcome (Other j) Anything (or_raise o key_error c)
  found-Outcome j c none e h = tt
  found-Outcome j c (some p) e h = (h, ground (arith, island_eq-get_for j i c.powerbal))

  entry_of-Leads : (j : Island) → Leads Anything Missing (Other j) (entry_of j)
  entry_of-Leads j c h = found-Outcome j c (get_for j c.powerbal) refl h

  packetize_one-Leads :
      (sh : Shuffles F) (t : ℕ) (j : Island)
      → Leads Anything Missing (λ _ c. Missing c × (island_eq j i ≡ false)) (packetize_one sh t j)
  unfolding packetize_one
  packetize_one-Leads sh t j =
      bind-Leads Anything Missing (λ _. Missing) (λ _ c. Missing c × (island_eq j i ≡ false))
        (packetize sh t j) (λ load. entry_of j >>= λ p. balance_again sh j (with_load load p))
        (Keeps-Leads Anything Missing (packetize sh t j) (packetize-Keeps sh t j) (λ s h. tt))
        (λ load.
          bind-Leads Anything Missing (Other j) (λ _ c. Missing c × (island_eq j i ≡ false))
            (entry_of j) (λ p. balance_again sh j (with_load load p)) (entry_of-Leads j)
            (λ p c (h, e).
              Outcome-map (balance_again sh j (with_load load p) c)
                (Keeps-Leads Anything Missing (balance_again sh j (with_load load p))
                  (balance_again-Keeps sh j (with_load load p) e) (λ s k. tt) c h)
                (λ _ s k. (k, e)) (λ s k. tt)))

  packetize_all-Leads :
      (sh : Shuffles F) (t : ℕ) (before after : List Island)
      → Leads Anything Missing (λ _ c. ⊥) (packetize_all sh t (before ++ i ∷ after))
  unfolding packetize_all
  packetize_all-Leads sh t [] after =
      bind-Leads Anything Missing (λ _ c. Missing c × (island_eq i i ≡ false)) (λ _ c. ⊥)
        (packetize_one sh t i) (λ _. packetize_all sh t after) (packetize_one-Leads sh t i)
        (λ _ c (h, e). ground (arith, island_eq_refl i))
  packetize_all-Leads sh t (j ∷ before) after =
      bind-Leads Anything Missing (λ _ c. Missing c × (island_eq j i ≡ false)) (λ _ c. ⊥)
        (packetize_one sh t j) (λ _. packetize_all sh t (before ++ i ∷ after))
        (packetize_one-Leads sh t j) (λ _ c (h, e). packetize_all-Leads sh t before after c h)

-- Where an island has no entry in `powerbal`, the loop over a list of islands with that island in it
-- always ends with an exception.
pub packetize_all-Raises :
    {F Sim : Type 0} ⦃num : Num F⦄ ⦃gld : Gridlab Sim⦄ (sh : Shuffles F) (t : ℕ)
    (before after : List Island) (i : Island) (c : Control F Sim)
    → get_for i c.powerbal ≡ none
    → Raises (packetize_all sh t (before ++ i ∷ after) c)
packetize_all-Raises sh t before after i c h = packetize_all-Leads i sh t before after c h
