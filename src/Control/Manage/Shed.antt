-- ===== src/Control/Manage/Shed.antt =====
-- The branch of `island_management` (absorption.py) for a column about shed load. The list
-- `houses_off` is one for all islands. `np.random.choice` takes the next number of the state.
use grip_absorption_pipeline.Base.{
  ℕ, zero, suc, ◌-◌, String, Option, none, some, List, [], ◌∷◌, ◌++◌, leb, if◌then◌else◌,
}
use grip_absorption_pipeline.Base.Lists.{length}
use grip_absorption_pipeline.Base.Text.{contains_text}
use grip_absorption_pipeline.Base.Dict.{Dict, keys}
use grip_absorption_pipeline.Base.Exec.{
  Exec, pure, gets, or_raise, modify, value_error, ◌>>=◌, ◌>>◌,
}
use grip_absorption_pipeline.Num.{Num}
use grip_absorption_pipeline.Gridlab.{Gridlab}
use grip_absorption_pipeline.Faults.{all_but}
use grip_absorption_pipeline.Balance.{PowerBalance}
use grip_absorption_pipeline.Control.{Island, Control, battery_of}
use grip_absorption_pipeline.Control.Houses.{turn_off_house, turn_on_house}
use grip_absorption_pipeline.Control.Manage.{wanted_houses}

-- how many houses the two loops go through
pub record Plan : Type 0 where
  pub disconnect : ℕ
  pub reconnect : ℕ

abbrev pub plan : ℕ → ℕ → Plan
plan wanted off =
    if leb off wanted
    then record { disconnect = wanted - off; reconnect = 0 }
    else record { disconnect = wanted; reconnect = off - wanted }

abbrev pub nth : {A : Type 0} → List A → ℕ → Option A
nth [] n = none
nth (x ∷ xs) zero = some x
nth (x ∷ xs) (suc n) = nth xs n

-- the keys of the devices that are houses
abbrev pub houses_among : List String → List String
houses_among [] = []
houses_among (k ∷ ks) =
    let rest = houses_among ks in if contains_text "house" k then k ∷ rest else rest

-- the supernodes with three digits
abbrev pub big_nodes : Island → Island
big_nodes [] = []
big_nodes (n ∷ ns) = let rest = big_nodes ns in if leb 100 n then n ∷ rest else rest

module _ {F Sim : Type 0} ⦃num : Num F⦄ ⦃gld : Gridlab Sim⦄ where
  -- `np.random.choice(xs)`
  abbrev pub choice : {A : Type 0} → List A → Exec (Control F Sim) A
  choice xs = do
    n ← gets λ c. c.choices c.chosen
    modify λ c. record c { chosen = suc c.chosen }
    or_raise (nth xs n) value_error

  abbrev pub disconnect_house : Island → String → Exec (Control F Sim) (Unit {0})
  disconnect_house island h =
      turn_off_house island h >> modify (λ c. record c { houses_off = c.houses_off ++ h ∷ [] })

  abbrev pub disconnect_one : Island → List String → Exec (Control F Sim) (Unit {0})
  disconnect_one island [] = pure tt
  disconnect_one island (h ∷ hs) = choice (h ∷ hs) >>= disconnect_house island

  -- the loop over `range(disconnect_houses)`
  unfoldable pub disconnect_houses : ℕ → Island → Exec (Control F Sim) (Unit {0})
  disconnect_houses zero island = pure tt
  disconnect_houses (suc n) island = do
    choice (big_nodes island)
    vb ← battery_of island
    disconnect_one island (houses_among (keys vb.devices))
    disconnect_houses n island

  -- the loop over `range(reconnect_houses)`
  unfoldable pub reconnect_houses : ℕ → Island → ℕ → Exec (Control F Sim) (Unit {0})
  reconnect_houses zero island t = pure tt
  reconnect_houses (suc n) island t = do
    off ← gets λ c. c.houses_off
    h ← choice off
    turn_on_house island h t
    modify λ c. record c { houses_off = all_but h c.houses_off }
    reconnect_houses n island t

  abbrev pub follow_plan : Island → ℕ → Plan → Exec (Control F Sim) (Unit {0})
  follow_plan island t p =
      disconnect_houses p.disconnect island >> reconnect_houses p.reconnect island t

  -- what is done with the number of houses that are to be off
  unfoldable pub set_houses_off : Island → ℕ → ℕ → Exec (Control F Sim) (Unit {0})
  set_houses_off island t wanted = do
    off ← gets λ c. c.houses_off
    follow_plan island t (plan wanted (length off))

  unfoldable pub take_shed :
      Island → ℕ → Dict F → F → PowerBalance F → Exec (Control F Sim) (PowerBalance F)
  take_shed island t results load_shed p = do
    if num.lt (num.lit 0) load_shed
        then wanted_houses island results load_shed >>= set_houses_off island t
        else pure tt
    pure (record p { nfload = num.sub p.nfload load_shed })
