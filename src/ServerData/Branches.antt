-- ===== src/ServerData/Branches.antt =====
-- The branches of `get_islanding_data` (absorption.py): the ends that the server gets as numbers are
-- found again by the map that is returned with them.
use grip_absorption_pipeline.Base.{
  ℕ, ◌≤◌, ◌<◌, ◌≡◌, refl, ◌∙◌, String, true, ◌||◌, some, List, [], ◌∷◌, ◌++◌, arith, eq_iff, ◌==◌,
  inl, inr, Bool-cases,
}
use grip_absorption_pipeline.Base.Dict.{Dict, listed}
use grip_absorption_pipeline.Base.Lists.{All, length}
use grip_absorption_pipeline.Base.Exec.{Returns}
use grip_absorption_pipeline.Faults.{Area}
use grip_absorption_pipeline.ServerData.{BranchRow}
use grip_absorption_pipeline.ServerData.Tables.{
  column_t, column_f, proper, buses_of, number_branches,
}
use grip_absorption_pipeline.ServerData.Buses.{set_of, mapback, name_back, ints}
use grip_absorption_pipeline.ServerData.Numbering.{name_back-renumber}

listed-set_of : (b : String) (ss : List String) → listed b (set_of ss) ≡ listed b ss
listed-set_of b [] = refl
listed-set_of b (s ∷ ss) = elim (Bool-cases (s == b)) [
  | inl eq ↦ rw ((eq_iff s b).0 eq) (ground (arith, listed-set_of b ss, eq_iff b b))
  | inr ne ↦ ground (arith, listed-set_of b ss, ne)
]

listed-append :
    (b : String) (xs ys : List String) → listed b (xs ++ ys) ≡ (listed b xs || listed b ys)
listed-append b [] ys = refl
listed-append b (x ∷ xs) ys = ground (arith, listed-append b xs ys)

-- All items of a list that another list contains.
All-listed :
    (xs ss : List String)
    → ((b : String) → listed b xs ≡ true → listed b ss ≡ true)
    → All (λ b. listed b ss ≡ true) xs
All-listed [] ss h = tt
All-listed (x ∷ xs) ss h =
    (h x (ground (arith, eq_iff x x)), All-listed xs ss (λ b m. h b (ground (arith, m))))

-- one end of all branches
abbrev pub IsColumn : List (ℕ × ℕ) → ℕ → List String → List ℕ → Type 0
IsColumn numbers size column sent =
    (name_back (mapback numbers) sent ≡ some (ints column)) × All (λ i. (0 < i) × (i ≤ size)) sent

module _ {Sim : Type 0} where
  -- Where the network has a branch, its branches are numbered without an exception: the server
  -- gets numbers from 1 to the number of buses, and the map that comes with them makes of both
  -- columns the buses again. A branch from a bus to itself is left out.
  pub number_branches-Returns :
      (branches : Dict BranchRow) (a : Area Sim)
      → (0 < length branches)
      → Returns
          (λ n b.
            (b ≡ a)
            × (n.rows ≡ proper branches)
            × IsColumn n.numbers (length (buses_of n.rows)) (column_t n.rows) n.t
            × IsColumn n.numbers (length (buses_of n.rows)) (column_f n.rows) n.f)
          (number_branches branches a)
  unfolding number_branches
  number_branches-Returns [] a h = absurd (omega (arith, h))
  number_branches-Returns (row ∷ rows) a h =
      let kept = proper (row ∷ rows) in
      let ends = column_t kept ++ column_f kept in
      let (ts, et, back_t, low_t) = name_back-renumber (buses_of kept) (column_t kept) (
        All-listed (column_t kept) (buses_of kept) (λ b m.
          listed-set_of b ends
          ∙ ground (arith, m, listed-append b (column_t kept) (column_f kept)))) in
      let (fs, ef, back_f, low_f) = name_back-renumber (buses_of kept) (column_f kept) (
        All-listed (column_f kept) (buses_of kept) (λ b m.
          listed-set_of b ends
          ∙ ground (arith, m, listed-append b (column_t kept) (column_f kept)))) in
      rw (et, ef) (refl, refl, (back_t, low_t), (back_f, low_f))
