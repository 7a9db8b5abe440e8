-- ===== src/PostProcess/Supernodes/Totals.antt =====
-- What `get_island_baseline_data` (absorption.py) sums up of the file that
-- `timeseries_persupernode` (data_post_process.py) writes.
use grip_absorption_pipeline.Base.{
  ℕ, true, some, List, [], ◌∷◌, ◌≡◌, refl, ap, subst, ◌∙◌, Bool-cases, inl, inr, nat_eq, nat_eq_iff,
  arith,
}
use grip_absorption_pipeline.Network.Sets.{mem}
use grip_absorption_pipeline.Base.Lists.{All}
use grip_absorption_pipeline.Base.Decimal.{three_digits}
use grip_absorption_pipeline.Base.Dict.{Dict, get, contains_of_get}
use grip_absorption_pipeline.Base.Exec.{ok, Returns, Returns-map, >>=-ok}
use grip_absorption_pipeline.Num.{Num}
use grip_absorption_pipeline.Gridlab.{Gridlab}
use grip_absorption_pipeline.Control.{Island, Frame, Control}
use grip_absorption_pipeline.Control.Baseline.{
  Sums, load_column, add_each, zeros, no_sums, add_node_loads, island_sums,
}
use grip_absorption_pipeline.PostProcess.Supernodes.{
  Pandas, PandasLaws, Written, all_supernodes, timeseries_persupernode,
}
use grip_absorption_pipeline.PostProcess.Supernodes.Names.{
  Loads, HasLoads, IsRecorded, timeseries_persupernode-IsBaseline,
}

module _ {F : Type 0} ⦃num : Num F⦄ (loads : Loads F) where
  -- the flexible loads of the nodes of an island, one after the other, added to a column
  abbrev pub flexible_sum : Island → List F → List F
  flexible_sum [] xs = xs
  flexible_sum (n ∷ ns) xs = flexible_sum ns (add_each (add_each xs (loads.hvac n)) (loads.wh n))

  -- and their total loads
  abbrev pub total_sum : Island → List F → List F
  total_sum [] xs = xs
  total_sum (n ∷ ns) xs = total_sum ns (add_each xs (loads.total n))

  module _ {Sim : Type 0} ⦃gld : Gridlab Sim⦄ where
    add_node_loads-eq :
        (columns : Dict (List F)) (n : ℕ) (acc : Sums F) (c : Control F Sim)
        → HasLoads loads columns n
        → add_node_loads columns (three_digits n) acc c ≡ (
          ok (record {
            f_baseline = add_each (add_each acc.f_baseline (loads.hvac n)) (loads.wh n);
            nf_baseline = add_each acc.nf_baseline (loads.total n);
          }),
          c,
        )
    unfolding add_node_loads
    add_node_loads-eq columns n acc c (total, hvac, wh) = rw (hvac, wh, total) refl

    pub island_sums-eq :
        (columns : Dict (List F)) (island : Island) (acc : Sums F) (c : Control F Sim)
        → All (HasLoads loads columns) island
        → island_sums columns island acc c ≡ (
          ok (record {
            f_baseline = flexible_sum island acc.f_baseline;
            nf_baseline = total_sum island acc.nf_baseline;
          }),
          c,
        )
    unfolding island_sums
    island_sums-eq columns [] acc c all = refl
    island_sums-eq columns (n ∷ ns) acc c (here, there) =
        rw (contains_of_get (load_column "hvac" (three_digits n)) columns here.1) (
          >>=-ok (add_node_loads columns (three_digits n) acc) (island_sums columns ns) c
            (add_node_loads-eq columns n acc c here)
          ∙ island_sums-eq columns ns _ c there)

All-mem : (P : ℕ → Type 0) (n : ℕ) (ss : List ℕ) → All P ss → mem n ss ≡ true → P n
All-mem P n [] all h = ground arith
All-mem P n (s ∷ ss) (here, there) h = elim (Bool-cases (nat_eq s n)) [
  | inl e ↦ subst P ((nat_eq_iff s n).0 e) here
  | inr e ↦ All-mem P n ss there (ground (arith, e, h))
]

All-map : (P Q : ℕ → Type 0) (ss : List ℕ) → ((s : ℕ) → P s → Q s) → All P ss → All Q ss
All-map P Q [] f all = tt
All-map P Q (s ∷ ss) f (here, there) = (f s here, All-map P Q ss f there)

-- Where the recorders have written all files, each with one column and the same times, and pandas
-- puts tables with the same first column side by side, `timeseries_persupernode("baseline")` returns,
-- and with the columns of Loads_baseline.csv the loop of `get_island_baseline_data` over the nodes of
-- an island of supernodes returns, with the sums of the loads that the recorders have written.
pub timeseries_persupernode-island_sums :
    {F Sim : Type 0} ⦃num : Num F⦄ ⦃gld : Gridlab Sim⦄ ⦃pandas : Pandas F⦄ (laws : PandasLaws F)
    (loads : Loads F) (gen : Frame F) (w : Written F) (island : Island) (c : Control F Sim)
    → IsRecorded loads gen
    → All (λ n. mem n all_supernodes ≡ true) island
    → Returns
        (λ u w'.
          (frame : Frame F) × (get "Loads_baseline.csv" w' ≡ some frame)
          × (island_sums frame.columns island (no_sums frame.labels) c ≡ (
            ok (record {
              f_baseline = flexible_sum loads island (zeros loads.times);
              nf_baseline = total_sum loads island (zeros loads.times);
            }),
            c,
          )))
        (timeseries_persupernode "baseline" w)
timeseries_persupernode-island_sums laws loads gen w island c recorded inside =
    Returns-map (timeseries_persupernode "baseline" w)
      (timeseries_persupernode-IsBaseline laws loads gen w recorded)
      (λ u w' is. (
        is.frame,
        is.found,
        island_sums-eq loads is.frame.columns island (no_sums is.frame.labels) c (
              All-map (λ n. mem n all_supernodes ≡ true) (HasLoads loads is.frame.columns) island
                (λ n h. All-mem (HasLoads loads is.frame.columns) n all_supernodes is.columns h)
                inside)
            ∙ ap
                (λ times. (
                  ok (record {
                    f_baseline = flexible_sum loads island (zeros times);
                    nf_baseline = total_sum loads island (zeros times);
                  }),
                  c,
                ))
                is.labels_eq,
      ))
