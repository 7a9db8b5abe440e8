-- ===== src/PlotNet/Tests.antt =====
-- Runs of plot_islanding_net.py over a network of one edge, and the theorem applied to them.
use grip_absorption_pipeline.Base.{ℕ, ◌≡◌, refl, some, Option, [], ◌∷◌, arith}
use grip_absorption_pipeline.Base.Decimal.{first_digits, int_of, decimal, three_digits}
use grip_absorption_pipeline.Base.Exec.{ok, err, Returns, name_error}
use grip_absorption_pipeline.ServerData.Buses.{sorted}
use grip_absorption_pipeline.PlotNet.{
  NetEdge, Step, nothing_shown, plot_net, plot_step, plot_steps, times_in, plot_run, image_file,
  status0,
}
use grip_absorption_pipeline.PlotNet.Order.{files_of, files_from, plot_steps-sorted}

abbrev edge : NetEdge
edge = record { t = "101"; f = "102"; st00 = 1; st0 = 0; st1 = 1 }

abbrev step : Step
step = record { branches = edge ∷ []; faulted = "101" ∷ []; solar = "102" ∷ []; batt = [] }

abbrev tables : ℕ → Option Step
tables t = some step

plot_steps-sorted_example :
    Returns
      (λ u s.
        (files_of s.figures ≡ files_from 0 2) × (sorted (files_of s.figures) ≡ files_of s.figures))
      (plot_steps tables 0 (60 ∷ 240 ∷ []) nothing_shown)
plot_steps-sorted_example =
    plot_steps-sorted tables (60 ∷ 240 ∷ []) ((step, refl), ((step, refl), tt)) (omega arith)

-- With eleven steps the images of the last one come before those of the third.
eleven_steps :
    sorted (image_file 2 status0 ∷ image_file 10 status0 ∷ [])
    ≡ image_file 10 status0 ∷ image_file 2 status0 ∷ []
unfolding decimal
eleven_steps = refl

plot_run-name :
    (plot_run
      ("netimgs/t_60-batt.csv" ∷ "netimgs/t_60-solar.csv" ∷ [])
      tables
      files_of
      "r1"
      nothing_shown).0
    ≡ ok (
      "netimgs/netsim-r1-101.gif",
      "netimgs/network-0-0.png" ∷ "netimgs/network-0-1.png" ∷ "netimgs/network-0-2.png" ∷ [],
    )
unfolding plot_run plot_steps plot_step plot_net times_in first_digits int_of decimal three_digits
plot_run-name = refl

-- Where there is no file, the name `fnodes` is not bound.
plot_run-none : (plot_run [] tables files_of "r1" nothing_shown).0 ≡ err name_error
unfolding plot_run plot_steps times_in
plot_run-none = refl
