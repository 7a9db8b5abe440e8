-- ===== src/PlotNet/Order.antt =====
-- The order of the images in the file of plot_islanding_net.py: `sorted` compares their names as texts.
use grip_absorption_pipeline.Base.{
  ℕ, zero, suc, ◌≤◌, String, Option, some, List, [], ◌∷◌, ◌++◌, ◌≡◌, refl, ap, sym, ◌∙◌, arith,
  nat_eq, false,
}
use mathlib.Core.List.{append_assoc, append-nil}
use grip_absorption_pipeline.Base.Lists.{length, All}
use grip_absorption_pipeline.Base.Decimal.{decimal}
use grip_absorption_pipeline.Base.Exec.{Returns, >>=-Returns, Returns-map}
use grip_absorption_pipeline.ServerData.Buses.{sorted}
use grip_absorption_pipeline.PlotNet.{
  Step, Figure, Shown, nothing_shown, status00, status0, status1, image_file, plot_net, plot_step,
  plot_steps,
}

-- what the figures are saved as, in the order in which they are drawn
abbrev pub files_of : List Figure → List String
files_of [] = []
files_of (p ∷ ps) = p.file ∷ files_of ps

files_of-append : (ps qs : List Figure) → files_of (ps ++ qs) ≡ files_of ps ++ files_of qs
files_of-append [] qs = refl
files_of-append (p ∷ ps) qs = ap (λ fs. p.file ∷ fs) (files_of-append ps qs)

-- the files of the step with a number
abbrev pub step_files : ℕ → List String
step_files zero = image_file 0 status00 ∷ image_file 0 status0 ∷ image_file 0 status1 ∷ []
step_files (suc i) = image_file (suc i) status0 ∷ image_file (suc i) status1 ∷ []

-- the files of so many steps
abbrev pub files_from : ℕ → ℕ → List String
files_from i zero = []
files_from i (suc n) = step_files i ++ files_from (suc i) n

later_step : (i : ℕ) → nat_eq (suc i) 0 ≡ false
later_step i = ground arith

plot_step-files :
    (tables : ℕ → Option Step) (step : Step) (i t : ℕ) (s : Shown)
    → tables t ≡ some step
    → Returns
        (λ u s'. files_of s'.figures ≡ files_of s.figures ++ step_files i)
        (plot_step tables i t s)
unfolding plot_step plot_net
plot_step-files tables step zero t s e = rw e (
    files_of-append _ _
    ∙ ap (λ fs. fs ++ image_file 0 status1 ∷ [])
        (files_of-append _ _ ∙ ap (λ fs. fs ++ image_file 0 status0 ∷ []) (files_of-append _ _))
    ∙ ap (λ fs. fs ++ image_file 0 status1 ∷ []) (append_assoc (files_of s.figures) _ _)
    ∙ append_assoc (files_of s.figures) _ _)
plot_step-files tables step (suc i) t s e =
    rw (e, later_step i)
      (files_of-append _ _
        ∙ ap (λ fs. fs ++ image_file (suc i) status1 ∷ []) (files_of-append _ _)
        ∙ append_assoc (files_of s.figures) _ _)

-- every time has its tables
abbrev pub HasTables : (ℕ → Option Step) → ℕ → Type 0
HasTables tables t = (step : Step) × (tables t ≡ some step)

plot_steps-files :
    (tables : ℕ → Option Step) (i : ℕ) (ts : List ℕ) (s : Shown)
    → All (HasTables tables) ts
    → Returns
        (λ u s'. files_of s'.figures ≡ files_of s.figures ++ files_from i (length ts))
        (plot_steps tables i ts s)
unfolding plot_steps
plot_steps-files tables i [] s all = sym (append-nil (files_of s.figures))
plot_steps-files tables i (t ∷ ts) s ((step, e), all) =
    >>=-Returns _
      (λ u s'. files_of s'.figures ≡ files_of s.figures ++ files_from i (length (t ∷ ts)))
      (λ u. plot_steps tables (suc i) ts) (plot_step tables i t) s
      (plot_step-files tables step i t s e)
      (λ u s1 first.
        Returns-map (plot_steps tables (suc i) ts s1) (plot_steps-files tables (suc i) ts s1 all)
          (λ v s2 rest.
            rest
            ∙ ap (λ fs. fs ++ files_from (suc i) (length ts)) first
            ∙ append_assoc (files_of s.figures) (step_files i) (files_from (suc i) (length ts))))

short-sorted : (n : ℕ) → n ≤ 10 → sorted (files_from 0 n) ≡ files_from 0 n
unfolding decimal
short-sorted zero h = refl
short-sorted (suc zero) h = refl
short-sorted (suc (suc zero)) h = refl
short-sorted (suc (suc (suc zero))) h = refl
short-sorted (suc (suc (suc (suc zero)))) h = refl
short-sorted (suc (suc (suc (suc (suc zero))))) h = refl
short-sorted (suc (suc (suc (suc (suc (suc zero)))))) h = refl
short-sorted (suc (suc (suc (suc (suc (suc (suc zero))))))) h = refl
short-sorted (suc (suc (suc (suc (suc (suc (suc (suc zero)))))))) h = refl
short-sorted (suc (suc (suc (suc (suc (suc (suc (suc (suc zero))))))))) h = refl
short-sorted (suc (suc (suc (suc (suc (suc (suc (suc (suc (suc zero)))))))))) h = refl
short-sorted (suc (suc (suc (suc (suc (suc (suc (suc (suc (suc (suc n))))))))))) h =
    absurd (omega (arith, h))

-- Where every time has its tables and there are at most ten times, all figures are drawn, and the order
-- of their names as texts, in which the images are put into one file, is that in which they are drawn.
pub plot_steps-sorted :
    (tables : ℕ → Option Step) (ts : List ℕ)
    → All (HasTables tables) ts
    → length ts ≤ 10
    → Returns
        (λ u s.
          (files_of s.figures ≡ files_from 0 (length ts))
          × (sorted (files_of s.figures) ≡ files_of s.figures))
        (plot_steps tables 0 ts nothing_shown)
plot_steps-sorted tables ts all few =
    Returns-map (plot_steps tables 0 ts nothing_shown)
      (plot_steps-files tables 0 ts nothing_shown all)
      (λ u s e. (e, ap sorted e ∙ short-sorted (length ts) few ∙ sym e))
