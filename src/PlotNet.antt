-- ===== src/PlotNet.antt =====
-- plot_islanding_net.py: the figures that it draws of the network and the images that it puts into one
-- file. The tables of a time and the files of the directory netimgs are parameters; of networkx and
-- matplotlib, a figure has what is drawn in it. An edge that comes again, in either direction, gets
-- the new statuses.
pub mod Order
mod Tests
use Prim.Native.String.{◌++◌ as str_append}
use grip_absorption_pipeline.Base.{
  ℕ, zero, suc, String, Bool, true, false, Option, none, some, List, [], ◌∷◌, ◌++◌, ◌==◌, ◌&&◌,
  ◌||◌, nat_eq, if◌then◌else◌,
}
use grip_absorption_pipeline.Base.Decimal.{first_digits, int_of, decimal, three_digits}
use grip_absorption_pipeline.Base.Exec.{
  Exec, pure, gets, or_raise, modify, attribute_error, file_not_found, name_error, ◌>>=◌, ◌>>◌,
}
use grip_absorption_pipeline.Network.Sets.{mem}
use grip_absorption_pipeline.Control.Manage.{sorted_numbers}
use grip_absorption_pipeline.ServerData.Buses.{sorted}

-- a row of t_…-branchdf.csv
pub record NetEdge : Type 0 where
  pub t : String
  pub f : String
  pub st00 : ℕ
  pub st0 : ℕ
  pub st1 : ℕ

-- the four files of a time
pub record Step : Type 0 where
  pub branches : List NetEdge
  pub faulted : List String
  pub solar : List String
  pub batt : List String

-- `status00`, `status0` or `status1`
pub data Status : Type 0 where
  status00 status0 status1 : Status

pub record Figure : Type 0 where
  pub edges : List NetEdge
  pub solar : List String
  pub batt : List String
  -- the nodes in the colour of faults, and the edges in that of open switches
  pub fnodes : List String
  pub openswitches : List NetEdge
  pub caption : String
  -- what `savefig` writes
  pub file : String

pub record Shown : Type 0 where
  pub figures : List Figure
  -- `fnodes`, which no statement binds before the first step
  pub fnodes : Option (List String)

abbrev pub nothing_shown : Shown
nothing_shown = record { figures = []; fnodes = none }

abbrev pub stat_of : Status → NetEdge → ℕ
stat_of status00 e = e.st00
stat_of status0 e = e.st0
stat_of status1 e = e.st1

-- an edge of an undirected graph
abbrev pub same_ends : NetEdge → NetEdge → Bool
same_ends e d = (e.t == d.t && e.f == d.f) || (e.t == d.f && e.f == d.t)

-- `G.add_edges_from(edges)`
abbrev pub put_edge : NetEdge → List NetEdge → List NetEdge
put_edge e [] = e ∷ []
put_edge e (d ∷ ds) =
    let rest = put_edge e ds in
    if same_ends e d then record e { t = d.t; f = d.f } ∷ ds else d ∷ rest

abbrev pub graph_from : List NetEdge → List NetEdge → List NetEdge
graph_from g [] = g
graph_from g (e ∷ es) = graph_from (put_edge e g) es

-- `[e for e in G.edges if not G.edges[e][stat]]`
abbrev pub open_edges : Status → List NetEdge → List NetEdge
open_edges stat [] = []
open_edges stat (e ∷ es) =
    let rest = open_edges stat es in if nat_eq (stat_of stat e) 0 then e ∷ rest else rest

-- `desc`
abbrev pub desc : Status → String
desc status00 = ""
desc status0 = "fault isolation"
desc status1 = "islanded state"

-- the number of the figure in its step
abbrev pub index_of : Status → String
index_of status00 = "0"
index_of status0 = "1"
index_of status1 = "2"

-- `'netimgs/network-{}-{}.png'.format(i,j)`
abbrev pub image_file : ℕ → Status → String
image_file i j =
    str_append "netimgs/network-"
      (str_append (decimal i) (str_append "-" (str_append (index_of j) ".png")))

-- `'t={:03d} : {}'.format(t,desc[j])`
abbrev pub caption_of : ℕ → Status → String
caption_of t j = str_append "t=" (str_append (three_digits t) (str_append " : " (desc j)))

-- `plot_net(t,G,fnodes,solar,batt,stat,i,j)`, where `stat` and `j` go together
unfoldable pub plot_net :
    ℕ → List NetEdge → List String → List String → List String → Status → ℕ → Exec Shown (Unit {0})
plot_net t g fnodes solar batt stat i = modify λ s. record s {
  figures =
      s.figures
      ++ record {
        edges = g;
        solar = solar;
        batt = batt;
        fnodes = fnodes;
        openswitches = open_edges stat g;
        caption = caption_of t stat;
        file = image_file i stat;
      }
        ∷ [];
}

-- the loop body
unfoldable pub plot_step : (ℕ → Option Step) → ℕ → ℕ → Exec Shown (Unit {0})
plot_step tables i t = do
  step ← or_raise (tables t) file_not_found
  modify λ s. record s { fnodes = some step.faulted }
  let g = graph_from [] step.branches
  if nat_eq i 0 then plot_net t g [] step.solar step.batt status00 i else pure tt
  plot_net t g step.faulted step.solar step.batt status0 i
  plot_net t g step.faulted step.solar step.batt status1 i

-- `for i,t in enumerate(tsteps)`, from the number `i` on
unfoldable pub plot_steps : (ℕ → Option Step) → ℕ → List ℕ → Exec Shown (Unit {0})
plot_steps tables i [] = pure tt
plot_steps tables i (t ∷ ts) = do plot_step tables i t; plot_steps tables (suc i) ts

-- `int(re.search(r'\d+',f).group())` of each file
unfoldable pub times_in : List String → Exec Shown (List ℕ)
times_in [] = pure []
times_in (f ∷ fs) = do
  number ← or_raise (first_digits f) attribute_error
  numbers ← times_in fs
  pure (int_of number ∷ numbers)

-- `list(set(…))`
abbrev pub distinct : List ℕ → List ℕ
distinct [] = []
distinct (n ∷ ns) = let rest = distinct ns in if mem n ns then rest else n ∷ rest

-- `'-{}'*len(fnodes)` with the nodes in it
abbrev pub name_suffix : List String → String
name_suffix [] = ""
name_suffix (n ∷ ns) = str_append "-" (str_append n (name_suffix ns))

-- the script: the file that `mimsave` writes and its images in their order. `images` is what the
-- second `glob` finds once the figures are saved.
unfoldable pub plot_run :
    List String
    → (ℕ → Option Step)
    → (List Figure → List String)
    → String
    → Exec Shown (String × List String)
plot_run netfiles tables images runname = do
  times ← times_in netfiles
  plot_steps tables 0 (sorted_numbers (distinct times))
  bound ← gets λ s. s.fnodes
  fnodes ← or_raise bound name_error
  figures ← gets λ s. s.figures
  pure (
    str_append "netimgs/netsim-" (str_append runname (str_append (name_suffix fnodes) ".gif")),
    sorted (images figures),
  )
