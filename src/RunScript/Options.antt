-- ===== src/RunScript/Options.antt =====
-- What the options of run_gridlabd_main.py ask for, and the variables after they are read.
use grip_absorption_pipeline.Base.{
  String, Bool, true, false, Option, none, some, List, [], ◌∷◌, ◌||◌, ◌≡◌, refl, ◌==◌,
  if◌then◌else◌, ◌∙◌, ap, sym, subst, inl, inr, ℕ, arith, eq_iff, Bool-cases,
}
use grip_absorption_pipeline.Base.Dict.{listed}
use grip_absorption_pipeline.Base.Lists.{All}
use grip_absorption_pipeline.RunScript.{Run, first_run, set_option, set_options}

-- Is one of the options there?
pub given : List String → List (String × String) → Bool
given names [] = false
given names ((opt, arg) ∷ opts) = listed opt names || given names opts

-- the last argument of one of the options
pub last_arg : List String → List (String × String) → String → String
last_arg names [] found = found
last_arg names ((opt, arg) ∷ opts) found =
    last_arg names opts (if listed opt names then arg else found)

-- what the options ask for
pub record Asked : Type 0 where
  pub compiling : Bool
  pub baseline : Bool
  pub folder : String
  pub model : String
  pub output : String

abbrev pub asked_by : List (String × String) → Asked
asked_by opts = record {
  compiling = given ("-C" ∷ []) opts;
  baseline = given ("-B" ∷ "--Bfile" ∷ []) opts;
  folder = last_arg ("-W" ∷ "--Wfile" ∷ []) opts "";
  model = last_arg ("-i" ∷ "--ifile" ∷ []) opts "";
  output = last_arg ("-o" ∷ "--ofile" ∷ []) opts "";
}

abbrev pub options_in : Option (List (String × String)) → List (String × String)
options_in none = []
options_in (some opts) = opts

abbrev pub flag : Bool → ℕ
flag b = if b then 1 else 0

-- the variables after options that ask for this
abbrev pub after_options : Asked → Run
after_options a = record {
  path = a.folder;
  modelinputfile = a.model;
  outputfile = a.output;
  compile_flag = flag a.compiling;
  baseline_flag = flag a.baseline;
  commands = [];
  processed = [];
}

-- not equal, by both tests
abbrev Differs : String → String → Type 0
Differs x n = ((n == x) ≡ false) × ((x == n) ≡ false)

differs : (x n : String) → (n == x) ≡ false → Differs x n
differs x n e = (
  e,
  elim (Bool-cases (x == n)) [
    | inl eq ↦ ground (arith, e, eq_iff n x, eq_iff x n, eq, sym ((eq_iff x n).0 eq))
    | inr ne ↦ ne
  ],
)

by_name :
    (P : String → Type 0) (names : List String) (x : String)
    → All P names
    → (All (Differs x) names → P x)
    → P x
by_name P [] x h k = k tt
by_name P (n ∷ ns) x (h, hs) k = elim (Bool-cases (n == x)) [
  | inl eq ↦ subst P ((eq_iff n x).0 eq) h
  | inr ne ↦ by_name P ns x hs (λ all. k (differs x n ne, all))
]

-- one option more
abbrev also : String → String → Asked → Asked
also opt arg a = record {
  compiling = if listed opt ("-C" ∷ []) then true else a.compiling;
  baseline = if listed opt ("-B" ∷ "--Bfile" ∷ []) then true else a.baseline;
  folder = if listed opt ("-W" ∷ "--Wfile" ∷ []) then arg else a.folder;
  model = if listed opt ("-i" ∷ "--ifile" ∷ []) then arg else a.model;
  output = if listed opt ("-o" ∷ "--ofile" ∷ []) then arg else a.output;
}

set_option-also :
    (opt arg : String) (a : Asked)
    → set_option opt arg (after_options a) ≡ after_options (also opt arg a)
set_option-also opt arg a =
    by_name (λ x. set_option x arg (after_options a) ≡ after_options (also x arg a))
      ("-C" ∷ "-W" ∷ "--Wfile" ∷ "-B" ∷ "--Bfile" ∷ "-i" ∷ "--ifile" ∷ "-o" ∷ "--ofile" ∷ []) opt
      (refl, (refl, (refl, (refl, (refl, (refl, (refl, (refl, (refl, tt)))))))))
      (λ (
        (a1, b1),
        (
          (a2, b2),
          ((a3, b3), ((a4, b4), ((a5, b5), ((a6, b6), ((a7, b7), ((a8, b8), ((a9, b9), _))))))),
        ),
      ).
        rw (a1, a2, a3, a4, a5, a6, a7, a8, a9, b1, b2, b3, b4, b5, b6, b7, b8, b9) refl)

-- these options, after those that ask for `a`
abbrev over : List (String × String) → Asked → Asked
over opts a = record {
  compiling = given ("-C" ∷ []) opts || a.compiling;
  baseline = given ("-B" ∷ "--Bfile" ∷ []) opts || a.baseline;
  folder = last_arg ("-W" ∷ "--Wfile" ∷ []) opts a.folder;
  model = last_arg ("-i" ∷ "--ifile" ∷ []) opts a.model;
  output = last_arg ("-o" ∷ "--ofile" ∷ []) opts a.output;
}

or_if : (g l c : Bool) → (g || (if l then true else c)) ≡ ((l || g) || c)
or_if true true c = refl
or_if true false c = refl
or_if false true c = refl
or_if false false c = refl

or_false : (g : Bool) → (g || false) ≡ g
or_false true = refl
or_false false = refl

over-also :
    (opt arg : String) (opts : List (String × String)) (a : Asked)
    → over opts (also opt arg a) ≡ over ((opt, arg) ∷ opts) a
unfolding given last_arg
over-also opt arg opts a =
    let others =
      λ (c b : Bool). record (over ((opt, arg) ∷ opts) a) { compiling = c; baseline = b } in
    ap (λ c. others c (over opts (also opt arg a)).baseline)
      (or_if (given ("-C" ∷ []) opts) (listed opt ("-C" ∷ [])) a.compiling)
    ∙ ap (others ((given ("-C" ∷ []) ((opt, arg) ∷ opts)) || a.compiling))
        (or_if (given ("-B" ∷ "--Bfile" ∷ []) opts) (listed opt ("-B" ∷ "--Bfile" ∷ [])) a.baseline)

set_options-over :
    (opts : List (String × String)) (a : Asked)
    → set_options opts (after_options a) ≡ after_options (over opts a)
unfolding given last_arg
set_options-over [] a = refl
set_options-over ((opt, arg) ∷ opts) a =
    ap (set_options opts) (set_option-also opt arg a)
    ∙ set_options-over opts (also opt arg a)
    ∙ ap after_options (over-also opt arg opts a)

abbrev nothing : Asked
nothing = record { compiling = false; baseline = false; folder = ""; model = ""; output = "" }

over-asked_by : (opts : List (String × String)) → over opts nothing ≡ asked_by opts
over-asked_by opts =
    ap (λ c. record (over opts nothing) { compiling = c }) (or_false (given ("-C" ∷ []) opts))
    ∙ ap (λ b. record (asked_by opts) { baseline = b })
        (or_false (given ("-B" ∷ "--Bfile" ∷ []) opts))

pub set_options-asked_by :
    (opts : List (String × String)) → set_options opts first_run ≡ after_options (asked_by opts)
set_options-asked_by opts = set_options-over opts nothing ∙ ap after_options (over-asked_by opts)
