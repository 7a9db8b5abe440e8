-- ===== src/Voltdump/Columns.antt =====
-- The table that voltdump.py makes (lines 13-54) of a dump that has the same nodes at every time.
use Prim.Native.String.{◌++◌ as str_append}
use mathlib.Core.List.{append_assoc, append-nil}
use grip_absorption_pipeline.Base.{
  ℕ, suc, ◌*◌, String, true, false, List, [], ◌∷◌, ◌++◌, ◌≡◌, refl, ap, ◌∙◌, sym, subst, inl, inr,
  Bool-cases, eq_iff, arith,
}
use grip_absorption_pipeline.Base.Lists.{length, All}
use grip_absorption_pipeline.Base.Dict.{listed}
use grip_absorption_pipeline.Base.Exec.{Returns, Returns-map}
use grip_absorption_pipeline.Num.{Num}
use grip_absorption_pipeline.Voltdump.{
  Complex, Times, TimesLaws, Polar, Samples, Dump, dump_start, phases, read_rows,
}
use grip_absorption_pipeline.Voltdump.Write.{
  insert_time, sort_times, polar_row, time_rows, write_voltages,
}
use grip_absorption_pipeline.Voltdump.Shape.{columns}
use grip_absorption_pipeline.Voltdump.Blocks.Read.{read_rows-HasRead}
use grip_absorption_pipeline.Voltdump.Blocks.{
  Reading, Block, IsBlock, IsApart, HasRead, names_of, voltages, entries, dump_rows, grown,
  all_grown,
}

-- none of the nodes has a column yet when its first row is read
abbrev pub IsFresh : List String → List String → Type 0
IsFresh nodes [] = Unit
IsFresh nodes (name ∷ names) =
    (listed (str_append name "_A") nodes ≡ false) × IsFresh (nodes ++ phases name) names

abbrev HasColumn : List String → String → Type 0
HasColumn nodes name = listed (str_append name "_A") nodes ≡ true

grown-new :
    (nodes names : List String) → IsFresh nodes names → grown nodes names ≡ nodes ++ columns names
grown-new nodes [] h = sym (append-nil nodes)
grown-new nodes (name ∷ names) (new, fresh) = rw new (
    grown-new (nodes ++ phases name) names fresh ∙ append_assoc nodes (phases name) (columns names))

grown-known : (nodes names : List String) → All (HasColumn nodes) names → grown nodes names ≡ nodes
grown-known nodes [] h = refl
grown-known nodes (name ∷ names) (known, all) = rw known (grown-known nodes names all)

listed-append : (s : String) (xs ys : List String) → listed s ys ≡ true → listed s (xs ++ ys) ≡ true
listed-append s [] ys h = h
listed-append s (x ∷ xs) ys h = ground (arith, listed-append s xs ys)

HasColumn-later :
    (xs ys names : List String) → All (HasColumn ys) names → All (HasColumn (xs ++ ys)) names
HasColumn-later xs ys [] h = tt
HasColumn-later xs ys (name ∷ names) (here, there) =
    (listed-append (str_append name "_A") xs ys here, HasColumn-later xs ys names there)

columns-HasColumn : (names : List String) → All (HasColumn (columns names)) names
columns-HasColumn [] = tt
columns-HasColumn (name ∷ names) = (
  ground (arith, eq_iff (str_append name "_A") (str_append name "_A")),
  HasColumn-later (phases name) (columns names) names (columns-HasColumn names),
)

module _ {F T : Type 0} where
  -- the block has a row for each of the nodes, in their order
  abbrev pub HasNodes : List String → Block F T → Type 0
  HasNodes names b = names_of b.readings ≡ names

  all_grown-known :
      (nodes names : List String) (bs : List (Block F T))
      → All (HasColumn nodes) names
      → All (HasNodes names) bs
      → all_grown nodes bs ≡ nodes
  all_grown-known nodes names [] known all = refl
  all_grown-known nodes names (b ∷ bs) known (here, there) =
      ap (λ ns. all_grown (grown nodes ns) bs) here
      ∙ ap (λ ns. all_grown ns bs) (grown-known nodes names known)
      ∙ all_grown-known nodes names bs known there

length-voltages :
    {F : Type 0} (rs : List (Reading F)) → length (voltages rs) ≡ 3 * length (names_of rs)
length-voltages [] = refl
length-voltages (r ∷ rs) = omega (arith, length-voltages rs)

length-columns : (names : List String) → length (columns names) ≡ 3 * length names
length-columns [] = refl
length-columns (name ∷ names) = omega (arith, length-columns names)

-- A dump with a block for each time, all for the same nodes in the same order: `nodes` becomes
-- "Timestamp" and the three phases of each node, and `data` has for each time the voltages of its
-- rows, in that order.
pub read_rows-columns :
    {F T : Type 0} ⦃times : Times T⦄ ⦃num : Num F⦄ (laws : TimesLaws T) (names : List String)
    (b : Block F T) (bs : List (Block F T))
    → All IsBlock (b ∷ bs)
    → IsApart [] (b ∷ bs)
    → All (HasNodes names) (b ∷ bs)
    → IsFresh ("Timestamp" ∷ []) names
    → Returns
        (HasRead (entries (b ∷ bs)) ("Timestamp" ∷ columns names))
        (read_rows (dump_rows (b ∷ bs)) dump_start)
read_rows-columns laws names b bs are apart (here, there) fresh =
    subst
      (λ ns. Returns (HasRead (entries (b ∷ bs)) ns) (read_rows (dump_rows (b ∷ bs)) dump_start))
      (ap (λ ns. all_grown (grown ("Timestamp" ∷ []) ns) bs) here
        ∙ ap (λ ns. all_grown ns bs) (grown-new ("Timestamp" ∷ []) names fresh)
        ∙ all_grown-known ("Timestamp" ∷ columns names) names bs
            (HasColumn-later ("Timestamp" ∷ []) (columns names) names (columns-HasColumn names))
            there)
      (read_rows-HasRead laws (b ∷ bs) dump_start "Timestamp" [] refl are apart)

length-polar_row :
    {F : Type 0} ⦃pol : Polar F⦄ (vs : List (Complex F)) → length (polar_row vs) ≡ length vs
length-polar_row [] = refl
length-polar_row (v ∷ vs) = ap suc (length-polar_row vs)

-- every time has so many numbers
abbrev Counts : {F T : Type 0} → ℕ → Samples F T → Type 0
Counts n d = All (λ e. length e.1 ≡ n) d

module _ {F T : Type 0} ⦃times : Times T⦄ ⦃pol : Polar F⦄ where
  insert_time-Counts :
      (n : ℕ) (t : T) (vs : List (Complex F)) (d : Samples F T)
      → length vs ≡ n
      → Counts n d
      → Counts n (insert_time (t, vs) d)
  insert_time-Counts n t vs [] e h = (e, tt)
  insert_time-Counts n t vs ((u, ws) ∷ d) e (here, there) = elim (Bool-cases (times.before t u)) [
    | inl eq ↦ rw eq (e, (here, there))
    | inr eq ↦ rw eq (here, insert_time-Counts n t vs d e there)
  ]

  sort_times-Counts : (n : ℕ) (d : Samples F T) → Counts n d → Counts n (sort_times d)
  sort_times-Counts n [] h = tt
  sort_times-Counts n ((t, vs) ∷ d) (here, there) =
      insert_time-Counts n t vs (sort_times d) here (sort_times-Counts n d there)

  time_rows-Counts :
      (n : ℕ) (d : Samples F T) → Counts n d → All (λ row. length row ≡ suc n) (time_rows d)
  time_rows-Counts n [] h = tt
  time_rows-Counts n ((t, vs) ∷ d) (here, there) =
      (ap suc (length-polar_row vs ∙ here), time_rows-Counts n d there)

entries-Counts :
    {F T : Type 0} (names : List String) (bs : List (Block F T))
    → All (HasNodes names) bs
    → Counts (3 * length names) (entries bs)
entries-Counts names [] h = tt
entries-Counts names (b ∷ bs) (here, there) =
    (length-voltages b.readings ∙ ap (λ ns. 3 * length ns) here, entries-Counts names bs there)

-- A dump with a block for each time, all for the same nodes in the same order, is read without an
-- exception, and every row of voltages.csv, its header too, then has one cell and three for each node.
pub write_voltages-IsTable :
    {F T : Type 0} ⦃times : Times T⦄ ⦃num : Num F⦄ ⦃pol : Polar F⦄ (laws : TimesLaws T)
    (names : List String) (b : Block F T) (bs : List (Block F T))
    → All IsBlock (b ∷ bs)
    → IsApart [] (b ∷ bs)
    → All (HasNodes names) (b ∷ bs)
    → IsFresh ("Timestamp" ∷ []) names
    → Returns
        (λ u (d : Dump F T). All (λ row. length row ≡ suc (3 * length names)) (write_voltages d))
        (read_rows (dump_rows (b ∷ bs)) dump_start)
unfolding write_voltages
write_voltages-IsTable laws names b bs are apart same fresh =
    Returns-map (read_rows (dump_rows (b ∷ bs)) dump_start)
      (read_rows-columns laws names b bs are apart same fresh)
      (λ u d (data_eq, nodes_eq). (
        ap length nodes_eq ∙ ap suc (length-columns names),
        time_rows-Counts (3 * length names) (sort_times d.data_of) (
            sort_times-Counts (3 * length names) d.data_of (
              subst (Counts (3 * length names)) (sym data_eq)
                (entries-Counts names (b ∷ bs) same))),
      ))
