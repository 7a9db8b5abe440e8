-- ===== src/Voltdump/Blocks/Read.antt =====
-- How voltdump.py (lines 13-42) reads the rows of a block, and the blocks one after the other.
use grip_absorption_pipeline.Base.{
  suc, ◌+◌, String, true, false, Option, some, List, [], ◌∷◌, ◌++◌, ◌≡◌, refl, ap, ◌∙◌, sym, subst,
  inl, inr, Bool-cases, eq_iff, arith,
}
use Prim.Native.String.{◌++◌ as str_append}
use mathlib.Core.List.{append_assoc, append-nil}
use grip_absorption_pipeline.Base.Lists.{All}
use grip_absorption_pipeline.Base.Text.{starts_with, slice}
use grip_absorption_pipeline.Base.Dict.{listed}
use grip_absorption_pipeline.Base.Exec.{Result, ok, err, continue, ◌>>◌, >>=-ok, Returns}
use grip_absorption_pipeline.Num.{Num}
use grip_absorption_pipeline.Voltdump.{
  CsvRow, Complex, Times, TimesLaws, Samples, Dump, LastNodes, no_nodes, alias_of_nodes,
  voltage_header, phases, rows_eq, clear_time, extend_time, has_time, note_time, read_mark,
  read_header, extend_data, read_node, read_row, read_rows,
}
use grip_absorption_pipeline.Voltdump.Blocks.{
  Reading, Block, row_of, reading_rows, voltages, names_of, IsReading, block_rows, dump_rows, entry,
  entries, IsBlock, IsApart, grown, all_grown, HasRead,
}

abbrev in_block :
    {F T : Type 0} → Samples F T → T → List (Complex F) → List String → String → Dump F T
in_block done t vs nodes zone = record {
  data_of = done ++ (t, vs) ∷ [];
  nodes = nodes;
  lastnodes = alias_of_nodes;
  timestamp = some t;
  timezone = zone;
  header = some voltage_header;
}

rows_eq_refl : (row : CsvRow) → rows_eq row row ≡ true
rows_eq_refl [] = refl
rows_eq_refl (c ∷ row) = ground (arith, eq_iff c c, rows_eq_refl row)

abbrev headed :
    {F T : Type 0} → Samples F T → List String → LastNodes → Option T → String → CsvRow → Dump F T
headed done nodes last now zone header = record {
  data_of = done;
  nodes = nodes;
  lastnodes = last;
  timestamp = now;
  timezone = zone;
  header = some header;
}

module _ {F T : Type 0} ⦃times : Times T⦄ (laws : TimesLaws T) where
  clear_time-new :
      (t : T) (d : Samples F T) → has_time t d ≡ false → clear_time t d ≡ d ++ (t, []) ∷ []
  clear_time-new t [] h = refl
  clear_time-new t ((u, vs) ∷ d) h = ground (arith, clear_time-new t d)

  has_time-last :
      (t : T) (vs : List (Complex F)) (d : Samples F T) → has_time t (d ++ (t, vs) ∷ []) ≡ true
  has_time-last t vs [] = ground (arith, laws.same_refl t)
  has_time-last t vs ((u, ws) ∷ d) = ground (arith, has_time-last t vs d)

  extend_time-last :
      (t : T) (vs ws : List (Complex F)) (d : Samples F T)
      → has_time t d ≡ false
      → extend_time t ws (d ++ (t, vs) ∷ []) ≡ d ++ (t, vs ++ ws) ∷ []
  extend_time-last t vs ws [] h = ground (arith, laws.same_refl t)
  extend_time-last t vs ws ((u, us) ∷ d) h = ground (arith, extend_time-last t vs ws d)

  module _ ⦃num : Num F⦄ where
    read_rows-append :
        (xs ys : List CsvRow) (d : Dump F T)
        → read_rows (xs ++ ys) d ≡ (read_rows xs >> read_rows ys) d
    unfolding read_rows
    read_rows-append [] ys d = refl
    read_rows-append (x ∷ xs) ys d = go (read_rows-append xs ys) (read_row x d).0 (read_row x d).1
      where
        go :
            ((e : Dump F T) → read_rows (xs ++ ys) e ≡ (read_rows xs >> read_rows ys) e)
            → (r : Result (Unit {0})) (e : Dump F T)
            → continue (λ u. read_rows (xs ++ ys)) r e
              ≡ (continue (λ u. read_rows xs) r >> read_rows ys) e
        go k (ok u) e = k e
        go k (err x) e = refl

    read_row-reading :
        (r : Reading F) (done : Samples F T) (t : T) (vs : List (Complex F)) (nodes : List String)
        (zone : String)
        → IsReading r
        → has_time t done ≡ false
        → read_row (row_of r) (in_block done t vs nodes zone)
          ≡ (ok tt, in_block done t (vs ++ r.a ∷ r.b ∷ r.c ∷ []) (grown nodes (r.name ∷ [])) zone)
    unfolding read_row read_node extend_data
    read_row-reading r done t vs nodes zone (n, p1, p2, p3, p4, p5, p6) h =
        elim (Bool-cases (listed (str_append r.name "_A") nodes)) [
          | inl e ↦
              rw
                (
                  n,
                  p1,
                  p2,
                  p3,
                  p4,
                  p5,
                  p6,
                  e,
                  has_time-last t vs done,
                  extend_time-last t vs (r.a ∷ r.b ∷ r.c ∷ []) done h,
                )
                refl
          | inr e ↦
              rw
                (
                  n,
                  p1,
                  p2,
                  p3,
                  p4,
                  p5,
                  p6,
                  e,
                  has_time-last t vs done,
                  extend_time-last t vs (r.a ∷ r.b ∷ r.c ∷ []) done h,
                )
                refl
        ]

    read_rows-readings :
        (rs : List (Reading F)) (done : Samples F T) (t : T) (vs : List (Complex F))
        (nodes : List String) (zone : String)
        → All IsReading rs
        → has_time t done ≡ false
        → read_rows (reading_rows rs) (in_block done t vs nodes zone)
          ≡ (ok tt, in_block done t (vs ++ voltages rs) (grown nodes (names_of rs)) zone)
    unfolding read_rows
    read_rows-readings [] done t vs nodes zone all h =
        ap (λ ws. (ok tt, in_block done t ws nodes zone)) (sym (append-nil vs))
    read_rows-readings (r ∷ rs) done t vs nodes zone (is, all) h =
        >>=-ok (read_row (row_of r)) (λ u. read_rows (reading_rows rs))
          (in_block done t vs nodes zone) (read_row-reading r done t vs nodes zone is h)
        ∙ read_rows-readings rs done t (vs ++ r.a ∷ r.b ∷ r.c ∷ []) (grown nodes (r.name ∷ [])) zone
            all h
        ∙ ap (λ ws. (ok tt, in_block done t ws (grown nodes (r.name ∷ names_of rs)) zone))
            (append_assoc vs (r.a ∷ r.b ∷ r.c ∷ []) (voltages rs))

    abbrev after_mark : Dump F T → String → T → String → Dump F T
    after_mark d mark t zone = record d {
      data_of = d.data_of ++ (t, []) ∷ [];
      timestamp = some t;
      timezone = zone;
      header = some [];
    }

    abbrev zone_of : (b : Block F T) → IsBlock b → String
    zone_of b is = slice (suc is.at + 24) 3 b.mark

    read_row-mark :
        (b : Block F T) (is : IsBlock b) (d : Dump F T)
        → has_time b.time d.data_of ≡ false
        → read_row (b.mark ∷ []) d ≡ (ok tt, after_mark d b.mark b.time (zone_of b is))
    unfolding read_row read_mark note_time
    read_row-mark b is d h =
        rw (is.is_mark, is.at_eq, is.time_eq, clear_time-new b.time d.data_of h) refl

    read_row-header :
        (done : Samples F T) (nodes rest : List String) (first : String) (last : LastNodes)
        (now : Option T) (zone : String)
        → nodes ≡ first ∷ rest
        → read_row voltage_header (headed done nodes last now zone [])
          ≡ (ok tt, headed done nodes alias_of_nodes now zone voltage_header)
    unfolding read_row read_header starts_with
    read_row-header done nodes rest first no_nodes now zone e = rw e refl
    read_row-header done nodes rest first alias_of_nodes now zone e =
        rw (e, rows_eq_refl (first ∷ rest)) refl

    -- A block appends its time, with the voltages of its rows.
    read_rows-block :
        (b : Block F T) (is : IsBlock b) (d : Dump F T) (first : String) (rest : List String)
        → d.nodes ≡ first ∷ rest
        → has_time b.time d.data_of ≡ false
        → read_rows (block_rows b) d ≡ (
          ok tt,
          in_block d.data_of b.time
              (voltages b.readings)
              (grown d.nodes (names_of b.readings))
              (zone_of b is),
        )
    unfolding read_rows
    read_rows-block b is d first rest e h =
        >>=-ok (read_row (b.mark ∷ [])) (λ u. read_rows (voltage_header ∷ reading_rows b.readings))
          d (read_row-mark b is d h)
        ∙ >>=-ok (read_row voltage_header) (λ u. read_rows (reading_rows b.readings))
            (after_mark d b.mark b.time (zone_of b is))
            (read_row-header (d.data_of ++ (b.time, []) ∷ []) d.nodes rest first d.lastnodes
              (some b.time) (zone_of b is) e)
        ∙ read_rows-readings b.readings d.data_of b.time [] d.nodes (zone_of b is) is.are_readings h

grown-cons :
    (first : String) (rest names : List String)
    → (more : List String) × (grown (first ∷ rest) names ≡ first ∷ more)
grown-cons first rest [] = (rest, refl)
grown-cons first rest (name ∷ names) =
    elim (Bool-cases (listed (str_append name "_A") (first ∷ rest))) [
      | inl e ↦ rw e (grown-cons first rest names)
      | inr e ↦ rw e (grown-cons first (rest ++ phases name) names)
    ]

module _ {F T : Type 0} ⦃times : Times T⦄ ⦃num : Num F⦄ where
  module _ (laws : TimesLaws T) where
    pub read_rows-HasRead :
        (bs : List (Block F T)) (d : Dump F T) (first : String) (rest : List String)
        → d.nodes ≡ first ∷ rest
        → All IsBlock bs
        → IsApart d.data_of bs
        → Returns
            (HasRead (d.data_of ++ entries bs) (all_grown d.nodes bs))
            (read_rows (dump_rows bs) d)
    unfolding read_rows
    read_rows-HasRead [] d first rest e all apart = (sym (append-nil d.data_of), refl)
    read_rows-HasRead (b ∷ bs) d first rest e (is, all) (new, apart) =
        let (more, cons) = grown-cons first rest (names_of b.readings) in
        let next : Dump F T =
          in_block d.data_of b.time (voltages b.readings) (grown d.nodes (names_of b.readings))
            (zone_of laws b is) in
        subst (Returns (HasRead (d.data_of ++ entries (b ∷ bs)) (all_grown d.nodes (b ∷ bs))))
          (sym (
            read_rows-append laws (block_rows b) (dump_rows bs) d
            ∙ >>=-ok (read_rows (block_rows b)) (λ u. read_rows (dump_rows bs)) d
                (read_rows-block laws b is d first rest e new)))
          (subst
            (λ samples.
              Returns (HasRead samples (all_grown next.nodes bs)) (read_rows (dump_rows bs) next))
            (append_assoc d.data_of (entry b ∷ []) (entries bs))
            (read_rows-HasRead bs next first more
              (ap (λ ns. grown ns (names_of b.readings)) e ∙ cons) all apart))
