-- ===== src/Voltdump/Powers/Rows.antt =====
-- A row of a power dump (voltdump.py, lines 84-95): all of its numbers, or none.
use grip_absorption_pipeline.Base.{
  String, false, some, List, [], ◌∷◌, ◌≡◌, refl, ap, inl, inr, ◌⊎◌, Bool-cases, if◌then◌else◌,
}
use grip_absorption_pipeline.Base.Exec.{
  Error, Result, ok, err, pure, continue, attempt, swallowed, modify, Returns, ◌>>=◌,
  >>=-Returns_eq,
}
use grip_absorption_pipeline.Num.{Num}
use grip_absorption_pipeline.Voltdump.{
  CsvRow, Complex, Times, Polar, Samples, clear_time, extend_time, has_time,
}
use grip_absorption_pipeline.Voltdump.Powers.{
  Powers, is_comment, to_complex, to_complexes, add_time, extend_powers, read_power_row,
}

-- a text of the list is no number
abbrev pub IsRefused : (F : Type 0) ⦃num : Num F⦄ ⦃pol : Polar F⦄ → CsvRow → Type 0
IsRefused F [] = ⊥
IsRefused F (c ∷ cells) = ((e : Error) × (to_complex {F = F} c ≡ err e)) ⊎ IsRefused F cells

module _ {F : Type 0} ⦃num : Num F⦄ ⦃pol : Polar F⦄ where
  -- each text is read as the number at its place
  abbrev pub IsConverted : CsvRow → List (Complex F) → Type 0
  IsConverted [] [] = Unit
  IsConverted [] (z ∷ zs) = ⊥
  IsConverted (c ∷ cells) [] = ⊥
  IsConverted (c ∷ cells) (z ∷ zs) = (to_complex c ≡ ok z) × IsConverted cells zs

  Conversion : {S : Type 0} → CsvRow → S → Result (List (Complex F)) × S → Type 0
  Conversion cells s (ok zs, s') = IsConverted cells zs × (s' ≡ s)
  Conversion cells s (err e, s') = IsRefused F cells × (s' ≡ s)

  more-Conversion :
      {S : Type 0} (c : String) (z : Complex F) (cells : CsvRow) (s : S)
      (r : Result (List (Complex F))) (s' : S)
      → to_complex c ≡ ok z
      → Conversion cells s (r, s')
      → Conversion (c ∷ cells) s (continue (λ zs. pure (z ∷ zs)) r s')
  unfolding Conversion
  more-Conversion c z cells s (ok zs) s' h (k, same) = ((h, k), same)
  more-Conversion c z cells s (err e) s' h (k, same) = (inr k, same)

to_complexes-Conversion :
    (F : Type 0) ⦃num : Num F⦄ ⦃pol : Polar F⦄ {S : Type 0} (cells : CsvRow) (s : S)
    → Conversion cells s (to_complexes {F = F} cells s)
unfolding to_complexes Conversion
to_complexes-Conversion F [] s = (tt, refl)
to_complexes-Conversion F {S} (c ∷ cells) s =
    first (to_complex {F = F} c) refl (to_complexes-Conversion F cells s)
  where
    first :
        (r : Result (Complex F))
        → to_complex c ≡ r
        → Conversion cells s (to_complexes {F = F} cells s)
        → Conversion (c ∷ cells) s (continue (λ z. to_complexes cells >>= λ zs. pure (z ∷ zs)) r s)
    first (err e) h k = (inl (e, h), refl)
    first (ok z) h k =
        more-Conversion c z cells s (to_complexes cells s).0 (to_complexes cells s).1 h k

module _ {F : Type 0} ⦃num : Num F⦄ ⦃pol : Polar F⦄ where
  module _ {T : Type 0} ⦃times : Times T⦄ where
    -- the time has an entry, a new one without numbers if need be
    abbrev pub with_time : T → Samples F T → Samples F T
    with_time t d = if has_time t d then d else clear_time t d

    -- all numbers of the row are added to the samples, or none of them is
    abbrev pub IsAllOrNone : T → CsvRow → Samples F T → Samples F T → Type 0
    IsAllOrNone t cells before after =
        ((values : List (Complex F)) × IsConverted cells values
          × (after ≡ extend_time t values before))
        ⊎ (IsRefused F cells × (after ≡ before))

    add_time-eq :
        (t : T) (p : Powers F T)
        → add_time t p ≡ (ok tt, record p { samples = with_time t p.samples })
    unfolding add_time
    add_time-eq t p = elim (Bool-cases (has_time t p.samples)) [
      | inl e ↦ rw e refl
      | inr e ↦ rw e refl
    ]

    extend_powers-IsAllOrNone :
        (t : T) (cells : CsvRow) (p : Powers F T)
        → Returns
            (λ u p'. (p'.headers ≡ p.headers) × IsAllOrNone t cells p.samples p'.samples)
            (attempt (extend_powers t cells) p)
    unfolding extend_powers Conversion
    extend_powers-IsAllOrNone t cells p =
        go (to_complexes cells p).0 (to_complexes cells p).1 (to_complexes-Conversion F cells p)
      where
        go :
            (r : Result (List (Complex F))) (q : Powers F T)
            → Conversion cells p (r, q)
            → Returns
                (λ u p'. (p'.headers ≡ p.headers) × IsAllOrNone t cells p.samples p'.samples)
                (swallowed (
                  continue
                    (λ values. modify λ p. record p { samples = extend_time t values p.samples })
                    r
                    q))
        go (ok zs) q (k, same) =
            (ap (λ p. p.headers) same, inl (zs, k, ap (λ p. extend_time t zs p.samples) same))
        go (err e) q (k, same) = (ap (λ p. p.headers) same, inr (k, ap (λ p. p.samples) same))

-- A row of numbers with a time always returns. It adds all of its numbers to the time, in their
-- order, if each of its texts is a number. If one is not, it adds none, only the time itself.
pub read_power_row-IsAllOrNone :
    {F T : Type 0} ⦃num : Num F⦄ ⦃pol : Polar F⦄ ⦃times : Times T⦄ (first : String) (cells : CsvRow)
    (t : T) (p : Powers F T)
    → is_comment first ≡ some false
    → times.strptime first ≡ some t
    → Returns
        (λ u p'. (p'.headers ≡ p.headers) × IsAllOrNone t cells (with_time t p.samples) p'.samples)
        (read_power_row (first ∷ cells) p)
unfolding read_power_row
read_power_row-IsAllOrNone first cells t p plain time =
    rw (plain, time)
      (>>=-Returns_eq
        (λ u p'. (p'.headers ≡ p.headers) × IsAllOrNone t cells (with_time t p.samples) p'.samples)
        (λ u. attempt (extend_powers t cells)) (add_time t) p (add_time-eq t p)
        (extend_powers-IsAllOrNone t cells (record p { samples = with_time t p.samples })))
