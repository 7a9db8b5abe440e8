-- ===== src/Faults/Marks.antt =====
-- What `new_fault_detected` (absorption.py) makes of the list of the faulted supernodes, without
-- the simulation.
use grip_absorption_pipeline.Base.{
  String, ◌≡◌, ◌≢◌, refl, subst, inl, inr, Bool, true, false, not, ◌||◌, List, [], ◌∷◌, ◌++◌, ◌==◌,
  if◌then◌else◌, arith, eq_iff, Bool-cases,
}
use grip_absorption_pipeline.Base.Dict.{listed}
use grip_absorption_pipeline.Faults.{all_but}

abbrev pub marked : String → Bool → Bool → List String → List String
marked sn true true ns = ns
marked sn true false ns = ns ++ sn ∷ []
marked sn false true ns = all_but sn ns
marked sn false false ns = ns

abbrev pub differs : Bool → Bool → Bool
differs true b = not b
differs false b = b

abbrev pub synced : (String → Bool) → List String → List String → List String
synced want [] ns = ns
synced want (sn ∷ sns) ns = synced want sns (marked sn (want sn) (listed sn ns) ns)

abbrev pub changes : (String → Bool) → List String → List String → Bool
changes want [] ns = false
changes want (sn ∷ sns) ns =
    differs (want sn) (listed sn ns) || changes want sns (marked sn (want sn) (listed sn ns) ns)

listed-append :
    (x sn : String) (ns : List String) → listed x (ns ++ sn ∷ []) ≡ (listed x ns || sn == x)
listed-append x sn [] = ground arith
listed-append x sn (n ∷ ns) = ground (arith, listed-append x sn ns)

listed-all_but :
    (x sn : String) (ns : List String)
    → listed x (all_but sn ns) ≡ (if sn == x then false else listed x ns)
listed-all_but x sn [] = ground arith
listed-all_but x sn (n ∷ ns) =
    ground (arith, listed-all_but x sn ns, eq_iff n sn, eq_iff sn x, eq_iff n x)

listed-marked_self :
    (x : String) (f b : Bool) (ns : List String) → listed x ns ≡ b → listed x (marked x f b ns) ≡ f
listed-marked_self x true true ns e = e
listed-marked_self x true false ns e = ground (arith, listed-append x x ns, eq_iff x x)
listed-marked_self x false true ns e = ground (arith, listed-all_but x x ns, eq_iff x x)
listed-marked_self x false false ns e = e

marked_same :
    (sn : String) (f b : Bool) (ns : List String) → differs f b ≡ false → marked sn f b ns ≡ ns
marked_same sn f b ns h = ground arith

listed-marked :
    (x sn : String) (f : Bool) (ns : List String)
    → listed x (marked sn f (listed sn ns) ns) ≡ (if sn == x then f else listed x ns)
listed-marked x sn f ns = elim (Bool-cases (sn == x)) [
  | inl same ↦ rw (same, (eq_iff sn x).0 same) (listed-marked_self x f (listed x ns) ns refl)
  | inr other ↦ rw other (ground (arith, other, listed-append x sn ns, listed-all_but x sn ns))
]

-- Afterwards the list has exactly the nodes that are wanted, of those that were looked at.
pub listed-synced :
    (want : String → Bool) (sns ns : List String) (x : String)
    → listed x (synced want sns ns) ≡ (if listed x sns then want x else listed x ns)
listed-synced want [] ns x = refl
listed-synced want (sn ∷ sns) ns x = ground (
  arith,
  listed-synced want sns (marked sn (want sn) (listed sn ns) ns) x,
  listed-marked x sn (want sn) ns,
  eq_iff sn x,
)

-- Without a change the list is the same.
pub synced_same :
    (want : String → Bool) (sns ns : List String)
    → changes want sns ns ≡ false
    → synced want sns ns ≡ ns
synced_same want [] ns h = refl
synced_same want (sn ∷ sns) ns h =
    ground (arith, synced_same want sns (marked sn (want sn) (listed sn ns) ns))

-- With one, some node came or went.
pub synced_other :
    (want : String → Bool) (sns ns : List String)
    → changes want sns ns ≡ true
    → (x : String) × (listed x (synced want sns ns) ≢ listed x ns)
synced_other want [] ns h = ground arith
synced_other want (sn ∷ sns) ns h = elim (Bool-cases (differs (want sn) (listed sn ns))) [
  | inl here ↦
      (sn, λ kept. ground (arith, kept, here, eq_iff sn sn, listed-synced want (sn ∷ sns) ns sn))
  | inr later ↦
      let same = marked_same sn (want sn) (listed sn ns) ns later in
      let (x, moved) =
        synced_other want sns (marked sn (want sn) (listed sn ns) ns) (ground (arith, h, later)) in
      (
        x,
        subst (λ l. listed x (synced want sns (marked sn (want sn) (listed sn ns) ns)) ≢ listed x l)
            same moved,
      )
]
