-- ===== src/Packetized/Battery/Keys.antt =====
-- The dict of devices of a `VirtualBattery` (packetized/virtual_battery.py): every device stands
-- under its own id, and how the writes of the methods keep that.
use grip_absorption_pipeline.Base.{
  ◌≡◌, refl, sym, ◌∙◌, String, true, none, some, List, [], ◌∷◌, arith, eq_iff, Option-cases, inl,
  inr, Bool-cases, ◌==◌, subst,
}
use grip_absorption_pipeline.Base.Dict.{
  Dict, get, put, values, get-put, keys, keys-put, contains, listed,
}
use grip_absorption_pipeline.Base.Lists.{All}
use grip_absorption_pipeline.Packetized.Device.{VbDevice}
use grip_absorption_pipeline.Packetized.Battery.{replace_all, replace_known}

module _ {F : Type 0} where
  -- Every device stands under its own id, and no id stands twice.
  abbrev pub IsKeyed : Dict (VbDevice F) → Type 0
  IsKeyed [] = Unit
  IsKeyed ((k, d) ∷ rest) = (k ≡ d.device_id) × (get k rest ≡ none) × IsKeyed rest

  pub get-IsKeyed :
      (k : String) (d : VbDevice F) (dict : Dict (VbDevice F))
      → IsKeyed dict
      → get k dict ≡ some d
      → k ≡ d.device_id
  get-IsKeyed k d [] h e = cc
  get-IsKeyed k d ((j, x) ∷ rest) h e = ground (arith, eq_iff j k, get-IsKeyed k d rest h.2)

  pub put-IsKeyed :
      (k : String) (d : VbDevice F) (dict : Dict (VbDevice F))
      → IsKeyed dict
      → k ≡ d.device_id
      → IsKeyed (put k d dict)
  put-IsKeyed k d [] h e = (e, refl, tt)
  put-IsKeyed k d ((j, x) ∷ rest) h e =
      ground (arith, eq_iff j k, eq_iff k j, put-IsKeyed k d rest h.2, get-put k j d rest)

  -- The ids of the first dict are among those of the second.
  abbrev pub Within : Dict (VbDevice F) → Dict (VbDevice F) → Type 0
  Within small big = All (λ k. contains k big ≡ true) (keys small)

  put-Within :
      (j : String) (d : VbDevice F) (small big : Dict (VbDevice F))
      → contains j big ≡ true
      → Within small big
      → Within (put j d small) big
  put-Within j d [] big at h = (at, tt)
  put-Within j d ((k, x) ∷ rest) big at h = elim (Bool-cases (k == j)) [
    | inl same ↦ rw same h
    | inr other ↦ rw other (h.0, put-Within j d rest big at h.1)
  ]

  -- The loops go over devices of the dict.
  abbrev pub Listed : Dict (VbDevice F) → List (VbDevice F) → Type 0
  Listed big ds = All (λ d. contains d.device_id big ≡ true) ds

  Listed-cons :
      (j : String) (x : VbDevice F) (big : Dict (VbDevice F)) (ds : List (VbDevice F))
      → Listed big ds
      → Listed ((j, x) ∷ big) ds
  Listed-cons j x big [] h = tt
  Listed-cons j x big (d ∷ ds) h = (ground arith, Listed-cons j x big ds h.1)

  pub Listed-values : (dict : Dict (VbDevice F)) → IsKeyed dict → Listed dict (values dict)
  Listed-values [] h = tt
  Listed-values ((j, x) ∷ rest) h = (
    ground (arith, eq_iff j x.device_id),
    Listed-cons j x rest (values rest) (Listed-values rest h.2),
  )

  -- `apply_updates` keeps the ids, and puts each state under its own id.
  pub replace_all-IsKeyed :
      (ns : List (VbDevice F)) (dict : Dict (VbDevice F))
      → IsKeyed dict
      → IsKeyed (replace_all dict ns) × (keys (replace_all dict ns) ≡ keys dict)
  unfolding replace_all replace_known
  replace_all-IsKeyed [] dict h = (h, refl)
  replace_all-IsKeyed (n ∷ ns) dict h = elim (Option-cases (get n.device_id dict)) [
    | inl missing ↦ rw missing (replace_all-IsKeyed ns dict h)
    | inr (d, e) ↦
        let id = get-IsKeyed n.device_id d dict h e in
        let (keyed, same) =
          replace_all-IsKeyed ns (put d.device_id n dict)
            (put-IsKeyed d.device_id n dict h (sym id)) in
        rw e (keyed, same ∙ keys-put d.device_id n {old = d} dict (rw id at e))
  ]

  -- The devices of a loop so far, over the devices of a battery.
  pub record IsGood (big : Dict (VbDevice F)) (dict : Dict (VbDevice F)) : Type 0 where
    pub keyed : IsKeyed dict
    pub within : Within dict big

  pub put-IsGood :
      (big : Dict (VbDevice F)) (j : String) (d : VbDevice F) (dict : Dict (VbDevice F))
      → contains j big ≡ true
      → j ≡ d.device_id
      → IsGood big dict
      → IsGood big (put j d dict)
  put-IsGood big j d dict at id h = record {
    keyed = put-IsKeyed j d dict h.keyed id;
    within = put-Within j d dict big at h.within;
  }

  pub put_found-IsGood :
      (big : Dict (VbDevice F)) (j : String) (d new : VbDevice F) (dict : Dict (VbDevice F))
      → get j dict ≡ some d
      → new.device_id ≡ d.device_id
      → IsGood big dict
      → IsGood big (put new.device_id new dict)
  put_found-IsGood big j d new dict e id h =
      let at : j ≡ new.device_id = get-IsKeyed j d dict h.keyed e ∙ sym id in
      record {
        keyed = put-IsKeyed new.device_id new dict h.keyed refl;
        within = rw (keys-put new.device_id new {old = d} dict (rw at at e)) h.within;
      }

  pub IsGood-keys :
      (big big' dict : Dict (VbDevice F))
      → keys big ≡ keys big'
      → IsGood big dict
      → IsGood big' dict
  IsGood-keys big big' dict e h = record {
    keyed = h.keyed;
    within = subst (λ ks. All (λ k. listed k ks ≡ true) (keys dict)) e h.within;
  }
