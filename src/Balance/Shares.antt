-- ===== src/Balance/Shares.antt =====
-- The loop of `check_power_balance` (absorption.py) over the batteries: the first that can takes the
-- difference, and the others are left.
use grip_absorption_pipeline.Base.{
  String, ◌≡◌, refl, sym, ap, subst, ◌∙◌, Bool, true, false, not, ◌&&◌, List, [], ◌∷◌, Option, none,
  some, if◌then◌else◌, arith,
}
use grip_absorption_pipeline.Base.Dict.{Dict, get, keys}
use grip_absorption_pipeline.Base.Lists.{All}
use grip_absorption_pipeline.Base.Exec.{
  ok, pure, or_raise, key_error, ◌>>=◌, Ensures, >>=-Ensures, Ensures-map,
}
use grip_absorption_pipeline.Num.{Num, NumNought}
use grip_absorption_pipeline.Gridlab.{Gridlab}
use grip_absorption_pipeline.Packetized.Units.{convert_power_units}
use grip_absorption_pipeline.Faults.{Area}
use grip_absorption_pipeline.Balance.{
  Share, Excess, rate_property, within, new_kw, zipped, set_battery, offer, offer_all, share_out,
}
use grip_absorption_pipeline.Base.Neutral.{neutral-Ensures}
use grip_absorption_pipeline.Balance.Neutral.{convert_power_units-IsNeutral}
use grip_absorption_pipeline.Balance.Takes.{
  names_of, within-Covers, refused_by, rate-shown, AreEntries, Takes, Declines, Shared, nobody,
  one_battery,
}

module _ {F Sim : Type 0} ⦃num : Num F⦄ ⦃gld : Gridlab Sim⦄ where
  module _ (nought : NumNought F) (excess : Excess) (diff : F) (before : Dict F)
      (a : Area Sim) where
    -- no battery so far, of those that were asked, or one
    pub data Progress (asked : List String) (s : Share F) (b : Area Sim) : Type 0 where
      untouched :
          All (Declines excess diff before a) asked
          → s ≡ record { batt_p = before; diff = diff }
          → b ≡ a
          → Progress asked s b
      taken : num.is_zero s.diff ≡ true → Takes excess diff before s.batt_p a b → Progress asked s b

    -- Nobody was asked, or one battery has taken it.
    decide_first :
        (name : String) (kw rate : F) (fits : Bool)
        → (within excess kw rate diff && not (num.is_zero diff)) ≡ fits
        → get name before ≡ some kw
        → (convert_power_units (gld.get_value a.sim name (rate_property excess)) "W" "kW" a).0
          ≡ ok rate
        → Ensures (Progress (name ∷ [])) (
            (if fits
                then set_battery excess name kw (record { batt_p = before; diff = diff })
                else pure (record { batt_p = before; diff = diff }))
              a)
    unfolding set_battery
    decide_first name kw rate false e entry shown =
        untouched
          (
            record {
              kw = kw;
              rate = rate;
              entry = entry;
              shown = rate-shown excess name a rate shown;
              refused = refused_by excess kw rate diff e;
            },
            tt,
          )
          refl refl
    decide_first name kw rate true e entry shown = taken nought.zero_zero (record {
      battery = name;
      kw = kw;
      rate = rate;
      new = new_kw excess kw diff;
      entry = entry;
      shown = rate-shown excess name a rate shown;
      covers = within-Covers excess kw rate diff (ground (arith, e));
      written = refl;
      set = refl;
    })

    -- the rate of a battery that is asked, which is read without a change
    rate_read :
        (Q : Share F → Area Sim → Type 0) (name : String) (kw : F) (s : Share F) (b : Area Sim)
        → ((rate : F)
            → (convert_power_units (gld.get_value b.sim name (rate_property excess)) "W" "kW" b).0
              ≡ ok rate
            → Ensures Q (
                (if within excess kw rate s.diff && not (num.is_zero s.diff)
                    then set_battery excess name kw s
                    else pure s)
                  b))
        → Ensures Q (offer excess name kw s b)
    unfolding offer
    rate_read Q name kw s b k =
        let text = gld.get_value b.sim name (rate_property excess) in
        >>=-Ensures (λ rate b'. (b' ≡ b) × ((convert_power_units text "W" "kW" b).0 ≡ ok rate)) Q
          (λ rate.
            if within excess kw rate s.diff && not (num.is_zero s.diff)
            then set_battery excess name kw s
            else pure s)
          (convert_power_units text "W" "kW") b
          (neutral-Ensures (convert_power_units text "W" "kW") b
            (convert_power_units-IsNeutral F text "W" "kW"))
          (λ rate b' p.
            subst
              (λ z. Ensures Q (
                (if within excess kw rate s.diff && not (num.is_zero s.diff)
                    then set_battery excess name kw s
                    else pure s)
                  z))
              (sym p.0) (k rate p.1))

    -- Once a battery has taken it, the others are left.
    offer_all-taken :
        (kws : List (String × F)) (s : Share F) (b : Area Sim)
        → num.is_zero s.diff ≡ true
        → Ensures (λ s' b'. (s' ≡ s) × (b' ≡ b)) (offer_all excess kws s b)
    unfolding offer_all
    offer_all-taken [] s b z = (refl, refl)
    offer_all-taken ((name, kw) ∷ kws) s b z =
        >>=-Ensures (λ s' b'. (s' ≡ s) × (b' ≡ b)) (λ s' b'. (s' ≡ s) × (b' ≡ b))
          (λ s'. offer_all excess kws s') (offer excess name kw s) b
          (rate_read (λ s' b'. (s' ≡ s) × (b' ≡ b)) name kw s b
            (λ rate e.
              subst
                (λ q.
                  Ensures (λ s' b'. (s' ≡ s) × (b' ≡ b))
                    ((if q then set_battery excess name kw s else pure s) b))
                (sym (off (within excess kw rate s.diff) (num.is_zero s.diff) z)) (refl, refl)))
          (λ s' b' (es, eb).
            Ensures-map (offer_all excess kws s' b')
              (offer_all-taken kws s' b' (ap (λ (x : Share F). num.is_zero x.diff) es ∙ z))
              (λ s2 b2 (es2, eb2). (es2 ∙ es, eb2 ∙ eb)))
      where
        off : (x y : Bool) → y ≡ true → (x && not y) ≡ false
        off x y e = ground (arith, e)

    offer_all-Progress :
        (kws : List (String × F))
        → AreEntries before kws
        → Ensures
            (Progress (names_of kws))
            (offer_all excess kws (record { batt_p = before; diff = diff }) a)
    unfolding offer_all
    offer_all-Progress [] all = untouched tt refl refl
    offer_all-Progress ((name, kw) ∷ kws) all =
        >>=-Ensures (Progress (name ∷ [])) (Progress (name ∷ names_of kws))
          (λ s'. offer_all excess kws s')
          (offer excess name kw (record { batt_p = before; diff = diff })) a
          (rate_read (Progress (name ∷ [])) name kw (record { batt_p = before; diff = diff }) a
            (λ rate e.
              decide_first name kw rate (within excess kw rate diff && not (num.is_zero diff)) refl
                all.0 e))
          (rest (offer_all-Progress kws all.1))
      where
        rest :
            Ensures
              (Progress (names_of kws))
              (offer_all excess kws (record { batt_p = before; diff = diff }) a)
            → (s : Share F) (b : Area Sim) → Progress (name ∷ []) s b
            → Ensures (Progress (name ∷ names_of kws)) (offer_all excess kws s b)
        rest later s b (untouched d es eb) =
            subst (λ x. Ensures (Progress (name ∷ names_of kws)) (offer_all excess kws s x))
              (sym eb)
              (subst (λ x. Ensures (Progress (name ∷ names_of kws)) (offer_all excess kws x a))
                (sym es)
                (Ensures-map (offer_all excess kws (record { batt_p = before; diff = diff }) a)
                  later (λ s' b' h'. one_more s' b' d.0 h')))
          where
            one_more :
                (s' : Share F) (b' : Area Sim)
                → Declines excess diff before a name
                → Progress (names_of kws) s' b'
                → Progress (name ∷ names_of kws) s' b'
            one_more s' b' d (untouched ds es eb) = untouched (d, ds) es eb
            one_more s' b' d (taken z t) = taken z t
        rest later s b (taken z t) =
            Ensures-map (offer_all excess kws s b) (offer_all-taken kws s b z) (λ s' b' (es, eb).
              taken (ap (λ (x : Share F). num.is_zero x.diff) es ∙ z) (
                subst (λ x. Takes excess diff before s'.batt_p a x) (sym eb)
                  (subst (λ (x : Share F). Takes excess diff before x.batt_p a b) (sym es) t)))

  looked_up :
      (o : Option F) (a : Area Sim)
      → Ensures (λ kw b. (o ≡ some kw) × (b ≡ a)) (or_raise o key_error a)
  looked_up none a = tt
  looked_up (some kw) a = (refl, refl)

  zipped-AreEntries :
      (d : Dict F) (bs : List String) (a : Area Sim)
      → Ensures (λ kws b. AreEntries d kws × (names_of kws ≡ bs) × (b ≡ a)) (zipped d bs a)
  unfolding zipped
  zipped-AreEntries d [] a = (tt, refl, refl)
  zipped-AreEntries d (n ∷ bs) a =
      >>=-Ensures _ _ (λ kw. zipped d bs >>= λ rest. pure ((n, kw) ∷ rest))
        (or_raise (get n d) key_error) a (looked_up (get n d) a)
        (λ kw b h.
          >>=-Ensures _ _ (λ rest. pure ((n, kw) ∷ rest)) (zipped d bs) b (zipped-AreEntries d bs b)
            (λ rest c k. ((h.0, k.0), ap (λ ns. n ∷ ns) k.1, k.2 ∙ h.1)))

  pub share_out-Shared :
      (nought : NumNought F) (shuffle : List String → List String) (excess : Excess) (diff : F)
      (before : Dict F) (a : Area Sim)
      → Ensures
          (λ after b. Shared (shuffle (keys before)) excess diff before after a b)
          (share_out shuffle excess diff before a)
  unfolding share_out
  share_out-Shared nought shuffle excess diff before a =
      let first : Share F = record { batt_p = before; diff = diff } in
      let finish = λ (s : Share F). pure {S = Area Sim} s.batt_p in
      >>=-Ensures _ _ (λ batts. offer_all excess batts first >>= finish)
        (zipped before (shuffle (keys before))) a
        (zipped-AreEntries before (shuffle (keys before)) a)
        (λ batts b h.
          >>=-Ensures (Progress nought excess diff before a (shuffle (keys before))) _ finish
            (offer_all excess batts first) b
            (subst
              (λ x.
                Ensures (Progress nought excess diff before a (shuffle (keys before)))
                  (offer_all excess batts first x))
              (sym h.2)
              (subst
                (λ ns.
                  Ensures (Progress nought excess diff before a ns)
                    (offer_all excess batts first a))
                h.1 (offer_all-Progress nought excess diff before a batts h.0)))
            (λ s c done. shared s c done))
    where
      shared :
          (s : Share F) (c : Area Sim)
          → Progress nought excess diff before a (shuffle (keys before)) s c
          → Shared (shuffle (keys before)) excess diff before s.batt_p a c
      shared s c (untouched ds es eb) = nobody ds (ap (λ (r : Share F). r.batt_p) es) eb
      shared s c (taken z t) = one_battery t
