-- ===== src/Faults/Reads.antt =====
-- `find` (absorption.py) only reads.
use Prim.Native.String.{◌++◌ as str_append}
use grip_absorption_pipeline.Base.{
  String, refl, Option, none, some, List, [], ◌∷◌, ◌++◌, if◌then◌else◌,
}
use grip_absorption_pipeline.Base.Text.{split_first, split_second}
use grip_absorption_pipeline.Base.Dict.{Dict, get}
use grip_absorption_pipeline.Base.Exec.{pure, gets, or_raise, key_error, syntax_error, ◌>>=◌}
use grip_absorption_pipeline.Base.Neutral.{
  IsNeutral, or_raise-IsNeutral, bind-IsNeutral, if-IsNeutral,
}
use grip_absorption_pipeline.Gridlab.{Gridlab}
use grip_absorption_pipeline.Faults.{Area, meets, class_and_id, name_of, one_name, find_among, find}

module _ {Sim : Type 0} ⦃gld : Gridlab Sim⦄ where
  class_and_id-IsNeutral : (item : Dict String) → IsNeutral {S = Area Sim} (class_and_id item)
  unfolding class_and_id
  class_and_id-IsNeutral item =
      bind-IsNeutral (or_raise (get "class" item) key_error)
        (λ kind.
          or_raise (get "id" item) key_error >>= λ id. pure (str_append kind (str_append "_" id)))
        (or_raise-IsNeutral (get "class" item) key_error)
        (λ kind.
          bind-IsNeutral (or_raise (get "id" item) key_error)
            (λ id. pure (str_append kind (str_append "_" id)))
            (or_raise-IsNeutral (get "id" item) key_error) (λ id s. refl))

  name_of-IsNeutral :
      (item : Dict String) (o : Option String) → IsNeutral {S = Area Sim} (name_of item o)
  unfolding name_of
  name_of-IsNeutral item (some name) s = refl
  name_of-IsNeutral item none s = class_and_id-IsNeutral item s

  one_name-IsNeutral : (item : Dict String) → IsNeutral {S = Area Sim} (one_name item)
  unfolding one_name
  one_name-IsNeutral item =
      bind-IsNeutral (name_of item (get "name" item)) (λ name. pure (name ∷ []))
        (name_of-IsNeutral item (get "name" item)) (λ name s. refl)

  find_among-IsNeutral :
      (key wanted : String) (names : List String)
      → IsNeutral {S = Area Sim} (find_among key wanted names)
  unfolding find_among
  find_among-IsNeutral key wanted [] s = refl
  find_among-IsNeutral key wanted (name ∷ names) s =
      let item = gld.get_object s.sim name in
      bind-IsNeutral (if meets key wanted (get key item) then one_name item else pure [])
        (λ found. find_among key wanted names >>= λ more. pure (found ++ more))
        (if-IsNeutral (meets key wanted (get key item)) (one_name item) (pure [])
          (one_name-IsNeutral item) (λ s'. refl))
        (λ found.
          bind-IsNeutral (find_among key wanted names) (λ more. pure (found ++ more))
            (find_among-IsNeutral key wanted names) (λ more s'. refl))
        s

  pub find-IsNeutral : (criteria : String) → IsNeutral {S = Area Sim} (find criteria)
  unfolding find
  find-IsNeutral criteria =
      bind-IsNeutral (or_raise (split_second "=" criteria) syntax_error)
        (λ wanted. gets (λ a. gld.objects a.sim) >>= find_among (split_first "=" criteria) wanted)
        (or_raise-IsNeutral (split_second "=" criteria) syntax_error)
        (λ wanted s. find_among-IsNeutral (split_first "=" criteria) wanted (gld.objects s.sim) s)
