-- ===== src/Base/Text.antt =====
-- Python's `str` methods that the program calls, on native texts.
use Prim.Native.Nat.{ℕ, zero, suc, compare, Ordering}
use Prim.Native.Char.{Char, code}
use Prim.Native.String.{String}
use mathlib.Core.Path.{◌≡◌, refl}
use mathlib.Core.Bool.{Bool, true, false, ◌&&◌, ◌||◌}
use mathlib.Core.List.{List, [], ◌∷◌}
use mathlib.Core.Option.{Option, none, some}

abbrev char_eq : Char → Char → Bool
char_eq c d = elim (compare (code c) (code d)) [ Ordering.eq ↦ true | _ ↦ false ]

-- `c in s` for a text `c` of one character
abbrev pub has_char : Char → String → Bool
has_char c String.[] = false
has_char c (String.◌∷◌ d s) = char_eq c d || has_char c s

-- `s.split(sep)`, for a separator of one character: the first part, and the others
split_parts : Char → String → String × List String
split_parts sep String.[] = ("", [])
split_parts sep (String.◌∷◌ c s) =
    let (first, rest) = split_parts sep s in
    elim (char_eq c sep) [ true ↦ ("", first ∷ rest) | false ↦ (String.◌∷◌ c first, rest) ]

unfoldable pub split : Char → String → List String
unfolding split_parts
split sep s = let (first, rest) = split_parts sep s in first ∷ rest

-- `s.split(sep)[0]`: a split has always a first part
unfoldable pub split_first : Char → String → String
unfolding split_parts
split_first sep s = (split_parts sep s).0

-- `s.split(sep)[1]`, `none` for the IndexError
unfoldable pub split_second : Char → String → Option String
unfolding split_parts
split_second sep s = elim (split_parts sep s).1 [ [] ↦ none | part ∷ _ ↦ some part ]

-- `s.startswith(part)`
unfoldable pub starts_with : String → String → Bool
starts_with String.[] s = true
starts_with (String.◌∷◌ c cs) String.[] = false
starts_with (String.◌∷◌ c cs) (String.◌∷◌ d s) = char_eq c d && starts_with cs s

-- `part in s`
unfoldable pub contains_text : String → String → Bool
unfolding starts_with
contains_text part String.[] = starts_with part ""
contains_text part (String.◌∷◌ c s) = starts_with part (String.◌∷◌ c s) || contains_text part s

found_later : Option ℕ → Option ℕ
found_later none = none
found_later (some n) = some (suc n)

-- `s.find(part)`, `none` for -1
unfoldable pub position : String → String → Option ℕ
unfolding starts_with found_later
position part String.[] = elim (starts_with part "") [ true ↦ some 0 | false ↦ none ]
position part (String.◌∷◌ c s) =
    let later = found_later (position part s) in
    elim (starts_with part (String.◌∷◌ c s)) [ true ↦ some 0 | false ↦ later ]

-- `s.replace(c, "")` for a text `c` of one character
unfoldable pub without : Char → String → String
without c String.[] = ""
without c (String.◌∷◌ d s) =
    let rest = without c s in elim (char_eq c d) [ true ↦ rest | false ↦ String.◌∷◌ d rest ]

drop_one : String → String
drop_one String.[] = ""
drop_one (String.◌∷◌ c s) = s

-- keeps the characters that two others follow
unfoldable pub drop_last_two : String → String
drop_last_two String.[] = ""
drop_last_two (String.◌∷◌ c String.[]) = ""
drop_last_two (String.◌∷◌ c (String.◌∷◌ d String.[])) = ""
drop_last_two (String.◌∷◌ c (String.◌∷◌ d (String.◌∷◌ e s))) =
    String.◌∷◌ c (drop_last_two (String.◌∷◌ d (String.◌∷◌ e s)))

-- `s[2:-2]`
unfoldable pub inner : String → String
unfolding drop_one drop_last_two
inner s = drop_last_two (drop_one (drop_one s))

reversed : String → String → String
reversed acc String.[] = acc
reversed acc (String.◌∷◌ c s) = reversed (String.◌∷◌ c acc) s

drop_first : ℕ → String → String
drop_first zero s = s
drop_first (suc n) String.[] = ""
drop_first (suc n) (String.◌∷◌ c s) = drop_first n s

take_first : ℕ → String → String
take_first zero s = ""
take_first (suc n) String.[] = ""
take_first (suc n) (String.◌∷◌ c s) = String.◌∷◌ c (take_first n s)

-- `s[first:first+count]`
unfoldable pub slice : ℕ → ℕ → String → String
unfolding drop_first take_first
slice first count s = take_first count (drop_first first s)

-- `s[:-n]`
unfoldable pub drop_last : ℕ → String → String
unfolding reversed drop_first
drop_last n s = reversed "" (drop_first n (reversed "" s))

strip_left : String → String → String
strip_left chars String.[] = ""
strip_left chars (String.◌∷◌ c s) =
    let rest = strip_left chars s in
    elim (has_char c chars) [ true ↦ rest | false ↦ String.◌∷◌ c s ]

put_unless_blank : String → Char → String → String
put_unless_blank chars c String.[] = elim (has_char c chars) [ true ↦ "" | false ↦ String.◌∷◌ c "" ]
put_unless_blank chars c (String.◌∷◌ d s) = String.◌∷◌ c (String.◌∷◌ d s)

strip_right : String → String → String
unfolding put_unless_blank
strip_right chars String.[] = ""
strip_right chars (String.◌∷◌ c s) = put_unless_blank chars c (strip_right chars s)

-- `s.strip(chars)`: drops characters of the set `chars` at both ends
unfoldable pub strip : String → String → String
unfolding strip_left strip_right
strip chars s = strip_right chars (strip_left chars s)

split_test : split_second "+" "1+2j" ≡ some "2j"
unfolding split_second
split_test = refl

strip_test : strip " kW" "3.5 kW" ≡ "3.5"
unfolding strip
strip_test = refl

inner_test : inner "[[a,b]]" ≡ "a,b"
unfolding inner
inner_test = refl

slice_test : slice 2 3 "abcdefg" ≡ "cde"
unfolding slice
slice_test = refl

position_test : position " at " "# run at 2022" ≡ some 5
unfolding position
position_test = refl

drop_last_test : drop_last 6 "2022-07-14 10:02:00 PDT" ≡ "2022-07-14 10:02:"
unfolding drop_last
drop_last_test = refl
