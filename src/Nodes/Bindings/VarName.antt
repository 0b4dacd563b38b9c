-- ===== src/Nodes/Bindings/VarName.antt =====
-- pkg/controller/nodes/var_name_parser.go: the name of an output, which may carry an index. A text
-- is the list of its code points; the matches of `(\[(\d+)\]\.)?(\w+)` are found as the package
-- regexp finds them, from the left, each after the end of the one before.
pub mod Laws
use flytepropeller.Prelude.{
  ℕ, zero, suc, ◌+◌, ◌-◌, ◌*◌, Bool, true, false, ◌&&◌, ◌||◌, Option, none, some, List, [], ◌∷◌,
  length, is_empty, leb, ltb, ◌==◌, if◌then◌else◌,
}
use flytepropeller.Api.Error.{Message, GoError}

-- `\d` and `\w`.
abbrev pub is_digit : ℕ → Bool
is_digit c = leb 48 c && leb c 57

abbrev pub is_word : ℕ → Bool
is_word c = is_digit c || ((leb 65 c && leb c 90) || ((leb 97 c && leb c 122) || (c == 95)))

-- The longest beginning of which every code point passes, and the rest.
unfoldable pub span : (ℕ → Bool) → Message → Message × Message
span p [] = ([], [])
span p (c ∷ cs) = let (a, b) = span p cs in if p c then (c ∷ a, b) else ([], c ∷ cs)

-- The groups `index` and `var` of a match; `index` is empty where its group did not take part.
pub record VarMatch : Type 0 where
  pub index : Message
  pub var : Message

-- `(\w+)`.
unfoldable pub match_word : Message → Message × Message → Option (VarMatch × Message)
match_word index (v, rest) =
    if is_empty v then none else some (record { index = index; var = v }, rest)

-- `\]\.` and what follows the digits.
unfoldable pub match_close : Message × Message → Option (VarMatch × Message)
unfolding match_word span
match_close (ds, b ∷ d ∷ rest) =
    if (b == 93) && ((d == 46) && leb 1 (length ds))
    then match_word ds (span is_word rest)
    else none
match_close (ds, _) = none

-- The pattern with its first group.
unfoldable pub match_indexed : Message → Option (VarMatch × Message)
unfolding match_close span
match_indexed [] = none
match_indexed (c ∷ cs) = if c == 91 then match_close (span is_digit cs) else none

abbrev pub or_plain : Message → Option (VarMatch × Message) → Option (VarMatch × Message)
or_plain s none = match_word [] (span is_word s)
or_plain s (some m) = some m

-- The match at the beginning of a text: the first group is tried before it is left out.
unfoldable pub match_at : Message → Option (VarMatch × Message)
unfolding match_indexed match_word span
match_at s = or_plain s (match_indexed s)

-- `FindAllStringSubmatch`: fuel for each code point and one more is enough.
unfoldable pub find_all : ℕ → Message → List VarMatch
find_all zero s = []
find_all (suc fuel) [] = []
find_all (suc fuel) (c ∷ cs) = elim (match_at (c ∷ cs)) [
  | some (m, rest) ↦ m ∷ find_all fuel rest
  | none ↦ find_all fuel cs
]

-- `strconv.Atoi` of digits: the number, and whether it is too large for an `int`.
unfoldable pub digits_value : ℕ → Message → ℕ
digits_value n [] = n
digits_value n (d ∷ ds) = digits_value (10 * n + (d - 48)) ds

abbrev pub max_int : ℕ
max_int = 9223372036854775807

-- What `ParseVarName` returns.
pub record ParsedVar : Type 0 where
  pub idx : Option ℕ
  pub name : Message
  pub err : Option GoError

abbrev pub out_of_range : GoError
out_of_range = GoError.coded "value out of range" ""

unfoldable pub parse_index : VarMatch → ParsedVar
unfolding digits_value
parse_index m =
    let n : ℕ = digits_value 0 m.index in
    if is_empty m.index
    then record { idx = none; name = m.var; err = none }
    else if leb n max_int
    then record { idx = some n; name = m.var; err = none }
    else record { idx = some max_int; name = m.var; err = some out_of_range }

abbrev pub bad_matches : ParsedVar
bad_matches = record {
  idx = none;
  name = [];
  err = some (GoError.coded "unexpected number of matches" "");
}

abbrev pub one_match : List VarMatch → ParsedVar
one_match (m ∷ []) = parse_index m
one_match _ = bad_matches

-- `ParseVarName`.
unfoldable pub parse_var_name : Message → ParsedVar
unfolding find_all parse_index
parse_var_name s = one_match (find_all (suc (length s)) s)
