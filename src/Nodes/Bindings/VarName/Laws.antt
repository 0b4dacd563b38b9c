-- ===== src/Nodes/Bindings/VarName/Laws.antt =====
-- The name of an output, printed and parsed.
use flytepropeller.Prelude.{
  ℕ, zero, suc, ◌+◌, ◌-◌, ◌*◌, ◌/◌, ◌%◌, ◌≤◌, ◌<◌, ◌≡◌, ◌∙◌, refl, Bool, true, false, Option, none,
  some, [], ◌∷◌, ◌++◌, All, length, length-append, is_empty, leb, ltb, ◌==◌, if◌then◌else◌,
  Bool-cases, inl, inr, arith,
}
use flytepropeller.Api.Error.{Message}
use flytepropeller.Nodes.Bindings.VarName.{
  is_digit, is_word, span, VarMatch, match_word, match_close, match_indexed, match_at, find_all,
  digits_value, max_int, parse_index, parse_var_name,
}

-- `strconv.Itoa`, on fuel: a number below the fuel is printed whole.
unfoldable pub decimal : ℕ → ℕ → Message
decimal zero n = []
decimal (suc fuel) n =
    let rest = decimal fuel (n / 10) in
    if ltb n 10 then (n + 48) ∷ [] else rest ++ (n % 10 + 48) ∷ []

-- The name of an output as a binding spells it: `name`, or `[index].name`.
unfoldable pub print_var_name : Option ℕ → Message → Message
unfolding decimal
print_var_name none name = name
print_var_name (some i) name = 91 ∷ (decimal (suc i) i ++ 93 ∷ 46 ∷ name)

abbrev pub IsWord : Message → Type 0
IsWord name = All (λ c. is_word c ≡ true) name × (is_empty name ≡ false)

abbrev pub IsInt : Option ℕ → Type 0
IsInt none = Unit
IsInt (some i) = i ≤ max_int

abbrev Stops : (ℕ → Bool) → Message → Type 0
Stops p [] = Unit
Stops p (c ∷ cs) = p c ≡ false

span_stop : (p : ℕ → Bool) (ys : Message) → Stops p ys → span p ys ≡ ([], ys)
unfolding span
span_stop p [] h = refl
span_stop p (c ∷ cs) h = rw h refl

span-append :
    (p : ℕ → Bool) (xs ys : Message)
    → All (λ c. p c ≡ true) xs
    → Stops p ys
    → span p (xs ++ ys) ≡ (xs, ys)
unfolding span
span-append p [] ys h s = span_stop p ys s
span-append p (c ∷ cs) ys (h, hs) s = rw (h, span-append p cs ys hs s) refl

span_whole : (p : ℕ → Bool) (xs : Message) → All (λ c. p c ≡ true) xs → span p xs ≡ (xs, [])
unfolding span
span_whole p [] h = refl
span_whole p (c ∷ cs) (h, hs) = rw (h, span_whole p cs hs) refl

digits_value-append :
    (n : ℕ) (xs : Message) (d : ℕ)
    → digits_value n (xs ++ d ∷ []) ≡ 10 * digits_value n xs + (d - 48)
unfolding digits_value
digits_value-append n [] d = refl
digits_value-append n (x ∷ xs) d = digits_value-append (10 * n + (x - 48)) xs d

All-append : (P : ℕ → Type 0) (xs ys : Message) → All P xs → All P ys → All P (xs ++ ys)
All-append P [] ys h k = k
All-append P (x ∷ xs) ys (h, hs) k = (h, All-append P xs ys hs k)

decimal_value : (f n : ℕ) → n < f → digits_value 0 (decimal f n) ≡ n
unfolding decimal digits_value
decimal_value zero n h = absurd (omega arith)
decimal_value (suc f) n h = elim (Bool-cases (ltb n 10)) [
  | inl e ↦ rw e (ground arith)
  | inr e ↦ rw e (
      digits_value-append 0 (decimal f (n / 10)) (n % 10 + 48)
      ∙ ground (arith, decimal_value f (n / 10)))
]

decimal_digits : (f n : ℕ) → All (λ c. is_digit c ≡ true) (decimal f n)
unfolding decimal
decimal_digits zero n = tt
decimal_digits (suc f) n = elim (Bool-cases (ltb n 10)) [
  | inl e ↦ rw e (ground arith, tt)
  | inr e ↦ rw e (
      All-append (λ c. is_digit c ≡ true) (decimal f (n / 10)) _ (decimal_digits f (n / 10))
        (ground arith, tt))
]

decimal-length : (f n : ℕ) → n < f → 1 ≤ length (decimal f n)
unfolding decimal
decimal-length zero n h = absurd (omega arith)
decimal-length (suc f) n h = elim (Bool-cases (ltb n 10)) [
  | inl e ↦ rw e (omega arith)
  | inr e ↦ rw e (omega (arith, length-append (decimal f (n / 10)) ((n % 10 + 48) ∷ [])))
]

not_bracket : (c : ℕ) → is_word c ≡ true → (c == 91) ≡ false
not_bracket c h = ground arith

match_plain :
    (name : Message) → IsWord name → match_at name ≡ some (record { index = []; var = name }, [])
unfolding match_at match_indexed match_word
match_plain [] (h, k) = absurd (cc)
match_plain (c ∷ cs) ((h, hs), k) = rw (not_bracket c h, span_whole is_word (c ∷ cs) (h, hs)) refl

match_print :
    (ds name : Message)
    → All (λ c. is_digit c ≡ true) ds
    → 1 ≤ length ds
    → IsWord name
    → match_at (91 ∷ (ds ++ 93 ∷ 46 ∷ name)) ≡ some (record { index = ds; var = name }, [])
unfolding match_at match_indexed match_close match_word
match_print ds name h l (w, k) =
    let e : leb 1 (length ds) ≡ true = ground arith in
    rw (span-append is_digit ds (93 ∷ 46 ∷ name) h refl, span_whole is_word name w, k, e) refl

find_all_empty : (f : ℕ) → find_all f [] ≡ []
unfolding find_all
find_all_empty zero = refl
find_all_empty (suc f) = refl

find_all_once :
    (f : ℕ) (c : ℕ) (cs : Message) (m : VarMatch)
    → match_at (c ∷ cs) ≡ some (m, [])
    → find_all (suc f) (c ∷ cs) ≡ m ∷ []
unfolding find_all
find_all_once f c cs m e = rw (e, find_all) (rw (find_all_empty f) refl)

parse_index-some :
    (ds name : Message) (i : ℕ)
    → 1 ≤ length ds
    → digits_value 0 ds ≡ i
    → i ≤ max_int
    → parse_index (record { index = ds; var = name })
      ≡ record { idx = some i; name = name; err = none }
unfolding parse_index
parse_index-some [] name i l e b = absurd (omega arith)
parse_index-some (d ∷ ds) name i l e b = ground arith

-- The name of an output, with an index that an `int` holds or with none, is parsed as it is printed,
-- where the name is not empty and is made of letters, digits and underscores.
pub parse_var_name-print_var_name :
    (i : Option ℕ) (name : Message)
    → IsWord name
    → IsInt i
    → parse_var_name (print_var_name i name) ≡ record { idx = i; name = name; err = none }
unfolding parse_var_name print_var_name parse_index
parse_var_name-print_var_name none [] (h, k) b = absurd (cc)
parse_var_name-print_var_name none (c ∷ cs) w b =
    rw (find_all_once (length (c ∷ cs)) c cs _ (match_plain (c ∷ cs) w)) refl
parse_var_name-print_var_name (some i) name w b =
    let ds = decimal (suc i) i in
    let l = decimal-length (suc i) i (omega arith) in
    rw
      (find_all_once (length (91 ∷ (ds ++ 93 ∷ 46 ∷ name))) 91 (ds ++ 93 ∷ 46 ∷ name) _
        (match_print ds name (decimal_digits (suc i) i) l w))
      (parse_index-some ds name i l (decimal_value (suc i) i (omega arith)) b)
