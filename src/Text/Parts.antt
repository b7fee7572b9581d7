-- ===== src/Text/Parts.antt =====
-- The methods of Python's str that take a text apart, for the characters of ASCII.
pub mod Splitting
pub mod Words
use Prim.Native.String.{count, ◌++◌}
use Prim.Native.Char.{Char, code}
use text.Mathlib.Text.{starts_with}
use reana_job_controller.Prelude.{
  Bool, List, Option, String, [], false, if◌then◌else◌, ltb, nat_eq, none, not, refl, some, suc,
  true, zero, ℕ, ◌&&◌, ◌*◌, ◌+◌, ◌-◌, ◌==◌, ◌||◌, ◌∷◌, ◌≡◌,
}

abbrev pub has_code : Char → ℕ → Bool
has_code c n = nat_eq (code c) n

-- a character that str.strip and str.split take for white space
unfoldable pub is_space : Char → Bool
is_space c = let n = code c in (ltb 8 n && ltb n 14) || (ltb 27 n && ltb n 33)

unfoldable pub rstrip : String → String
unfolding is_space
rstrip String.[] = ""
rstrip (String.◌∷◌ c s) =
    let rest = rstrip s in if is_space c && rest == "" then "" else String.◌∷◌ c rest

unfoldable pub lstrip : String → String
unfolding is_space
lstrip String.[] = ""
lstrip (String.◌∷◌ c s) = let rest = lstrip s in if is_space c then rest else String.◌∷◌ c s

abbrev pub strip : String → String
strip s = lstrip (rstrip s)

-- s[1:]
unfoldable pub drop_first : String → String
drop_first String.[] = ""
drop_first (String.◌∷◌ c s) = s

-- s.split(separator)[0], for a separator of one character
unfoldable pub before : ℕ → String → String
before sep String.[] = ""
before sep (String.◌∷◌ c s) =
    let rest = before sep s in if has_code c sep then "" else String.◌∷◌ c rest

-- s.split(separator)[-1]; `part` is what was read since the last separator
last_part_from : ℕ → String → String → String
last_part_from sep part String.[] = part
last_part_from sep part (String.◌∷◌ c s) =
    let within = last_part_from sep (part ++ String.◌∷◌ c "") s in
    let after = last_part_from sep "" s in if has_code c sep then after else within

unfoldable pub last_part : ℕ → String → String
unfolding last_part_from
last_part sep s = last_part_from sep "" s

-- part in s
unfoldable pub is_in : String → String → Bool
is_in part String.[] = part == ""
is_in part (String.◌∷◌ c s) = starts_with (String.◌∷◌ c s) part || is_in part s

-- s.endswith(part)
unfoldable pub ends_with : String → String → Bool
ends_with String.[] part = part == ""
ends_with (String.◌∷◌ c s) part = String.◌∷◌ c s == part || ends_with s part

interleave : String → String → String
interleave new String.[] = new
interleave new (String.◌∷◌ c s) = new ++ String.◌∷◌ c (interleave new s)

-- the first argument counts the characters of an occurrence that are still to be passed
replace_from : ℕ → String → String → String → String
replace_from n old new String.[] = ""
replace_from zero old new (String.◌∷◌ c s) =
    let behind = replace_from (count old - 1) old new s in
    let kept = replace_from zero old new s in
    if starts_with (String.◌∷◌ c s) old then new ++ behind else String.◌∷◌ c kept
replace_from (suc n) old new (String.◌∷◌ c s) = replace_from n old new s

-- s.replace(old, new)
unfoldable pub replace : String → String → String → String
unfolding interleave replace_from
replace s old new = if old == "" then interleave new s else replace_from zero old new s

-- the text behind the first word, which starts at once
skip_word : String → String
unfolding is_space
skip_word String.[] = ""
skip_word (String.◌∷◌ c s) = let rest = skip_word s in if is_space c then String.◌∷◌ c s else rest

take_word : String → String
unfolding is_space
take_word String.[] = ""
take_word (String.◌∷◌ c s) = let rest = take_word s in if is_space c then "" else String.◌∷◌ c rest

unfoldable pub skip_words : ℕ → String → String
unfolding skip_word
skip_words zero s = lstrip s
skip_words (suc n) s = skip_words n (skip_word (lstrip s))

-- s.split(maxsplit=n)[n], if there is such a part
unfoldable pub part_behind : ℕ → String → Option String
unfolding skip_words
part_behind n s = let rest = skip_words n s in if rest == "" then none else some rest

-- s.split()[n], if there is such a word
unfoldable pub word : ℕ → String → Option String
unfolding skip_words take_word
word n s = let rest = skip_words n s in if rest == "" then none else some (take_word rest)

unfoldable pub is_digit : Char → Bool
is_digit c = let n = code c in ltb 47 n && ltb n 58

all_digits : String → Bool
unfolding is_digit
all_digits String.[] = true
all_digits (String.◌∷◌ c s) = is_digit c && all_digits s

-- str.isdigit(s)
unfoldable pub isdigit : String → Bool
unfolding all_digits
isdigit s = not (s == "") && all_digits s

value_from : ℕ → String → ℕ
value_from n String.[] = n
value_from n (String.◌∷◌ c s) = value_from (n * 10 + (code c - 48)) s

-- int(s) for a text of digits
unfoldable pub digits_value : String → ℕ
unfolding value_from
digits_value s = value_from 0 s

add_first : Char → List String → List String
add_first c [] = String.◌∷◌ c "" ∷ []
add_first c (part ∷ parts) = String.◌∷◌ c part ∷ parts

-- s.split(separator), for a separator of one character
unfoldable pub split : ℕ → String → List String
unfolding add_first
split sep String.[] = "" ∷ []
split sep (String.◌∷◌ c s) =
    let rest = split sep s in if has_code c sep then "" ∷ rest else add_first c rest

is_line_break : Char → Bool
is_line_break c = let n = code c in (ltb 9 n && ltb n 14) || (ltb 27 n && ltb n 31)

-- `after_cr` is true behind a carriage return, with which a line feed is one break.
lines_from : Bool → String → String → List String
unfolding is_line_break
lines_from after_cr line String.[] = if line == "" then [] else line ∷ []
lines_from after_cr line (String.◌∷◌ c s) =
    let joined = lines_from false line s in
    let broken = line ∷ lines_from (has_code c 13) "" s in
    let longer = lines_from false (line ++ String.◌∷◌ c "") s in
    if after_cr && has_code c 10 then joined else if is_line_break c then broken else longer

-- s.splitlines()
unfoldable pub splitlines : String → List String
unfolding lines_from
splitlines s = lines_from false "" s

parts_tested :
    (strip " a b \n" ≡ "a b")
    × (before b'\n' "a\nb" ≡ "a")
    × (last_part b'/' "docker.io/library/python:3" ≡ "python:3")
    × (replace "/ws/a /ws/b" "/ws/" "" ≡ "a b")
    × (replace "ab" "" "-" ≡ "-a-b-")
    × (part_behind 3 "cd /ws ; python a.py" ≡ some "python a.py")
    × (part_behind 3 "a b c " ≡ none)
    × (word 1 "echo ZWNo " ≡ some "ZWNo")
    × (splitlines "a\r\nb\n\nc\n" ≡ "a" ∷ "b" ∷ "" ∷ "c" ∷ [])
    × (is_in "base64" "echo x|base64 -d" ≡ true)
    × (ends_with "a.log" ".log" ≡ true)
    × (digits_value "120" ≡ 120)
unfolding rstrip lstrip before last_part replace part_behind word splitlines is_in ends_with
    digits_value
parts_tested = (refl, refl, refl, refl, refl, refl, refl, refl, refl, refl, refl, refl)
