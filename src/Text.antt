-- ===== src/Text.antt =====
-- Building texts: Python's str.format and f-strings on texts and None.
pub mod Parts
use Prim.Native.String.{◌++◌}
use Prim.Native.Char.{Char, code}
use Prim.Native.Nat.{◌/◌, ◌%◌}
use reana_job_controller.Prelude.Int.{negsuc, pos, ℤ}
use text.Mathlib.Text.{starts_with}
use reana_job_controller.Prelude.{
  String, Option, none, some, List, [], ◌∷◌, Bool, false, if◌then◌else◌, nat_eq, ◌==◌, ◌||◌,
  get_elem?, refl, suc, zero, ℕ, ◌≡◌,
}

unfoldable pub concat : List String → String
concat [] = ""
concat (t ∷ ts) = t ++ concat ts

-- str(x) for a text or None
abbrev pub str : Option String → String
str none = "None"
str (some t) = t

-- separator.join(ts)
unfoldable pub join : String → List String → String
join sep [] = ""
join sep (t ∷ []) = t
join sep (t ∷ u ∷ ts) = t ++ (sep ++ join sep (u ∷ ts))

ends_in_slash : String → Bool
ends_in_slash String.[] = false
ends_in_slash (String.◌∷◌ c String.[]) = nat_eq (code c) b'/'
ends_in_slash (String.◌∷◌ c (String.◌∷◌ d s)) = ends_in_slash (String.◌∷◌ d s)

-- os.path.join(a, b)
unfoldable pub join_path : String → String → String
unfolding ends_in_slash
join_path a b =
    if starts_with b "/" then b else if a == "" || ends_in_slash a then a ++ b else a ++ ("/" ++ b)

digit : ℕ → String
digit n =
    elim (get_elem? {A = String} ("0" ∷ "1" ∷ "2" ∷ "3" ∷ "4" ∷ "5" ∷ "6" ∷ "7" ∷ "8" ∷ "9" ∷ [])
      n) [ none ↦ "" | some d ↦ d ]

-- the digits in front of `acc`; as many rounds as the number are more than enough
digits : ℕ → ℕ → String → String
unfolding digit
digits zero n acc = acc
digits (suc f) n acc =
    let rest = digits f (n / 10) (digit (n % 10) ++ acc) in
    if nat_eq (n / 10) 0 then digit (n % 10) ++ acc else rest

unfoldable pub show_nat : ℕ → String
unfolding digits
show_nat n = digits (suc n) n ""

-- str(n) for an integer
unfoldable pub show_int : ℤ → String
unfolding show_nat
show_int (pos n) = show_nat n
show_int (negsuc n) = "-" ++ show_nat (suc n)

-- the letter of `to` at the place where `from` has `c`, else `c`
translate : String → String → Char → Char
translate String.[] to c = c
translate (String.◌∷◌ a from) String.[] c = c
translate (String.◌∷◌ a from) (String.◌∷◌ b to) c =
    let rest = translate from to c in if nat_eq (code c) (code a) then b else rest

-- text.lower(), for the letters of ASCII
unfoldable pub to_lower : String → String
unfolding translate
to_lower String.[] = String.[]
to_lower (String.◌∷◌ c s) =
    String.◌∷◌ (translate "ABCDEFGHIJKLMNOPQRSTUVWXYZ" "abcdefghijklmnopqrstuvwxyz" c) (to_lower s)

shown :
    (show_int (pos 1000) ≡ "1000")
    × (show_int (negsuc 6) ≡ "-7")
    × (show_int (pos 0) ≡ "0")
    × (to_lower "Atlas-X" ≡ "atlas-x")
unfolding show_int to_lower
shown = (refl, refl, refl, refl)
