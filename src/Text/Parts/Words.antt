-- ===== src/Text/Parts/Words.antt =====
-- Lemmas on the words of a text.
use Prim.Native.String.{◌++◌}
use Prim.Native.Char.{Char}
use text.Mathlib.TextLemmas.{cons-append, nil-append}
use reana_job_controller.Prelude.{String, ap, false, refl, suc, true, zero, ℕ, ◌==◌, ◌≡◌, ◌∙◌}
use reana_job_controller.Text.Parts.{is_space, lstrip, skip_word, skip_words}

unfoldable pub NoSpace : String → Type 0
NoSpace String.[] = Unit
NoSpace (String.◌∷◌ c s) = (is_space c ≡ false) × NoSpace s

skip_word-append :
    (a : String) (c : Char) (r : String)
    → NoSpace a
    → is_space c ≡ true
    → skip_word (a ++ String.◌∷◌ c r) ≡ String.◌∷◌ c r
unfolding skip_word NoSpace
skip_word-append String.[] c r h e = rw (nil-append (String.◌∷◌ c r), e) refl
skip_word-append (String.◌∷◌ d a) c r h e =
    rw (cons-append d a (String.◌∷◌ c r), h.0) (skip_word-append a c r h.1 e)

lstrip-space : (c : Char) (r : String) → is_space c ≡ true → lstrip (String.◌∷◌ c r) ≡ lstrip r
unfolding lstrip
lstrip-space c r e = rw e refl

lstrip-word :
    (d : Char) (a s : String)
    → is_space d ≡ false
    → lstrip (String.◌∷◌ d a ++ s) ≡ String.◌∷◌ d a ++ s
unfolding lstrip
lstrip-word d a s e = rw (cons-append d a s, e) refl

-- white space in front of the words
pub skip_words-space :
    (n : ℕ) (c : Char) (r : String)
    → is_space c ≡ true
    → skip_words n (String.◌∷◌ c r) ≡ skip_words n r
unfolding skip_words
skip_words-space zero c r e = lstrip-space c r e
skip_words-space (suc n) c r e = ap (λ s. skip_words n (skip_word s)) (lstrip-space c r e)

-- a word with white space behind it
pub skip_words-word :
    (n : ℕ) (a : String) (c : Char) (r : String)
    → NoSpace a
    → (a == "") ≡ false
    → is_space c ≡ true
    → skip_words (suc n) (a ++ String.◌∷◌ c r) ≡ skip_words n r
unfolding skip_words NoSpace
skip_words-word n String.[] c r h k e = cc k
skip_words-word n (String.◌∷◌ d a) c r h k e =
    ap (λ s. skip_words n (skip_word s)) (lstrip-word d a (String.◌∷◌ c r) h.0)
    ∙ ap (skip_words n) (skip_word-append (String.◌∷◌ d a) c r h e)
    ∙ skip_words-space n c r e

pub skip_words-end : (s : String) → lstrip s ≡ s → skip_words 0 s ≡ s
unfolding skip_words
skip_words-end s e = e
