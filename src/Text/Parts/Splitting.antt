-- ===== src/Text/Parts/Splitting.antt =====
-- Lemmas on split and join of texts.
use Prim.Native.String.{◌++◌}
use Prim.Native.Char.{Char}
use text.Mathlib.TextLemmas.{cons-append, nil-append}
use reana_job_controller.Prelude.{Bool-cases, String, [], false, inl, inr, refl, true, ℕ, ◌∷◌, ◌≡◌}
use reana_job_controller.Text.{}
use reana_job_controller.Text.Parts.{add_first, before, has_code, split}

-- the separator is not in the text
unfoldable pub Lacks : ℕ → String → Type 0
Lacks sep String.[] = Unit
Lacks sep (String.◌∷◌ c s) = (has_code c sep ≡ false) × Lacks sep s

pub before-Lacks : (sep : ℕ) (s : String) → Lacks sep (before sep s)
unfolding Lacks before
before-Lacks sep String.[] = tt
before-Lacks sep (String.◌∷◌ c s) = elim (Bool-cases (has_code c sep)) [
  | inl here ↦ rw here tt
  | inr other ↦ rw other (other, before-Lacks sep s)
]

pub split-Lacks : (sep : ℕ) (a : String) → Lacks sep a → split sep a ≡ a ∷ []
unfolding split add_first Lacks
split-Lacks sep String.[] h = refl
split-Lacks sep (String.◌∷◌ c s) h = rw (h.0, split-Lacks sep s h.1) refl

pub split_at_sep :
    (sep : ℕ) (a : String) (c : Char) (rest : String)
    → has_code c sep ≡ true
    → Lacks sep a
    → split sep (a ++ String.◌∷◌ c rest) ≡ a ∷ split sep rest
unfolding split add_first Lacks
split_at_sep sep String.[] c rest e h = rw (nil-append (String.◌∷◌ c rest), e) refl
split_at_sep sep (String.◌∷◌ d s) c rest e h =
    rw (cons-append d s (String.◌∷◌ c rest), h.0, split_at_sep sep s c rest e h.1) refl
