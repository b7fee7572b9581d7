-- ===== src/Dict.antt =====
-- Python's `dict` with text keys: the entries in the order in which the keys were first inserted.
-- A write to a key that is there keeps its place, as in Python. The proofs are in Dict/Laws.
pub mod Laws
use reana_job_controller.Prelude.{
  String, ◌≡◌, Bool, true, false, Option, none, some, List, [], ◌∷◌, ◌==◌, if◌then◌else◌,
}

abbrev pub Dict {ℓ} : Type ℓ → Type ℓ
Dict V = List (String × V)

module _ {ℓ} {V : Type ℓ} where
  -- d.get(k)
  unfoldable pub lookup : String → Dict V → Option V
  lookup key [] = none
  lookup key (item ∷ rest) = if item.0 == key then some item.1 else lookup key rest

  -- d[k] = v
  unfoldable pub insert : String → V → Dict V → Dict V
  insert key value [] = (key, value) ∷ []
  insert key value (item ∷ rest) =
      if item.0 == key then (item.0, value) ∷ rest else item ∷ insert key value rest

  -- k in d
  unfoldable pub has_key : String → Dict V → Bool
  has_key k [] = false
  has_key k (item ∷ rest) = if item.0 == k then true else has_key k rest

  -- list(d)
  unfoldable pub keys : Dict V → List String
  keys [] = []
  keys ((j, v) ∷ m) = j ∷ keys m

  -- A Python dict holds a key once.
  abbrev pub IsDict : Dict V → Type ℓ
  IsDict [] = Unit
  IsDict ((j, v) ∷ m) = (lookup j m ≡ none) × IsDict m
