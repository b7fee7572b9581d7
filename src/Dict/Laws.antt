-- ===== src/Dict/Laws.antt =====
-- The laws of the dictionary operations.
use reana_job_controller.Prelude.{
  String, ◌≡◌, ◌≢◌, refl, some, [], ◌∷◌, ◌==◌, eq_iff, eq_refl, if◌then◌else◌, arith, is_some, inl,
  inr, Bool-cases, ◌++◌, none,
}
use reana_job_controller.Dict.{Dict, lookup, insert, has_key, keys, IsDict}

module _ {ℓ} {V : Type ℓ} where
  pub lookup-insert :
      (written asked : String) (value : V) (d : Dict V)
      → lookup asked (insert written value d)
        ≡ (if written == asked then some value else lookup asked d)
  unfolding insert lookup
  lookup-insert written asked value [] = refl
  lookup-insert written asked value (item ∷ rest) = ground (
    arith,
    lookup-insert written asked value rest,
    eq_iff item.0 written,
    eq_iff item.0 asked,
    eq_iff written asked,
  )

  pub lookup-head : (k : String) (v : V) (d : Dict V) → lookup k ((k, v) ∷ d) ≡ some v
  unfolding lookup
  lookup-head k v d = rw (eq_refl k)

  pub lookup-tail :
      (j k : String) (v w : V) (d : Dict V)
      → lookup j d ≡ none
      → lookup k d ≡ some w
      → lookup k ((j, v) ∷ d) ≡ some w
  unfolding lookup
  lookup-tail j k v w d h e = ground (arith, eq_iff j k)

  pub lookup-insert_self : (k : String) (v : V) (m : Dict V) → lookup k (insert k v m) ≡ some v
  lookup-insert_self k v m = simp (lookup-insert, eq_refl)

  pub lookup-insert_ne :
      (k j : String) (v : V) (m : Dict V) → k ≢ j → lookup j (insert k v m) ≡ lookup j m
  lookup-insert_ne k j v m h = simp lookup-insert (ground (arith, eq_iff k j))

  pub has_key_lem : (k : String) (m : Dict V) → has_key k m ≡ is_some (lookup k m)
  unfolding has_key lookup
  has_key_lem k [] = refl
  has_key_lem k ((j, v) ∷ m) = ground (arith, has_key_lem k m)

  -- A write to a key that is there adds no key.
  pub keys-insert :
      (k : String) (v w : V) (m : Dict V) → lookup k m ≡ some w → keys (insert k v m) ≡ keys m
  unfolding keys insert lookup
  keys-insert k v w [] h = cc
  keys-insert k v w ((j, u) ∷ m) h = ground (arith, keys-insert k v w m)

  pub insert-IsDict : (k : String) (v : V) (m : Dict V) → IsDict m → IsDict (insert k v m)
  unfolding insert lookup
  insert-IsDict k v [] h = (refl, tt)
  insert-IsDict k v ((j, w) ∷ m) h = elim (Bool-cases (j == k)) [
    | inl same ↦ rw same (h.0, h.1)
    | inr other ↦ rw other (
      ground (arith, lookup-insert k j v m, eq_iff k j, eq_iff j k, h.0),
      insert-IsDict k v m h.1,
    )
  ]

module _ {ℓ} {V : Type ℓ} where
  -- An entry in the middle of a dict, found and overwritten in place.
  pub lookup-middle :
      (front : Dict V) (id : String) (v : V) (back : Dict V)
      → IsDict (front ++ (id, v) ∷ back)
      → lookup id (front ++ (id, v) ∷ back) ≡ some v
  unfolding lookup
  lookup-middle [] id v back h = rw (eq_refl id)
  lookup-middle (item ∷ front) id v back h =
      ground (arith, eq_iff item.0 id, lookup-middle front id v back h.1, h.0)

  pub insert-middle :
      (front : Dict V) (id : String) (v w : V) (back : Dict V)
      → IsDict (front ++ (id, v) ∷ back)
      → insert id w (front ++ (id, v) ∷ back) ≡ front ++ (id, w) ∷ back
  unfolding insert
  insert-middle [] id v w back h = rw (eq_refl id)
  insert-middle (item ∷ front) id v w back h = ground (
    arith,
    eq_iff item.0 id,
    lookup-middle front id v back h.1,
    insert-middle front id v w back h.1,
    h.0,
  )

  pub insert-same : (id : String) (v : V) (d : Dict V) → lookup id d ≡ some v → insert id v d ≡ d
  unfolding insert lookup
  insert-same id v [] h = cc
  insert-same id v (item ∷ d) h = ground (arith, insert-same id v d)

  pub insert-insert :
      (id : String) (v w : V) (d : Dict V) → insert id w (insert id v d) ≡ insert id w d
  unfolding insert
  insert-insert id v w [] = rw (eq_refl id)
  insert-insert id v w (item ∷ d) = ground (arith, insert-insert id v w d)
