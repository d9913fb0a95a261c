-- ===== src/Utils/Dict.antt =====
-- `std::map` and `std::unordered_map` with strings as keys, as association lists.
use xzmjx_rpc.Prelude.{
  ℕ, ◌≡◌, ◌≢◌, refl, sym, List, [], ◌∷◌, Option, none, some, false, if◌then◌else◌, Bool-cases, inl,
  inr,
}
use xzmjx_rpc.Rpc.Text.{same, same_self, same→eq, ne→same}

module _ {ℓ} {V : Type ℓ} where
  -- `find`
  unfoldable pub lookup : List ℕ → List (List ℕ × V) → Option V
  lookup k [] = none
  lookup k ((j, v) ∷ d) = if same j k then some v else lookup k d

  -- `d[k] = v`
  unfoldable pub insert : List ℕ → V → List (List ℕ × V) → List (List ℕ × V)
  insert k v [] = (k, v) ∷ []
  insert k v ((j, w) ∷ d) = if same j k then (j, v) ∷ d else (j, w) ∷ insert k v d

  -- `d.erase(k)`
  unfoldable pub erase : List ℕ → List (List ℕ × V) → List (List ℕ × V)
  erase k [] = []
  erase k ((j, w) ∷ d) = if same j k then erase k d else (j, w) ∷ erase k d

  pub lookup-insert_self :
      (k : List ℕ) (v : V) (d : List (List ℕ × V)) → lookup k (insert k v d) ≡ some v
  unfolding lookup insert
  lookup-insert_self k v [] = rw (same_self k) refl
  lookup-insert_self k v ((j, w) ∷ d) = elim (Bool-cases (same j k)) [
    | inl e ↦ rw (e, e) refl
    | inr e ↦ rw (e, e) (lookup-insert_self k v d)
  ]

  pub lookup-insert_ne :
      (j k : List ℕ) (v : V) (d : List (List ℕ × V)) → j ≢ k → lookup j (insert k v d) ≡ lookup j d
  unfolding lookup insert
  lookup-insert_ne j k v [] h = rw (ne→same k j (λ e. h (sym e))) refl
  lookup-insert_ne j k v ((i, w) ∷ d) h = elim (Bool-cases (same i k)) [
    | inl e ↦
        let ne : same i j ≡ false = ne→same i j (λ q. h (cc (same→eq i k e))) in rw (e, ne) refl
    | inr e ↦ elim (Bool-cases (same i j)) [
      | inl q ↦ rw (e, q) refl
      | inr q ↦ rw (e, q) (lookup-insert_ne j k v d h)
    ]
  ]

  pub lookup-erase_self : (k : List ℕ) (d : List (List ℕ × V)) → lookup k (erase k d) ≡ none
  unfolding lookup erase
  lookup-erase_self k [] = refl
  lookup-erase_self k ((j, w) ∷ d) = elim (Bool-cases (same j k)) [
    | inl e ↦ rw e (lookup-erase_self k d)
    | inr e ↦ rw (e, e) (lookup-erase_self k d)
  ]

  pub lookup-erase_ne :
      (j k : List ℕ) (d : List (List ℕ × V)) → j ≢ k → lookup j (erase k d) ≡ lookup j d
  unfolding lookup erase
  lookup-erase_ne j k [] h = refl
  lookup-erase_ne j k ((i, w) ∷ d) h = elim (Bool-cases (same i k)) [
    | inl e ↦
        let ne : same i j ≡ false = ne→same i j (λ q. h (cc (same→eq i k e))) in
        rw (e, ne) (lookup-erase_ne j k d h)
    | inr e ↦ elim (Bool-cases (same i j)) [
      | inl q ↦ rw (e, q) refl
      | inr q ↦ rw (e, q) (lookup-erase_ne j k d h)
    ]
  ]
