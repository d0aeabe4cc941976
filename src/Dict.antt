-- ===== src/Dict.antt =====
-- A Python dict with string keys, in insertion order. The keys of a Python dict are distinct:
-- `insert` keeps that, and `erase` drops every entry of its key.
use bl_haos_bridge.Prelude.{
  ℕ, ◌≡◌, ◌≢◌, refl, subst, ite, Option, none, some, List, [], ◌∷◌, arith, All, ℕ_discrete,
}

-- A Python str, as the list of its code points.
abbrev pub Text : Type 0
Text = List ℕ

unfoldable pub Text-discrete : Discrete Text
unfolding ℕ_discrete
Text-discrete [] [] = yes refl
Text-discrete [] (y ∷ ys) = no (λ e. cc)
Text-discrete (x ∷ xs) [] = no (λ e. cc)
Text-discrete (x ∷ xs) (y ∷ ys) = elim (ℕ_discrete x y) [
  | yes p ↦ elim (Text-discrete xs ys) [ yes q ↦ yes (cc) | no q ↦ no (λ e. q (cc)) ]
  | no p ↦ no (λ e. p (cc))
]

abbrev pub Dict {ℓ} : Type ℓ → Type ℓ
Dict V = List (Text × V)

module _ {ℓ} {V : Type ℓ} where
  -- `d.get(k)`
  unfoldable pub lookup : Text → Dict V → Option V
  lookup k [] = none
  lookup k ((j, v) ∷ d) = ite (Text-discrete j k) (some v) (lookup k d)

  -- `d[k] = v`: in place, or at the end.
  unfoldable pub insert : Text → V → Dict V → Dict V
  insert k v [] = (k, v) ∷ []
  insert k v ((j, w) ∷ d) = ite (Text-discrete j k) ((k, v) ∷ d) ((j, w) ∷ insert k v d)

  -- `del d[k]` and `d.pop(k, None)`
  unfoldable pub erase : Text → Dict V → Dict V
  erase k [] = []
  erase k ((j, w) ∷ d) = ite (Text-discrete j k) (erase k d) ((j, w) ∷ erase k d)

  pub lookup-insert :
      (k j : Text) (v : V) (d : Dict V)
      → lookup j (insert k v d) ≡ ite (Text-discrete k j) (some v) (lookup j d)
  unfolding lookup insert
  lookup-insert k j v [] = refl
  lookup-insert k j v ((i, w) ∷ d) = ground (arith, lookup-insert k j v d)

  pub lookup-insert_self : (k : Text) (v : V) (d : Dict V) → lookup k (insert k v d) ≡ some v
  lookup-insert_self k v d = ground (arith, lookup-insert k k v d)

  pub lookup-insert_ne :
      (k j : Text) (v : V) (d : Dict V) → k ≢ j → lookup j (insert k v d) ≡ lookup j d
  lookup-insert_ne k j v d h = ground (arith, lookup-insert k j v d)

  pub lookup-erase :
      (k j : Text) (d : Dict V) → lookup j (erase k d) ≡ ite (Text-discrete k j) none (lookup j d)
  unfolding lookup erase
  lookup-erase k j [] = ground arith
  lookup-erase k j ((i, w) ∷ d) = ground (arith, lookup-erase k j d)

  pub lookup-erase_self : (k : Text) (d : Dict V) → lookup k (erase k d) ≡ none
  lookup-erase_self k d = ground (arith, lookup-erase k k d)

  pub lookup-erase_ne : (k j : Text) (d : Dict V) → k ≢ j → lookup j (erase k d) ≡ lookup j d
  lookup-erase_ne k j d h = ground (arith, lookup-erase k j d)

  -- A fact of every entry, by its key, is a fact of what a lookup finds.
  pub lookup-All {κ} :
      (P : Text × V → Type κ) (k : Text) {v : V} (d : Dict V)
      → All P d
      → lookup k d ≡ some v
      → P (k, v)
  unfolding lookup
  lookup-All P k [] h e = cc
  lookup-All P k {v} ((j, w) ∷ d) h e = elim (Text-discrete j k) [
    | yes same ↦ subst P (ground arith) h.0
    | no other ↦ lookup-All P k d h.1 (ground arith)
  ]

  pub insert-All {κ} :
      (P : Text × V → Type κ) (k : Text) (v : V) (d : Dict V)
      → All P d
      → P (k, v)
      → All P (insert k v d)
  unfolding insert
  insert-All P k v [] h p = (p, tt)
  insert-All P k v ((j, w) ∷ d) h p = ground (arith, insert-All P k v d h.1 p)

  pub erase-All {κ} : (P : Text × V → Type κ) (k : Text) (d : Dict V) → All P d → All P (erase k d)
  unfolding erase
  erase-All P k [] h = h
  erase-All P k ((j, w) ∷ d) h = ground (arith, erase-All P k d h.1)
