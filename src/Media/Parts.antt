-- ===== src/Media/Parts.antt =====
-- Python's `partition`, `rpartition` and `split` at one character, which backend/bl_haos/health.py
-- uses through ipaddress and urllib.parse.
use bl_haos_bridge.Prelude.{
  arith, ℕ, false, ◌≡◌, refl, List, [], ◌∷◌, ◌++◌, All, ◌==◌, if◌then◌else◌, Option, none, some,
}
use bl_haos_bridge.Dict.{Text}

abbrev before_cons : ℕ → Option (Text × Text) → Option (Text × Text)
before_cons c none = none
before_cons c (some (a, b)) = some (c ∷ a, b)

-- What stands before and behind the first separator; `none` when there is no separator.
unfoldable pub partition : ℕ → Text → Option (Text × Text)
partition sep [] = none
partition sep (c ∷ s) = if c == sep then some ([], s) else before_cons c (partition sep s)

abbrev last_or : ℕ → ℕ → Text → Option (Text × Text) → Option (Text × Text)
last_or sep c s none = if c == sep then some ([], s) else none
last_or sep c s (some (a, b)) = some (c ∷ a, b)

-- The same at the last separator.
unfoldable pub rpartition : ℕ → Text → Option (Text × Text)
rpartition sep [] = none
rpartition sep (c ∷ s) = last_or sep c s (rpartition sep s)

abbrev pub push : ℕ → List Text → List Text
push c [] = (c ∷ []) ∷ []
push c (part ∷ parts) = (c ∷ part) ∷ parts

-- `split(sep)`
unfoldable pub split_on : ℕ → Text → List Text
split_on sep [] = [] ∷ []
split_on sep (c ∷ s) = let rest = split_on sep s in if c == sep then [] ∷ rest else push c rest

pub split_on-last : (sep : ℕ) (a : Text) → All (λ c. (c == sep) ≡ false) a → split_on sep a ≡ a ∷ []
unfolding split_on
split_on-last sep [] h = refl
split_on-last sep (c ∷ a) h = ground (arith, split_on-last sep a h.1)

pub split_on-append :
    (sep : ℕ) (a b : Text)
    → All (λ c. (c == sep) ≡ false) a
    → split_on sep (a ++ sep ∷ b) ≡ a ∷ split_on sep b
unfolding split_on
split_on-append sep [] b h = ground arith
split_on-append sep (c ∷ a) b h = ground (arith, split_on-append sep a b h.1)
