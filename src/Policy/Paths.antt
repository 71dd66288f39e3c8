-- ===== src/Policy/Paths.antt =====
-- `_path_matches` of evaluator.py and `_path_contains` of document.py, which are one function.
use pent_ai.Prelude.{
  ℕ, ◌≡◌, refl, sym, inl, inr, Bool, true, false, ◌&&◌, ◌||◌, List, [], ◌∷◌, ◌++◌, arith, ◌==◌,
  nat_eq, list_eq, if◌then◌else◌, Text, starts_with, Bool-cases,
}

abbrev pub slash : ℕ
slash = b'/'

keep : ℕ → Text → Text
keep c [] = if c == slash then [] else c ∷ []
keep c (d ∷ rest) = c ∷ d ∷ rest

-- `s.rstrip("/")`
rstrip : Text → Text
unfolding keep
rstrip [] = []
rstrip (c ∷ s) = keep c (rstrip s)

-- `s.rstrip("/") or "/"`
or_root : Text → Text
or_root [] = slash ∷ []
or_root (c ∷ s) = c ∷ s

pub strip : Text → Text
unfolding rstrip or_root
strip s = or_root (rstrip s)

unfoldable pub path_matches : Text → Text → Bool
unfolding strip
path_matches prefix path =
    let base = strip prefix in
    base == slash ∷ [] || (path == base || starts_with path (base ++ slash ∷ []))

-- The reading of a path as its segments: `s.split("/")`.
abbrev onto_head : ℕ → List Text → List Text
onto_head c [] = (c ∷ []) ∷ []
onto_head c (segment ∷ segments) = (c ∷ segment) ∷ segments

abbrev pub split : Text → List Text
split [] = [] ∷ []
split (c ∷ s) = if c == slash then [] ∷ split s else onto_head c (split s)

abbrev pub is_prefix : List Text → List Text → Bool
is_prefix [] ys = true
is_prefix (x ∷ xs) [] = false
is_prefix (x ∷ xs) (y ∷ ys) = x == y && is_prefix xs ys

-- The test on the texts alone, and the test on segments.
below : Text → Text → Bool
below base path = path == base || starts_with path (base ++ slash ∷ [])

-- A split is never empty.
split_cons : (s : Text) → (h : Text) × (t : List Text) × (split s ≡ h ∷ t)
split_cons [] = ([], [], refl)
split_cons (c ∷ s) = elim (Bool-cases (c == slash)) [
  | inl e ↦ ([], split s, rw e)
  | inr e ↦ let (h, t, q) = split_cons s in (c ∷ h, t, rw (e, q))
]

is_prefix-nil : (path : Text) → is_prefix ([] ∷ []) (split path) ≡ below [] path
unfolding below
is_prefix-nil [] = ground arith
is_prefix-nil (c ∷ path) = let (h, t, q) = split_cons path in ground (arith, q)

below-is_prefix : (base path : Text) → below base path ≡ is_prefix (split base) (split path)
unfolding below
below-is_prefix [] path = sym (is_prefix-nil path)
below-is_prefix (c ∷ base) [] = let (h, t, q) = split_cons base in ground (arith, q)
below-is_prefix (c ∷ base) (d ∷ path) =
    let (h, t, q) = split_cons base in
    let (h', t', q') = split_cons path in ground (arith, q, q', below-is_prefix base path)

-- A path rule admits exactly the paths whose segments begin with those of the rule, without its
-- trailing slashes; the root admits every path.
pub path_matches-is_prefix :
    (prefix path : Text)
    → path_matches prefix path
      ≡ (strip prefix == slash ∷ [] || is_prefix (split (strip prefix)) (split path))
unfolding path_matches below
path_matches-is_prefix prefix path = rw (← below-is_prefix (strip prefix) path)
