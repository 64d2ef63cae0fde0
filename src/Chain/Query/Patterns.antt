-- ===== src/Chain/Query/Patterns.antt =====
-- Which names are patterns, without the tests of `ChainStore::query`.
use Prim.Native.String.{[], ◌∷◌}
use Prim.Native.Char.{Char, code}
use holochain_rust.Prelude.{Bool-cases, String, ◌≡◌, ◌⊎◌, inl, inr, true, false, arith}
use holochain_rust.Chain.Query.Glob.{is_glob, is_glob_str}

-- the codes of `./*[]{}`
abbrev pub IsSpecial : Char → Type 0
IsSpecial c =
    (code c ≡ 46)
    ⊎ (code c ≡ 47)
    ⊎ (code c ≡ 42)
    ⊎ (code c ≡ 91)
    ⊎ (code c ≡ 93)
    ⊎ (code c ≡ 123)
    ⊎ (code c ≡ 125)

-- The text has one of these characters.
abbrev pub IsPattern : String → Type 0
IsPattern [] = ⊥
IsPattern (c ∷ s) = IsSpecial c ⊎ IsPattern s

is_glob-IsSpecial : (c : Char) → is_glob c ≡ true → IsSpecial c
unfolding is_glob
is_glob-IsSpecial c h = ground arith

not_glob-IsSpecial : (c : Char) → is_glob c ≡ false → ¬ IsSpecial c
unfolding is_glob
not_glob-IsSpecial c h m = ground arith

pub is_glob_str-IsPattern : (s : String) → is_glob_str s ≡ true → IsPattern s
unfolding is_glob_str
is_glob_str-IsPattern [] h = cc
is_glob_str-IsPattern (c ∷ s) h = elim (Bool-cases (is_glob c)) [
  | inl special ↦ inl (is_glob-IsSpecial c special)
  | inr plain ↦ inr (is_glob_str-IsPattern s (ground (arith, plain, h)))
]

pub not_glob_str-IsPattern : (s : String) → is_glob_str s ≡ false → ¬ IsPattern s
unfolding is_glob_str
not_glob_str-IsPattern [] h p = p
not_glob_str-IsPattern (c ∷ s) h (inl m) = not_glob-IsSpecial c (ground (arith, h)) m
not_glob_str-IsPattern (c ∷ s) h (inr p) = not_glob_str-IsPattern s (ground (arith, h)) p
