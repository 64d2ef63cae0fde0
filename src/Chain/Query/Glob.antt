-- ===== src/Chain/Query/Glob.antt =====
-- `is_glob` and `is_glob_str` of `ChainStore::query`: which names are patterns.
use Prim.Native.String.{[], ◌∷◌}
use Prim.Native.Char.{Char, code}
use holochain_rust.Prelude.{◌==◌, String, Bool, false, ◌||◌, nat_eq}

-- one of `./*[]{}`
unfoldable pub is_glob : Char → Bool
is_glob c =
    let n = code c in n == 46 || n == 47 || n == 42 || n == 91 || n == 93 || n == 123 || n == 125

unfoldable pub is_glob_str : String → Bool
unfolding is_glob
is_glob_str [] = false
is_glob_str (c ∷ s) = is_glob c || is_glob_str s
