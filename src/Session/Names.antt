-- ===== src/Session/Names.antt =====
-- The names of collectors in session/registry.go.
use Prim.Native.Char.{code}
use Prim.Native.String.{String, [], ◌∷◌}
use datarhei_core.Prelude.{ℕ, Bool, true, ◌&&◌, ◌||◌, leb}

-- A digit or a letter: `[0-9A-Za-z]`.
abbrev pub is_alphanumeric : ℕ → Bool
is_alphanumeric c = (leb 48 c && leb c 57) || (leb 65 c && leb c 90) || (leb 97 c && leb c 122)

unfoldable pub all_alphanumeric : String → Bool
all_alphanumeric [] = true
all_alphanumeric (c ∷ cs) = is_alphanumeric (code c) && all_alphanumeric cs
