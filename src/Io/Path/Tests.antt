-- ===== src/Io/Path/Tests.antt =====
-- Some paths (`cleanPath` of io/fs/mem.go).
use Prim.Native.Char.{code}
use Prim.Native.String.{String}
use datarhei_core.Prelude.{ℕ, ◌≡◌, refl, List, [], ◌∷◌}
use datarhei_core.Io.Path.{clean_path}

abbrev codes : String → List ℕ
codes String.[] = []
codes (String.◌∷◌ c s) = code c ∷ codes s

clean_relative : clean_path (codes "a/./b//../c/../../x/") ≡ codes "/x"
unfolding clean_path
clean_relative = refl

clean_above_root : clean_path (codes "../..") ≡ codes "/"
unfolding clean_path
clean_above_root = refl
