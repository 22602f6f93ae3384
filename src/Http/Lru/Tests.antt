-- ===== src/Http/Lru/Tests.antt =====
-- The cache of http/cache/lru.go at work.
use datarhei_core.Prelude.{ℕ, ◌≡◌, refl, [], ◌∷◌, some, String-discrete, arith, ℕ_discrete}
use datarhei_core.Prelude.Map.{lookup, delete, insert, total}
use datarhei_core.Prelude.Words.{add64, sub64}
use datarhei_core.Http.Lru
use datarhei_core.Http.Lru.{
  Value, Config, Cache, Elements, Stored, get, put, stored, too_big, new_lru_cache, purge,
  is_extension_cacheable, is_size_cacheable, move_to_front, set_value, back, store, push_front,
  drop_element, evict, trim,
}
use datarhei_core.Http.Lru.Spec.{values, remove}
use datarhei_core.Http.Lru.Invariant.{Inv}
use datarhei_core.Http.Lru.Refinement.{Gets, get-Gets, delete-contents}
use datarhei_core.Http.Lru.Eviction.{Evicted, evict-fit}
use datarhei_core.Http.Lru.Put.{put-Inv, Puts, put-Puts}
use datarhei_core.Http.Lru.Reads.{new_lru_cache-Inv, put-get}

abbrev config : Config
config = record {
  ttl = 5;
  max_size = 10;
  max_file_size = 6;
  allow_extensions = ".ts" ∷ [];
  block_extensions = ".m3u8" ∷ [];
}

abbrev empty : Cache ℕ
empty = record { config = config; objects = []; elements = []; size = 0; next = 0 }

program : Unit {0}
unfolding lookup delete insert total add64 sub64 get put new_lru_cache is_size_cacheable
    move_to_front set_value back store push_front drop_element evict String-discrete ℕ_discrete
program = tt

empty-Inv : Inv empty
unfolding program
empty-Inv = new_lru_cache-Inv config (omega arith) refl

abbrev one : Cache ℕ
one = record empty {
  objects = ("a", 0) ∷ [];
  elements = (0, record { key = "a"; obj = 1; expire_at = 5; size = 4 }) ∷ [];
  size = 4;
  next = 1;
}

abbrev two : Cache ℕ
two = record empty {
  objects = ("b", 1) ∷ ("a", 0) ∷ [];
  elements = (1, record { key = "b"; obj = 2; expire_at = 6; size = 5 }) ∷ one.elements;
  size = 9;
  next = 2;
}

-- The third object pushes out the first one, which is the least recently used.
put_third : (c : Cache ℕ) × (put two "c" 3 3 2 ≡ stored c) × (c.size ≡ 8)
unfolding program
put_third = (
  record two {
    objects = ("c", 2) ∷ ("b", 1) ∷ [];
    elements =
        (2, record { key = "c"; obj = 3; expire_at = 7; size = 3 })
        ∷ (1, record { key = "b"; obj = 2; expire_at = 6; size = 5 })
        ∷ [];
    size = 8;
    next = 3;
  },
  refl,
  refl,
)

put_too_big : put two "c" 3 7 2 ≡ too_big
unfolding program
put_too_big = refl

one-Inv : Inv one
unfolding program
one-Inv = put-Inv empty one "a" 1 4 0 empty-Inv refl

two-Inv : Inv two
unfolding program
two-Inv = put-Inv one two "b" 2 5 1 one-Inv refl

get-Gets_example : (c : Cache ℕ) × Gets two "a" 3 c
get-Gets_example = get-Gets two "a" 3 two-Inv

delete-contents_example :
    (c : Cache ℕ) × (Lru.delete two "a" ≡ some c)
    × (values c.elements ≡ remove "a" (values two.elements))
    × Inv c
delete-contents_example = delete-contents two "a" two-Inv

evict-fit_example : Evicted two (evict 2 two)
unfolding total
evict-fit_example = evict-fit 2 two two-Inv.core (omega arith) (omega arith)

put-Puts_example : (c : Cache ℕ) × Puts two "c" 3 3 2 c
unfolding program
put-Puts_example = put-Puts two "c" 3 3 2 two-Inv refl

put-get_example :
    (c d : Cache ℕ) × (put two "c" 3 3 2 ≡ stored c) × (get c "c" 4 ≡ some (d, some 3, 3))
unfolding program
put-get_example = put-get two "c" 3 3 2 4 two-Inv refl (omega arith)
