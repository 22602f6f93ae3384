-- ===== src/Http/Lru/Eviction.antt =====
-- The eviction loop of `Put` in http/cache/lru.go.
use datarhei_core.Prelude.{
  ℕ, zero, suc, ◌^◌, ◌≤◌, ◌<◌, ◌≡◌, refl, sym, ap, ◌∙◌, [], ◌∷◌, some, dec_lt, arith, ℕ_discrete,
  Option-cases, inl, inr, length,
}
use datarhei_core.Prelude.Map.{lookup, total, total-delete, length-delete-lt}
use datarhei_core.Http.Lru.{Value, Cache, Elements, back, drop_element, evict}
use datarhei_core.Http.Lru.Spec.{values, drop_last, fit, fit_all, fit-drop_last}
use datarhei_core.Http.Lru.Invariant.{Core, weight, sum_size-values, lookup-back, back-none}
use datarhei_core.Http.Lru.Steps.{drop-Core}

module _ {A : Type 0} where
  abbrev pub Evicted : Cache A → Cache A → Type 0
  Evicted c c' =
      (values c'.elements ≡ fit c.max_size (values c.elements)) × Core c' × (c'.config ≡ c.config)

  evict_stop : (fuel : ℕ) (c : Cache A) → c.size ≤ c.max_size → evict fuel c ≡ c
  unfolding evict
  evict_stop zero c h = refl
  evict_stop (suc fuel) c h = ground arith

  evict_over :
      (fuel : ℕ) (c : Cache A) (e : ℕ) (v : Value A)
      → c.max_size < c.size
      → back c.elements ≡ some (e, v)
      → evict (suc fuel) c ≡ evict fuel (drop_element e v.key v c)
  unfolding evict
  evict_over fuel c e v h b = ground arith

  -- When all fits, to keep what fits is to keep everything.
  Evicted-all :
      (c : Cache A) → Core c → total ℕ_discrete weight c.elements ≤ c.max_size → Evicted c c
  Evicted-all c core h = (
    sym (fit_all c.max_size (values c.elements) (omega (arith, sum_size-values c.elements))),
    core,
    refl,
  )

  total_nil : (l : Elements A) → length l ≤ 0 → total ℕ_discrete weight l ≡ 0
  unfolding total
  total_nil [] h = refl
  total_nil (x ∷ l) h = elim h [ ]

  back-some :
      (l : Elements A)
      → 0 < total ℕ_discrete weight l
      → (e : ℕ) × (v : Value A) × (back l ≡ some (e, v))
  back-some l h = elim (Option-cases (back l)) [
    | inl empty ↦ absurd (omega (arith, ap length (back-none l empty), total_nil l))
    | inr ((e, v), last) ↦ (e, v, last)
  ]

  module _ (c : Cache A) (e : ℕ) (v : Value A) (core : Core c)
      (last : back c.elements ≡ some (e, v)) where
    at_e : lookup ℕ_discrete e c.elements ≡ some v
    at_e = (lookup-back e v c.elements core.one_address last).0

    last-Core : Core (drop_element e v.key v c)
    last-Core = drop-Core c v.key e v core (core.linked e v at_e) at_e refl

    last_smaller :
        (total ℕ_discrete weight (drop_element e v.key v c).elements
          ≤ total ℕ_discrete weight c.elements)
        × (length (drop_element e v.key v c).elements < length c.elements)
    unfolding drop_element
    last_smaller = (
      omega (arith, total-delete ℕ_discrete weight e v c.elements core.one_address at_e),
      length-delete-lt ℕ_discrete e v c.elements at_e,
    )

    last_dropped : values (drop_element e v.key v c).elements ≡ drop_last (values c.elements)
    unfolding drop_element
    last_dropped = (lookup-back e v c.elements core.one_address last).1

  Evicted-drop :
      (c c' : Cache A) (e : ℕ) (v : Value A)
      → Core c
      → c.max_size < total ℕ_discrete weight c.elements
      → back c.elements ≡ some (e, v)
      → Evicted (drop_element e v.key v c) c'
      → Evicted c c'
  unfolding drop_element
  Evicted-drop c c' e v core over last (kept, core', same) = (
    kept
        ∙ ap (fit c.max_size) (last_dropped c e v core last)
        ∙ sym (
            fit-drop_last c.max_size (values c.elements)
              (omega (arith, sum_size-values c.elements))),
    core',
    same,
  )

  -- For a cache with consistent indexes (`Core`), whose sizes add up to less than 2^64, and with
  -- fuel for each element, the loop at the end of `Put` keeps the values of `fit`, the longest
  -- front part whose sizes fit the limit, and keeps `Core` and the configuration.
  pub evict-fit :
      (fuel : ℕ) (c : Cache A)
      → Core c
      → total ℕ_discrete weight c.elements < 2 ^ 64
      → length c.elements ≤ fuel
      → Evicted c (evict fuel c)
  evict-fit zero c core t l =
      rw (evict_stop zero c (omega (arith, total_nil c.elements l, core.sized)))
        (Evicted-all c core (omega (arith, total_nil c.elements l)))
  evict-fit (suc fuel) c core t l = elim (dec_lt c.max_size (total ℕ_discrete weight c.elements)) [
    | no fits ↦
        rw (evict_stop (suc fuel) c (omega (arith, core.sized))) (Evicted-all c core (omega arith))
    | yes over ↦
        let (e, v, last) = back-some c.elements (omega arith) in
        rw (evict_over fuel c e v (omega (arith, core.sized)) last) (
          Evicted-drop c (evict fuel (drop_element e v.key v c)) e v core over last (
            evict-fit fuel (drop_element e v.key v c) (last-Core c e v core last)
              (omega (arith, last_smaller c e v core last))
              (omega (arith, last_smaller c e v core last))))
  ]
