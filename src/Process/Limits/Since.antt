-- ===== src/Process/Limits/Since.antt =====
-- One resource of the limiter of process/limits.go: since when its readings have been above the
-- limit, and what the check of it reports.
use datarhei_core.Prelude.{
  ℕ, ◌-◌, ◌≤◌, ◌<◌, ◌≡◌, refl, sym, ap, ◌∙◌, Bool, false, ◌&&◌, List, [], ◌∷◌, Option, none, some,
  ltb, leb, if◌then◌else◌, arith, Option-cases, dec_lt, ◌≢◌, ◌⊎◌, inl, inr,
}
use datarhei_core.Prelude.Map.{some_inj}
use datarhei_core.Process.Limits.{Resource, read, reach, check}

-- The time from which on the readings, the latest first, have been above the limit.
unfoldable pub above_since : ℕ → List (ℕ × ℕ) → Option ℕ
above_since limit [] = none
above_since limit ((t, v) ∷ h) =
    let rest = above_since limit h in
    if ltb limit v then (elim rest [ none ↦ some t | some s ↦ some s ]) else none

-- Whether this is so for the time to wait for; no limit is never exceeded.
unfoldable pub exceeds : ℕ → ℕ → ℕ → List (ℕ × ℕ) → Bool
exceeds wait now limit h = elim (above_since limit h) [
  | none ↦ false
  | some s ↦ ltb 0 limit && leb wait (now - s)
]

unfoldable pub latest : List (ℕ × ℕ) → ℕ
latest [] = 0
latest (x ∷ h) = x.1

-- The state of a resource after the readings.
pub record Tracks (limit : ℕ) (h : List (ℕ × ℕ)) (r : Resource) : Type 0 where
  pub same_limit : r.limit ≡ limit
  pub shows : r.current ≡ latest h
  pub began : (s : ℕ) → 0 < limit → above_since limit h ≡ some s → r.since ≡ s

above_not : (limit t v : ℕ) (h : List (ℕ × ℕ)) → v ≤ limit → above_since limit ((t, v) ∷ h) ≡ none
unfolding above_since
above_not limit t v h l = ground arith

above_new :
    (limit t v : ℕ) (h : List (ℕ × ℕ))
    → limit < v
    → above_since limit h ≡ none
    → above_since limit ((t, v) ∷ h) ≡ some t
unfolding above_since
above_new limit t v h l e = ground arith

above_old :
    (limit t v s : ℕ) (h : List (ℕ × ℕ))
    → limit < v
    → above_since limit h ≡ some s
    → above_since limit ((t, v) ∷ h) ≡ some s
unfolding above_since
above_old limit t v s h l e = ground arith

latest_below : (limit : ℕ) (h : List (ℕ × ℕ)) → latest h ≤ limit → above_since limit h ≡ none
unfolding latest above_since
latest_below limit [] l = refl
latest_below limit ((t, v) ∷ h) l = ground arith

latest_above :
    (limit : ℕ) (h : List (ℕ × ℕ)) → limit < latest h → (s : ℕ) × (above_since limit h ≡ some s)
unfolding latest
latest_above limit [] l = absurd (omega arith)
latest_above limit ((t, v) ∷ h) l = elim (Option-cases (above_since limit h)) [
  | inl e ↦ (t, above_new limit t v h l e)
  | inr (s, e) ↦ (s, above_old limit t v s h l e)
]

exceeds-some :
    (wait now limit s : ℕ) (h : List (ℕ × ℕ))
    → 0 < limit
    → above_since limit h ≡ some s
    → exceeds wait now limit h ≡ leb wait (now - s)
unfolding exceeds
exceeds-some wait now limit s h z e = rw (e, exceeds) (ground arith)

exceeds-not :
    (wait now limit v : ℕ) (h : List (ℕ × ℕ))
    → (limit ≡ 0) ⊎ (v ≤ limit)
    → exceeds wait now limit ((now, v) ∷ h) ≡ false
unfolding exceeds
exceeds-not wait now limit v h (inr l) = rw (above_not limit now v h l, exceeds) refl
exceeds-not wait now limit v h (inl z) = elim (Option-cases (above_since limit ((now, v) ∷ h))) [
  | inl e ↦ rw (e, exceeds) refl
  | inr (s, e) ↦ rw (e, exceeds) (ground arith)
]

check_off :
    (wait now : ℕ) (r : Resource)
    → (r.limit ≡ 0) ⊎ (r.current ≤ r.limit)
    → check wait now r ≡ (r, false)
unfolding check
check_off wait now r (inl z) = ground arith
check_off wait now r (inr l) = ground arith

check_on :
    (wait now : ℕ) (r : Resource)
    → 0 < r.limit
    → r.limit < r.current
    → check wait now r ≡ (reach now r, leb wait (now - (reach now r).since))
unfolding check
check_on wait now r z l = ground arith

-- What one check has to show.
pub record Checks (wait now limit v : ℕ) (h : List (ℕ × ℕ)) (x : Resource × Bool) : Type 0 where
  pub tracks : Tracks limit ((now, v) ∷ h) x.0
  pub reports : x.1 ≡ exceeds wait now limit ((now, v) ∷ h)

off_case :
    (limit v : ℕ) (h : List (ℕ × ℕ)) (r : Resource)
    → Tracks limit h r
    → (limit ≡ 0) ⊎ (v ≤ limit)
    → (r.limit ≡ 0) ⊎ (v ≤ r.limit)
off_case limit v h r i (inl z) = inl (i.same_limit ∙ z)
off_case limit v h r i (inr l) = inr (omega (arith, i.same_limit))

not_above :
    (limit now v s : ℕ) (h : List (ℕ × ℕ))
    → (limit ≡ 0) ⊎ (v ≤ limit)
    → 0 < limit
    → above_since limit ((now, v) ∷ h) ≢ some s
not_above limit now v s h (inl e) z q = omega arith
not_above limit now v s h (inr l) z q = absurd (cc (sym (above_not limit now v h l) ∙ q))

Checks-off :
    (wait now limit v : ℕ) (h : List (ℕ × ℕ)) (r : Resource)
    → Tracks limit h r
    → (limit ≡ 0) ⊎ (v ≤ limit)
    → Checks wait now limit v h (check wait now (read (some v) r))
unfolding read latest
Checks-off wait now limit v h r i l =
    let r' = record r { last = r.current; current = v } in
    rw (check_off wait now r' (off_case limit v h r i l)) (record {
      tracks = record {
        same_limit = i.same_limit;
        shows = refl;
        began = λ s z e. absurd (not_above limit now v s h l z e);
      };
      reports = sym (exceeds-not wait now limit v h l);
    })

reach-limit : (now : ℕ) (r : Resource) → (reach now r).limit ≡ r.limit
unfolding reach
reach-limit now r = ground arith

reach-current : (now : ℕ) (r : Resource) → (reach now r).current ≡ r.current
unfolding reach
reach-current now r = ground arith

Checks-on :
    (wait now limit v s : ℕ) (h : List (ℕ × ℕ)) (r : Resource)
    → Tracks limit h r
    → 0 < limit
    → limit < v
    → above_since limit ((now, v) ∷ h) ≡ some s
    → (reach now (read (some v) r)).since ≡ s
    → Checks wait now limit v h (check wait now (read (some v) r))
unfolding read latest
Checks-on wait now limit v s h r i z l e q =
    let r' = record r { last = r.current; current = v } in
    rw (check_on wait now r' (omega (arith, i.same_limit)) (omega (arith, i.same_limit))) (record {
      tracks = record {
        same_limit = reach-limit now r' ∙ i.same_limit;
        shows = reach-current now r';
        began = λ s' z' e'. q ∙ some_inj (sym e ∙ e');
      };
      reports =
          ap (λ x. leb wait (now - x)) q ∙ sym (exceeds-some wait now limit s ((now, v) ∷ h) z e);
    })

reach_now : (now : ℕ) (r : Resource) → r.last ≤ r.limit → (reach now r).since ≡ now
unfolding reach
reach_now now r l = ground arith

reach_before : (now : ℕ) (r : Resource) → r.limit < r.last → (reach now r).since ≡ r.since
unfolding reach
reach_before now r l = ground arith

pub checks :
    (wait now limit v : ℕ) (h : List (ℕ × ℕ)) (r : Resource)
    → Tracks limit h r
    → Checks wait now limit v h (check wait now (read (some v) r))
unfolding read
checks wait now limit v h r i = elim (dec_lt limit v) [
  | no n ↦ Checks-off wait now limit v h r i (inr (omega arith))
  | yes l ↦ elim (dec_lt 0 limit) [
    | no n ↦ Checks-off wait now limit v h r i (inl (omega arith))
    | yes z ↦ elim (dec_lt limit (latest h)) [
      | no n ↦
          Checks-on wait now limit v now h r i z l
            (above_new limit now v h l (latest_below limit h (omega arith)))
            (reach_now now _ (omega (arith, i.same_limit, i.shows)))
      | yes a ↦
          let (s, e) = latest_above limit h a in
          Checks-on wait now limit v s h r i z l (above_old limit now v s h l e)
            (reach_before now _ (omega (arith, i.same_limit, i.shows)) ∙ i.began s z e)
    ]
  ]
]
