-- ===== src/Http/Lru/Steps.antt =====
-- What each change of the cache of http/cache/lru.go does to the invariant and to the list of
-- values.
use native.Mathlib.Nat.{add_comm}
use datarhei_core.Prelude.{
  ℕ, ◌+◌, ◌<◌, ◌≡◌, ◌≢◌, refl, sym, ap, ◌∙◌, subst, ◌∷◌, none, some, String, String-discrete, arith,
  All, ◌↔◌, ℕ_discrete, Option-cases, ◌⊎◌, inl, inr,
}
use datarhei_core.Prelude.Map.{
  lookup, insert, delete, total, lookup-delete_inv, lookup-insert_inv, lookup-delete_ne,
  lookup-insert_ne, lookup-insert_self, All-of_lookup, total-delete, total-insert, some_inj,
  delete-IsMap, insert-IsMap, delete_absent,
}
use datarhei_core.Prelude.Words.{u64, add64, sub64, add64_mod, sub64_mod}
use datarhei_core.Http.Lru.{Value, Cache, drop_element, push_front}
use datarhei_core.Http.Lru.Spec.{values, find, remove}
use datarhei_core.Http.Lru.Invariant.{Core, weight, Owns, find-Owns, remove-Owns, remove_absent}

sub_add : (t a b : ℕ) → add64 (sub64 (u64 (a + t)) a) b ≡ u64 (b + t)
sub_add t a b = rw (add_comm a t) (rw (sub64_mod t a, add64_mod t b) (rw (add_comm t b)))

module _ {A : Type 0} (c : Cache A) (key : String) (e : ℕ) (v : Value A) (core : Core c)
    (at_key : lookup String-discrete key c.objects ≡ some e)
    (at_e : lookup ℕ_discrete e c.elements ≡ some v) (named : v.key ≡ key) where
  pub owns : Owns e key c.elements
  owns =
      All-of_lookup ℕ_discrete (λ x. (x.0 ≡ e) ↔ (x.1.key ≡ key)) c.elements core.one_address
        (λ j w h. (
          λ p. cc (h, at_e, ap (λ y. lookup ℕ_discrete y c.elements) p),
          λ p. cc (core.linked j w h, at_key, ap (λ y. lookup String-discrete y c.objects) p),
        ))

  pub find_hit : find key (values c.elements) ≡ some v
  find_hit = find-Owns e key c.elements owns ∙ at_e

  pub drop-Core : Core (drop_element e key v c)
  unfolding drop_element
  drop-Core = record {
    one_key = delete-IsMap String-discrete key c.objects core.one_key;
    one_address = delete-IsMap ℕ_discrete e c.elements core.one_address;
    fresh = λ j w h. core.fresh j w (lookup-delete_inv ℕ_discrete e j w c.elements h).1;
    linked = λ j w h.
        let (n, h') = lookup-delete_inv ℕ_discrete e j w c.elements h in
        lookup-delete_ne String-discrete key w.key c.objects (λ p. n (clash j w h' p))
        ∙ core.linked j w h';
    found = λ k j h.
        let (n, h') = lookup-delete_inv String-discrete key k j c.objects h in
        let (w, g, q) = core.found k j h' in
        (w, lookup-delete_ne ℕ_discrete e j c.elements (λ p. n (same k w p g q)) ∙ g, q);
    sized =
        rw (core.sized, total-delete ℕ_discrete weight e v c.elements core.one_address at_e)
          (rw (add_comm v.size (total ℕ_discrete weight (delete ℕ_discrete e c.elements)))
            (sub64_mod (total ℕ_discrete weight (delete ℕ_discrete e c.elements)) v.size));
  }
    where
      clash : (j : ℕ) (w : Value A) → lookup ℕ_discrete j c.elements ≡ some w → w.key ≡ key → e ≡ j
      clash j w h p =
          some_inj
            (sym at_key ∙ ap (λ y. lookup String-discrete y c.objects) (sym p) ∙ core.linked j w h)

      same :
          (k : String) {j : ℕ} (w : Value A)
          → j ≡ e
          → lookup ℕ_discrete j c.elements ≡ some w
          → w.key ≡ k
          → key ≡ k
      same k w p g q = cc (g, at_e, ap (λ y. lookup ℕ_discrete y c.elements) p)

  pub values-drop : values (delete ℕ_discrete e c.elements) ≡ remove key (values c.elements)
  values-drop = remove-Owns e key c.elements owns

  -- To move an element to the front, with the same or a new value under its key.
  pub renew-Core :
      (w : Value A)
      → w.key ≡ key
      → Core (record c {
        elements = insert ℕ_discrete e w c.elements;
        size = add64 (sub64 c.size v.size) w.size;
      })
  renew-Core w wk = record {
    one_key = core.one_key;
    one_address = insert-IsMap ℕ_discrete e w c.elements core.one_address;
    fresh = λ j x h. elim (lookup-insert_inv ℕ_discrete e j w x c.elements h) [
      | inl (p, q) ↦ subst (λ y. y < c.next) p (core.fresh e v at_e)
      | inr (n, g) ↦ core.fresh j x g
    ];
    linked = λ j x h. elim (lookup-insert_inv ℕ_discrete e j w x c.elements h) [
      | inl (p, q) ↦ rw (← q, wk) (at_key ∙ ap some p)
      | inr (n, g) ↦ core.linked j x g
    ];
    found = λ k j h. elim (ℕ_discrete e j) [
      | yes p ↦ (
        w,
        subst (λ y. lookup ℕ_discrete y (insert ℕ_discrete e w c.elements) ≡ some w) p
            (lookup-insert_self ℕ_discrete e w c.elements),
        same k p h,
      )
      | no n ↦
          let (x, g, q) = core.found k j h in
          (x, lookup-insert_ne ℕ_discrete e j w c.elements (λ p. n (sym p)) ∙ g, q)
    ];
    sized =
        rw
          (
            core.sized,
            total-delete ℕ_discrete weight e v c.elements core.one_address at_e,
            total-insert ℕ_discrete weight e w c.elements,
          )
          (sub_add (total ℕ_discrete weight (delete ℕ_discrete e c.elements)) v.size w.size);
  }
    where
      same : (k : String) {j : ℕ} → e ≡ j → lookup String-discrete k c.objects ≡ some j → w.key ≡ k
      same k p h =
          let (x, g, q) = core.found k _ h in
          cc (g, at_e, wk, named, q, ap (λ y. lookup ℕ_discrete y c.elements) p)

  pub values-renew :
      (w : Value A)
      → w.key ≡ key
      → values (insert ℕ_discrete e w c.elements) ≡ w ∷ remove key (values c.elements)
  unfolding insert
  values-renew w wk = ap (◌∷◌ w) values-drop

  -- A hit of `Get` only moves its element.
  pub touch-Core : Core (record c { elements = insert ℕ_discrete e v c.elements })
  touch-Core = record {
    one_key = renewed.one_key;
    one_address = renewed.one_address;
    fresh = renewed.fresh;
    linked = renewed.linked;
    found = renewed.found;
    sized = core.sized ∙ ap u64 (total-touch);
  }
    where
      renewed : Core (record c {
        elements = insert ℕ_discrete e v c.elements;
        size = add64 (sub64 c.size v.size) v.size;
      })
      renewed = renew-Core v named

      total-touch :
          total ℕ_discrete weight c.elements
          ≡ total ℕ_discrete weight (insert ℕ_discrete e v c.elements)
      total-touch =
          total-delete ℕ_discrete weight e v c.elements core.one_address at_e
          ∙ sym (total-insert ℕ_discrete weight e v c.elements)

pub absent :
    {A : Type 0} (c : Cache A) (key : String)
    → Core c
    → lookup String-discrete key c.objects ≡ none
    → All (λ x. x.1.key ≢ key) c.elements
absent c key core missing =
    All-of_lookup ℕ_discrete (λ x. x.1.key ≢ key) c.elements core.one_address
      (λ j w h p. cc (missing, core.linked j w h, ap (λ y. lookup String-discrete y c.objects) p))

module _ {A : Type 0} (c : Cache A) (v : Value A) (core : Core c)
    (missing : lookup String-discrete v.key c.objects ≡ none) where
  unused : (j : ℕ) (w : Value A) → lookup ℕ_discrete j c.elements ≡ some w → c.next ≢ j
  unused j w h p = absurd (omega (arith, core.fresh j w h))

  pub values-push : values (push_front v c).elements ≡ v ∷ remove v.key (values c.elements)
  unfolding push_front
  values-push = ap (◌∷◌ v) (sym (remove_absent v.key c.elements (absent c v.key core missing)))

  next_unused : lookup ℕ_discrete c.next c.elements ≡ none
  next_unused = elim (Option-cases (lookup ℕ_discrete c.next c.elements)) [
    | inl h ↦ h
    | inr (w, h) ↦ absurd (unused c.next w h refl)
  ]

  push_shape : (push_front v c).elements ≡ insert ℕ_discrete c.next v c.elements
  unfolding push_front insert
  push_shape = ap (◌∷◌ (c.next, v)) (sym (delete_absent ℕ_discrete c.next c.elements next_unused))

  pub push-Core : Core (push_front v c)
  unfolding push_front total
  push-Core = record {
    one_key = insert-IsMap String-discrete v.key c.next c.objects core.one_key;
    one_address = (next_unused, core.one_address);
    fresh = λ j w h. elim (entry j w h) [
      | inl (p, q) ↦ omega arith
      | inr (n, g) ↦ omega (arith, core.fresh j w g)
    ];
    linked = λ j w h. elim (entry j w h) [
      | inl (p, q) ↦ rw (← q, ← p) (lookup-insert_self String-discrete v.key c.next c.objects)
      | inr (n, g) ↦
          lookup-insert_ne String-discrete v.key w.key c.next c.objects
            (λ p. cc (missing, core.linked j w g, ap (λ y. lookup String-discrete y c.objects) p))
          ∙ core.linked j w g
    ];
    found = λ k j h. elim (lookup-insert_inv String-discrete v.key k c.next j c.objects h) [
      | inl (p, q) ↦
          (v, rw (push_shape, ← q) (lookup-insert_self ℕ_discrete c.next v c.elements), p)
      | inr (n, g) ↦
          let (w, a, b) = core.found k j g in
          (
            w,
            rw push_shape
                (lookup-insert_ne ℕ_discrete c.next j v c.elements (λ p. unused j w a (sym p)) ∙ a),
            b,
          )
    ];
    sized =
        rw core.sized (rw add64_mod (rw (add_comm (total ℕ_discrete weight c.elements) v.size)));
  }
    where
      entry :
          (j : ℕ) (w : Value A)
          → lookup ℕ_discrete j (push_front v c).elements ≡ some w
          → ((c.next ≡ j) × (v ≡ w)) ⊎ ((c.next ≢ j) × (lookup ℕ_discrete j c.elements ≡ some w))
      entry j w h =
          lookup-insert_inv ℕ_discrete c.next j v w c.elements
            (ap (lookup ℕ_discrete j) (sym push_shape) ∙ h)
