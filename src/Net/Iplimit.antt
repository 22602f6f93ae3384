-- ===== src/Net/Iplimit.antt =====
-- net/iplimit.go: block and allow lists of address ranges. Addresses `Ip`, ranges `Cidr`, their
-- parsers and the containment are those of Go's package net, and arguments.
use datarhei_core.Prelude.{
  Bool, true, false, ◌||◌, ◌≡◌, ◌⊎◌, inl, inr, refl, List, [], ◌∷◌, if◌then◌else◌, Option, none,
  some, arith, Bool-cases, if_true, if_false, sym, ap, ◌∙◌,
}

-- `strings.TrimSpace`, whether a text is empty, `net.ParseIP`, `net.ParseCIDR` and `Contains`.
pub record Addresses (Text Ip Cidr : Type 0) : Type 0 where
  pub trim_space : Text → Text
  pub is_empty : Text → Bool
  pub parse_ip : Text → Option Ip
  pub parse_cidr : Text → Option Cidr
  pub contains : Cidr → Ip → Bool

-- `iplimit`
pub record Iplimit (Cidr : Type 0) : Type 0 where
  pub allowlist : List Cidr
  pub blocklist : List Cidr

module _ {Text Ip Cidr : Type 0} (addresses : Addresses Text Ip Cidr) where
  cons_range : Option Cidr → Option (List Cidr) → Option (List Cidr)
  cons_range none rs = none
  cons_range (some r) none = none
  cons_range (some r) (some rs) = some (r ∷ rs)

  -- A loop of `NewIPLimiter`; `none` is its error.
  unfoldable pub parse_ranges : List Text → Option (List Cidr)
  unfolding cons_range
  parse_ranges [] = some []
  parse_ranges (t ∷ ts) =
      let rest = parse_ranges ts in
      let ipblock = addresses.trim_space t in
      if addresses.is_empty ipblock then rest else cons_range (addresses.parse_cidr ipblock) rest

  of_ranges : Option (List Cidr) → Option (List Cidr) → Option (Iplimit Cidr)
  of_ranges none allow = none
  of_ranges (some block) none = none
  of_ranges (some block) (some allow) = some (record { allowlist = allow; blocklist = block })

  -- `NewIPLimiter`
  unfoldable pub new_ip_limiter : List Text → List Text → Option (Iplimit Cidr)
  unfolding parse_ranges of_ranges
  new_ip_limiter blocklist allowlist = of_ranges (parse_ranges blocklist) (parse_ranges allowlist)

  unfoldable pub any_contains : Ip → List Cidr → Bool
  any_contains ip [] = false
  any_contains ip (r ∷ rs) = addresses.contains r ip || any_contains ip rs

  abbrev pub no_ranges : List Cidr → Bool
  no_ranges [] = true
  no_ranges (r ∷ rs) = false

  unfoldable pub is_allowed_ip : Iplimit Cidr → Ip → Bool
  unfolding any_contains
  is_allowed_ip l ip =
      if any_contains ip l.blocklist
      then false
      else if no_ranges l.allowlist
      then true
      else any_contains ip l.allowlist

  -- `IsAllowed`
  unfoldable pub is_allowed : Iplimit Cidr → Text → Bool
  unfolding is_allowed_ip
  is_allowed l t = elim (addresses.parse_ip t) [ none ↦ false | some ip ↦ is_allowed_ip l ip ]

  -- One of the ranges contains the address.
  pub data Within (ip : Ip) : List Cidr → Type 0 where
    first : (r : Cidr) (rs : List Cidr) → addresses.contains r ip ≡ true → Within ip (r ∷ rs)
    later : (r : Cidr) (rs : List Cidr) → Within ip rs → Within ip (r ∷ rs)

  any_contains-Within : (ip : Ip) (rs : List Cidr) → any_contains ip rs ≡ true → Within ip rs
  unfolding any_contains
  any_contains-Within ip [] h = cc h
  any_contains-Within ip (r ∷ rs) h = elim (Bool-cases (addresses.contains r ip)) [
    | inl e ↦ first r rs e
    | inr e ↦ later r rs (any_contains-Within ip rs (ground (arith, e, h)))
  ]

  any_contains_of_Within : (ip : Ip) (rs : List Cidr) → Within ip rs → any_contains ip rs ≡ true
  unfolding any_contains
  any_contains_of_Within ip rs (first r rs' e) = ground arith
  any_contains_of_Within ip rs (later r rs' w) = ground (arith, any_contains_of_Within ip rs' w)

  no_ranges-nil : (rs : List Cidr) → no_ranges rs ≡ true → rs ≡ []
  no_ranges-nil [] h = refl
  no_ranges-nil (r ∷ rs) h = cc h

  -- What the lists say of an address.
  pub record Allowed (l : Iplimit Cidr) (ip : Ip) : Type 0 where
    pub not_blocked : ¬ Within ip l.blocklist
    pub on_the_list : (l.allowlist ≡ []) ⊎ Within ip l.allowlist

  -- An address is allowed exactly if it is in no range of the block list, and the allow list is
  -- empty or one of its ranges contains the address.
  pub is_allowed_ip-Allowed :
      (l : Iplimit Cidr) (ip : Ip) → is_allowed_ip l ip ≡ true → Allowed l ip
  unfolding is_allowed_ip
  is_allowed_ip-Allowed l ip h = elim (Bool-cases (any_contains ip l.blocklist)) [
    | inl e ↦ cc (sym (if_true e _ _) ∙ h)
    | inr e ↦
        let rest = sym (if_false e _ _) ∙ h in
        record {
          not_blocked = λ w. cc (any_contains_of_Within ip l.blocklist w, e);
          on_the_list = elim (Bool-cases (no_ranges l.allowlist)) [
            | inl n ↦ inl (no_ranges-nil l.allowlist n)
            | inr n ↦ inr (any_contains-Within ip l.allowlist (sym (if_false n _ _) ∙ rest))
          ];
        }
  ]

  pub is_allowed_ip_of_Allowed :
      (l : Iplimit Cidr) (ip : Ip) → Allowed l ip → is_allowed_ip l ip ≡ true
  unfolding is_allowed_ip
  is_allowed_ip_of_Allowed l ip a = elim (Bool-cases (any_contains ip l.blocklist)) [
    | inl e ↦ absurd (a.not_blocked (any_contains-Within ip l.blocklist e))
    | inr e ↦ if_false e _ _ ∙ (elim a.on_the_list [
      | inl n ↦ if_true (ap no_ranges n) _ _
      | inr w ↦ elim (Bool-cases (no_ranges l.allowlist)) [
        | inl n ↦ if_true n _ _
        | inr n ↦ if_false n _ _ ∙ any_contains_of_Within ip l.allowlist w
      ]
    ])
  ]
