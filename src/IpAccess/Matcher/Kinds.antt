-- ===== src/IpAccess/Matcher/Kinds.antt =====
-- The kinds of the compiled rules (backend/app/control_plane/ip_access/matcher.py).
use blyns_ops.Prelude.{
  String, ◌≡◌, refl, Option, none, some, List, [], ◌∷◌, str_eq, All, All-insert_one, Bool-cases,
  inl, inr,
}
use blyns_ops.IpAccess.Addresses.{Texts, Network}
use blyns_ops.IpAccess.Matcher.{
  Kind, MatchType, Rule, CompiledRule, RuleSet, set_code, is_skipped, compile_rule, compile_kind,
  compile_as, add_network, add_country, compiled, compile_onto,
}

abbrev pub IsOf : Kind → CompiledRule → Type 0
IsOf k r = r.kind ≡ k

pub record HasKinds (rs : RuleSet) : Type 0 where
  pub allow_networks : All (IsOf Kind.allow) rs.allow_networks
  pub deny_networks : All (IsOf Kind.deny) rs.deny_networks
  pub allow_countries : All (λ (e : String × CompiledRule). IsOf Kind.allow e.1) rs.allow_countries
  pub deny_countries : All (λ (e : String × CompiledRule). IsOf Kind.deny e.1) rs.deny_countries

set_code-All :
    (P : CompiledRule → Type 0) (code : String) (r : CompiledRule)
    (d : List (String × CompiledRule))
    → P r
    → All (λ (e : String × CompiledRule). P e.1) d
    → All (λ (e : String × CompiledRule). P e.1) (set_code code r d)
unfolding set_code
set_code-All P code r [] p h = (p, tt)
set_code-All P code r ((k, v) ∷ d) p h = elim (Bool-cases (str_eq code k)) [
  | inl same ↦ rw same (p, h.1)
  | inr other ↦ rw other (h.0, set_code-All P code r d p h.1)
]

add_network-HasKinds :
    (k : Kind) (r : CompiledRule) (rs : RuleSet)
    → IsOf k r
    → HasKinds rs
    → HasKinds (add_network k r rs)
add_network-HasKinds Kind.allow r rs p h = record {
  allow_networks = All-insert_one (IsOf Kind.allow) rs.allow_networks r h.allow_networks p;
  deny_networks = h.deny_networks;
  allow_countries = h.allow_countries;
  deny_countries = h.deny_countries;
}
add_network-HasKinds Kind.deny r rs p h = record {
  allow_networks = h.allow_networks;
  deny_networks = All-insert_one (IsOf Kind.deny) rs.deny_networks r h.deny_networks p;
  allow_countries = h.allow_countries;
  deny_countries = h.deny_countries;
}

add_country-HasKinds :
    (k : Kind) (r : CompiledRule) (rs : RuleSet)
    → IsOf k r
    → HasKinds rs
    → HasKinds (add_country k r rs)
add_country-HasKinds Kind.allow r rs p h = record {
  allow_networks = h.allow_networks;
  deny_networks = h.deny_networks;
  allow_countries = set_code-All (IsOf Kind.allow) r.value r rs.allow_countries p h.allow_countries;
  deny_countries = h.deny_countries;
}
add_country-HasKinds Kind.deny r rs p h = record {
  allow_networks = h.allow_networks;
  deny_networks = h.deny_networks;
  allow_countries = h.allow_countries;
  deny_countries = set_code-All (IsOf Kind.deny) r.value r rs.deny_countries p h.deny_countries;
}

module _ (t : Texts) (r : Rule) (rs : RuleSet) (h : HasKinds rs) where
  compile_network-HasKinds :
      (k : Kind) (m : MatchType) (o : Option Network)
      → HasKinds
          (elim o [ none ↦ rs | some n ↦ add_network k (compiled r k m r.value (some n)) rs ])
  compile_network-HasKinds k m none = h
  compile_network-HasKinds k m (some n) =
      add_network-HasKinds k (compiled r k m r.value (some n)) rs refl h

  compile_as-HasKinds : (k : Kind) (m : Option MatchType) → HasKinds (compile_as t r k m rs)
  compile_as-HasKinds k none = h
  compile_as-HasKinds k (some MatchType.ip) =
      compile_network-HasKinds k MatchType.ip (t.ip_network r.value)
  compile_as-HasKinds k (some MatchType.cidr) =
      compile_network-HasKinds k MatchType.cidr (t.ip_network r.value)
  compile_as-HasKinds k (some MatchType.country) =
      add_country-HasKinds k (compiled r k MatchType.country (t.upper r.value) none) rs refl h

  compile_kind-HasKinds : (o : Option Kind) → HasKinds (compile_kind t r o rs)
  compile_kind-HasKinds none = h
  compile_kind-HasKinds (some k) = elim (Bool-cases (str_eq r.value "")) [
    | inl empty ↦ rw empty h
    | inr given ↦ rw given (compile_as-HasKinds k r.match_type)
  ]

  compile_rule-HasKinds : HasKinds (compile_rule t r rs)
  unfolding compile_rule
  compile_rule-HasKinds = elim (Bool-cases (is_skipped r)) [
    | inl skipped ↦ rw skipped h
    | inr live ↦ rw live (compile_kind-HasKinds r.kind)
  ]

pub compile_onto-HasKinds :
    (t : Texts) (rules : List Rule) (rs : RuleSet)
    → HasKinds rs
    → HasKinds (compile_onto t rules rs)
unfolding compile_onto
compile_onto-HasKinds t [] rs h = h
compile_onto-HasKinds t (r ∷ rules) rs h =
    compile_onto-HasKinds t rules (compile_rule t r rs) (compile_rule-HasKinds t r rs h)
