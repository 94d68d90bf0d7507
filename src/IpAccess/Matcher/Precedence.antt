-- ===== src/IpAccess/Matcher/Precedence.antt =====
-- The precedence of the access rules, stated on the rows of `ip_rules` without their compilation.
use blyns_ops.Prelude.{
  String, ◌≡◌, refl, ◌∙◌, Bool, true, false, Option, none, some, List, [], ◌∷◌, not, ◌||◌, str_eq,
  is_some, find_one, All, Bool-cases, inl, inr,
}
use blyns_ops.IpAccess.Addresses.{Texts, Address}
use blyns_ops.IpAccess.Matcher.{
  Kind, Rule, CompiledRule, RuleSet, no_rules, lookup_code, compile_rules, in_network,
  match_network, match_country, address_of, code_of, decide, decision, first_hit, Reason,
}
use blyns_ops.IpAccess.Matcher.Hits.{any_applies, hits, compile_onto-hits}
use blyns_ops.IpAccess.Matcher.Kinds.{IsOf, HasKinds, compile_onto-HasKinds}

-- A match, if there is one, is of the kind.
abbrev MatchIs : Kind → Option CompiledRule → Type 0
MatchIs k none = Unit
MatchIs k (some r) = IsOf k r

find_one-MatchIs :
    (k : Kind) (q : CompiledRule → Bool) (rs : List CompiledRule)
    → All (IsOf k) rs
    → MatchIs k (find_one q rs)
find_one-MatchIs k q [] h = tt
find_one-MatchIs k q (r ∷ rs) h = elim (Bool-cases (q r)) [
  | inl hit ↦ rw hit h.0
  | inr miss ↦ rw miss (find_one-MatchIs k q rs h.1)
]

lookup_code-MatchIs :
    (k : Kind) (code : String) (d : List (String × CompiledRule))
    → All (λ (e : String × CompiledRule). IsOf k e.1) d
    → MatchIs k (lookup_code code d)
unfolding lookup_code
lookup_code-MatchIs k code [] h = tt
lookup_code-MatchIs k code ((key, r) ∷ d) h = elim (Bool-cases (str_eq code key)) [
  | inl hit ↦ rw hit h.0
  | inr miss ↦ rw miss (lookup_code-MatchIs k code d h.1)
]

match_network-MatchIs :
    (t : Texts) (k : Kind) (addr : Option Address) (rs : List CompiledRule)
    → All (IsOf k) rs
    → MatchIs k (match_network t addr rs)
unfolding match_network
match_network-MatchIs t k none rs h = tt
match_network-MatchIs t k (some a) rs h = find_one-MatchIs k (in_network t a) rs h

match_country-MatchIs :
    (t : Texts) (k : Kind) (code : Option String) (d : List (String × CompiledRule))
    → All (λ (e : String × CompiledRule). IsOf k e.1) d
    → MatchIs k (match_country t code d)
unfolding match_country
match_country-MatchIs t k none d h = tt
match_country-MatchIs t k (some code) d h = lookup_code-MatchIs k code d h

decision-allow : (r : CompiledRule) → IsOf Kind.allow r → (decision r).allowed ≡ true
decision-allow r h = rw h refl

decision-deny : (r : CompiledRule) → IsOf Kind.deny r → (decision r).allowed ≡ false
decision-deny r h = rw h refl

first_hit-allowed :
    (t : Texts) (a b c d : Option CompiledRule) (reason : Reason)
    → MatchIs Kind.allow a
    → MatchIs Kind.allow b
    → MatchIs Kind.deny c
    → MatchIs Kind.deny d
    → (first_hit t a b c d reason).allowed
      ≡ (is_some a || is_some b) || not (is_some c || is_some d)
first_hit-allowed t (some r) b c d reason ha hb hc hd = decision-allow r ha
first_hit-allowed t none (some r) c d reason ha hb hc hd = decision-allow r hb
first_hit-allowed t none none (some r) d reason ha hb hc hd = decision-deny r hc
first_hit-allowed t none none none (some r) reason ha hb hc hd = decision-deny r hd
first_hit-allowed t none none none none reason ha hb hc hd = refl

decide-hits :
    (t : Texts) (client origin : Option String) (rs : RuleSet)
    → HasKinds rs
    → (decide t client rs origin).allowed
      ≡ hits t Kind.allow (address_of t client) (code_of t origin) rs
        || not (hits t Kind.deny (address_of t client) (code_of t origin) rs)
unfolding decide
decide-hits t client origin rs h =
    first_hit-allowed t _ _ _ _ _
      (match_network-MatchIs t Kind.allow (address_of t client) rs.allow_networks h.allow_networks)
      (match_country-MatchIs t Kind.allow (code_of t origin) rs.allow_countries h.allow_countries)
      (match_network-MatchIs t Kind.deny (address_of t client) rs.deny_networks h.deny_networks)
      (match_country-MatchIs t Kind.deny (code_of t origin) rs.deny_countries h.deny_countries)

no_rules-hits :
    (t : Texts) (k : Kind) (addr : Option Address) (code : Option String)
    → hits t k addr code no_rules ≡ false
unfolding match_network match_country lookup_code
no_rules-hits t Kind.allow none none = refl
no_rules-hits t Kind.allow none (some c) = refl
no_rules-hits t Kind.allow (some a) none = refl
no_rules-hits t Kind.allow (some a) (some c) = refl
no_rules-hits t Kind.deny none none = refl
no_rules-hits t Kind.deny none (some c) = refl
no_rules-hits t Kind.deny (some a) none = refl
no_rules-hits t Kind.deny (some a) (some c) = refl

compile_rules-hits :
    (t : Texts) (k : Kind) (addr : Option Address) (code : Option String) (rules : List Rule)
    → hits t k addr code (compile_rules t rules) ≡ any_applies t k addr code rules
compile_rules-hits t k addr code rules =
    compile_onto-hits t k addr code rules no_rules ∙ rw (no_rules-hits t k addr code) refl

-- A client is let in exactly if some live allow rule matches its address or its country, or no live
-- deny rule does, whatever the order of the rules is: the compilation into networks and countries
-- loses and adds no rule. A rule is live if it is enabled, not deleted, has a value, and its kind and
-- match type are known; an address that does not parse is in no network.
pub decide_precedence :
    (t : Texts) (client origin : Option String) (rules : List Rule)
    → (decide t client (compile_rules t rules) origin).allowed
      ≡ any_applies t Kind.allow (address_of t client) (code_of t origin) rules
        || not (any_applies t Kind.deny (address_of t client) (code_of t origin) rules)
decide_precedence t client origin rules =
    let addr = address_of t client in
    let code = code_of t origin in
    decide-hits t client origin (compile_rules t rules) (
      compile_onto-HasKinds t rules no_rules (record {
        allow_networks = tt;
        deny_networks = tt;
        allow_countries = tt;
        deny_countries = tt;
      }))
    ∙ rw (compile_rules-hits t Kind.allow addr code rules)
        (rw (compile_rules-hits t Kind.deny addr code rules) refl)
