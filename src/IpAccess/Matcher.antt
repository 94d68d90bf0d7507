-- ===== src/IpAccess/Matcher.antt =====
-- The matching engine of the access rules (backend/app/control_plane/ip_access/matcher.py).
pub mod Hits
pub mod Kinds
pub mod Precedence
use blyns_ops.Prelude.{
  ℕ, String, Bool, true, false, Option, none, some, List, [], ◌∷◌, not, ◌||◌, str_eq, is_some,
  find_one, insert_one, if◌then◌else◌,
}
use blyns_ops.IpAccess.Addresses.{Texts, Address, Network, contains}

pub data Kind : Type 0 where
  allow deny : Kind

pub data MatchType : Type 0 where
  ip cidr country : MatchType

-- A row of `ip_rules`. A kind or a match type that is none of these is `none`.
pub record Rule : Type 0 where
  pub id : Option ℕ
  pub kind : Option Kind
  pub match_type : Option MatchType
  pub value : String
  pub enabled : Bool
  pub is_deleted : Bool

pub data Reason : Type 0 where
  allowlisted denied default_allow unresolved : Reason

pub record CompiledRule : Type 0 where
  pub rule_id : Option ℕ
  pub kind : Kind
  pub match_type : MatchType
  pub value : String
  pub network : Option Network

pub record Decision : Type 0 where
  pub allowed : Bool
  pub reason : Reason
  pub rule : Option CompiledRule

-- `_CompiledRule.decision`
abbrev pub decision : CompiledRule → Decision
decision r = elim r.kind [
  | Kind.allow ↦ record { allowed = true; reason = Reason.allowlisted; rule = some r }
  | Kind.deny ↦ record { allowed = false; reason = Reason.denied; rule = some r }
]

-- The dictionaries by country code are association lists.
pub record RuleSet : Type 0 where
  pub allow_networks : List CompiledRule
  pub deny_networks : List CompiledRule
  pub allow_countries : List (String × CompiledRule)
  pub deny_countries : List (String × CompiledRule)

abbrev pub no_rules : RuleSet
no_rules = record {
  allow_networks = [];
  deny_networks = [];
  allow_countries = [];
  deny_countries = [];
}

-- `bucket[code] = rule`
unfoldable pub set_code :
    String → CompiledRule → List (String × CompiledRule) → List (String × CompiledRule)
set_code code r [] = (code, r) ∷ []
set_code code r ((k, v) ∷ rest) =
    if str_eq code k then (k, r) ∷ rest else (k, v) ∷ set_code code r rest

-- `bucket.get(code)`
unfoldable pub lookup_code : String → List (String × CompiledRule) → Option CompiledRule
lookup_code code [] = none
lookup_code code ((k, v) ∷ rest) = if str_eq code k then some v else lookup_code code rest

abbrev pub add_network : Kind → CompiledRule → RuleSet → RuleSet
add_network Kind.allow r rs = record rs { allow_networks = insert_one rs.allow_networks r }
add_network Kind.deny r rs = record rs { deny_networks = insert_one rs.deny_networks r }

abbrev pub add_country : Kind → CompiledRule → RuleSet → RuleSet
add_country Kind.allow r rs = record rs { allow_countries = set_code r.value r rs.allow_countries }
add_country Kind.deny r rs = record rs { deny_countries = set_code r.value r rs.deny_countries }

abbrev pub is_skipped : Rule → Bool
is_skipped r = r.is_deleted || not r.enabled

abbrev pub compiled : Rule → Kind → MatchType → String → Option Network → CompiledRule
compiled r k m value network = record {
  rule_id = r.id;
  kind = k;
  match_type = m;
  value = value;
  network = network;
}

module _ (t : Texts) where
  -- An address or a network that no longer parses is skipped.
  abbrev pub compile_network : Rule → Kind → MatchType → RuleSet → RuleSet
  compile_network r k m rs = elim (t.ip_network r.value) [
    | none ↦ rs
    | some n ↦ add_network k (compiled r k m r.value (some n)) rs
  ]

  abbrev pub compile_as : Rule → Kind → Option MatchType → RuleSet → RuleSet
  compile_as r k none rs = rs
  compile_as r k (some MatchType.ip) rs = compile_network r k MatchType.ip rs
  compile_as r k (some MatchType.cidr) rs = compile_network r k MatchType.cidr rs
  compile_as r k (some MatchType.country) rs =
      add_country k (compiled r k MatchType.country (t.upper r.value) none) rs

  abbrev pub compile_kind : Rule → Option Kind → RuleSet → RuleSet
  compile_kind r none rs = rs
  compile_kind r (some k) rs = if str_eq r.value "" then rs else compile_as r k r.match_type rs

  -- One step of the loop.
  unfoldable pub compile_rule : Rule → RuleSet → RuleSet
  unfolding set_code
  compile_rule r rs = if is_skipped r then rs else compile_kind r r.kind rs

  unfoldable pub compile_onto : List Rule → RuleSet → RuleSet
  compile_onto [] rs = rs
  compile_onto (r ∷ rules) rs = compile_onto rules (compile_rule r rs)

  abbrev pub compile_rules : List Rule → RuleSet
  compile_rules rules = compile_onto rules no_rules

  -- `addr in rule.network`
  abbrev pub in_network : Address → CompiledRule → Bool
  in_network a r = elim r.network [ none ↦ false | some n ↦ contains n a ]

  -- `_match_network`, and no match without an address.
  unfoldable pub match_network : Option Address → List CompiledRule → Option CompiledRule
  match_network none rules = none
  match_network (some a) rules = find_one (in_network a) rules

  unfoldable pub match_country : Option String → List (String × CompiledRule) → Option CompiledRule
  unfolding lookup_code
  match_country none rules = none
  match_country (some code) rules = lookup_code code rules

  -- A text that is missing or empty counts as none.
  abbrev pub given : Option String → Option String
  given none = none
  given (some text) = if str_eq text "" then none else some text

  abbrev pub address_of : Option String → Option Address
  address_of client = elim (given client) [ none ↦ none | some text ↦ t.ip_address text ]

  abbrev pub code_of : Option String → Option String
  code_of origin = elim (given origin) [ none ↦ none | some c ↦ given (some (t.upper c)) ]

  abbrev is_unresolved : Option String → Option Address → Bool
  is_unresolved client (some a) = false
  is_unresolved client none = is_some (given client)

  -- The first of the four matches that there is.
  abbrev pub first_hit :
      Option CompiledRule
      → Option CompiledRule
      → Option CompiledRule
      → Option CompiledRule
      → Reason
      → Decision
  first_hit (some r) _ _ _ reason = decision r
  first_hit none (some r) _ _ reason = decision r
  first_hit none none (some r) _ reason = decision r
  first_hit none none none (some r) reason = decision r
  first_hit none none none none reason = record { allowed = true; reason = reason; rule = none }

  unfoldable pub decide : Option String → RuleSet → Option String → Decision
  unfolding match_network match_country
  decide client rs origin =
      let addr = address_of client in
      let code = code_of origin in
      first_hit (match_network addr rs.allow_networks) (match_country code rs.allow_countries)
        (match_network addr rs.deny_networks) (match_country code rs.deny_countries)
        (if is_unresolved client addr then Reason.unresolved else Reason.default_allow)
