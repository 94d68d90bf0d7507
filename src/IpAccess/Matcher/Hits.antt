-- ===== src/IpAccess/Matcher/Hits.antt =====
-- What the compiled rules match, stated on the rows of `ip_rules`
-- (backend/app/control_plane/ip_access/matcher.py, `compile_rules`).
use blyns_ops.Prelude.{
  String, ◌≡◌, refl, sym, ◌∙◌, Bool, true, false, Option, none, some, List, [], ◌∷◌, not, ◌&&◌,
  ◌||◌, str_eq, is_some, find_one, insert_one, any_of, Bool-cases, inl, inr, eq_iff,
}
use blyns_ops.IpAccess.Addresses.{Texts, Address, Network, contains}
use blyns_ops.IpAccess.Matcher.{
  Kind, MatchType, Rule, CompiledRule, RuleSet, set_code, lookup_code, is_skipped, compile_rule,
  compile_kind, compile_as, add_network, add_country, compiled, compile_onto, in_network,
  match_network, match_country,
}

abbrev pub is_of_kind : Kind → Option Kind → Bool
is_of_kind Kind.allow (some Kind.allow) = true
is_of_kind Kind.deny (some Kind.deny) = true
is_of_kind _ _ = false

-- The client's address is in the network that the text stands for.
abbrev pub network_contains : Option Network → Option Address → Bool
network_contains o none = false
network_contains none (some a) = false
network_contains (some n) (some a) = contains n a

abbrev pub same_code : String → Option String → Bool
same_code value none = false
same_code value (some code) = str_eq code value

abbrev pub applies_as : Texts → Option Address → Option String → String → Option MatchType → Bool
applies_as t addr code value none = false
applies_as t addr code value (some MatchType.ip) = network_contains (t.ip_network value) addr
applies_as t addr code value (some MatchType.cidr) = network_contains (t.ip_network value) addr
applies_as t addr code value (some MatchType.country) = same_code (t.upper value) code

-- A live rule of the kind that has a value, and matches the client's address or country.
abbrev pub applies : Texts → Kind → Option Address → Option String → Rule → Bool
applies t k addr code r =
    not (is_skipped r)
    && is_of_kind k r.kind
    && not (str_eq r.value "")
    && applies_as t addr code r.value r.match_type

abbrev pub any_applies : Texts → Kind → Option Address → Option String → List Rule → Bool
any_applies t k addr code rules = any_of (applies t k addr code) rules

pub or_false : (b : Bool) → b || false ≡ b
or_false true = refl
or_false false = refl

or_right : (a b c : Bool) → (a || c) || b ≡ (a || b) || c
or_right true b c = refl
or_right false true true = refl
or_right false true false = refl
or_right false false true = refl
or_right false false false = refl

or_assoc : (a b c : Bool) → a || (b || c) ≡ (a || b) || c
or_assoc true b c = refl
or_assoc false b c = refl

or_assoc_sym : (a b c : Bool) → (a || b) || c ≡ a || (b || c)
or_assoc_sym a b c = sym (or_assoc a b c)

-- What the compiled rules of a kind match.
abbrev pub networks_of : Kind → RuleSet → List CompiledRule
networks_of Kind.allow rs = rs.allow_networks
networks_of Kind.deny rs = rs.deny_networks

abbrev pub countries_of : Kind → RuleSet → List (String × CompiledRule)
countries_of Kind.allow rs = rs.allow_countries
countries_of Kind.deny rs = rs.deny_countries

abbrev pub hits : Texts → Kind → Option Address → Option String → RuleSet → Bool
hits t k addr code rs =
    is_some (match_network t addr (networks_of k rs))
    || is_some (match_country t code (countries_of k rs))

find_one-insert :
    (q : CompiledRule → Bool) (rs : List CompiledRule) (r : CompiledRule)
    → is_some (find_one q (insert_one rs r)) ≡ is_some (find_one q rs) || q r
find_one-insert q [] r = elim (Bool-cases (q r)) [ inl hit ↦ rw hit refl | inr miss ↦ rw miss refl ]
find_one-insert q (x ∷ rs) r = elim (Bool-cases (q x)) [
  | inl hit ↦ rw hit refl
  | inr miss ↦ rw miss (find_one-insert q rs r)
]

set_code-lookup :
    (code key : String) (r : CompiledRule) (d : List (String × CompiledRule))
    → is_some (lookup_code code (set_code key r d))
      ≡ is_some (lookup_code code d) || str_eq code key
unfolding lookup_code set_code
set_code-lookup code key r [] = elim (Bool-cases (str_eq code key)) [
  | inl hit ↦ rw hit refl
  | inr miss ↦ rw miss refl
]
set_code-lookup code key r ((k, v) ∷ d) = elim (Bool-cases (str_eq key k)) [
  | inl same ↦ rw same (
      rw ((eq_iff key k).0 same) (elim (Bool-cases (str_eq code k)) [
        | inl hit ↦ rw hit refl
        | inr miss ↦ rw miss (sym (or_false (is_some (lookup_code code d))))
      ]))
  | inr other ↦ rw other (elim (Bool-cases (str_eq code k)) [
    | inl hit ↦ rw hit refl
    | inr miss ↦ rw miss (set_code-lookup code key r d)
  ])
]

contains-none : (addr : Option Address) → network_contains none addr ≡ false
contains-none none = refl
contains-none (some a) = refl

and_false : (b : Bool) → b && false ≡ false
and_false true = refl
and_false false = refl

and_true : (b : Bool) → b && true ≡ b
and_true true = refl
and_true false = refl

add_network-hits :
    (t : Texts) (addr : Option Address) (r : Rule) (k : Kind) (m : MatchType)
    (l : List CompiledRule) (n : Network)
    → is_some (match_network t addr (insert_one l (compiled r k m r.value (some n))))
      ≡ is_some (match_network t addr l) || network_contains (some n) addr
unfolding match_network
add_network-hits t none r k m l n = refl
add_network-hits t (some a) r k m l n =
    find_one-insert (in_network t a) l (compiled r k m r.value (some n))

add_country-hits :
    (t : Texts) (code : Option String) (r : Rule) (k : Kind) (d : List (String × CompiledRule))
    → is_some (
        match_country t code
          (set_code (t.upper r.value) (compiled r k MatchType.country (t.upper r.value) none) d))
      ≡ is_some (match_country t code d) || same_code (t.upper r.value) code
unfolding match_country
add_country-hits t none r k d = refl
add_country-hits t (some c) r k d =
    set_code-lookup c (t.upper r.value) (compiled r k MatchType.country (t.upper r.value) none) d

module _ (t : Texts) (addr : Option Address) (code : Option String) (r : Rule) (rs : RuleSet) where
  network-hits :
      (k k' : Kind) (m : MatchType) (n : Network)
      → hits t k addr code (add_network k' (compiled r k' m r.value (some n)) rs)
        ≡ hits t k addr code rs || (is_of_kind k (some k') && network_contains (some n) addr)
  network-hits Kind.allow Kind.allow m n =
      rw (add_network-hits t addr r Kind.allow m rs.allow_networks n) (search or_right)
  network-hits Kind.deny Kind.deny m n =
      rw (add_network-hits t addr r Kind.deny m rs.deny_networks n) (search or_right)
  network-hits Kind.allow Kind.deny m n = sym (or_false _)
  network-hits Kind.deny Kind.allow m n = sym (or_false _)

  compile_network-hits :
      (k k' : Kind) (m : MatchType) (o : Option Network)
      → hits t k addr code
          (elim o [ none ↦ rs | some n ↦ add_network k' (compiled r k' m r.value (some n)) rs ])
        ≡ hits t k addr code rs || (is_of_kind k (some k') && network_contains o addr)
  compile_network-hits k k' m none =
      rw (contains-none addr) (rw (and_false (is_of_kind k (some k'))) (sym (or_false _)))
  compile_network-hits k k' m (some n) = network-hits k k' m n

  country-hits :
      (k k' : Kind)
      → hits t k addr code
          (add_country k' (compiled r k' MatchType.country (t.upper r.value) none) rs)
        ≡ hits t k addr code rs || (is_of_kind k (some k') && same_code (t.upper r.value) code)
  country-hits Kind.allow Kind.allow =
      rw (add_country-hits t code r Kind.allow rs.allow_countries) (search or_assoc)
  country-hits Kind.deny Kind.deny =
      rw (add_country-hits t code r Kind.deny rs.deny_countries) (search or_assoc)
  country-hits Kind.allow Kind.deny = sym (or_false _)
  country-hits Kind.deny Kind.allow = sym (or_false _)

  compile_as-hits :
      (k k' : Kind) (m : Option MatchType)
      → hits t k addr code (compile_as t r k' m rs)
        ≡ hits t k addr code rs || (is_of_kind k (some k') && applies_as t addr code r.value m)
  compile_as-hits k k' none = rw (and_false (is_of_kind k (some k'))) (sym (or_false _))
  compile_as-hits k k' (some MatchType.ip) =
      compile_network-hits k k' MatchType.ip (t.ip_network r.value)
  compile_as-hits k k' (some MatchType.cidr) =
      compile_network-hits k k' MatchType.cidr (t.ip_network r.value)
  compile_as-hits k k' (some MatchType.country) = country-hits k k'

  compile_kind-hits :
      (k : Kind) (o : Option Kind)
      → hits t k addr code (compile_kind t r o rs)
        ≡ hits t k addr code rs
          || (is_of_kind k o
              && not (str_eq r.value "")
              && applies_as t addr code r.value r.match_type)
  compile_kind-hits Kind.allow none = sym (or_false _)
  compile_kind-hits Kind.deny none = sym (or_false _)
  compile_kind-hits k (some k') = elim (Bool-cases (str_eq r.value "")) [
    | inl empty ↦ rw empty (rw (and_false (is_of_kind k (some k'))) (sym (or_false _)))
    | inr given ↦
        rw given (rw (and_true (is_of_kind k (some k'))) (compile_as-hits k k' r.match_type))
  ]

  compile_rule-hits :
      (k : Kind)
      → hits t k addr code (compile_rule t r rs) ≡ hits t k addr code rs || applies t k addr code r
  unfolding compile_rule
  compile_rule-hits k = elim (Bool-cases (is_skipped r)) [
    | inl skipped ↦ rw skipped (sym (or_false _))
    | inr live ↦ rw live (compile_kind-hits k r.kind)
  ]

pub compile_onto-hits :
    (t : Texts) (k : Kind) (addr : Option Address) (code : Option String) (rules : List Rule)
    (rs : RuleSet)
    → hits t k addr code (compile_onto t rules rs)
      ≡ hits t k addr code rs || any_applies t k addr code rules
unfolding compile_onto
compile_onto-hits t k addr code [] rs = sym (or_false _)
compile_onto-hits t k addr code (r ∷ rules) rs =
    compile_onto-hits t k addr code rules (compile_rule t r rs)
    ∙ rw (compile_rule-hits t addr code r rs k) (search or_assoc_sym)
