-- ===== src/Tests/Access.antt =====
-- Tests of logins, the access rules and the client's address, and their theorems at concrete requests.
use blyns_ops.Prelude.{
  insert_one, arith, ℕ, String, ◌≡◌, refl, true, false, Option, none, some, List, [], ◌∷◌, not,
  ◌||◌, str_eq, if◌then◌else◌,
}
use blyns_ops.Auth.{User, Outcome, AuthError, rotate_refresh, check_lockout, lock_time}
use blyns_ops.Auth.Sessions.{rotate_refresh_once}
use blyns_ops.Auth.Lockout.{fail_at, fail_at_locks}
use blyns_ops.IpAccess.Addresses.{Version, Address, Network, Texts, contains}
use blyns_ops.IpAccess.Matcher.{Kind, MatchType, Rule, compile_rules, address_of, code_of, decide}
use blyns_ops.IpAccess.Matcher.Hits.{any_applies}
use blyns_ops.IpAccess.Matcher.Precedence.{decide_precedence}
use blyns_ops.IpAccess.ClientIp.{resolve_client_ip, ip_in_networks, parse_networks, chain_of}
use blyns_ops.IpAccess.ClientIp.Spoofing.{client_unspoofed}

abbrev address : ℕ → Address
address n = record { version = Version.v4; number = n }

-- 10.0.0.1 is the proxy and 203.0.113.9 the client; 10.0.0.0/8 is the proxy's network.
abbrev read_address : String → Option Address
read_address text =
    if str_eq text "10.0.0.1"
    then some (address 167772161)
    else if str_eq text "203.0.113.9"
    then some (address 3405803785)
    else none

abbrev read_network : String → Option Network
read_network text =
    if str_eq text "10.0.0.0/8"
    then some (record { version = Version.v4; base = 167772160; prefix = 8 })
    else none

abbrev texts : Texts
texts = record { ip_address = read_address; ip_network = read_network; upper = λ text. text }

abbrev rule_of : Kind → MatchType → String → Rule
rule_of k m value = record {
  id = none;
  kind = some k;
  match_type = some m;
  value = value;
  enabled = true;
  is_deleted = false;
}

abbrev rules : List Rule
rules =
    rule_of Kind.deny MatchType.country "XX" ∷ rule_of Kind.allow MatchType.cidr "10.0.0.0/8" ∷ []

decide_precedence_example :
    (decide texts (some "10.0.0.1") (compile_rules texts rules) (some "XX")).allowed
    ≡ any_applies texts Kind.allow
        (address_of texts (some "10.0.0.1"))
        (code_of texts (some "XX"))
        rules
      || not (
          any_applies texts Kind.deny
            (address_of texts (some "10.0.0.1"))
            (code_of texts (some "XX"))
            rules)
decide_precedence_example = decide_precedence texts (some "10.0.0.1") (some "XX") rules

peer_trusted : ip_in_networks texts "10.0.0.1" (parse_networks texts ("10.0.0.0/8" ∷ [])) ≡ true
unfolding ip_in_networks parse_networks contains
peer_trusted = refl

forged_chain : chain_of "1.2.3.4, 203.0.113.9" ≡ "1.2.3.4" ∷ "203.0.113.9" ∷ []
unfolding chain_of
forged_chain = refl

client_unspoofed_example :
    resolve_client_ip texts (some "10.0.0.1") (some "1.2.3.4, 203.0.113.9") ("10.0.0.0/8" ∷ [])
    ≡ some "203.0.113.9"
unfolding ip_in_networks parse_networks contains
client_unspoofed_example =
    client_unspoofed texts ("10.0.0.0/8" ∷ []) "10.0.0.1" "1.2.3.4, 203.0.113.9" "203.0.113.9"
      ("1.2.3.4" ∷ []) [] refl refl peer_trusted forged_chain refl tt

abbrev member : User
member = record {
  failed_attempts = 0;
  locked_until = none;
  last_login_at = none;
  refresh_jtis = "a1" ∷ "b2" ∷ [];
}

rotate_refresh_once_example :
    rotate_refresh "a1" "d4" (rotate_refresh "a1" "c3" member).1
    ≡ (Outcome.raised AuthError.permission_denied, (rotate_refresh "a1" "c3" member).1)
rotate_refresh_once_example = rotate_refresh_once "a1" "c3" "d4" member refl

fail_at_locks_example :
    (fail_at 3 15 (insert_one (100 ∷ 200 ∷ []) 300) member
      ≡ record member { failed_attempts = 0; locked_until = some (lock_time 300 15) })
    × (check_lockout 400 (fail_at 3 15 (insert_one (100 ∷ 200 ∷ []) 300) member)
        ≡ Outcome.raised AuthError.account_locked)
fail_at_locks_example = fail_at_locks 3 15 (100 ∷ 200 ∷ []) 300 400 member refl refl (omega arith)
