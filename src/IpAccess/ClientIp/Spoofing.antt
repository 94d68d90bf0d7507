-- ===== src/IpAccess/ClientIp/Spoofing.antt =====
-- What a client can reach by writing its own `X-Forwarded-For` header (backend/app/core/client_ip.py).
use blyns_ops.Prelude.{
  String, arith, ◌∙◌, ◌≡◌, refl, Bool, true, false, none, some, List, [], ◌∷◌, ◌++◌, str_eq,
  find_one, insert_one, All, if◌then◌else◌,
}
use blyns_ops.IpAccess.Addresses.{Texts, Network}
use blyns_ops.IpAccess.ClientIp.{
  chain_of, reversed, parse_networks, ip_in_networks, is_client, walk, resolve_client_ip,
}

find_one-kept :
    (q : String → Bool) (xs : List String) (x y : String)
    → find_one q xs ≡ some y
    → find_one q (insert_one xs x) ≡ some y
find_one-kept q [] x y h = cc
find_one-kept q (z ∷ xs) x y h = ground (arith, find_one-kept q xs x y)

find_one-last :
    (q : String → Bool) (xs : List String) (x : String)
    → find_one q xs ≡ none
    → find_one q (insert_one xs x) ≡ (if q x then some x else none)
find_one-last q [] x h = refl
find_one-last q (z ∷ xs) x h = ground (arith, find_one-last q xs x)

-- Behind hops that are no clients, the first client from the right is found.
find_one-reversed :
    (q : String → Bool) (after : List String)
    → All (λ hop. q hop ≡ false) after
    → find_one q (reversed after) ≡ none
find_one-reversed q [] h = refl
find_one-reversed q (x ∷ after) h =
    find_one-last q (reversed after) x (find_one-reversed q after h.1) ∙ rw h.0 refl

rightmost :
    (q : String → Bool) (before after : List String) (hop : String)
    → q hop ≡ true
    → All (λ other. q other ≡ false) after
    → find_one q (reversed (before ++ hop ∷ after)) ≡ some hop
rightmost q [] after hop hit h =
    find_one-last q (reversed after) hop (find_one-reversed q after h) ∙ rw hit refl
rightmost q (x ∷ before) after hop hit h =
    find_one-kept q (reversed (before ++ hop ∷ after)) x hop (rightmost q before after hop hit h)

walk-rightmost :
    (t : Texts) (socket : String) (nets : List Network) (before after : List String) (hop : String)
    → is_client t nets hop ≡ true
    → All (λ other. is_client t nets other ≡ false) after
    → some (walk t socket (before ++ hop ∷ after) nets) ≡ some hop
unfolding walk
walk-rightmost t socket nets before after hop client others =
    rw (walk, rightmost (is_client t nets) before after hop client others) refl

-- Behind a trusted proxy the client's address does not depend on what the client itself writes into
-- the header. If the peer is a trusted proxy, and the chain of the header has an address of no trusted
-- proxy with only trusted proxies or texts that are no addresses behind it, that address is taken,
-- whatever stands before it.
pub client_unspoofed :
    (t : Texts) (trusted : List String) (socket forwarded hop : String) (before after : List String)
    → str_eq socket "" ≡ false
    → str_eq forwarded "" ≡ false
    → ip_in_networks t socket (parse_networks t trusted) ≡ true
    → chain_of forwarded ≡ before ++ hop ∷ after
    → is_client t (parse_networks t trusted) hop ≡ true
    → All (λ other. is_client t (parse_networks t trusted) other ≡ false) after
    → resolve_client_ip t (some socket) (some forwarded) trusted ≡ some hop
unfolding resolve_client_ip
client_unspoofed t trusted socket forwarded hop before after given sent proxy chain client others =
    rw given (
      rw proxy (
        rw sent (
          rw chain
            (walk-rightmost t socket (parse_networks t trusted) before after hop client others))))
