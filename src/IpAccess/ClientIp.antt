-- ===== src/IpAccess/ClientIp.antt =====
-- The client's address behind trusted proxies (backend/app/core/client_ip.py).
pub mod Spoofing
use Prim.Native.Char.{code}
use blyns_ops.Prelude.{
  String, Bool, true, false, Option, none, some, List, [], ◌∷◌, not, ◌&&◌, ◌||◌, ◌==◌, str_eq,
  is_some, is_space, if◌then◌else◌, find_one, insert_one, any_of,
}
use blyns_ops.IpAccess.Addresses.{Texts, Address, Network, contains}

-- `text.strip()`, in its two halves
unfoldable pub strip_left : String → String
strip_left String.[] = ""
strip_left (String.◌∷◌ c text) = if is_space (code c) then strip_left text else String.◌∷◌ c text

unfoldable pub strip_right : String → String
strip_right String.[] = ""
strip_right (String.◌∷◌ c text) =
    let rest = strip_right text in
    if is_space (code c) && str_eq rest "" then "" else String.◌∷◌ c rest

abbrev pub strip : String → String
strip text = strip_right (strip_left text)

-- `text.split(",")`: the part that a text begins with, and the parts after it
unfoldable pub split_commas : String → String × List String
split_commas String.[] = ("", [])
split_commas (String.◌∷◌ c text) =
    let (part, parts) = split_commas text in
    if code c == 44 then ("", part ∷ parts) else (String.◌∷◌ c part, parts)

-- The stripped parts that are not empty.
unfoldable pub strip_parts : List String → List String
unfolding strip_left strip_right
strip_parts [] = []
strip_parts (part ∷ parts) =
    let rest = strip_parts parts in if str_eq (strip part) "" then rest else strip part ∷ rest

-- The chain of an `X-Forwarded-For` header.
unfoldable pub chain_of : String → List String
unfolding split_commas strip_parts
chain_of forwarded = let (part, parts) = split_commas forwarded in strip_parts (part ∷ parts)

abbrev pub reversed : List String → List String
reversed [] = []
reversed (x ∷ xs) = insert_one (reversed xs) x

abbrev pub is_given : Option String → Bool
is_given none = false
is_given (some text) = not (str_eq text "")

module _ (t : Texts) where
  abbrev pub with_network : Option Network → List Network → List Network
  with_network none nets = nets
  with_network (some n) nets = n ∷ nets

  -- Entries that are empty or do not parse are skipped.
  unfoldable pub parse_networks : List String → List Network
  unfolding strip_left strip_right
  parse_networks [] = []
  parse_networks (e ∷ es) =
      let rest = parse_networks es in
      if str_eq (strip e) "" then rest else with_network (t.ip_network (strip e)) rest

  unfoldable pub ip_in_networks : String → List Network → Bool
  ip_in_networks text nets = elim (t.ip_address text) [
    | none ↦ false
    | some a ↦ any_of (λ (n : Network). contains n a) nets
  ]

  abbrev pub valid_ip : String → Bool
  valid_ip text = is_some (t.ip_address text)

  -- A hop of the chain that is an address of no trusted proxy.
  abbrev pub is_client : List Network → String → Bool
  is_client nets hop = valid_ip hop && not (ip_in_networks hop nets)

  -- The walk from the right, then the leftmost address, then the peer itself.
  unfoldable pub walk : String → List String → List Network → String
  unfolding ip_in_networks
  walk socket chain nets = elim (find_one (is_client nets) (reversed chain)) [
    | some hop ↦ hop
    | none ↦ elim (find_one valid_ip chain) [ some hop ↦ hop | none ↦ socket ]
  ]

  abbrev resolve_forwarded : String → Option String → List Network → String
  resolve_forwarded socket none nets = socket
  resolve_forwarded socket (some forwarded) nets =
      if str_eq forwarded "" then socket else walk socket (chain_of forwarded) nets

  abbrev resolve_peer : String → Option String → List Network → String
  resolve_peer socket forwarded nets =
      if ip_in_networks socket nets then resolve_forwarded socket forwarded nets else socket

  unfoldable pub resolve_client_ip : Option String → Option String → List String → Option String
  unfolding parse_networks ip_in_networks walk chain_of
  resolve_client_ip none forwarded trusted = none
  resolve_client_ip (some socket) forwarded trusted =
      if str_eq socket ""
      then none
      else some (resolve_peer socket forwarded (parse_networks trusted))

  -- `resolved or "unknown"`
  abbrev or_unknown : Option String → String
  or_unknown none = "unknown"
  or_unknown (some text) = if str_eq text "" then "unknown" else text

  unfoldable pub client_ip : Option String → Option String → List String → String
  unfolding resolve_client_ip
  client_ip socket forwarded trusted = or_unknown (resolve_client_ip socket forwarded trusted)
