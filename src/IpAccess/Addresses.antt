-- ===== src/IpAccess/Addresses.antt =====
-- Internet addresses and networks as Python's `ipaddress` has them: a version and a number, and for a
-- network its prefix length. How their texts are read, and the upper case of a text, is a parameter.
use Prim.Native.Nat.{◌^◌}
use blyns_ops.Prelude.{ℕ, ◌-◌, ◌/◌, String, Bool, true, false, Option, ◌&&◌, ◌==◌}

pub data Version : Type 0 where
  v4 v6 : Version

pub record Address : Type 0 where
  pub version : Version
  pub number : ℕ

pub record Network : Type 0 where
  pub version : Version
  pub base : ℕ
  pub prefix : ℕ

-- `ipaddress.ip_address`, `ipaddress.ip_network(…, strict=False)` and `str.upper`
pub record Texts : Type 0 where
  pub ip_address : String → Option Address
  pub ip_network : String → Option Network
  pub upper : String → String

abbrev pub same_version : Version → Version → Bool
same_version Version.v4 Version.v4 = true
same_version Version.v6 Version.v6 = true
same_version _ _ = false

abbrev bits : Version → ℕ
bits Version.v4 = 32
bits Version.v6 = 128

-- `addr in network`: the same version, and the same leading bits.
unfoldable pub contains : Network → Address → Bool
contains n a =
    same_version a.version n.version
    && a.number / 2 ^ (bits n.version - n.prefix) == n.base / 2 ^ (bits n.version - n.prefix)
