-- ===== src/Policy/Matching.antt =====
-- `_asset_matches` of evaluator.py: which rules of a policy speak of a target.
pub mod Hosts
use pent_ai.Prelude.{
  ℕ, ◌-◌, ◌/◌, ◌^◌, Bool, true, false, not, ◌&&◌, ◌||◌, none, some, Option, [], ◌∷◌, ◌++◌, ◌==◌,
  nat_eq, list_eq, string_eq, if◌then◌else◌, Text,
}
use pent_ai.Policy.Document.{Host, Target, Matcher, Network, Family, v4, v6, AssetRule, host_eq}
use pent_ai.Policy.Paths.{path_matches}

-- `s.endswith(suffix)`
unfoldable pub ends_with : Text → Text → Bool
ends_with [] suffix = suffix == []
ends_with (c ∷ s) suffix = c ∷ s == suffix || ends_with s suffix

abbrev pub dot : ℕ
dot = b'.'

-- The number of bits of an address.
abbrev pub address_bits : Family → ℕ
address_bits v4 = 32
address_bits v6 = 128

-- `address in network` for an address of the network's own family
unfoldable pub in_network : Network → ℕ → Bool
in_network network address =
    let size = 2 ^ (address_bits network.family - network.prefix_length) in
    address / size == network.network_address / size

-- The `cidr` branch: an address of the other family is in no network.
unfoldable pub cidr_matches : Network → Family → Host → Bool
unfolding in_network
cidr_matches network v4 (Host.ipv4 a) = in_network network a
cidr_matches network v6 (Host.ipv6 a) = in_network network a
cidr_matches network _ _ = false

-- The `wildcard_domain` branch
unfoldable pub wildcard_matches : Text → Bool → Host → Bool
wildcard_matches base include_apex (Host.domain value) =
    (include_apex && value == base) || ends_with value (dot ∷ base)
wildcard_matches base include_apex (Host.ipv4 a) = false
wildcard_matches base include_apex (Host.ipv6 a) = false

unfoldable pub matcher_matches : Matcher → Target → Bool
unfolding cidr_matches wildcard_matches
matcher_matches (Matcher.url scheme host port path) target =
    scheme == target.scheme
    && (host == target.host && (port == target.port && path_matches path target.path))
matcher_matches (Matcher.domain value) target = target.host == Host.domain value
matcher_matches (Matcher.wildcard_domain base include_apex) target =
    wildcard_matches base include_apex target.host
matcher_matches (Matcher.ipv4 a) target = target.host == Host.ipv4 a
matcher_matches (Matcher.ipv6 a) target = target.host == Host.ipv6 a
matcher_matches (Matcher.cidr network) target = cidr_matches network network.family target.host

-- `path_prefix is None or _path_matches(path_prefix, path)`
unfoldable pub prefix_admits : Option Text → Text → Bool
prefix_admits none path = true
prefix_admits (some prefix) path = path_matches prefix path

unfoldable pub asset_matches : AssetRule → Target → Bool
unfolding matcher_matches prefix_admits
asset_matches rule target =
    if not (prefix_admits rule.path_prefix target.path)
    then false
    else matcher_matches rule.matcher target
