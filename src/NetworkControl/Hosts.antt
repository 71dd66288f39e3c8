-- ===== src/NetworkControl/Hosts.antt =====
-- Hosts, addresses and URLs of network_control.py. What ipaddress, idna and urllib make of a text is a
-- parameter.
use pent_ai.Prelude.{
  ℕ, zero, suc, ◌+◌, ◌/◌, ◌%◌, Bool, true, false, ◌&&◌, ◌||◌, Option, none, some, List, [], ◌∷◌,
  ◌++◌, string_eq, nat_eq, option_eq, list_eq, if◌then◌else◌, any, ltb, Text, codes, Result, ok,
  ◌>>=◌, ◌>>◌, guard, or_fail,
}
use pent_ai.Policy.Document.{Host, Target, target_eq, v4, v6, Network}
use pent_ai.Policy.Evaluator.{Platform}
use pent_ai.Policy.Matching.{cidr_matches}
use pent_ai.NetworkControl.{denial_eq, dns_special_address, Failure, malformed, value_error}

pub record Toolbox : Type 0 where
  pub platform : Platform
  -- `none` where a canonicalizer raises
  pub canonicalize_ip : Text → Option Host
  pub canonicalize_domain : Text → Option Text
  -- the text of an address
  pub address_text : Host → Text
  -- `address.is_global`
  pub is_global : Host → Bool

-- `_DOCUMENTATION_NETWORKS`
abbrev pub documentation_networks : List Network
documentation_networks =
    record { family = v4; network_address = 3_221_225_984; prefix_length = 24 }
    ∷ record { family = v4; network_address = 3_325_256_704; prefix_length = 24 }
    ∷ record { family = v4; network_address = 3_405_803_776; prefix_length = 24 }
    ∷ record {
      family = v6;
      network_address = 42_540_766_411_282_592_856_903_984_951_653_826_560;
      prefix_length = 32;
    }
    ∷ []

abbrev pub is_ipv6 : Host → Bool
is_ipv6 (Host.ipv6 n) = true
is_ipv6 _ = false

-- `str(host["value"])`
abbrev pub host_value : Toolbox → Host → Text
host_value tools (Host.domain name) = name
host_value tools address = tools.address_text address

-- `_canonical_host`
unfoldable pub canonical_host : Toolbox → Text → Option Text
canonical_host tools value = elim (tools.canonicalize_ip value) [
  | some address ↦ some (tools.address_text address)
  | none ↦ tools.canonicalize_domain value
]

unfoldable pub is_documentation : Host → Bool
is_documentation address =
    any (λ (network : Network). cidr_matches network network.family address) documentation_networks

-- `_destination_address`
unfoldable pub destination_address : Toolbox → Bool → Text → Result Failure Host
destination_address tools fixture value = do
  address ← or_fail (tools.canonicalize_ip value) malformed
  guard (fixture && is_documentation address || tools.is_global address)
      (value_error dns_special_address)
  ok address

-- The loop over `addresses`
unfoldable pub pin : Toolbox → Bool → List Text → Result Failure (List Host)
pin tools fixture [] = ok []
pin tools fixture (value ∷ values) = do
  address ← destination_address tools fixture value
  rest ← pin tools fixture values
  ok (address ∷ rest)

-- The decimal digits of a number
abbrev digits : ℕ → ℕ → Text
digits zero n = []
digits (suc fuel) n =
    let rest = digits fuel (n / 10) in
    if ltb n 10 then (48 + n) ∷ [] else rest ++ ((48 + n % 10) ∷ [])

-- The URL of a name of the chain
unfoldable pub cname_url : Target → Text → Text
cname_url candidate name =
    codes candidate.scheme
    ++ (codes "://"
        ++ (name ++ (codes ":" ++ (digits (suc candidate.port) candidate.port ++ candidate.path))))
