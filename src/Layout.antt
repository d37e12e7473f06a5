-- ===== src/Layout.antt =====
-- internal/layout/layout.go: the names of the objects in storage, relative to the deployment's
-- prefix, and the names that companion certificates are filed under.
pub mod Names
use go_certs_manager.Base.{Text, codes, to_lower, has_suffix, trim_suffix, Bool, ◌++◌}

abbrev pub chain_dir : Text
chain_dir = codes "certs/"

abbrev pub key_dir : Text
key_dir = codes "keys/"

abbrev pub next_key_suffix : Text
next_key_suffix = codes ".next"

abbrev pub companion_suffix : Text
companion_suffix = codes "+rsa"

abbrev pub on_demand_hosts : Text
on_demand_hosts = codes "ondemand/hosts.json"

abbrev pub on_demand_cert_index : Text
on_demand_cert_index = codes "ondemand/certs-index.json"

unfoldable pub chain : Text → Text → Text
chain prefix domain = prefix ++ (chain_dir ++ to_lower domain)

unfoldable pub key : Text → Text → Text
key prefix domain = prefix ++ (key_dir ++ to_lower domain)

unfoldable pub next_key : Text → Text → Text
unfolding key
next_key prefix domain = key prefix domain ++ next_key_suffix

unfoldable pub companion : Text → Text
companion domain = to_lower domain ++ companion_suffix

unfoldable pub is_companion : Text → Bool
is_companion name = has_suffix name companion_suffix

unfoldable pub cert_domain : Text → Text
cert_domain name = trim_suffix name companion_suffix
