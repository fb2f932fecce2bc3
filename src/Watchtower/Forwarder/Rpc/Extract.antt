-- ===== src/Watchtower/Forwarder/Rpc/Extract.antt =====
-- internal/watchtower/forwarder/rpc.go: the sentry's keys, and the walk over a whole payload.
use gno_watchtower.Base.{String, List, [], ◌∷◌, Assoc, str_eq, if◌then◌else◌, ℤ, pos}
use gno_watchtower.Json.{Json, as_float, as_text, as_map}
use gno_watchtower.Watchtower.Forwarder.Samples.{VmLine, whole, literal, vm_sample, int_sample}
use gno_watchtower.Watchtower.Forwarder.Rpc.{
  Payload, Status, append_decoded, base_labels, decode_status, decode_number_at, append_rpc_status,
  append_rpc_net_info, append_rpc_mempool, append_rpc_consensus, append_rpc_validators,
  append_rpc_block,
}
use gno_watchtower.Watchtower.Forwarder.Rpc.Genesis.{append_rpc_genesis}

unfoldable pub sentry_status_lines : String → ℤ → Status → List VmLine
sentry_status_lines validator ts r =
    vm_sample "sentinel_sentry_info"
      (("validator", validator)
        ∷ ("sentry_chain", r.node_info.network)
        ∷ ("sentry_moniker", r.node_info.moniker)
        ∷ ("sentry_version", r.node_info.version)
        ∷ [])
      (whole (pos 1)) ts
    ∷ []

unfoldable pub append_rpc_sentry_status : List VmLine → String → ℤ → Json → List VmLine
append_rpc_sentry_status lines validator ts raw =
    append_decoded lines (decode_status raw) (sentry_status_lines validator ts)

unfoldable pub append_rpc_sentry_net_info : List VmLine → String → ℤ → Json → List VmLine
append_rpc_sentry_net_info lines validator ts raw =
    append_decoded lines (decode_number_at "n_peers" raw)
      λ n. int_sample "sentinel_rpc_peers_via_sentry" (base_labels validator) n ts

unfoldable pub config_lines : String → String → ℤ → Assoc String → List VmLine
config_lines name validator ts [] = []
config_lines name validator ts ((k, v) ∷ rest) =
    vm_sample name (("validator", validator) ∷ ("key", k) ∷ ("value", v) ∷ []) (whole (pos 1)) ts
    ∷ config_lines name validator ts rest

unfoldable pub append_rpc_sentry_config : List VmLine → String → ℤ → Json → List VmLine
append_rpc_sentry_config lines validator ts raw =
    append_decoded lines (as_map as_text raw) (config_lines "sentinel_sentry_config" validator ts)

unfoldable pub append_rpc_reachable : List VmLine → String → ℤ → Json → List VmLine
append_rpc_reachable lines validator ts raw =
    append_decoded lines (as_float raw)
      λ v. vm_sample "sentinel_rpc_reachable" (base_labels validator) (literal v) ts ∷ []

-- The `switch` on a key of the payload; no other key adds a line.
unfoldable pub append_key : List VmLine → String → ℤ → String → Json → List VmLine
append_key lines validator ts key raw =
    if str_eq key "status"
    then append_rpc_status lines validator ts raw
    else if str_eq key "net_info"
    then append_rpc_net_info lines validator ts raw
    else if str_eq key "num_unconfirmed_txs"
    then append_rpc_mempool lines validator ts raw
    else if str_eq key "dump_consensus_state"
    then append_rpc_consensus lines validator ts raw
    else if str_eq key "validators"
    then append_rpc_validators lines validator ts raw
    else if str_eq key "block"
    then append_rpc_block lines validator ts raw
    else if str_eq key "genesis"
    then append_rpc_genesis lines validator ts raw
    else if str_eq key "sentry_status"
    then append_rpc_sentry_status lines validator ts raw
    else if str_eq key "sentry_net_info"
    then append_rpc_sentry_net_info lines validator ts raw
    else if str_eq key "sentry_config"
    then append_rpc_sentry_config lines validator ts raw
    else if str_eq key "rpc_reachable"
    then append_rpc_reachable lines validator ts raw
    else lines

unfoldable pub append_keys : List VmLine → String → ℤ → Assoc Json → List VmLine
append_keys lines validator ts [] = lines
append_keys lines validator ts ((key, raw) ∷ rest) =
    append_keys (append_key lines validator ts key raw) validator ts rest

unfoldable pub extract_rpc : String → Payload → List VmLine
extract_rpc validator payload = append_keys [] validator payload.collected_at payload.payload_data
