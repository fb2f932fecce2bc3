-- ===== src/Watchtower/Forwarder/Metrics/Extract.antt =====
-- internal/watchtower/forwarder/metrics.go: the walk over a whole payload.
use gno_watchtower.Base.{String, List, [], ◌∷◌, Assoc, str_eq, if◌then◌else◌, ℤ}
use gno_watchtower.Json.{Json}
use gno_watchtower.Watchtower.Forwarder.Samples.{VmLine}
use gno_watchtower.Watchtower.Forwarder.Rpc.{Payload}
use gno_watchtower.Watchtower.Forwarder.Metrics.{
  append_self_stats, append_node_config, append_host_cpu, append_host_memory, append_host_disk,
  append_host_network,
}
use gno_watchtower.Watchtower.Forwarder.Metrics.Container.{append_container}

-- The `switch` on a key of the payload; no other key adds a line.
unfoldable pub append_metric : List VmLine → String → ℤ → String → Json → List VmLine
append_metric lines validator ts key raw =
    if str_eq key "cpu"
    then append_host_cpu lines validator ts raw
    else if str_eq key "memory"
    then append_host_memory lines validator ts raw
    else if str_eq key "disk"
    then append_host_disk lines validator ts raw
    else if str_eq key "network"
    then append_host_network lines validator ts raw
    else if str_eq key "container"
    then append_container lines validator ts raw
    else if str_eq key "config"
    then append_node_config lines validator ts raw
    else if str_eq key "self_stats"
    then append_self_stats lines validator ts raw
    else lines

unfoldable pub append_metrics : List VmLine → String → ℤ → Assoc Json → List VmLine
append_metrics lines validator ts [] = lines
append_metrics lines validator ts ((key, raw) ∷ rest) =
    append_metrics (append_metric lines validator ts key raw) validator ts rest

unfoldable pub extract_metrics : String → Payload → List VmLine
extract_metrics validator payload =
    append_metrics [] validator payload.collected_at payload.payload_data
