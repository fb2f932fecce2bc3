-- ===== src/Watchtower/Forwarder/Metrics/Examples.antt =====
-- A payload with a container of two networks, its counters beyond 2^64, and a malformed key.
use gno_watchtower.Base.{
  ◌≤◌, ◌%◌, arith, String, [], ◌∷◌, ◌≡◌, refl, pos, has_prefix, cut_prefix, lookup, insert,
  parse_uint, length, two64,
}
use gno_watchtower.Json.{
  Json, number, text, array, object, nil, cons, end, member, field, as_object, as_text, as_uint64,
  as_map, as_list, as_float,
}
use gno_watchtower.Watchtower.Forwarder.Samples.{AreSamples, vm_sample}
use gno_watchtower.Watchtower.Forwarder.Rpc.{Payload}
use gno_watchtower.Watchtower.Forwarder.Metrics.{append_host_cpu, append_host_memory, decode_memory}
use gno_watchtower.Watchtower.Forwarder.Metrics.Container.{
  ContainerStats, decode_traffic, decode_container, container_name, working_set, sum_traffic,
  total_by, container_lines, append_container, IsLeft, container_figures,
}
use gno_watchtower.Watchtower.Forwarder.Metrics.Extract.{
  append_metric, append_metrics, extract_metrics,
}
use gno_watchtower.Watchtower.Forwarder.Metrics.Labels.{extract_metrics-AreSamples}

program : Unit {0}
unfolding has_prefix cut_prefix lookup insert parse_uint field as_object as_text as_uint64 as_map
    as_list as_float vm_sample append_host_cpu decode_traffic decode_container container_name
    append_host_memory decode_memory working_set sum_traffic container_lines append_container
    append_metric append_metrics extract_metrics
program = tt

abbrev traffic : String → Json
traffic received = object (member "rx_bytes" (number received) end)

abbrev container : Json
container = object (
    member "name" (text "/gnoland") (
      member "memory_stats"
        (object (
          member "usage" (number "100")
            (member "stats" (object (member "inactive_file" (number "30") end)) end)))
        (member "networks"
          (object
            (member "eth0" (traffic "18446744073709551615") (member "eth1" (traffic "3") end)))
          end)))

abbrev stats : ContainerStats
stats = record {
  name = "/gnoland";
  total_usage = 0;
  usage = 100;
  limit = 0;
  stats = ("inactive_file", 30) ∷ [];
  networks = ("eth0", (18446744073709551615, 0)) ∷ ("eth1", (3, 0)) ∷ [];
}

container-lines : append_container [] "v" (pos 7) container ≡ container_lines "v" (pos 7) stats
unfolding program
container-lines = refl

received-wraps : sum_traffic 0 0 stats.networks ≡ (2, 0)
unfolding program
received-wraps = refl

container_figures_example :
    IsLeft 100 (lookup "inactive_file" stats.stats) (working_set stats)
    × (working_set stats ≤ 100)
    × ((sum_traffic 0 0 stats.networks).0 ≡ total_by (λ n. n.0) stats.networks % two64)
    × ((sum_traffic 0 0 stats.networks).1 ≡ total_by (λ n. n.1) stats.networks % two64)
container_figures_example = container_figures stats (omega arith)

abbrev payload : Payload
payload = record {
  collected_at = pos 7;
  payload_data =
      ("cpu", array (cons (number "12.5") (cons (number "0.5") nil)))
      ∷ ("memory", text "?")
      ∷ ("container", container)
      ∷ [];
}

payload-length : length (extract_metrics "v" payload) ≡ 7
unfolding program
payload-length = refl

extract_metrics-AreSamples_example : AreSamples "v" (pos 7) (extract_metrics "v" payload)
extract_metrics-AreSamples_example = extract_metrics-AreSamples "v" payload
