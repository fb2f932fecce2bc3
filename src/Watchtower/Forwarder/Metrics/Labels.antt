-- ===== src/Watchtower/Forwarder/Metrics/Labels.antt =====
-- Whatever a metrics payload holds, each line that comes of it is one sample of its validator and
-- instant; and what a container's samples say.
use gno_watchtower.Base.{String, List, [], ◌∷◌, Assoc, cut_prefix, has_prefix, ℤ}
use gno_watchtower.Json.{Json}
use gno_watchtower.Watchtower.Forwarder.Samples.{VmLine, AreSamples, sampling, none_added}
use gno_watchtower.Watchtower.Forwarder.Rpc.{Payload}
use gno_watchtower.Watchtower.Forwarder.Rpc.Labels.{
  append_decoded-AreSamples, config_lines-AreSamples,
}
use gno_watchtower.Watchtower.Forwarder.Metrics.{
  SelfTypeStats, MemoryStat, DiskStat, NetStat, drop_lines, self_stats_lines, append_self_stats,
  append_node_config, cpu_lines, append_host_cpu, memory_lines, append_host_memory, disk_lines,
  append_host_disk, network_lines, append_host_network,
}
use gno_watchtower.Watchtower.Forwarder.Metrics.Container.{
  ContainerStats, container_lines, append_container,
}
use gno_watchtower.Watchtower.Forwarder.Metrics.Extract.{
  append_metric, append_metrics, extract_metrics,
}

module _ (validator : String) (ts : ℤ) where
  drop_lines-AreSamples :
      (typ : String) (drops : Assoc ℤ) → AreSamples validator ts (drop_lines validator ts typ drops)
  unfolding drop_lines has_prefix cut_prefix
  drop_lines-AreSamples typ [] = none_added validator ts
  drop_lines-AreSamples typ ((reason, n) ∷ rest) =
      let more = drop_lines-AreSamples typ rest in search (sampling, more)

  self_stats_lines-AreSamples :
      (by_type : Assoc SelfTypeStats)
      → AreSamples validator ts (self_stats_lines validator ts by_type)
  unfolding self_stats_lines has_prefix cut_prefix
  self_stats_lines-AreSamples [] = none_added validator ts
  self_stats_lines-AreSamples ((typ, s) ∷ rest) =
      let more = self_stats_lines-AreSamples rest in search (sampling, more, drop_lines-AreSamples)

  cpu_lines-AreSamples :
      (percents : List String) → AreSamples validator ts (cpu_lines validator ts percents)
  unfolding has_prefix cut_prefix
  cpu_lines-AreSamples [] = none_added validator ts
  cpu_lines-AreSamples (percent ∷ _) = search sampling

  memory_lines-AreSamples : (m : MemoryStat) → AreSamples validator ts (memory_lines validator ts m)
  unfolding memory_lines has_prefix cut_prefix
  memory_lines-AreSamples m = search sampling depth 10

  disk_lines-AreSamples : (d : DiskStat) → AreSamples validator ts (disk_lines validator ts d)
  unfolding disk_lines has_prefix cut_prefix
  disk_lines-AreSamples d = search sampling depth 10

  network_lines-AreSamples :
      (nics : List NetStat) → AreSamples validator ts (network_lines validator ts nics)
  unfolding network_lines has_prefix cut_prefix
  network_lines-AreSamples [] = none_added validator ts
  network_lines-AreSamples (n ∷ nics) =
      let more = network_lines-AreSamples nics in search (sampling, more)

  container_lines-AreSamples :
      (c : ContainerStats) → AreSamples validator ts (container_lines validator ts c)
  unfolding container_lines has_prefix cut_prefix
  container_lines-AreSamples c = search sampling depth 12

  append_metric-AreSamples :
      (lines : List VmLine) (key : String) (raw : Json)
      → AreSamples validator ts lines
      → AreSamples validator ts (append_metric lines validator ts key raw)
  unfolding append_metric append_self_stats append_node_config append_host_cpu append_host_memory
      append_host_disk append_host_network append_container has_prefix cut_prefix
  append_metric-AreSamples lines key raw h =
      search
        (
          sampling, h, append_decoded-AreSamples, self_stats_lines-AreSamples,
          config_lines-AreSamples, cpu_lines-AreSamples, memory_lines-AreSamples,
          disk_lines-AreSamples, network_lines-AreSamples, container_lines-AreSamples,
        )
        depth 20

  append_metrics-AreSamples :
      (lines : List VmLine) (payload_data : Assoc Json)
      → AreSamples validator ts lines
      → AreSamples validator ts (append_metrics lines validator ts payload_data)
  unfolding append_metrics
  append_metrics-AreSamples lines [] h = h
  append_metrics-AreSamples lines ((key, raw) ∷ rest) h =
      append_metrics-AreSamples (append_metric lines validator ts key raw) rest
        (append_metric-AreSamples lines key raw h)

-- Every line of a metrics payload, whatever its keys hold, carries the validator's label and a name of
-- the sentinel's, and has one value at the instant of the payload's collection.
pub extract_metrics-AreSamples :
    (validator : String) (payload : Payload)
    → AreSamples validator payload.collected_at (extract_metrics validator payload)
unfolding extract_metrics
extract_metrics-AreSamples validator payload =
    append_metrics-AreSamples validator payload.collected_at [] payload.payload_data
      (none_added validator payload.collected_at)
