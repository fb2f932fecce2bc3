-- ===== src/Watchtower/Forwarder/Metrics.antt =====
-- internal/watchtower/forwarder/metrics.go: a metrics payload as lines of VictoriaMetrics. A raw
-- message stands as its decoded tree, and the debug log lines are left out.
pub mod Container
pub mod Extract
pub mod Labels
mod Examples
use gno_watchtower.Base.{
  ℕ, ◌+◌, ◌-◌, ◌*◌, ◌%◌, String, Bool, true, false, Option, none, some, List, [], ◌∷◌, ◌++◌, Assoc,
  lookup, str_eq, if◌then◌else◌, leb, cut_prefix, ℤ, pos, two64,
}
use gno_watchtower.Json.{
  Json, ◌>>=◌, field, as_object, as_text, as_float, as_int64, as_uint64, as_list, as_map,
}
use gno_watchtower.Watchtower.Forwarder.Samples.{
  VmLine, Value, whole, literal, nanoseconds, vm_sample,
}
use gno_watchtower.Watchtower.Forwarder.Rpc.{Payload, append_decoded, base_labels}
use gno_watchtower.Watchtower.Forwarder.Rpc.Extract.{config_lines}

pub record SelfTypeStats : Type 0 where
  pub uncompressed_bytes : ℤ
  pub wire_bytes : ℤ
  pub drops : Assoc ℤ

unfoldable pub decode_self_type_stats : Json → Option SelfTypeStats
decode_self_type_stats j = do
  fields ← as_object j
  uncompressed_bytes ← as_int64 (field "uncompressed_bytes" fields)
  wire_bytes ← as_int64 (field "wire_bytes" fields)
  drops ← as_map as_int64 (field "drops" fields)
  some (record { uncompressed_bytes = uncompressed_bytes; wire_bytes = wire_bytes; drops = drops })

unfoldable pub drop_lines : String → ℤ → String → Assoc ℤ → List VmLine
drop_lines validator ts typ [] = []
drop_lines validator ts typ ((reason, n) ∷ rest) =
    vm_sample "sentinel_self_drops_total"
      (("validator", validator) ∷ ("type", typ) ∷ ("reason", reason) ∷ []) (whole n) ts
    ∷ drop_lines validator ts typ rest

unfoldable pub self_stats_lines : String → ℤ → Assoc SelfTypeStats → List VmLine
self_stats_lines validator ts [] = []
self_stats_lines validator ts ((typ, s) ∷ rest) =
    vm_sample "sentinel_self_bytes_sent_total"
        (("validator", validator) ∷ ("type", typ) ∷ ("encoding", "uncompressed") ∷ [])
        (whole s.uncompressed_bytes) ts
      ∷ vm_sample "sentinel_self_bytes_sent_total"
          (("validator", validator) ∷ ("type", typ) ∷ ("encoding", "wire") ∷ [])
          (whole s.wire_bytes) ts
      ∷ drop_lines validator ts typ s.drops
    ++ self_stats_lines validator ts rest

unfoldable pub append_self_stats : List VmLine → String → ℤ → Json → List VmLine
append_self_stats lines validator ts raw =
    append_decoded lines (as_map decode_self_type_stats raw) (self_stats_lines validator ts)

unfoldable pub append_node_config : List VmLine → String → ℤ → Json → List VmLine
append_node_config lines validator ts raw =
    append_decoded lines (as_map as_text raw) (config_lines "sentinel_node_config" validator ts)

abbrev pub cpu_lines : String → ℤ → List String → List VmLine
cpu_lines validator ts [] = []
cpu_lines validator ts (percent ∷ _) =
    vm_sample "sentinel_host_cpu_percent" (base_labels validator) (literal percent) ts ∷ []

unfoldable pub append_host_cpu : List VmLine → String → ℤ → Json → List VmLine
append_host_cpu lines validator ts raw =
    append_decoded lines (as_list as_float raw) (cpu_lines validator ts)

pub record MemoryStat : Type 0 where
  pub total : ℕ
  pub available : ℕ
  pub used : ℕ
  pub free : ℕ

unfoldable pub decode_memory : Json → Option MemoryStat
decode_memory j = do
  fields ← as_object j
  total ← as_uint64 (field "total" fields)
  available ← as_uint64 (field "available" fields)
  used ← as_uint64 (field "used" fields)
  free ← as_uint64 (field "free" fields)
  some (record { total = total; available = available; used = used; free = free })

unfoldable pub memory_lines : String → ℤ → MemoryStat → List VmLine
memory_lines validator ts m =
    vm_sample "sentinel_host_memory_total_bytes" (base_labels validator) (whole (pos m.total)) ts
    ∷ vm_sample "sentinel_host_memory_available_bytes" (base_labels validator)
        (whole (pos m.available)) ts
    ∷ vm_sample "sentinel_host_memory_used_bytes" (base_labels validator) (whole (pos m.used)) ts
    ∷ vm_sample "sentinel_host_memory_free_bytes" (base_labels validator) (whole (pos m.free)) ts
    ∷ []

unfoldable pub append_host_memory : List VmLine → String → ℤ → Json → List VmLine
append_host_memory lines validator ts raw =
    append_decoded lines (decode_memory raw) (memory_lines validator ts)

pub record DiskStat : Type 0 where
  pub path : String
  pub fstype : String
  pub total : ℕ
  pub free : ℕ
  pub used : ℕ

unfoldable pub decode_disk : Json → Option DiskStat
decode_disk j = do
  fields ← as_object j
  path ← as_text (field "path" fields)
  fstype ← as_text (field "fstype" fields)
  total ← as_uint64 (field "total" fields)
  free ← as_uint64 (field "free" fields)
  used ← as_uint64 (field "used" fields)
  some (record { path = path; fstype = fstype; total = total; free = free; used = used })

unfoldable pub disk_lines : String → ℤ → DiskStat → List VmLine
disk_lines validator ts d =
    let labels = ("validator", validator) ∷ ("path", d.path) ∷ ("fstype", d.fstype) ∷ [] in
    vm_sample "sentinel_host_disk_total_bytes" labels (whole (pos d.total)) ts
    ∷ vm_sample "sentinel_host_disk_free_bytes" labels (whole (pos d.free)) ts
    ∷ vm_sample "sentinel_host_disk_used_bytes" labels (whole (pos d.used)) ts
    ∷ []

unfoldable pub append_host_disk : List VmLine → String → ℤ → Json → List VmLine
append_host_disk lines validator ts raw =
    append_decoded lines (decode_disk raw) (disk_lines validator ts)

pub record NetStat : Type 0 where
  pub name : String
  pub bytes_sent : ℕ
  pub bytes_recv : ℕ

unfoldable pub decode_net : Json → Option NetStat
decode_net j = do
  fields ← as_object j
  name ← as_text (field "name" fields)
  bytes_sent ← as_uint64 (field "bytesSent" fields)
  bytes_recv ← as_uint64 (field "bytesRecv" fields)
  some (record { name = name; bytes_sent = bytes_sent; bytes_recv = bytes_recv })

unfoldable pub network_lines : String → ℤ → List NetStat → List VmLine
network_lines validator ts [] = []
network_lines validator ts (n ∷ nics) =
    let labels = ("validator", validator) ∷ ("interface", n.name) ∷ [] in
    vm_sample "sentinel_host_network_receive_bytes_total" labels (whole (pos n.bytes_recv)) ts
    ∷ vm_sample "sentinel_host_network_transmit_bytes_total" labels (whole (pos n.bytes_sent)) ts
    ∷ network_lines validator ts nics

unfoldable pub append_host_network : List VmLine → String → ℤ → Json → List VmLine
append_host_network lines validator ts raw =
    append_decoded lines (as_list decode_net raw) (network_lines validator ts)
