-- ===== src/Watchtower/Forwarder/Metrics/Container.antt =====
-- internal/watchtower/forwarder/metrics.go: the lines of a container's counters.
use gno_watchtower.Base.{
  ℕ, ◌+◌, ◌-◌, ◌%◌, ◌≤◌, ◌<◌, ◌⊎◌, Bool-cases, refl, String, Option, none, some, List, [], ◌∷◌,
  Assoc, lookup, str_eq, if◌then◌else◌, leb, cut_prefix, ℤ, pos, two64, ◌≡◌, ap, ◌∙◌, arith, inl,
  inr,
}
use gno_watchtower.Json.{Json, ◌>>=◌, field, as_object, as_text, as_uint64, as_map}
use gno_watchtower.Watchtower.Forwarder.Samples.{VmLine, whole, nanoseconds, vm_sample}
use gno_watchtower.Watchtower.Forwarder.Rpc.{append_decoded}

-- A container's counters, on its networks: received and sent.
pub record ContainerStats : Type 0 where
  pub name : String
  pub total_usage : ℕ
  pub usage : ℕ
  pub limit : ℕ
  pub stats : Assoc ℕ
  pub networks : Assoc (ℕ × ℕ)

unfoldable pub decode_traffic : Json → Option (ℕ × ℕ)
decode_traffic j = do
  fields ← as_object j
  rx_bytes ← as_uint64 (field "rx_bytes" fields)
  tx_bytes ← as_uint64 (field "tx_bytes" fields)
  some (rx_bytes, tx_bytes)

unfoldable pub decode_container : Json → Option ContainerStats
decode_container j = do
  fields ← as_object j
  name ← as_text (field "name" fields)
  cpu_stats ← as_object (field "cpu_stats" fields)
  cpu_usage ← as_object (field "cpu_usage" cpu_stats)
  total_usage ← as_uint64 (field "total_usage" cpu_usage)
  memory_stats ← as_object (field "memory_stats" fields)
  usage ← as_uint64 (field "usage" memory_stats)
  limit ← as_uint64 (field "limit" memory_stats)
  stats ← as_map as_uint64 (field "stats" memory_stats)
  networks ← as_map decode_traffic (field "networks" fields)
  some (record {
    name = name;
    total_usage = total_usage;
    usage = usage;
    limit = limit;
    stats = stats;
    networks = networks;
  })

abbrev pub or_self : String → Option String → String
or_self s none = s
or_self s (some rest) = rest

unfoldable pub container_name : String → String → String
container_name validator name =
    let trimmed = or_self name (cut_prefix name "/") in
    if str_eq trimmed "" then validator else trimmed

-- A usage less its inactive part, as the difference of two uint64.
abbrev pub without_inactive : ℕ → Option ℕ → ℕ
without_inactive usage none = usage
without_inactive usage (some inactive) =
    if leb inactive usage then (usage + two64 - inactive) % two64 else usage

unfoldable pub working_set : ContainerStats → ℕ
working_set c = without_inactive c.usage (lookup "inactive_file" c.stats)

-- The sums over the networks, in the wrapping arithmetic of a uint64, from two totals on.
unfoldable pub sum_traffic : ℕ → ℕ → Assoc (ℕ × ℕ) → ℕ × ℕ
sum_traffic rx tx [] = (rx, tx)
sum_traffic rx tx ((_, (received, sent)) ∷ rest) =
    sum_traffic ((rx + received) % two64) ((tx + sent) % two64) rest

unfoldable pub container_lines : String → ℤ → ContainerStats → List VmLine
container_lines validator ts c =
    let labels = ("validator", validator) ∷ ("container", container_name validator c.name) ∷ [] in
    let (rx, tx) = sum_traffic 0 0 c.networks in
    vm_sample "sentinel_container_cpu_usage_seconds_total" labels (nanoseconds c.total_usage) ts
    ∷ vm_sample "sentinel_container_memory_usage_bytes" labels (whole (pos c.usage)) ts
    ∷ vm_sample "sentinel_container_memory_limit_bytes" labels (whole (pos c.limit)) ts
    ∷ vm_sample "sentinel_container_memory_working_set_bytes" labels (whole (pos (working_set c)))
        ts
    ∷ vm_sample "sentinel_container_network_receive_bytes_total" labels (whole (pos rx)) ts
    ∷ vm_sample "sentinel_container_network_transmit_bytes_total" labels (whole (pos tx)) ts
    ∷ []

unfoldable pub append_container : List VmLine → String → ℤ → Json → List VmLine
append_container lines validator ts raw =
    append_decoded lines (decode_container raw) (container_lines validator ts)

-- The bytes over all networks, received or sent.
unfoldable pub total_by : (ℕ × ℕ → ℕ) → Assoc (ℕ × ℕ) → ℕ
total_by side [] = 0
total_by side ((_, traffic) ∷ rest) = side traffic + total_by side rest

sum_traffic-totals :
    (rx tx : ℕ) (networks : Assoc (ℕ × ℕ))
    → ((sum_traffic (rx % two64) (tx % two64) networks).0
        ≡ (rx + total_by (λ n. n.0) networks) % two64)
      × ((sum_traffic (rx % two64) (tx % two64) networks).1
          ≡ (tx + total_by (λ n. n.1) networks) % two64)
unfolding sum_traffic total_by
sum_traffic-totals rx tx [] = (omega arith, omega arith)
sum_traffic-totals rx tx ((_, (received, sent)) ∷ rest) =
    let (r, t) = sum_traffic-totals (rx + received) (tx + sent) rest in
    let wrap_rx : (rx % two64 + received) % two64 ≡ (rx + received) % two64 = omega arith in
    let wrap_tx : (tx % two64 + sent) % two64 ≡ (tx + sent) % two64 = omega arith in
    let same =
      ap (λ x. sum_traffic x ((tx % two64 + sent) % two64) rest) wrap_rx
      ∙ ap (λ y. sum_traffic ((rx + received) % two64) y rest) wrap_tx in
    (ap (λ p. p.0) same ∙ r ∙ omega arith, ap (λ p. p.1) same ∙ t ∙ omega arith)

-- What is left of a usage without the inactive part, where that is known and no larger.
abbrev pub IsLeft : ℕ → Option ℕ → ℕ → Type 0
IsLeft usage none w = w ≡ usage
IsLeft usage (some inactive) w =
    ((inactive ≤ usage) × (w + inactive ≡ usage)) ⊎ ((usage < inactive) × (w ≡ usage))

without_inactive-IsLeft :
    (usage : ℕ) (inactive : Option ℕ)
    → usage < two64
    → IsLeft usage inactive (without_inactive usage inactive)
      × (without_inactive usage inactive ≤ usage)
without_inactive-IsLeft usage none fits = (refl, omega arith)
without_inactive-IsLeft usage (some n) fits = elim (Bool-cases (leb n usage)) [
  | inl small ↦
      let fewer : n ≤ usage = ground (arith, small) in
      let exact : (usage + two64 - n) % two64 ≡ usage - n = omega (arith, fewer, fits) in
      rw (small, exact) (inl (fewer, omega (arith, fewer)), omega arith)
  | inr large ↦ rw large (inr (ground (arith, large), refl), omega arith)
]

-- A container's working set is its memory usage, a uint64, without the inactive file pages, if their number
-- is known and no larger than the usage, and else all of it, so that it never exceeds the usage; and its
-- two network counters are the sums over its networks wrapped around to 64 bits.
pub container_figures :
    (c : ContainerStats)
    → c.usage < two64
    → IsLeft c.usage (lookup "inactive_file" c.stats) (working_set c)
      × (working_set c ≤ c.usage)
      × ((sum_traffic 0 0 c.networks).0 ≡ total_by (λ n. n.0) c.networks % two64)
      × ((sum_traffic 0 0 c.networks).1 ≡ total_by (λ n. n.1) c.networks % two64)
unfolding working_set
container_figures c fits =
    let (left, small) = without_inactive-IsLeft c.usage (lookup "inactive_file" c.stats) fits in
    let (r, t) = sum_traffic-totals 0 0 c.networks in
    (left, small, omega (arith, r), omega (arith, t))
