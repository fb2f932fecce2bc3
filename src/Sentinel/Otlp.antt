-- ===== src/Sentinel/Otlp.antt =====
-- internal/sentinel/otlp: relay.go and filter.go, the way of an OTLP export into the channel to the sender.
-- Protobuf and gzip are parameters. A message is generic in what its resources, scopes and metrics carry
-- beside the names of the metrics.
pub mod Relayed
mod Examples
use gno_watchtower.Base.{
  ℕ, suc, ◌+◌, String, Bool, true, false, ◌||◌, Option, none, some, List, [], ◌∷◌, ◌++◌, str_eq,
  ltb, leb, ◌==◌, length, take, if◌then◌else◌,
}

pub record Metric (M : Type 0) : Type 0 where
  pub name : String
  pub rest : M

pub record ScopeMetrics (M S : Type 0) : Type 0 where
  pub scope : S
  pub metrics : List (Metric M)

pub record ResourceMetrics (M S R : Type 0) : Type 0 where
  pub resource : R
  pub scope_metrics : List (ScopeMetrics M S)

-- `ExportMetricsServiceRequest`
abbrev pub Export : Type 0 → Type 0 → Type 0 → Type 0
Export M S R = List (ResourceMetrics M S R)

-- `deniedMetricNames`, asked for a name.
unfoldable pub is_denied : String → Bool
is_denied name =
    str_eq name "block_txs_hist"
    || str_eq name "validator_count_hist"
    || str_eq name "validator_vp_hist"
    || str_eq name "num_mempool_txs_hist"

unfoldable pub filter_metrics : {M : Type 0} → List (Metric M) → List (Metric M)
filter_metrics [] = []
filter_metrics (m ∷ ms) =
    let rest = filter_metrics ms in if is_denied m.name then rest else m ∷ rest

unfoldable pub filter_scopes : {M S : Type 0} → List (ScopeMetrics M S) → List (ScopeMetrics M S)
filter_scopes [] = []
filter_scopes (sm ∷ sms) = record sm { metrics = filter_metrics sm.metrics } ∷ filter_scopes sms

unfoldable pub filter_denied : {M S R : Type 0} → Export M S R → Export M S R
filter_denied [] = []
filter_denied (rm ∷ rms) =
    record rm { scope_metrics = filter_scopes rm.scope_metrics } ∷ filter_denied rms

abbrev pub Bytes : Type 0
Bytes = List ℕ

-- `50 << 20`
abbrev pub max_otlp_body_bytes : ℕ
max_otlp_body_bytes = 52428800

-- A request: whether its body is compressed, and the bytes of the body, with whether it is read to the end
-- without an error.
pub record Request : Type 0 where
  pub gzip : Bool
  pub body : Bytes
  pub whole : Bool

-- `io.ReadAll(io.LimitReader(r, max))`: an error behind the limit is not met.
unfoldable pub read_all : ℕ → Bytes → Bool → Option Bytes
read_all limit bytes ended =
    if leb limit (length bytes) then some (take limit bytes) else if ended then some bytes else none

-- The relay's channel with what the sender took out of it, and the drops that `onDrop` counted.
pub record Relay : Type 0 where
  pub out : List Bytes
  pub taken : List Bytes
  pub drops : ℕ

abbrev pub idle : Relay
idle = record { out = []; taken = []; drops = 0 }

-- The non-blocking send into a channel of a capacity.
unfoldable pub hand_off : ℕ → Bytes → Relay → Relay
hand_off cap b r =
    if ltb (length r.out) cap
    then record r { out = r.out ++ b ∷ [] }
    else record r { drops = suc r.drops }

-- A request for the metrics, one for the traces, which is accepted and discarded, or a receive of the
-- sender.
pub data Event : Type 0 where
  metrics traces : Request → Event
  receive : Event

abbrev pub take_first : List Bytes → Relay → Relay
take_first [] s = s
take_first (b ∷ bs) s = record s { out = bs; taken = s.taken ++ b ∷ [] }

abbrev pub count_ok : ℕ → ℕ → ℕ
count_ok status n = if status == 200 then suc n else n

-- `gunzip` takes what a body holds up to the limit, and whether it ended well: the decompressed bytes
-- with whether they end well, or `none` where the reader is not made.
module _ {M S R : Type 0} (gunzip : Bytes → Bool → Option (Bytes × Bool))
    (unmarshal : Bytes → Option (Export M S R)) (marshal : Export M S R → Option Bytes)
    (cap : ℕ) where
  abbrev pub read_unzipped : Option (Bytes × Bool) → Option Bytes
  read_unzipped none = none
  read_unzipped (some (bytes, ended)) = read_all max_otlp_body_bytes bytes ended

  unfoldable pub read_body : Request → Option Bytes
  read_body r =
      if r.gzip
      then read_unzipped (
          gunzip (take max_otlp_body_bytes r.body)
            (leb max_otlp_body_bytes (length r.body) || r.whole))
      else read_all max_otlp_body_bytes r.body r.whole

  abbrev pub after_marshal : Option Bytes → Relay → ℕ × Relay
  after_marshal none s = (500, s)
  after_marshal (some out) s = (200, hand_off cap out s)

  abbrev pub after_unmarshal : Option (Export M S R) → Relay → ℕ × Relay
  after_unmarshal none s = (400, s)
  after_unmarshal (some msg) s = after_marshal (marshal (filter_denied msg)) s

  abbrev pub after_read : Option Bytes → Relay → ℕ × Relay
  after_read none s = (400, s)
  after_read (some body) s = after_unmarshal (unmarshal body) s

  -- The status of the response, and the relay behind the request.
  unfoldable pub handle_metrics : Request → Relay → ℕ × Relay
  handle_metrics r s = after_read (read_body r) s

  -- The number of exports that were answered with 200, and the relay.
  unfoldable pub run : List Event → ℕ → Relay → ℕ × Relay
  run [] oks s = (oks, s)
  run (metrics r ∷ es) oks s =
      let (status, s') = handle_metrics r s in run es (count_ok status oks) s'
  run (traces r ∷ es) oks s = run es oks s
  run (receive ∷ es) oks s = run es oks (take_first s.out s)
