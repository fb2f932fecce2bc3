-- ===== src/Watchtower/Forwarder/Rpc.antt =====
-- internal/watchtower/forwarder/rpc.go: an RPC payload as lines of VictoriaMetrics. A raw message
-- stands as its decoded tree, and the debug log lines are left out.
pub mod Genesis
pub mod Extract
pub mod Labels
pub mod Totals
mod Examples
use gno_watchtower.Base.{
  append_text, ℕ, String, Bool, true, false, ◌&&◌, not, Option, none, some, List, [], ◌∷◌, ◌++◌,
  Assoc, str_eq, if◌then◌else◌, length, ℤ, pos, add64, parse_int,
}
use gno_watchtower.Json.{
  Json, text, Members, ◌>>=◌, field, as_object, as_text, as_bool, as_float, as_number, as_list,
  as_map,
}
use gno_watchtower.Gpub.{encode_ed25519_from_base64}
use gno_watchtower.Watchtower.Forwarder.Samples.{
  VmLine, Value, whole, literal, vm_sample, int_sample, bool_to_float,
}

pub record Payload : Type 0 where
  pub collected_at : ℤ  -- in milliseconds
  pub payload_data : Assoc Json

pub record NodeInfo : Type 0 where
  pub moniker : String
  pub network : String
  pub version : String

pub record SyncInfo : Type 0 where
  pub latest_block_height : String
  pub catching_up : Bool

pub record ValidatorInfo : Type 0 where
  pub address : String
  pub voting_power : String

pub record Status : Type 0 where
  pub node_info : NodeInfo
  pub sync_info : SyncInfo
  pub validator_info : Option ValidatorInfo

unfoldable pub decode_node_info : Json → Option NodeInfo
decode_node_info j = do
  fields ← as_object j
  moniker ← as_text (field "moniker" fields)
  network ← as_text (field "network" fields)
  version ← as_text (field "version" fields)
  some (record { moniker = moniker; network = network; version = version })

unfoldable pub decode_sync_info : Json → Option SyncInfo
decode_sync_info j = do
  fields ← as_object j
  height ← as_number (field "latest_block_height" fields)
  catching_up ← as_bool (field "catching_up" fields)
  some (record { latest_block_height = height; catching_up = catching_up })

-- A pointer: null leaves it nil.
unfoldable pub decode_validator_info : Json → Option (Option ValidatorInfo)
decode_validator_info Json.null = some none
decode_validator_info j = do
  fields ← as_object j
  address ← as_text (field "address" fields)
  voting_power ← as_number (field "voting_power" fields)
  some (some (record { address = address; voting_power = voting_power }))

unfoldable pub decode_status : Json → Option Status
decode_status j = do
  fields ← as_object j
  node_info ← decode_node_info (field "node_info" fields)
  sync_info ← decode_sync_info (field "sync_info" fields)
  validator_info ← decode_validator_info (field "validator_info" fields)
  some (record { node_info = node_info; sync_info = sync_info; validator_info = validator_info })

-- `decodeResult` and the early return: a payload that does not decode adds no line.
abbrev pub append_decoded {ℓ} :
    {R : Type ℓ} → List VmLine → Option R → (R → List VmLine) → List VmLine
append_decoded lines none f = lines
append_decoded lines (some r) f = lines ++ f r

abbrev pub base_labels : String → Assoc String
base_labels validator = ("validator", validator) ∷ []

abbrev pub address_labels : String → String → Assoc String
address_labels validator address = ("validator", validator) ∷ ("address", address) ∷ []

unfoldable pub own_power_lines : String → ℤ → Bool → Option ValidatorInfo → List VmLine
own_power_lines validator ts catching_up none = []
own_power_lines validator ts catching_up (some v) =
    int_sample "sentinel_rpc_validator_voting_power" (address_labels validator v.address)
      v.voting_power ts
    ++ (if not (str_eq v.address "") && not catching_up
        then vm_sample "sentinel_validator_online" (address_labels validator v.address)
            (whole (pos 1)) ts
          ∷ []
        else [])

unfoldable pub status_lines : String → ℤ → Status → List VmLine
status_lines validator ts r =
    int_sample "sentinel_rpc_latest_block_height" (base_labels validator)
      r.sync_info.latest_block_height ts
    ++ vm_sample "sentinel_rpc_catching_up" (base_labels validator)
        (bool_to_float r.sync_info.catching_up) ts
      ∷ own_power_lines validator ts r.sync_info.catching_up r.validator_info
    ++ vm_sample "sentinel_node_build_info"
        (("validator", validator)
          ∷ ("chain_id", r.node_info.network)
          ∷ ("moniker", r.node_info.moniker)
          ∷ ("version", r.node_info.version)
          ∷ [])
        (whole (pos 1)) ts
      ∷ []

unfoldable pub append_rpc_status : List VmLine → String → ℤ → Json → List VmLine
append_rpc_status lines validator ts raw =
    append_decoded lines (decode_status raw) (status_lines validator ts)

-- A number in a member of an object.
unfoldable pub decode_number_at : String → Json → Option String
decode_number_at k j = do fields ← as_object j; as_number (field k fields)

unfoldable pub append_rpc_net_info : List VmLine → String → ℤ → Json → List VmLine
append_rpc_net_info lines validator ts raw =
    append_decoded lines (decode_number_at "n_peers" raw)
      λ n. int_sample "sentinel_rpc_peers" (base_labels validator) n ts

unfoldable pub decode_mempool : Json → Option (String × String)
decode_mempool j = do
  fields ← as_object j
  n_txs ← as_number (field "n_txs" fields)
  total_bytes ← as_number (field "total_bytes" fields)
  some (n_txs, total_bytes)

unfoldable pub append_rpc_mempool : List VmLine → String → ℤ → Json → List VmLine
append_rpc_mempool lines validator ts raw = append_decoded lines (decode_mempool raw) λ r.
    int_sample "sentinel_rpc_mempool_txs" (base_labels validator) r.0 ts
    ++ int_sample "sentinel_rpc_mempool_bytes" (base_labels validator) r.1 ts

unfoldable pub decode_consensus : Json → Option (String × String × String)
decode_consensus j = do
  fields ← as_object j
  round_state ← as_object (field "round_state" fields)
  height ← as_number (field "height" round_state)
  round ← as_number (field "round" round_state)
  step ← as_number (field "step" round_state)
  some (height, round, step)

unfoldable pub append_rpc_consensus : List VmLine → String → ℤ → Json → List VmLine
append_rpc_consensus lines validator ts raw = append_decoded lines (decode_consensus raw) λ r.
    int_sample "sentinel_rpc_consensus_height" (base_labels validator) r.0 ts
    ++ int_sample "sentinel_rpc_consensus_round" (base_labels validator) r.1 ts
    ++ int_sample "sentinel_rpc_consensus_step" (base_labels validator) r.2 ts

pub record Validator : Type 0 where
  pub address : String
  pub voting_power : String
  pub key_type : String
  pub key_value : String

unfoldable pub decode_validator : Json → Option Validator
decode_validator j = do
  fields ← as_object j
  address ← as_text (field "address" fields)
  voting_power ← as_number (field "voting_power" fields)
  pub_key ← as_object (field "pub_key" fields)
  key_type ← as_text (field "@type" pub_key)
  key_value ← as_text (field "value" pub_key)
  some (record {
    address = address;
    voting_power = voting_power;
    key_type = key_type;
    key_value = key_value;
  })

unfoldable pub decode_validators : Json → Option (List Validator)
decode_validators j = do fields ← as_object j; as_list decode_validator (field "validators" fields)

pub record SetMember : Type 0 where
  pub address : String
  pub power : ℤ
  pub pub_key_b32 : String

abbrev pub or_empty : Option String → String
or_empty none = ""
or_empty (some s) = s

unfoldable pub encoded_key : Validator → String
encoded_key v =
    if str_eq v.key_type "/tm.PubKeyEd25519" && not (str_eq v.key_value "")
    then or_empty (encode_ed25519_from_base64 v.key_value)
    else ""

-- The loop over the entries, from a total on: the members and the total, or nothing where one entry's
-- power is no int64. The total wraps around as Go's does.
unfoldable pub collect_members : ℤ → List Validator → Option (List SetMember × ℤ)
collect_members total [] = some ([], total)
collect_members total (v ∷ vs) = do
  p ← parse_int v.voting_power
  (rest, sum) ← collect_members (add64 total p) vs
  some (record { address = v.address; power = p; pub_key_b32 = encoded_key v } ∷ rest, sum)

unfoldable pub member_labels : String → SetMember → Assoc String
member_labels validator m =
    if str_eq m.pub_key_b32 ""
    then address_labels validator m.address
    else ("validator", validator) ∷ ("address", m.address) ∷ ("pub_key_bech32", m.pub_key_b32) ∷ []

unfoldable pub member_lines : String → ℤ → List SetMember → List VmLine
member_lines validator ts [] = []
member_lines validator ts (m ∷ ms) =
    let rest = member_lines validator ts ms in
    if str_eq m.address ""
    then rest
    else vm_sample "sentinel_rpc_validator_set_power" (member_labels validator m) (whole m.power) ts
      ∷ rest

abbrev pub set_lines : String → ℤ → ℕ → Option (List SetMember × ℤ) → List VmLine
set_lines validator ts size none = []
set_lines validator ts size (some (members, total)) =
    vm_sample "sentinel_rpc_validator_set_size" (base_labels validator) (whole (pos size)) ts
    ∷ vm_sample "sentinel_rpc_validator_set_total_power" (base_labels validator) (whole total) ts
    ∷ member_lines validator ts members

unfoldable pub append_rpc_validators : List VmLine → String → ℤ → Json → List VmLine
append_rpc_validators lines validator ts raw =
    append_decoded lines (decode_validators raw)
      λ vs. set_lines validator ts (length vs) (collect_members (pos 0) vs)

unfoldable pub decode_block : Json → Option String
decode_block j = do
  fields ← as_object j
  block ← as_object (field "block" fields)
  header ← as_object (field "header" block)
  as_number (field "num_txs" header)

unfoldable pub append_rpc_block : List VmLine → String → ℤ → Json → List VmLine
append_rpc_block lines validator ts raw =
    append_decoded lines (decode_block raw)
      λ n. int_sample "sentinel_rpc_block_num_txs" (base_labels validator) n ts
