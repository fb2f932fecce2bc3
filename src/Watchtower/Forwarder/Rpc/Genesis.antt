-- ===== src/Watchtower/Forwarder/Rpc/Genesis.antt =====
-- internal/watchtower/forwarder/rpc.go: the lines of a chain's genesis.
use gno_watchtower.Base.{
  append_text, String, Option, some, List, [], ◌∷◌, ◌++◌, Assoc, str_eq, if◌then◌else◌, ℤ, pos,
}
use gno_watchtower.Json.{Json, text, ◌>>=◌, field, as_object, as_text, as_number, as_list}
use gno_watchtower.Watchtower.Forwarder.Samples.{VmLine, whole, vm_sample}
use gno_watchtower.Watchtower.Forwarder.Rpc.{append_decoded}

pub record BlockParams : Type 0 where
  pub max_tx_bytes : String
  pub max_data_bytes : String
  pub max_block_bytes : String
  pub max_gas : String
  pub time_iota_ms : String

pub record ConsensusParams : Type 0 where
  pub block : BlockParams
  pub pub_key_type_urls : List String

pub record GenesisValidator : Type 0 where
  pub address : String
  pub pub_key : String
  pub power : String
  pub name : String

pub record GenesisDoc : Type 0 where
  pub genesis_time : String
  pub chain_id : String
  pub app_hash : Json
  pub consensus_params : ConsensusParams
  pub validators : List GenesisValidator

unfoldable pub decode_block_params : Json → Option BlockParams
decode_block_params j = do
  fields ← as_object j
  max_tx_bytes ← as_number (field "MaxTxBytes" fields)
  max_data_bytes ← as_number (field "MaxDataBytes" fields)
  max_block_bytes ← as_number (field "MaxBlockBytes" fields)
  max_gas ← as_number (field "MaxGas" fields)
  time_iota_ms ← as_number (field "TimeIotaMS" fields)
  some (record {
    max_tx_bytes = max_tx_bytes;
    max_data_bytes = max_data_bytes;
    max_block_bytes = max_block_bytes;
    max_gas = max_gas;
    time_iota_ms = time_iota_ms;
  })

unfoldable pub decode_consensus_params : Json → Option ConsensusParams
decode_consensus_params j = do
  fields ← as_object j
  block ← decode_block_params (field "Block" fields)
  validator ← as_object (field "Validator" fields)
  urls ← as_list as_text (field "PubKeyTypeURLs" validator)
  some (record { block = block; pub_key_type_urls = urls })

unfoldable pub decode_genesis_validator : Json → Option GenesisValidator
decode_genesis_validator j = do
  fields ← as_object j
  address ← as_text (field "address" fields)
  pub_key ← as_object (field "pub_key" fields)
  value ← as_text (field "value" pub_key)
  power ← as_number (field "power" fields)
  name ← as_text (field "name" fields)
  some (record { address = address; pub_key = value; power = power; name = name })

unfoldable pub decode_genesis : Json → Option GenesisDoc
decode_genesis j = do
  outer ← as_object j
  fields ← as_object (field "genesis" outer)
  genesis_time ← as_text (field "genesis_time" fields)
  chain_id ← as_text (field "chain_id" fields)
  params ← decode_consensus_params (field "consensus_params" fields)
  validators ← as_list decode_genesis_validator (field "validators" fields)
  some (record {
    genesis_time = genesis_time;
    chain_id = chain_id;
    app_hash = field "app_hash" fields;
    consensus_params = params;
    validators = validators;
  })

unfoldable pub normalize_app_hash : Json → String
normalize_app_hash (text s) = s
normalize_app_hash _ = ""

-- `strings.Join(ss, ",")`
unfoldable pub join_comma : List String → String
join_comma [] = ""
join_comma (s ∷ []) = s
join_comma (s ∷ t ∷ r) = append_text s (append_text "," (join_comma (t ∷ r)))

unfoldable pub consensus_params_of : ConsensusParams → Assoc String
consensus_params_of p =
    ("block.max_tx_bytes", p.block.max_tx_bytes)
    ∷ ("block.max_data_bytes", p.block.max_data_bytes)
    ∷ ("block.max_block_bytes", p.block.max_block_bytes)
    ∷ ("block.max_gas", p.block.max_gas)
    ∷ ("block.time_iota_ms", p.block.time_iota_ms)
    ∷ ("validator.pub_key_types", join_comma p.pub_key_type_urls)
    ∷ []

unfoldable pub param_lines : String → ℤ → Assoc String → List VmLine
param_lines validator ts [] = []
param_lines validator ts ((name, value) ∷ ps) =
    let rest = param_lines validator ts ps in
    if str_eq value ""
    then rest
    else vm_sample "sentinel_genesis_consensus_param"
        (("validator", validator) ∷ ("param", name) ∷ ("value", value) ∷ []) (whole (pos 1)) ts
      ∷ rest

unfoldable pub genesis_validator_lines : String → ℤ → List GenesisValidator → List VmLine
genesis_validator_lines validator ts [] = []
genesis_validator_lines validator ts (v ∷ vs) =
    vm_sample "sentinel_genesis_validator"
      (("validator", validator)
        ∷ ("address", v.address)
        ∷ ("pub_key", v.pub_key)
        ∷ ("power", v.power)
        ∷ ("name", v.name)
        ∷ [])
      (whole (pos 1)) ts
    ∷ genesis_validator_lines validator ts vs

unfoldable pub genesis_lines : String → ℤ → GenesisDoc → List VmLine
genesis_lines validator ts g =
    vm_sample "sentinel_genesis_info"
        (("validator", validator)
          ∷ ("chain_id", g.chain_id)
          ∷ ("genesis_time", g.genesis_time)
          ∷ ("app_hash", normalize_app_hash g.app_hash)
          ∷ [])
        (whole (pos 1)) ts
      ∷ param_lines validator ts (consensus_params_of g.consensus_params)
    ++ genesis_validator_lines validator ts g.validators

unfoldable pub append_rpc_genesis : List VmLine → String → ℤ → Json → List VmLine
append_rpc_genesis lines validator ts raw =
    append_decoded lines (decode_genesis raw) (genesis_lines validator ts)
