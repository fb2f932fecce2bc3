-- ===== src/Watchtower/Forwarder/Rpc/Labels.antt =====
-- Whatever a payload holds, each line that comes of it is one sample of the payload's validator and
-- instant.
use gno_watchtower.Base.{
  ℕ, String, Bool, true, Option, none, some, List, [], ◌∷◌, Assoc, str_eq, cut_prefix, has_prefix,
  Bool-cases, inl, inr, ◌≡◌, ℤ,
}
use gno_watchtower.Json.{Json}
use gno_watchtower.Watchtower.Forwarder.Samples.{
  VmLine, AreSamples, sampling, none_added, some_more,
}
use gno_watchtower.Watchtower.Forwarder.Rpc.{
  Payload, ValidatorInfo, Status, SetMember, append_decoded, own_power_lines, status_lines,
  append_rpc_status, append_rpc_net_info, append_rpc_mempool, append_rpc_consensus, member_labels,
  member_lines, set_lines, append_rpc_validators, append_rpc_block,
}
use gno_watchtower.Watchtower.Forwarder.Rpc.Genesis.{
  GenesisValidator, GenesisDoc, param_lines, genesis_validator_lines, genesis_lines,
  append_rpc_genesis,
}
use gno_watchtower.Watchtower.Forwarder.Rpc.Extract.{
  sentry_status_lines, append_rpc_sentry_status, append_rpc_sentry_net_info, config_lines,
  append_rpc_sentry_config, append_rpc_reachable, append_key, append_keys, extract_rpc,
}

module _ (validator : String) (ts : ℤ) where
  pub append_decoded-AreSamples {ℓ} :
      {R : Type ℓ} (lines : List VmLine) (o : Option R) (f : R → List VmLine)
      → AreSamples validator ts lines
      → ((r : R) → AreSamples validator ts (f r))
      → AreSamples validator ts (append_decoded lines o f)
  append_decoded-AreSamples lines none f h hf = h
  append_decoded-AreSamples lines (some r) f h hf = some_more validator ts lines (f r) h (hf r)

  own_power_lines-AreSamples :
      (catching_up : Bool) (o : Option ValidatorInfo)
      → AreSamples validator ts (own_power_lines validator ts catching_up o)
  unfolding own_power_lines has_prefix cut_prefix
  own_power_lines-AreSamples catching_up none = none_added validator ts
  own_power_lines-AreSamples catching_up (some v) = search sampling

  status_lines-AreSamples : (r : Status) → AreSamples validator ts (status_lines validator ts r)
  unfolding status_lines has_prefix cut_prefix
  status_lines-AreSamples r = search (sampling, own_power_lines-AreSamples)

  member_lines-AreSamples :
      (ms : List SetMember) → AreSamples validator ts (member_lines validator ts ms)
  unfolding member_lines member_labels has_prefix cut_prefix
  member_lines-AreSamples [] = none_added validator ts
  member_lines-AreSamples (m ∷ ms) =
      let rest = member_lines-AreSamples ms in
      elim (Bool-cases (str_eq m.pub_key_b32 "")) [
        | inl n ↦ rw n (search (sampling, rest))
        | inr k ↦ rw k (search (sampling, rest))
      ]

  set_lines-AreSamples :
      (size : ℕ) (o : Option (List SetMember × ℤ))
      → AreSamples validator ts (set_lines validator ts size o)
  unfolding has_prefix cut_prefix
  set_lines-AreSamples size none = none_added validator ts
  set_lines-AreSamples size (some (members, total)) = search (sampling, member_lines-AreSamples)

  param_lines-AreSamples :
      (ps : Assoc String) → AreSamples validator ts (param_lines validator ts ps)
  unfolding param_lines has_prefix cut_prefix
  param_lines-AreSamples [] = none_added validator ts
  param_lines-AreSamples ((name, value) ∷ ps) =
      let rest = param_lines-AreSamples ps in search (sampling, rest)

  genesis_validator_lines-AreSamples :
      (vs : List GenesisValidator)
      → AreSamples validator ts (genesis_validator_lines validator ts vs)
  unfolding genesis_validator_lines has_prefix cut_prefix
  genesis_validator_lines-AreSamples [] = none_added validator ts
  genesis_validator_lines-AreSamples (v ∷ vs) =
      let rest = genesis_validator_lines-AreSamples vs in search (sampling, rest)

  genesis_lines-AreSamples :
      (g : GenesisDoc) → AreSamples validator ts (genesis_lines validator ts g)
  unfolding genesis_lines has_prefix cut_prefix
  genesis_lines-AreSamples g =
      search (sampling, param_lines-AreSamples, genesis_validator_lines-AreSamples)

  pub config_lines-AreSamples :
      (name : String) (values : Assoc String)
      → has_prefix name "sentinel_" ≡ true
      → AreSamples validator ts (config_lines name validator ts values)
  unfolding config_lines
  config_lines-AreSamples name [] named = none_added validator ts
  config_lines-AreSamples name ((k, v) ∷ values) named =
      let rest = config_lines-AreSamples name values named in search (sampling, named, rest)

  append_key-AreSamples :
      (lines : List VmLine) (key : String) (raw : Json)
      → AreSamples validator ts lines
      → AreSamples validator ts (append_key lines validator ts key raw)
  unfolding append_key append_rpc_status append_rpc_net_info append_rpc_mempool append_rpc_consensus
      append_rpc_validators append_rpc_block append_rpc_genesis append_rpc_sentry_status
      sentry_status_lines append_rpc_sentry_net_info append_rpc_sentry_config append_rpc_reachable
      has_prefix cut_prefix
  append_key-AreSamples lines key raw h =
      search
        (
          sampling, h, append_decoded-AreSamples, status_lines-AreSamples, set_lines-AreSamples,
          genesis_lines-AreSamples, config_lines-AreSamples,
        )
        depth 20

  append_keys-AreSamples :
      (lines : List VmLine) (payload_data : Assoc Json)
      → AreSamples validator ts lines
      → AreSamples validator ts (append_keys lines validator ts payload_data)
  unfolding append_keys
  append_keys-AreSamples lines [] h = h
  append_keys-AreSamples lines ((key, raw) ∷ rest) h =
      append_keys-AreSamples (append_key lines validator ts key raw) rest
        (append_key-AreSamples lines key raw h)

-- Every line of a payload, whatever its keys hold, carries the validator's label and a name of the
-- sentinel's, and has one value at the instant of the payload's collection.
pub extract_rpc-AreSamples :
    (validator : String) (payload : Payload)
    → AreSamples validator payload.collected_at (extract_rpc validator payload)
unfolding extract_rpc
extract_rpc-AreSamples validator payload =
    append_keys-AreSamples validator payload.collected_at [] payload.payload_data
      (none_added validator payload.collected_at)
