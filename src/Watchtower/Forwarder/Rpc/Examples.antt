-- ===== src/Watchtower/Forwarder/Rpc/Examples.antt =====
-- A set of two validators, one of them overflowing the total; and a set with a malformed power.
use gno_watchtower.Base.{
  String, List, [], ◌∷◌, ◌≡◌, refl, ◌⊎◌, pos, negsuc, has_prefix, cut_prefix, lookup, insert, int64,
  word, add64, parse_int, length,
}
use gno_watchtower.Json.{
  Json, text, array, object, nil, cons, end, member, field, as_object, as_text, as_number, as_list,
  is_valid_number, number_from,
}
use gno_watchtower.Watchtower.Forwarder.Samples.{AreSamples, whole, vm_sample, int_sample}
use gno_watchtower.Watchtower.Forwarder.Rpc.{
  Payload, Validator, SetMember, base_labels, encoded_key, collect_members, member_labels,
  member_lines, decode_validator, decode_validators, append_rpc_validators, append_rpc_net_info,
  decode_number_at,
}
use gno_watchtower.Watchtower.Forwarder.Rpc.Extract.{append_key, append_keys, extract_rpc}
use gno_watchtower.Watchtower.Forwarder.Rpc.Labels.{extract_rpc-AreSamples}
use gno_watchtower.Watchtower.Forwarder.Rpc.Totals.{
  HasMalformed, Matches, sum_words, append_rpc_validators-all_or_nothing,
}

program : Unit {0}
unfolding has_prefix cut_prefix lookup insert int64 word add64 parse_int field as_object as_text
    as_number as_list is_valid_number number_from vm_sample int_sample encoded_key collect_members
    member_labels member_lines decode_validator decode_validators append_rpc_validators
    append_rpc_net_info decode_number_at append_key append_keys extract_rpc sum_words
program = tt

abbrev entry : String → String → Json
entry address power =
    object (member "address" (text address) (member "voting_power" (text power) end))

abbrev set : String → Json
set power = object (
    member "validators"
      (array (cons (entry "g1a" "9223372036854775807") (cons (entry "" power) nil))) end)

abbrev parsed : String → List Validator
parsed power =
    record { address = "g1a"; voting_power = "9223372036854775807"; key_type = ""; key_value = "" }
    ∷ record { address = ""; voting_power = power; key_type = ""; key_value = "" }
    ∷ []

abbrev wrapped_power : String
wrapped_power = "1"

abbrev fraction : String
fraction = "1.5"

set-lines :
    append_rpc_validators [] "v" (pos 7) (set wrapped_power)
    ≡ vm_sample "sentinel_rpc_validator_set_size" (base_labels "v") (whole (pos 2)) (pos 7)
      ∷ vm_sample "sentinel_rpc_validator_set_total_power"
          (base_labels "v")
          (whole (negsuc 9223372036854775807))
          (pos 7)
      ∷ vm_sample "sentinel_rpc_validator_set_power"
          (("validator", "v") ∷ ("address", "g1a") ∷ [])
          (whole (pos 9223372036854775807))
          (pos 7)
      ∷ []
unfolding program
set-lines = refl

malformed-lines : append_rpc_validators [] "v" (pos 7) (set fraction) ≡ []
unfolding program
malformed-lines = refl

append_rpc_validators-all_or_nothing_example :
    (HasMalformed (parsed fraction) × (append_rpc_validators [] "v" (pos 7) (set fraction) ≡ []))
    ⊎ ((ms : List SetMember) × Matches (parsed fraction) ms
        × (append_rpc_validators [] "v" (pos 7) (set fraction)
            ≡ vm_sample "sentinel_rpc_validator_set_size" (base_labels "v") (whole (pos 2)) (pos 7)
              ∷ vm_sample "sentinel_rpc_validator_set_total_power"
                  (base_labels "v")
                  (whole (int64 (sum_words ms)))
                  (pos 7)
              ∷ member_lines "v" (pos 7) ms))
append_rpc_validators-all_or_nothing_example =
    append_rpc_validators-all_or_nothing [] "v" (pos 7) (set fraction) (parsed fraction)
      (unfold program in refl)

abbrev payload : Payload
payload = record {
  collected_at = pos 7;
  payload_data =
      ("net_info", object (member "n_peers" (text "3") end))
      ∷ ("unknown", text "x")
      ∷ ("validators", set wrapped_power)
      ∷ [];
}

payload-length : length (extract_rpc "v" payload) ≡ 4
unfolding program
payload-length = refl

extract_rpc-AreSamples_example : AreSamples "v" (pos 7) (extract_rpc "v" payload)
extract_rpc-AreSamples_example = extract_rpc-AreSamples "v" payload
