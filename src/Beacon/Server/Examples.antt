-- ===== src/Beacon/Server/Examples.antt =====
-- A request with a hop-by-hop header, under a hook that panics on one path.
use gno_watchtower.Base.{
  String, Bool, true, Option, some, [], ◌∷◌, lookup, insert, has_prefix, cut_prefix, append_text,
  str_eq, if◌then◌else◌, ◌≡◌, refl,
}
use gno_watchtower.Beacon.Server.{
  Body, Request, UpRequest, Response, Reply, HookResult, relayed, returned, panicked, is_hop_by_hop,
  add_values, copy_headers, ends_with_slash, tail_of, single_join, safe_transform, read_capped,
  up_request, handle,
}
use gno_watchtower.Beacon.Server.Relay.{
  trim_end, trim_start, single_join-trimmed, Outcome, handle-Outcome,
}

program : Unit {0}
unfolding lookup insert has_prefix cut_prefix append_text is_hop_by_hop add_values copy_headers
    ends_with_slash tail_of single_join safe_transform read_capped up_request handle trim_end
    trim_start
program = tt

abbrev hook : String → Body → HookResult
hook path body = if str_eq path "/rpc" then returned (some (7 ∷ body)) else panicked

abbrev builds : UpRequest → Bool
builds up = true

abbrev answer : Response
answer = record {
  status = 200;
  headers = ("Connection", "close" ∷ []) ∷ ("Content-Type", "text/plain" ∷ []) ∷ [];
  body = 1 ∷ [];
}

abbrev send : UpRequest → Option Response
send up = some answer

abbrev request : String → Request
request path = record {
  method = "POST";
  path = path;
  raw_query = "a=1";
  headers = ("Authorization", "Bearer x" ∷ []) ∷ ("Te", "trailers" ∷ []) ∷ [];
  body = some (2 ∷ []);
}

abbrev sent : Body → String → UpRequest
sent body path = record {
  method = "POST";
  path = path;
  raw_query = "a=1";
  headers = ("Authorization", "Bearer x" ∷ []) ∷ [];
  body = body;
}

abbrev reply : Reply
reply = relayed (record answer { headers = ("Content-Type", "text/plain" ∷ []) ∷ [] })

rpc-handled :
    handle (some hook) builds send "/in/" (request "/rpc")
    ≡ (sent (7 ∷ 2 ∷ []) "/in/rpc" ∷ [], reply)
unfolding program
rpc-handled = refl

logs-handled :
    handle (some hook) builds send "/in" (request "/logs") ≡ (sent (2 ∷ []) "/in/logs" ∷ [], reply)
unfolding program
logs-handled = refl

abbrev rpc : String
rpc = "/rpc"

handle-Outcome_example :
    Outcome
      (some hook)
      builds
      send
      "/in/"
      (request rpc)
      (handle (some hook) builds send "/in/" (request rpc))
handle-Outcome_example =
    handle-Outcome (some hook) builds send "/in/" (request rpc)
      (unfold program in (refl, (refl, tt))) (λ up. unfold program in (refl, (refl, tt)))

single_join-trimmed_example :
    single_join "/in" rpc ≡ append_text (trim_end "/in") (append_text "/" (trim_start rpc))
single_join-trimmed_example = single_join-trimmed "/in" rpc
