-- ===== src/Beacon/Server/Headers.antt =====
-- What survives a copy of the headers, and where two paths are joined.
use gno_watchtower.Base.{
  String, List, [], ◌∷◌, ◌++◌, Distinct, lookup, insert, lookup-insert, append_assoc, append-nil,
  if◌then◌else◌, str_eq, eq_iff, ◌≡◌, arith,
}
use gno_watchtower.Beacon.Server.{Headers, is_hop_by_hop, values_of, add_values, copy_headers}

abbrev pub values_at : String → Headers → List String
values_at k h = values_of (lookup k h)

-- The values that a copy passes on.
abbrev pub end_to_end : String → List String → List String
end_to_end k vs = if is_hop_by_hop k then [] else vs

values_at-insert :
    (at k : String) (vs : List String) (h : Headers)
    → values_at at (insert k vs h) ≡ (if str_eq k at then vs else values_at at h)
values_at-insert at k vs h = ground (lookup-insert k at vs h, arith)

values_at-add_values :
    (at k : String) (vs : List String) (dst : Headers)
    → values_at at (add_values k vs dst) ≡ values_at at dst ++ (if str_eq k at then vs else [])
unfolding add_values
values_at-add_values at k [] dst = ground (arith, append-nil (values_at at dst))
values_at-add_values at k (v ∷ vs) dst =
    let rest = values_at-add_values at k vs (insert k (values_at k dst ++ v ∷ []) dst) in
    let first = values_at-insert at k (values_at k dst ++ v ∷ []) dst in
    ground (
      arith,
      rest,
      first,
      eq_iff k at,
      append_assoc (values_at k dst) (v ∷ []) vs,
      append-nil (values_at at dst),
    )

-- A copy adds, to the values at a key, those of the source at it, in their order, except that nothing of a
-- hop-by-hop header is copied.
pub values_at-copy_headers :
    (at : String) (dst src : Headers)
    → Distinct src
    → values_at at (copy_headers dst src) ≡ values_at at dst ++ end_to_end at (values_at at src)
unfolding copy_headers lookup
values_at-copy_headers at dst [] h = ground (arith, append-nil (values_at at dst))
values_at-copy_headers at dst ((k, vs) ∷ src) h = ground (
  arith,
  eq_iff k at,
  h.0,
  values_at-copy_headers at dst src h.1,
  values_at-copy_headers at (add_values k vs dst) src h.1,
  values_at-add_values at k vs dst,
  append_assoc (values_at at dst) vs [],
  append-nil (values_at at dst),
  append-nil (values_at at dst ++ vs),
)
