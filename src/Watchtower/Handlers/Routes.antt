-- ===== src/Watchtower/Handlers/Routes.antt =====
-- The routes of the payloads, and the list of a validator's permissions.
use gno_watchtower.Base.{
  ◌⊎◌, inl, inr, ◌∙◌, String, Bool, true, false, List, [], ◌∷◌, ◌++◌, if◌then◌else◌, ◌≡◌, ◌≢◌, refl,
  sym, ap, arith, eq_iff, str_eq, Bool-cases,
}
use gno_watchtower.Watchtower.Config.{ValidatorConfig}
use gno_watchtower.Watchtower.Handlers.{
  Inner, payload, auth_check, no_route, protected, outer_route, inner_route, payload_route, is_get,
  contains, level_for,
}

-- The four paths of payloads, each with the permission that it needs and the minimum level that is passed
-- on for it, which is the validator's for logs.
abbrev pub Endpoint : String → String → String → String → Type 0
Endpoint path perm level min_level =
    ((path ≡ "/rpc") × (perm ≡ "rpc") × (level ≡ ""))
    ⊎ ((path ≡ "/metrics") × (perm ≡ "metrics") × (level ≡ ""))
    ⊎ ((path ≡ "/logs") × (perm ≡ "logs") × (level ≡ min_level))
    ⊎ ((path ≡ "/otlp") × (perm ≡ "otlp") × (level ≡ ""))

payload_only : (p q : String) → payload p ≡ payload q → p ≡ q
payload_only p q h = ap permission h
  where
    permission : Inner → String
    permission (payload perm) = perm
    permission auth_check = ""
    permission (no_route status) = ""

payload_route-post :
    (method perm seen : String)
    → payload_route method perm ≡ payload seen
    → (method ≡ "POST") × (seen ≡ perm)
payload_route-post method perm seen h = elim (Bool-cases (str_eq method "POST")) [
  | inl post ↦ (
    ground (arith, post, eq_iff method "POST"),
    sym (payload_only perm seen (sym (by_test post) ∙ h)),
  )
  | inr other ↦ absurd (cc (sym (by_test other) ∙ h))
]
  where
    by_test :
        {b : Bool}
        → str_eq method "POST" ≡ b
        → payload_route method perm ≡ (if b then payload perm else no_route 405)
    by_test e = rw e refl

-- One test of a path.
one_path :
    (b : Bool) (method perm seen : String) (rest : Inner)
    → (if b then payload_route method perm else rest) ≡ payload seen
    → ((b ≡ true) × (method ≡ "POST") × (seen ≡ perm)) ⊎ (rest ≡ payload seen)
one_path true method perm seen rest h =
    let (post, same) = payload_route-post method perm seen h in inl (refl, post, same)
one_path false method perm seen rest h = inr h

no_payload :
    (b get : Bool) (seen : String)
    → (if b then if get then auth_check else no_route 405 else no_route 404) ≢ payload seen
no_payload true true seen h = absurd (cc)
no_payload true false seen h = absurd (cc)
no_payload false get seen h = absurd (cc)

-- A payload is routed on a POST alone, on the path of its permission.
pub inner_route-payload :
    (method path perm : String) (cfg : ValidatorConfig)
    → inner_route method path ≡ payload perm
    → (method ≡ "POST") × Endpoint path perm (level_for perm cfg) cfg.logs_min_level
unfolding inner_route
inner_route-payload method path perm cfg h =
    elim (one_path (str_eq path "/rpc") method "rpc" perm _ h) [
      | inl (e, post, same) ↦
          (post, inl (ground (arith, e, eq_iff path "/rpc"), same, rw same refl))
      | inr h ↦ elim (one_path (str_eq path "/metrics") method "metrics" perm _ h) [
        | inl (e, post, same) ↦
            (post, inr (inl (ground (arith, e, eq_iff path "/metrics"), same, rw same refl)))
        | inr h ↦ elim (one_path (str_eq path "/logs") method "logs" perm _ h) [
          | inl (e, post, same) ↦
              (post, inr (inr (inl (ground (arith, e, eq_iff path "/logs"), same, rw same refl))))
          | inr h ↦ elim (one_path (str_eq path "/otlp") method "otlp" perm _ h) [
            | inl (e, post, same) ↦
                (post, inr (inr (inr (ground (arith, e, eq_iff path "/otlp"), same, rw same refl))))
            | inr h ↦ absurd (no_payload (str_eq path "/auth/check") (is_get method) perm h)
          ]
        ]
      ]
    ]

-- A text that stands in a list.
abbrev pub Listed : String → List String → Type 0
Listed p l = (before : List String) × (after : List String) × (l ≡ before ++ p ∷ after)

pub contains-Listed : (l : List String) (p : String) → contains l p ≡ true → Listed p l
contains-Listed [] p h = absurd (cc)
contains-Listed (q ∷ qs) p h = elim (Bool-cases (str_eq q p)) [
  | inl e ↦ ([], qs, ap (λ x. x ∷ qs) (ground (arith, e, eq_iff q p)))
  | inr e ↦
      let (before, after, same) = contains-Listed qs p (ground (arith, e, h)) in
      (q ∷ before, after, ap (◌∷◌ q) same)
]

pub Listed-contains : (l : List String) (p : String) → Listed p l → contains l p ≡ true
Listed-contains l p (before, after, same) = rw same (go before)
  where
    go : (before : List String) → contains (before ++ p ∷ after) p ≡ true
    go [] = ground (arith, eq_iff p p)
    go (b ∷ before) = ground (arith, go before)

-- A POST on the path of a permission comes to its handler.
pub Endpoint-route :
    (method path perm level : String) (cfg : ValidatorConfig)
    → method ≡ "POST"
    → Endpoint path perm level cfg.logs_min_level
    → (outer_route method path ≡ protected)
      × (inner_route method path ≡ payload perm)
      × (level ≡ level_for perm cfg)
unfolding outer_route inner_route
Endpoint-route method path perm level cfg post (inl (e, p, l)) =
    rw (post, e, p, l) (refl, refl, refl)
Endpoint-route method path perm level cfg post (inr (inl (e, p, l))) =
    rw (post, e, p, l) (refl, refl, refl)
Endpoint-route method path perm level cfg post (inr (inr (inl (e, p, l)))) =
    rw (post, e, p, l) (refl, refl, refl)
Endpoint-route method path perm level cfg post (inr (inr (inr (e, p, l)))) =
    rw (post, e, p, l) (refl, refl, refl)
