-- ===== src/Watchtower/Forwarder/Posts.antt =====
-- internal/watchtower/forwarder/forwarder.go: what becomes of an RPC or a metrics payload. The body
-- stands as what its decoding gives, and VictoriaMetrics as the status of its answer.
use gno_watchtower.Base.{
  ℕ, ◌≤◌, ◌<◌, String, Bool, true, false, ◌||◌, Option, none, some, List, [], ◌∷◌, ltb, leb, ◌≡◌,
  refl, ◌⊎◌, inl, inr, arith, if◌then◌else◌,
}
use gno_watchtower.Watchtower.Forwarder.Samples.{VmLine}
use gno_watchtower.Watchtower.Forwarder.Rpc.{Payload}
use gno_watchtower.Watchtower.Forwarder.Rpc.Extract.{extract_rpc}
use gno_watchtower.Watchtower.Forwarder.Metrics.Extract.{extract_metrics}

-- The lines that were posted, if any, and whether the call returned without an error.
pub record Outcome : Type 0 where
  pub posted : List VmLine
  pub ok : Bool

-- `post`, for an answer's status or no answer.
unfoldable pub post : Option ℕ → Bool
post none = false
post (some status) = if ltb status 200 || leb 300 status then false else true

unfoldable pub post_vm_lines : Option ℕ → List VmLine → Outcome
post_vm_lines answer [] = record { posted = []; ok = true }
post_vm_lines answer (l ∷ ls) = record { posted = l ∷ ls; ok = post answer }

unfoldable pub forward_rpc : String → Option ℕ → Option Payload → Outcome
forward_rpc validator answer none = record { posted = []; ok = false }
forward_rpc validator answer (some payload) = post_vm_lines answer (extract_rpc validator payload)

unfoldable pub forward_metrics : String → Option ℕ → Option Payload → Outcome
forward_metrics validator answer none = record { posted = []; ok = false }
forward_metrics validator answer (some payload) =
    post_vm_lines answer (extract_metrics validator payload)

-- An answer of the two hundreds.
abbrev pub IsSuccess : Option ℕ → Type 0
IsSuccess none = ⊥
IsSuccess (some status) = (200 ≤ status) × (status < 300)

post-IsSuccess : (answer : Option ℕ) → post answer ≡ true → IsSuccess answer
unfolding post
post-IsSuccess none h = cc
post-IsSuccess (some status) h = ground arith

post_vm_lines-ok :
    (answer : Option ℕ) (lines : List VmLine)
    → (post_vm_lines answer lines).ok ≡ true
    → ((post_vm_lines answer lines).posted ≡ lines) × ((lines ≡ []) ⊎ IsSuccess answer)
unfolding post_vm_lines
post_vm_lines-ok answer [] h = (refl, inl refl)
post_vm_lines-ok answer (l ∷ ls) h = (refl, inr (post-IsSuccess answer h))

-- An RPC payload is forwarded without an error only if its body decodes, every line extracted from it is
-- posted, and VictoriaMetrics answers in the two hundreds or there was no line to post.
pub forward_rpc-ok :
    (validator : String) (answer : Option ℕ) (body : Option Payload)
    → (forward_rpc validator answer body).ok ≡ true
    → (payload : Payload) × (body ≡ some payload)
      × ((forward_rpc validator answer body).posted ≡ extract_rpc validator payload)
      × ((extract_rpc validator payload ≡ []) ⊎ IsSuccess answer)
unfolding forward_rpc
forward_rpc-ok validator answer none h = cc
forward_rpc-ok validator answer (some payload) h =
    let (all, why) = post_vm_lines-ok answer (extract_rpc validator payload) h in
    (payload, refl, all, why)
