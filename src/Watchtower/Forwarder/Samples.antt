-- ===== src/Watchtower/Forwarder/Samples.antt =====
-- internal/watchtower/forwarder: the lines of VictoriaMetrics' import format, and what every line
-- that is extracted from a payload has in common.
use gno_watchtower.Base.{
  String, Bool, true, false, Option, none, some, List, [], ◌∷◌, ◌++◌, Assoc, lookup, insert,
  lookup-insert, has_prefix, cut_prefix, All, All-append, ℕ, ℤ, pos, parse_int, ◌≡◌, refl, ◌∙◌,
  Option-cases, if◌then◌else◌, inl, inr,
}

-- A `float64`: of an integer, of a literal of the JSON text, or of a number of nanoseconds in seconds.
-- The rounding of an integer beyond 2^53 is left out.
pub data Value : Type 0 where
  whole : ℤ → Value
  literal : String → Value
  nanoseconds : ℕ → Value

pub record VmLine : Type 0 where
  pub metric : Assoc String
  pub values : List Value
  pub timestamps : List ℤ

unfoldable pub vm_sample : String → Assoc String → Value → ℤ → VmLine
vm_sample name labels value ts = record {
  metric = insert "__name__" name labels;
  values = value ∷ [];
  timestamps = ts ∷ [];
}

abbrev pub parsed_sample : String → Assoc String → ℤ → Option ℤ → List VmLine
parsed_sample name labels ts none = []
parsed_sample name labels ts (some n) = vm_sample name labels (whole n) ts ∷ []

-- `intSample` and the append of what it returns: no line for a number that is no int64.
unfoldable pub int_sample : String → Assoc String → String → ℤ → List VmLine
int_sample name labels num ts = parsed_sample name labels ts (parse_int num)

unfoldable pub bool_to_float : Bool → Value
bool_to_float b = if b then whole (pos 1) else whole (pos 0)

abbrev pub starts_with : Option String → String → Bool
starts_with none p = false
starts_with (some name) p = has_prefix name p

-- One sample of the payload's instant, labelled with its validator, under a name of the sentinel's.
pub record IsSample (validator : String) (ts : ℤ) (l : VmLine) : Type 0 where
  pub of_validator : lookup "validator" l.metric ≡ some validator
  pub named : starts_with (lookup "__name__" l.metric) "sentinel_" ≡ true
  pub at : l.timestamps ≡ ts ∷ []
  pub single : (v : Value) × (l.values ≡ v ∷ [])

unfoldable pub AreSamples : String → ℤ → List VmLine → Type 0
AreSamples validator ts lines = All (IsSample validator ts) lines

module _ (validator : String) (ts : ℤ) where
  pub none_added : AreSamples validator ts []
  unfolding AreSamples
  none_added = tt

  pub one_more :
      (x : VmLine) (xs : List VmLine)
      → IsSample validator ts x
      → AreSamples validator ts xs
      → AreSamples validator ts (x ∷ xs)
  unfolding AreSamples
  one_more x xs h hs = (h, hs)

  pub some_more :
      (xs ys : List VmLine)
      → AreSamples validator ts xs
      → AreSamples validator ts ys
      → AreSamples validator ts (xs ++ ys)
  unfolding AreSamples
  some_more xs ys hx hy = All-append (IsSample validator ts) xs ys hx hy

  -- A sample whose labels begin with the validator.
  pub labelled :
      (name : String) (labels : Assoc String) (value : Value)
      → has_prefix name "sentinel_" ≡ true
      → IsSample validator ts (vm_sample name (("validator", validator) ∷ labels) value ts)
  unfolding vm_sample lookup
  labelled name labels value named = record {
    of_validator = lookup-insert "__name__" "validator" name (("validator", validator) ∷ labels);
    named = rw (lookup-insert "__name__" "__name__" name (("validator", validator) ∷ labels)) named;
    at = refl;
    single = (value, refl);
  }

  pub int_labelled :
      (name : String) (labels : Assoc String) (num : String)
      → has_prefix name "sentinel_" ≡ true
      → AreSamples validator ts (int_sample name (("validator", validator) ∷ labels) num ts)
  unfolding int_sample
  int_labelled name labels num named = elim (Option-cases (parse_int num)) [
    | inl e ↦ rw e none_added
    | inr (n, e) ↦ rw e (one_more _ [] (labelled name labels (whole n) named) none_added)
  ]

  pub either_way :
      (b : Bool) (xs ys : List VmLine)
      → AreSamples validator ts xs
      → AreSamples validator ts ys
      → AreSamples validator ts (if b then xs else ys)
  either_way true xs ys hx hy = hx
  either_way false xs ys hx hy = hy

pub ruleset sampling = (none_added, one_more, some_more, labelled, int_labelled, either_way, refl)
