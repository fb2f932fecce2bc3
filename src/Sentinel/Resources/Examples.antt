-- ===== src/Sentinel/Resources/Examples.antt =====
-- Two ticks of the host and its container: one value changes, and one cannot be read.
use gno_watchtower.Base.{
  ℕ, suc, Bool, true, false, none, some, List, [], ◌∷◌, lookup, insert, ◌==◌, pos, ◌≡◌, ◌≢◌, ◌↔◌,
  refl, arith,
}
use gno_watchtower.Sentinel.Config.{ResourcesConfig}
use gno_watchtower.Sentinel.Delta.{changed}
use gno_watchtower.Sentinel.Resources.{Readings, container_stats, calls, report_all, collect}
use gno_watchtower.Sentinel.Resources.Received.{
  overlay, last_read, receive, all_calls, receive-last_read,
}

abbrev hash : ℕ → ℕ
hash x = suc x

abbrev same : ℕ → ℕ → Bool
same g h = g == h

abbrev valid : ℕ → Bool
valid x = true

same_iff : (g h : ℕ) → (same g h ≡ true) ↔ (g ≡ h)
same_iff g h = ground arith

apart : (x y : ℕ) → hash x ≡ hash y → x ≡ y
apart x y e = omega (arith, e)

nonzero : (x : ℕ) → 0 ≢ hash x
nonzero x = omega arith

abbrev config : ResourcesConfig
config = record { enabled = true; poll_interval = pos 10; source = "both"; container_name = "c" }

abbrev ticks : List (Readings ℕ)
ticks =
    record {
      cpu = some 1;
      memory = some 2;
      disk = none;
      network = some 4;
      docker_client = true;
      container = some 5;
    }
    ∷ record {
      cpu = some 1;
      memory = some 3;
      disk = none;
      network = none;
      docker_client = false;
      container = some 6;
    }
    ∷ []

receive-last_read_example :
    lookup "memory" (receive hash same 0 valid config ticks ([], [])).1
    ≡ last_read "memory" none (all_calls hash same 0 valid config ticks)
receive-last_read_example =
    receive-last_read hash same 0 same_iff apart nonzero valid config ticks "memory"

memory-kept :
    (receive hash same 0 valid config ticks ([], [])).1
    ≡ ("container", 5) ∷ ("network", 4) ∷ ("memory", 3) ∷ ("cpu", 1) ∷ []
unfolding receive collect report_all changed calls container_stats overlay lookup insert
memory-kept = refl
