-- ===== src/Noise/Conn/Examples.antt =====
-- The laws hold of a toy cipher, whose state counts the messages and whose tag is that count.
use gno_watchtower.Base.{
  ℕ, suc, Bool, true, Option, none, some, [], ◌∷◌, ◌++◌, ◌≡◌, refl, ap, sym, arith, length, drop,
}
use gno_watchtower.Noise.Frame.{Bytes}
use gno_watchtower.Noise.Conn.{Conn, reads, write_all}
use gno_watchtower.Noise.Conn.RoundTrip.{Opens, Appends, Seals, reads-write_all, write_all-fine}

abbrev tag : ℕ → Bytes
tag k = k ∷ 0 ∷ 0 ∷ 0 ∷ 0 ∷ 0 ∷ 0 ∷ 0 ∷ 0 ∷ 0 ∷ 0 ∷ 0 ∷ 0 ∷ 0 ∷ 0 ∷ 0 ∷ []

abbrev seal : ℕ → Bytes → Option Bytes × ℕ
seal k p = (some (tag k ++ p), suc k)

abbrev unseal : ℕ → Bytes → Option Bytes × ℕ
unseal k ct = (some (drop 16 ct), suc k)

abbrev pipe : Bytes → Bytes → Bytes × Bool
pipe w b = (w ++ b, true)

abbrev same_stream : Bytes → Bytes
same_stream w = w

seal-Opens : Opens seal unseal pipe same_stream (λ s r. s ≡ r)
seal-Opens s r p ct s' e h =
    let sealed : tag s ++ p ≡ ct = cc in
    let next : suc s ≡ s' = cc in
    (ground (arith, ap length sealed), suc r, rw (sym sealed) refl, cc)

pipe-Appends : Appends seal unseal pipe same_stream (λ s r. s ≡ r)
pipe-Appends w b w' h = cc

seal-Seals : Seals seal pipe
seal-Seals s p = (tag s ++ p, suc s, refl, omega arith)

abbrev fresh : Conn ℕ
fresh = record { send_cs = 0; recv_cs = 0; read_buf = [] }

abbrev hello : Bytes
hello = 104 ∷ 105 ∷ 33 ∷ []

reads-write_all_example :
    ((write_all seal pipe fresh [] hello).2 ≡ 3)
    × (reads unseal (2 ∷ 5 ∷ 1 ∷ []) fresh (same_stream (write_all seal pipe fresh [] hello).1)
        ≡ hello)
reads-write_all_example =
    reads-write_all seal unseal pipe same_stream (λ s r. s ≡ r) seal-Opens pipe-Appends fresh fresh
      [] hello (2 ∷ 5 ∷ 1 ∷ []) refl refl refl
      (write_all-fine seal pipe seal-Seals (λ w b. refl) fresh [] hello)
      (omega arith, (omega arith, (omega arith, tt))) (omega arith)

write_all-fine_example : (write_all seal pipe fresh [] hello).3 ≡ none
write_all-fine_example = write_all-fine seal pipe seal-Seals (λ w b. refl) fresh [] hello
