-- ===== src/Web/Server/Runs.antt =====
-- How a call of net/http/server.rs ends, and what the server relies on in a TCP socket.
use sensor_sensei.Common.{
  ℕ, ◌-◌, ◌≤◌, ◌<◌, ◌==◌, List, [], ◌∷◌, ◌++◌, length, append_assoc, length-append, ◌≡◌, ◌⊎◌, inl,
  inr, refl, ap, ◌∙◌, arith, Bool-cases,
}
use sensor_sensei.Common.Outcome.{Ended, ok, err}
use sensor_sensei.Web.Http.{TcpSocket}
use sensor_sensei.Web.Server.{Connection, append_read, read_append}

-- The socket has a timeout, so that each call returns; `log` is all that was read from it. `read`
-- fills a part of the free space.
pub record IsTcpSocket {K E : Type 0} (tcp : TcpSocket K E) (log : K → List ℕ) : Type 0 where
  pub read_lem :
      (size : ℕ) (k : K)
      → ((bytes : List ℕ) × (k' : K) × (tcp.read size k ≡ ok bytes k')
          × (length bytes ≤ size)
          × (log k' ≡ log k ++ bytes))
        ⊎ ((e : E) × (k' : K) × (tcp.read size k ≡ err e k'))
  pub write_lem :
      (bytes : List ℕ) (k : K)
      → ((k' : K) × (tcp.write_all bytes k ≡ ok tt k') × (log k' ≡ log k))
        ⊎ ((e : E) × (k' : K) × (tcp.write_all bytes k ≡ err e k'))

-- Of what was read, the buffer holds all that comes after `before`.
abbrev pub Holds : {K : Type 0} → (K → List ℕ) → ℕ → List ℕ → Connection K → Type 0
Holds log n before c = (log c.sock ≡ before ++ c.buffer) × (length c.buffer ≤ n)

-- The buffer has grown by one byte at least.
abbrev pub Grown : {K : Type 0} → (K → List ℕ) → ℕ → List ℕ → List ℕ → Connection K → Type 0
Grown log n before old c =
    (bytes : List ℕ) × (c.buffer ≡ old ++ bytes)
    × (length old < length c.buffer)
    × Holds log n before c

module _ {K E : Type 0} (tcp : TcpSocket K E) (log : K → List ℕ) (laws : IsTcpSocket tcp log)
    (n : ℕ) where
  append_read-Ended :
      (before old bytes : List ℕ) (k k' : K)
      → log k ≡ before ++ old
      → log k' ≡ log k ++ bytes
      → length bytes ≤ n - length old
      → length old ≤ n
      → Ended (λ _ c. Grown log n before old c) (append_read {E = E} old (ok bytes k'))
  append_read-Ended before old [] k k' read more fits room = tt
  append_read-Ended before old (b ∷ bs) k k' read more fits room = (
    b ∷ bs,
    refl,
    omega (arith, length-append old (b ∷ bs)),
    (
      more ∙ ap (λ (xs : List ℕ). xs ++ (b ∷ bs)) read ∙ append_assoc before old (b ∷ bs),
      omega (arith, length-append old (b ∷ bs)),
    ),
  )

  pub read_append-Ended :
      (before : List ℕ) (c : Connection K)
      → Holds log n before c
      → Ended (λ _ c'. Grown log n before c.buffer c') (read_append tcp n c)
  unfolding read_append
  read_append-Ended before c (read, room) = elim (Bool-cases (length c.buffer == n)) [
    | inl full ↦ rw full tt
    | inr free ↦ elim (laws.read_lem (n - length c.buffer) c.sock) [
      | inl (bytes, k', e, fits, more) ↦
          rw (free, e) (append_read-Ended before c.buffer bytes c.sock k' read more fits room)
      | inr (e, k', failed) ↦ rw (free, failed) tt
    ]
  ]
