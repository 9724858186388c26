-- ===== src/Codec/Stream.antt =====
-- What the decodings and encodings of protocol/src need of an implementor of `AsyncDecoder` and
-- `AsyncEncoder`: it delivers the bytes that it holds in order, and appends those it is given.
use sensor_sensei.Common.{
  ℕ, ◌+◌, ◌%◌, ◌<◌, ◌≡◌, refl, sym, subst, arith, List, [], ◌++◌, length, length-append,
  append_assoc, append-nil,
}
use sensor_sensei.Common.Outcome.{M, ok, pure, ◌>>=◌}
use sensor_sensei.Codec.Traits.{Encoder, Decoder, usize_mod}

-- `Holds s xs`: from the state `s` the bytes `xs` can be read.
pub record IsStream {S E : Type 0} (d : Decoder S E) (Holds : S → List ℕ → Type 0) : Type 0 where
  pub offset_lt : (s : S) (xs : List ℕ) → Holds s xs → d.current_offset s < usize_mod
  pub read_lem :
      (s : S) (xs rest : List ℕ)
      → Holds s (xs ++ rest)
      → (s' : S) × (d.read_bytes (length xs) s ≡ ok xs s')
        × Holds s' rest
        × (d.current_offset s' ≡ (d.current_offset s + length xs) % usize_mod)

-- `m` reads exactly the bytes `xs`, whatever follows them, and returns `a`.
abbrev pub Consumes :
    {S E A : Type 0} → Decoder S E → (S → List ℕ → Type 0) → M S E A → A → List ℕ → Type 0
Consumes {S} d Holds m a xs =
    (s : S) (rest : List ℕ)
    → Holds s (xs ++ rest)
    → (s' : S) × (m s ≡ ok a s')
      × Holds s' rest
      × (d.current_offset s' ≡ (d.current_offset s + length xs) % usize_mod)

module _ {S E : Type 0} (d : Decoder S E) (Holds : S → List ℕ → Type 0)
    (stream : IsStream d Holds) where
  pub Consumes-pure : {A : Type 0} (a : A) → Consumes d Holds (pure a) a []
  Consumes-pure a s rest h = (s, refl, h, omega (arith, stream.offset_lt s _ h))

  pub Consumes-read : (xs : List ℕ) → Consumes d Holds (d.read_bytes (length xs)) xs xs
  Consumes-read xs s rest h = stream.read_lem s xs rest h

  pub Consumes-bind :
      {A B : Type 0} (m : M S E A) (f : A → M S E B) (a : A) (b : B) (xs ys : List ℕ)
      → Consumes d Holds m a xs
      → Consumes d Holds (f a) b ys
      → Consumes d Holds (m >>= f) b (xs ++ ys)
  Consumes-bind m f a b xs ys hm hf s rest h =
      let (s', e, h', o) = hm s (ys ++ rest) (subst (λ t. Holds s t) (append_assoc xs ys rest) h) in
      let (s'', e', h'', o') = hf s' rest h' in
      (s'', rw e e', h'', omega (arith, length-append xs ys))

-- `View s out`: the bytes `out` have been emitted up to the state `s`.
pub record IsSink {S E : Type 0} (e : Encoder S E) (View : S → List ℕ → Type 0) : Type 0 where
  pub emit_lem :
      (s : S) (out xs : List ℕ)
      → View s out
      → (s' : S) × (e.emit_bytes xs s ≡ ok tt s') × View s' (out ++ xs)

-- `m` emits exactly the bytes `xs`.
abbrev pub Emits : {S E : Type 0} → (S → List ℕ → Type 0) → M S E (Unit {0}) → List ℕ → Type 0
Emits {S} View m xs =
    (s : S) (out : List ℕ) → View s out → (s' : S) × (m s ≡ ok tt s') × View s' (out ++ xs)

module _ {S E : Type 0} (View : S → List ℕ → Type 0) where
  pub Emits-pure : Emits {E = E} View (pure tt) []
  Emits-pure s out h = (s, refl, subst (λ t. View s t) (sym (append-nil out)) h)

  pub Emits-then :
      (m n : M S E (Unit {0})) (xs ys : List ℕ)
      → Emits View m xs
      → Emits View n ys
      → Emits View (m >>= λ _. n) (xs ++ ys)
  Emits-then m n xs ys hm hn s out h =
      let (s', e, h') = hm s out h in
      let (s'', e', h'') = hn s' (out ++ xs) h' in
      (s'', rw e e', subst (λ t. View s'' t) (append_assoc out xs ys) h'')
