-- ===== src/Board/Transport.antt =====
-- `emit_bytes` and `read_bytes` of both application layers, over any link layer that makes progress.
use sensor_sensei.Common.{
  ℕ, zero, suc, ◌+◌, ◌-◌, ◌%◌, ◌≤◌, ◌<◌, List, [], ◌∷◌, ◌++◌, length, take, drop, length-take,
  length-drop, length-append, append_assoc, append-nil, take-append-drop, take-length_append,
  drop-length_append, ◌≡◌, refl, sym, ap, subst, ◌∙◌, arith,
}
use sensor_sensei.Common.Outcome.{ok}
use sensor_sensei.Codec.Traits.{usize_mod}
use sensor_sensei.Codec.Stream.{IsStream, IsSink}
use sensor_sensei.Board.LinkState.{LinkLayer}
use sensor_sensei.Board.AppLayer.{AppLayer, emit_loop, read_loop, app_encoder, app_decoder}

-- A write takes a byte at least, from the front. `View l out`: the bytes `out` have been taken.
pub record IsWritable {L X : Type 0} (link : LinkLayer L X) (View : L → List ℕ → Type 0)
    : Type 0 where
  pub write_lem :
      (l : L) (out bytes : List ℕ)
      → View l out
      → 0 < length bytes
      → (k : ℕ) × (l' : L) × (link.write bytes l ≡ ok k l')
        × (0 < k)
        × View l' (out ++ take k bytes)

-- A read returns between one byte and what it is asked for, from the front of what the link has.
pub record IsReadable {L X : Type 0} (link : LinkLayer L X) (Holds : L → List ℕ → Type 0)
    : Type 0 where
  pub read_lem :
      (l : L) (bytes : List ℕ) (n : ℕ)
      → Holds l bytes
      → 0 < n
      → n ≤ length bytes
      → (k : ℕ) × (l' : L) × (link.read n l ≡ ok (take k bytes) l')
        × (0 < k)
        × (k ≤ n)
        × Holds l' (drop k bytes)

module _ {L X : Type 0} (link : LinkLayer L X) (View : L → List ℕ → Type 0)
    (writable : IsWritable link View) where
  emit_loop-View :
      (fuel : ℕ) (s : AppLayer L) (out bytes : List ℕ)
      → View s.link out
      → length bytes ≤ fuel
      → (s' : AppLayer L) × (emit_loop link fuel bytes s ≡ ok tt s') × View s'.link (out ++ bytes)
  unfolding emit_loop
  emit_loop-View fuel s out [] view enough =
      (s, refl, subst (λ xs. View s.link xs) (sym (append-nil out)) view)
  emit_loop-View zero s out (b ∷ bs) view enough = ground arith
  emit_loop-View (suc fuel) s out (b ∷ bs) view enough =
      let (k, l, e, progress, view') = writable.write_lem s.link out (b ∷ bs) view (omega arith) in
      let (s', e', view'') =
        emit_loop-View fuel (record s { link = l }) (out ++ take k (b ∷ bs)) (drop k (b ∷ bs)) view'
          (omega (arith, length-drop k (b ∷ bs))) in
      let whole : (out ++ take k (b ∷ bs)) ++ drop k (b ∷ bs) ≡ out ++ (b ∷ bs) =
        append_assoc out (take k (b ∷ bs)) (drop k (b ∷ bs))
        ∙ ap (λ xs. out ++ xs) (take-append-drop k (b ∷ bs)) in
      (s', rw (e, e') refl, subst (λ xs. View s'.link xs) whole view'')

  -- Over a link layer that takes a byte at least of each write, `emit_bytes` returns, and the link
  -- layer has taken all the bytes in order.
  pub app_encoder-IsSink : IsSink (app_encoder link) (λ s out. View s.link out)
  unfolding app_encoder
  app_encoder-IsSink = record {
    emit_lem = λ s out bytes view. emit_loop-View (length bytes) s out bytes view (omega arith);
  }

take_nil : {A : Type 0} (m : ℕ) → take {A = A} m [] ≡ []
take_nil zero = refl
take_nil (suc m) = refl

drop_nil : {A : Type 0} (m : ℕ) → drop {A = A} m [] ≡ []
drop_nil zero = refl
drop_nil (suc m) = refl

take_more :
    {A : Type 0} (k n : ℕ) (xs : List A) → k ≤ n → take k xs ++ take (n - k) (drop k xs) ≡ take n xs
take_more zero n xs h = ap (λ (m : ℕ). take m xs) (let e : n - 0 ≡ n = omega arith in e)
take_more (suc k) zero xs h = ground arith
take_more (suc k) (suc n) [] h = take_nil (suc n - suc k)
take_more (suc k) (suc n) (x ∷ xs) h =
    let e : suc n - suc k ≡ n - k = omega arith in rw (e, take_more k n xs (omega arith))

drop_more : {A : Type 0} (k n : ℕ) (xs : List A) → k ≤ n → drop (n - k) (drop k xs) ≡ drop n xs
drop_more zero n xs h = ap (λ (m : ℕ). drop m xs) (let e : n - 0 ≡ n = omega arith in e)
drop_more (suc k) zero xs h = ground arith
drop_more (suc k) (suc n) [] h = drop_nil (suc n - suc k)
drop_more (suc k) (suc n) (x ∷ xs) h =
    let e : suc n - suc k ≡ n - k = omega arith in rw (e, drop_more k n xs (omega arith))

module _ {L X : Type 0} (link : LinkLayer L X) (Holds : L → List ℕ → Type 0)
    (readable : IsReadable link Holds) where
  -- What the link layer has, and an offset that fits a `usize`.
  abbrev pub Available : AppLayer L → List ℕ → Type 0
  Available s bytes = Holds s.link bytes × (s.offset < usize_mod)

  read_step :
      (fuel missing k : ℕ) (s s' : AppLayer L) (l : L) (front back : List ℕ)
      → link.read (suc missing) s.link ≡ ok front l
      → length front ≡ k
      → read_loop link fuel
          (suc missing - k)
          (record { link = l; offset = (s.offset + k) % usize_mod })
        ≡ ok back s'
      → read_loop link (suc fuel) (suc missing) s ≡ ok (front ++ back) s'
  unfolding read_loop
  read_step fuel missing k s s' l front back e n e' = rw (e, n, e')

  read_loop-Holds :
      (fuel missing : ℕ) (s : AppLayer L) (bytes : List ℕ)
      → Available s bytes
      → missing ≤ length bytes
      → missing ≤ fuel
      → (s' : AppLayer L) × (read_loop link fuel missing s ≡ ok (take missing bytes) s')
        × Available s' (drop missing bytes)
        × (s'.offset ≡ (s.offset + missing) % usize_mod)
  unfolding read_loop
  read_loop-Holds fuel zero s bytes h some_bytes enough = (s, refl, h, omega (arith, h.1))
  read_loop-Holds zero (suc missing) s bytes h some_bytes enough = ground arith
  read_loop-Holds (suc fuel) (suc missing) s bytes h some_bytes enough =
      let n : ℕ = suc missing in
      let (k, l, e, progress, few, held) =
        readable.read_lem s.link bytes n h.0 (omega arith) some_bytes in
      let taken : length (take k bytes) ≡ k = omega (arith, length-take k bytes) in
      let s1 : AppLayer L = record { link = l; offset = (s.offset + k) % usize_mod } in
      let (s', e', held', o) =
        read_loop-Holds fuel (n - k) s1 (drop k bytes) (held, omega arith)
          (omega (arith, length-drop k bytes)) (omega arith) in
      (
        s',
        read_step fuel missing k s s' l (take k bytes) _ e taken e'
            ∙ ap (λ ys. ok ys s') (take_more k n bytes few),
        subst (λ xs. Available s' xs) (drop_more k n bytes few) held',
        omega arith,
      )

  -- Over a link layer whose reads return a byte at least, `read_bytes` returns, with exactly the
  -- bytes it was asked for, and the offset has grown by their number.
  pub app_decoder-IsStream : IsStream (app_decoder link) Available
  unfolding app_decoder
  app_decoder-IsStream = record {
    offset_lt = λ s bytes h. h.1;
    read_lem = λ s xs rest h.
        let (s', e, held, o) =
          read_loop-Holds (length xs) (length xs) s (xs ++ rest) h
            (omega (arith, length-append xs rest)) (omega arith) in
        (
          s',
          e ∙ ap (λ ys. ok ys s') (take-length_append xs rest),
          subst (λ ys. Available s' ys) (drop-length_append xs rest) held,
          o,
        );
  }
