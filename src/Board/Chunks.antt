-- ===== src/Board/Chunks.antt =====
-- `LinkLayer::write` of both boards: the bytes are cut into chunks, buffered and flushed when the
-- buffer is full.
use sensor_sensei.Common.{
  concat, ℕ, zero, suc, ◌+◌, ◌≤◌, ltb, List, [], ◌∷◌, ◌++◌, length, drop, All, length-take,
  length-drop, length-append, take-append-drop, append_assoc, append-nil, ◌≡◌, refl, sym, ap, subst,
  ◌∙◌, arith, Bool-cases, inl, inr,
}
use sensor_sensei.Common.Outcome.{M, ok}
use sensor_sensei.Board.LinkState.{
  LinkState, tx_capacity, push_chunk, write_chunks, chunks, write_link,
}

pub concat-chunks :
    (fuel n : ℕ) (bytes : List ℕ) → length bytes ≤ fuel → concat (chunks fuel (suc n) bytes) ≡ bytes
unfolding chunks
concat-chunks zero n [] h = refl
concat-chunks (suc fuel) n [] h = refl
concat-chunks zero n (b ∷ bs) h = ground arith
concat-chunks (suc fuel) n (b ∷ bs) h =
    rw (concat-chunks fuel n (drop n bs) (omega (arith, length-drop n bs)), take-append-drop n bs)

pub chunks-short :
    (fuel n : ℕ) (bytes : List ℕ) → All (λ chunk. length chunk ≤ n) (chunks fuel n bytes)
unfolding chunks
chunks-short zero n bytes = tt
chunks-short (suc fuel) n [] = tt
chunks-short (suc fuel) n (b ∷ bs) =
    (omega (arith, length-take n (b ∷ bs)), chunks-short fuel n (drop n (b ∷ bs)))

-- What `write` needs of `flush`: in the state `s` the bytes `out` have been flushed; a flush adds
-- those that are buffered, and what is buffered does not matter otherwise.
pub record IsFlush {P B E : Type 0} (flush : M (LinkState P B) E (Unit {0}))
    (View : LinkState P B → List ℕ → Type 0) : Type 0 where
  pub flush_lem :
      (s : LinkState P B) (out : List ℕ)
      → View s out
      → length s.tx_buf ≤ tx_capacity
      → (s' : LinkState P B) × (flush s ≡ ok tt s') × View s' (out ++ s.tx_buf) × (s'.tx_buf ≡ [])
  pub buffer_lem :
      (s : LinkState P B) (out bytes : List ℕ) → View s out → View (record s { tx_buf = bytes }) out

module _ {P B : Type 0} (View : LinkState P B → List ℕ → Type 0) where
  -- `all` is what has been flushed and what is buffered, which fits.
  abbrev pub Written : LinkState P B → List ℕ → Type 0
  Written s all =
      (out : List ℕ) × View s out × (out ++ s.tx_buf ≡ all) × (length s.tx_buf ≤ tx_capacity)

module _ {P B E : Type 0} (flush : M (LinkState P B) E (Unit {0}))
    (View : LinkState P B → List ℕ → Type 0) (flushes : IsFlush flush View) where
  push_chunk-Written :
      (s : LinkState P B) (all chunk : List ℕ)
      → Written View s all
      → length chunk ≤ tx_capacity
      → (s' : LinkState P B) × (push_chunk flush chunk s ≡ ok tt s')
        × Written View s' (all ++ chunk)
  unfolding push_chunk
  push_chunk-Written s all chunk (out, view, e, fits) small =
      elim (Bool-cases (ltb tx_capacity (length s.tx_buf + length chunk))) [
        | inl full ↦
            let (s', flushed, view', empty) = flushes.flush_lem s out view fits in
            (
              record s' { tx_buf = chunk },
              rw (full, flushed) refl,
              (
                out ++ s.tx_buf,
                flushes.buffer_lem s' (out ++ s.tx_buf) chunk view',
                rw e refl,
                small,
              ),
            )
        | inr room ↦ (
          record s { tx_buf = s.tx_buf ++ chunk },
          rw room refl,
          (
            out,
            flushes.buffer_lem s out (s.tx_buf ++ chunk) view,
            sym (append_assoc out s.tx_buf chunk) ∙ ap (λ xs. xs ++ chunk) e,
            ground (arith, length-append s.tx_buf chunk),
          ),
        )
      ]

  write_chunks-Written :
      (pieces : List (List ℕ)) (s : LinkState P B) (all : List ℕ)
      → Written View s all
      → All (λ chunk. length chunk ≤ tx_capacity) pieces
      → (s' : LinkState P B) × (write_chunks flush pieces s ≡ ok (length (concat pieces)) s')
        × Written View s' (all ++ concat pieces)
  unfolding write_chunks
  write_chunks-Written [] s all written small =
      (s, refl, subst (λ xs. Written View s xs) (sym (append-nil all)) written)
  write_chunks-Written (chunk ∷ later) s all written (small, rest) =
      let (s', e, written') = push_chunk-Written s all chunk written small in
      let (s'', e', written'') = write_chunks-Written later s' (all ++ chunk) written' rest in
      (
        s'',
        rw (e, e', length-append chunk (concat later)) refl,
        subst (λ xs. Written View s'' xs) (append_assoc all chunk (concat later)) written'',
      )

  -- `write` takes every byte: what has been flushed and what is buffered is what it was, followed
  -- by the bytes written, and the buffer holds 64 bytes at most.
  pub write_link-Written :
      (s : LinkState P B) (all bytes : List ℕ)
      → Written View s all
      → (s' : LinkState P B) × (write_link flush bytes s ≡ ok (length bytes) s')
        × Written View s' (all ++ bytes)
  unfolding write_link
  write_link-Written s all bytes written =
      let whole : concat (chunks (length bytes) tx_capacity bytes) ≡ bytes =
        concat-chunks (length bytes) 63 bytes (omega arith) in
      let (s', e, written') =
        write_chunks-Written (chunks (length bytes) tx_capacity bytes) s all written
          (chunks-short (length bytes) tx_capacity bytes) in
      (
        s',
        e ∙ ap (λ xs. ok (length xs) s') whole,
        subst (λ xs. Written View s' (all ++ xs)) whole written',
      )
