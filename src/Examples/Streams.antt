-- ===== src/Examples/Streams.antt =====
-- Bytes in memory, as a decoder, an encoder and a link layer.
use sensor_sensei.Common.{
  ℕ, ◌+◌, ◌<◌, ◌%◌, ltb, if◌then◌else◌, List, [], ◌++◌, length, take, drop, length-append,
  take-length_append, drop-length_append, ◌≡◌, refl, ap, sym, ◌∙◌, append-nil, arith, false,
}
use sensor_sensei.Common.Outcome.{M, ok, err}
use sensor_sensei.Codec.Traits.{Encoder, Decoder, usize_mod}
use sensor_sensei.Codec.Stream.{IsStream, IsSink}
use sensor_sensei.Board.LinkState.{LinkLayer}
use sensor_sensei.Board.Transport.{IsReadable, IsWritable}

pub record Memory : Type 0 where
  pub buf : List ℕ
  pub at : ℕ

unfoldable pub read_memory : ℕ → M Memory ℕ (List ℕ)
read_memory n s =
    if ltb (length s.buf) n
    then err 0 s
    else ok (take n s.buf) (record { buf = drop n s.buf; at = (s.at + n) % usize_mod })

unfoldable pub memory_decoder : Decoder Memory ℕ
memory_decoder = record {
  read_bytes = read_memory;
  current_offset = λ s. s.at;
  decoding_error = λ s. 1;
}

abbrev pub MemoryHolds : Memory → List ℕ → Type 0
MemoryHolds s xs = (s.buf ≡ xs) × (s.at < usize_mod)

pub memory_decoder-IsStream : IsStream memory_decoder MemoryHolds
unfolding memory_decoder read_memory
memory_decoder-IsStream = record {
  offset_lt = λ s xs h. h.1;
  read_lem = λ s xs rest (e, lt).
      let long : ltb (length (xs ++ rest)) (length xs) ≡ false =
        ground (arith, length-append xs rest) in
      (
        record { buf = rest; at = (s.at + length xs) % usize_mod },
        rw (e, long, take-length_append xs rest, drop-length_append xs rest) refl,
        (refl, omega arith),
        refl,
      );
}

unfoldable pub memory_encoder : Encoder (List ℕ) ℕ
memory_encoder = record { emit_bytes = λ bytes out. ok tt (out ++ bytes) }

abbrev pub MemoryView : List ℕ → List ℕ → Type 0
MemoryView s out = s ≡ out

pub memory_encoder-IsSink : IsSink memory_encoder MemoryView
unfolding memory_encoder
memory_encoder-IsSink = record { emit_lem = λ s out bytes e. (s ++ bytes, refl, rw e refl) }

-- A link layer that keeps what is written, for one side and the other.
unfoldable pub pipe : LinkLayer (List ℕ) ℕ
pipe = record {
  read = λ n s. ok (take n s) (drop n s);
  write = λ bytes s. ok (length bytes) (s ++ bytes);
  flush = λ s. ok tt s;
  reset = λ s. [];
}

take_all : (xs : List ℕ) → take (length xs) xs ≡ xs
take_all xs = ap (λ ys. take (length xs) ys) (sym (append-nil xs)) ∙ take-length_append xs []

pub pipe-IsWritable : IsWritable pipe MemoryView
unfolding pipe
pipe-IsWritable = record {
  write_lem = λ l out bytes e some_bytes.
      (length bytes, l ++ bytes, refl, some_bytes, rw (e, take_all bytes) refl);
}

pub pipe-IsReadable : IsReadable pipe MemoryView
unfolding pipe
pipe-IsReadable = record {
  read_lem =
      λ l bytes n e some_asked enough. (n, drop n l, rw e refl, some_asked, omega arith, rw e refl);
}
