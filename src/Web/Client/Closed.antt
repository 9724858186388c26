-- ===== src/Web/Client/Closed.antt =====
-- `read_line` of net/http/client.rs when the peer has closed the connection.
use sensor_sensei.Common.{
  ℕ, zero, suc, ◌-◌, ◌<◌, ◌==◌, Bool, false, List, [], Option, none, length, append-nil, ◌≡◌, refl,
  arith,
}
use sensor_sensei.Common.Outcome.{ok, pending}
use sensor_sensei.Util.Memchr.{Memchr, IsMemchr, first_index}
use sensor_sensei.Web.Client.{Network, HttpClient, read, line_capacity, line_loop}
use sensor_sensei.Web.Client.Response.{is_eol}

module _ (m : Memchr) (searches : IsMemchr m) (is_utf8 : List ℕ → Bool)
    (parse_u16 : List ℕ → Option ℕ) {K C E : Type 0} (network : Network K C E) where
  -- On a connection that is at its end, a line that has not ended is waited for without end,
  -- however many rounds are run.
  pub line_loop-closed :
      (fuel : ℕ) (filled : List ℕ) (c : HttpClient K)
      → ((size : ℕ) → network.socket.read size c.stack ≡ ok [] c.stack)
      → first_index is_eol filled ≡ none
      → length filled < line_capacity
      → line_loop network m is_utf8 parse_u16 fuel filled c ≡ pending
  unfolding line_loop read
  line_loop-closed zero filled c closed no_end short = refl
  line_loop-closed (suc fuel) filled c closed no_end short =
      let free : (length filled == line_capacity) ≡ false = ground arith in
      rw
        (
          searches.memchr2_lem b'\r' b'\n' filled,
          no_end,
          free,
          closed (line_capacity - length filled),
          append-nil filled,
        )
        (line_loop-closed fuel filled c closed no_end short)
