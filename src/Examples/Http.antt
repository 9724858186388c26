-- ===== src/Examples/Http.antt =====
-- A TCP socket in memory, and requests of the HTTP server on it.
use sensor_sensei.Common.{
  ℕ, ◌-◌, ◌≤◌, ◌==◌, List, [], ◌∷◌, ◌++◌, Option, none, some, length, take, length-take, append-nil,
  ◌≡◌, ◌⊎◌, inl, refl, sym, arith,
}
use sensor_sensei.Common.Bytes.{codes, same_bytes}
use sensor_sensei.Common.Outcome.{Outcome, ok, err, Ended}
use sensor_sensei.Util.Memchr.{first_index}
use sensor_sensei.Examples.Memchr.{searches, searches-IsMemchr, search_for}
use sensor_sensei.Web.Http.{
  post, HttpServerError, socket_eof, method_from, TcpSocket, HttpServerRequest, HttpServerResponse,
}
use sensor_sensei.Web.Server.{
  Connection, on_socket, handle_client_request, crlf_crlf, content_length_name, first_match,
  read_until_byte, read_until_bytes, read_append, shift_buffer,
}
use sensor_sensei.Web.Server.Runs.{IsTcpSocket}
use sensor_sensei.Web.Server.Requests.{handle_client_request-Ended}
use sensor_sensei.Web.Server.Answers.{handle_client_request-handler}

-- What was read, and what comes with each read; what does not fit is lost.
pub record Wire : Type 0 where
  pub seen : List ℕ
  pub coming : List (List ℕ)

abbrev arrived : ℕ → List (List ℕ) → List ℕ → Outcome Wire ℕ (List ℕ)
arrived size [] seen = ok [] (record { seen = seen; coming = [] })
arrived size (bytes ∷ later) seen =
    ok (take size bytes) (record { seen = seen ++ take size bytes; coming = later })

abbrev pub wire : TcpSocket Wire ℕ
wire = record { read = λ size k. arrived size k.coming k.seen; write_all = λ bytes k. ok tt k }

abbrev pub seen_on : Wire → List ℕ
seen_on k = k.seen

pub wire-IsTcpSocket : IsTcpSocket wire seen_on
wire-IsTcpSocket = record {
  read_lem = λ size k. inl (reads size k.coming k.seen);
  write_lem = λ bytes k. inl (k, refl, refl);
}
  where
    reads :
        (size : ℕ) (coming : List (List ℕ)) (seen : List ℕ)
        → (bytes : List ℕ) × (k' : Wire) × (arrived size coming seen ≡ ok bytes k')
          × (length bytes ≤ size)
          × (k'.seen ≡ seen ++ bytes)
    reads size [] seen =
        ([], record { seen = seen; coming = [] }, refl, omega arith, sym (append-nil seen))
    reads size (bytes ∷ later) seen = (
      take size bytes,
      record { seen = seen ++ take size bytes; coming = later },
      refl,
      omega (arith, length-take size bytes),
      refl,
    )

-- One digit.
abbrev pub digit_of : List ℕ → Option ℕ
digit_of (d ∷ []) = some (d - 48)
digit_of _ = none

abbrev pub count_body : HttpServerRequest → Wire → Outcome Wire HttpServerError HttpServerResponse
count_body request k = ok (record { status = length request.body }) k

abbrev head_of_post : List ℕ
head_of_post = codes "POST / HTTP/1.0\r\nContent-Length: 3\r\n\r\n"

abbrev post_in_two : Connection Wire
post_in_two = record {
  sock = record { seen = []; coming = head_of_post ∷ codes "a=b" ∷ [] };
  buffer = [];
}

handle_client_request-Ended_example :
    Ended
      (λ response c. (response.status ≤ 1024) ⊎ (response.status ≡ 400))
      (handle_client_request searches wire 1024 digit_of count_body post_in_two)
handle_client_request-Ended_example =
    handle_client_request-Ended searches searches-IsMemchr wire seen_on wire-IsTcpSocket 1024
      digit_of count_body [] (λ response k. response.status ≤ 1024)
      (λ request k (head, rest, framed, short, announced). short) post_in_two refl

abbrev after_name : List ℕ
after_name = codes "3\r\n\r\na=b"

abbrev pub post_in_one : Connection Wire
post_in_one = record {
  sock = record {
    seen = [];
    coming = (codes "POST / HTTP/1.0\r\nContent-Length: 3\r\n\r\na=b") ∷ [];
  };
  buffer = codes "GET";
}

abbrev post_read : Wire
post_read = record { seen = codes "POST / HTTP/1.0\r\nContent-Length: 3\r\n\r\na=b"; coming = [] }

name_found :
    search_for content_length_name (codes "/ HTTP/1.0\r\nContent-Length: 3\r\n\r\na=b") ≡ some 12
unfolding search_for same_bytes
name_found = refl

line_found : search_for crlf_crlf (codes "/ HTTP/1.0\r\nContent-Length: 3\r\n\r\na=b") ≡ some 29
unfolding search_for same_bytes
line_found = refl

end_found : first_index (λ b. b == b'\r') after_name ≡ some 1
unfolding first_index
end_found = refl

handle_client_request-handler_example :
    handle_client_request searches wire 1024 digit_of count_body post_in_one
    ≡ on_socket (codes "a=b") (count_body (record { method = post; body = codes "a=b" }) post_read)
handle_client_request-handler_example =
    handle_client_request-handler searches searches-IsMemchr wire 1023 digit_of count_body post
      (codes "/ HTTP/1.0\r\n") (codes "3") [] (codes "a=b") [] post_in_one post_read refl
      (omega arith) (searches-IsMemchr.memmem_some content_length_name _ 12 name_found).1 end_found
      (searches-IsMemchr.memmem_some crlf_crlf _ 29 line_found).1 refl

-- An empty line that comes in two reads is not found.
abbrev get_in_two : Connection Wire
get_in_two = record {
  sock = record { seen = []; coming = codes "GET / HTTP/1.0\r\n" ∷ codes "\r\n" ∷ [] };
  buffer = [];
}

split_line_missed :
    handle_client_request searches wire 1024 digit_of count_body get_in_two
    ≡ err socket_eof (record {
      sock = record { seen = codes "GET / HTTP/1.0\r\n\r\n"; coming = [] };
      buffer = codes "/ HTTP/1.0\r\n\r\n";
    })
unfolding handle_client_request read_until_byte read_until_bytes first_match read_append
    shift_buffer search_for same_bytes first_index method_from
split_line_missed = refl
