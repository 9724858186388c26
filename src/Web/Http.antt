-- ===== src/Web/Http.antt =====
-- gateway-board/src/net/http/mod.rs, and the types and answers of net/http/server.rs.
use sensor_sensei.Common.{ℕ, if◌then◌else◌, List, [], ◌∷◌, Option, none, some}
use sensor_sensei.Common.Bytes.{codes, same_bytes}
use sensor_sensei.Common.Outcome.{Outcome, ok, err, panic, pending, M, pure, ◌>>◌}

pub data HttpMethod : Type 0 where
  get post : HttpMethod

pub data HttpServerError : Type 0 where
  socket_error socket_eof full_buffer : HttpServerError

-- `as_ref`
abbrev pub method_text : HttpMethod → List ℕ
method_text get = codes "GET"
method_text post = codes "POST"

-- `try_from`
unfoldable pub method_from : List ℕ → Option HttpMethod
method_from value =
    if same_bytes value (codes "GET")
    then some get
    else if same_bytes value (codes "POST")
    then some post
    else none

-- `TcpSocket` of the crate embassy-net, in the state `K`: `read` is given the size of the free
-- space and returns the bytes that it has put there.
pub record TcpSocket (K E : Type 0) : Type 0 where
  pub read : ℕ → M K E (List ℕ)
  pub write_all : List ℕ → M K E (Unit {0})

-- The body is the part of the buffer that the request borrows; the socket is the state.
pub record HttpServerRequest : Type 0 where
  pub method : HttpMethod
  pub body : List ℕ

-- A response is the socket, which is the state, and its status.
pub record HttpServerResponse : Type 0 where
  pub status : ℕ

abbrev pub new_response : HttpServerResponse
new_response = record { status = 200 }

-- `map_err(|_| HttpServerError::SocketError)`
abbrev pub socket_failed : {K E A : Type 0} → Outcome K E A → Outcome K HttpServerError A
socket_failed (ok a k) = ok a k
socket_failed (err e k) = err socket_error k
socket_failed panic = panic
socket_failed pending = pending

module _ {K E : Type 0} (tcp : TcpSocket K E) where
  unfoldable pub write_all : List ℕ → M K HttpServerError (Unit {0})
  write_all bytes k = socket_failed (tcp.write_all bytes k)

  unfoldable pub write_all_vectored : List (List ℕ) → M K HttpServerError (Unit {0})
  write_all_vectored [] = pure tt
  write_all_vectored (buf ∷ bufs) = write_all buf >> write_all_vectored bufs

  unfoldable pub return_bad_request : M K HttpServerError HttpServerResponse
  return_bad_request =
      write_all (codes "HTTP/1.0 400 Bad Request\r\nConnection: close\r\n\r\n")
      >> pure (record { status = 400 })

  unfoldable pub return_not_found : M K HttpServerError HttpServerResponse
  return_not_found =
      write_all (codes "HTTP/1.0 400 Not Found\r\nConnection: close\r\n\r\n")
      >> pure (record { status = 404 })

  unfoldable pub return_see_other : List ℕ → M K HttpServerError HttpServerResponse
  return_see_other location =
      write_all_vectored (
        codes "HTTP/1.0 303 See Other\r\nLocation: "
        ∷ location
        ∷ codes "\r\nConnection: close\r\n\r\n"
        ∷ [])
      >> pure (record { status = 303 })
