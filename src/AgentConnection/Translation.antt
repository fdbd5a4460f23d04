-- ===== src/AgentConnection/Translation.antt =====
-- A request of the HTTP proxy, as its text goes through the agent's connection to nghttp2.
use protogate.AgentConnection.Request.{ReadRequest, ordered_insert, read_request, read_callback}
use protogate.Base.{
  Text, ℕ, ◌≤◌, ◌≡◌, ◌↔◌, sym, ap, ◌∙◌, All, [], ◌∷◌, ◌++◌, arith, length, length-take, take, Bool,
  true, refl, take_all,
}
use protogate.Http.Lines.{
  IsWord, IsHeader, getline-line, request_line, read_words-line_cr, request_line-Lacks, add_all,
  read_headers-header_lines,
}
use protogate.Http.Request.{HttpRequest, request_to_string, header_lines}
use protogate.Http.RoundTrip.{request_to_string_shape, length-header_lines}

-- A request line of words, and headers without newlines, without a colon in the name and with
-- trimmed values.
abbrev pub IsSendable : HttpRequest → Type 0
IsSendable r = IsWord r.method × (IsWord r.path × (IsWord r.version × All IsHeader r.headers))

-- The agent's connection reads the text that the proxy makes of such a request as the request's method
-- and path, its headers in the order of a `std::map`, and its body.
pub read_request-request_to_string :
    (r : HttpRequest)
    → IsSendable r
    → read_request (request_to_string r) ≡ record {
      method = r.method;
      path = r.path;
      headers = add_all ordered_insert r.headers [];
      body = r.body;
    }
unfolding read_request
read_request-request_to_string r (hm, (hp, (hv, good))) =
    let rest = header_lines r.headers ++ (13 ∷ 10 ∷ r.body) in
    let line = request_line r.method r.path r.version ++ (13 ∷ []) in
    ground (
      arith,
      request_to_string_shape r,
      getline-line line rest (request_line-Lacks r.method r.path r.version hm hp hv),
      read_words-line_cr r.method r.path r.version hm hp hv,
      read_headers-header_lines ordered_insert (length rest) r.headers r.body [] good
          (length-header_lines r.headers r.body),
    )

-- How nghttp2 sends the body of a stream: `read_body` is what it gets from a callback, and
-- `buffer_size` that of the buffer of the first call. Its documentation says that it calls again until
-- the callback sets the flag for the end.
pub record Nghttp2 : Type 0 where
  pub buffer_size : ℕ
  pub read_body : (ℕ → Text × Bool) → Text
  pub read_body-eof :
      (callback : ℕ → Text × Bool)
      → (callback buffer_size).1 ≡ true
      → read_body callback ≡ (callback buffer_size).0

-- What nghttp2 gets of the body of such a request is the whole body exactly if this fits the buffer of
-- the first call: the callback says there that it is at the end.
pub read_callback-body_iff :
    (library : Nghttp2) (r : HttpRequest)
    → IsSendable r
    → (library.read_body (read_callback (read_request (request_to_string r)).body) ≡ r.body)
      ↔ (length r.body ≤ library.buffer_size)
unfolding read_callback
read_callback-body_iff library r good =
    let same = ap (λ (q : ReadRequest). q.body) (read_request-request_to_string r good) in
    let size = library.buffer_size in
    let first =
      library.read_body-eof (read_callback (read_request (request_to_string r)).body) refl
      ∙ ap (take size) same in
    (
      λ whole. omega (arith, length-take size r.body, ap length (sym first ∙ whole)),
      λ fits. first ∙ take_all size r.body fits,
    )
