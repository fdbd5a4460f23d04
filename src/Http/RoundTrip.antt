-- ===== src/Http/RoundTrip.antt =====
-- `parse_request` on what `to_string` wrote, and the fuel of the loop on header lines.
use protogate.Base.{
  suc, ◌≤◌, ◌≡◌, refl, false, [], ◌∷◌, ◌++◌, arith, length, none, some, All, if◌then◌else◌, Text,
  text_eq, text_eq_iff, Map, find, insert, IsMap, append_assoc, append-nil, length-append, codes,
  sym, ap, ◌∙◌,
}
use protogate.Http.Lines.{
  IsWord, IsHeader, getline-line, pop_cr-append, request_line, read_words-request_line,
  request_line-Lacks, add_all, read_headers-header_lines,
}
use protogate.Http.Request.{HttpRequest, add_header, parse_request, header_lines, request_to_string}
use protogate.Http.Text.{lower}

-- The text of a request from its line on.
pub request_to_string_shape :
    (r : HttpRequest)
    → request_to_string r
      ≡ (request_line r.method r.path r.version ++ (13 ∷ []))
        ++ (10 ∷ (header_lines r.headers ++ (13 ∷ 10 ∷ r.body)))
unfolding request_to_string
request_to_string_shape r = rw (append_assoc, append_assoc, append_assoc) refl

pub length-header_lines :
    (headers : Map Text) (body : Text)
    → suc (length headers) ≤ length (header_lines headers ++ (13 ∷ 10 ∷ body))
unfolding header_lines
length-header_lines [] body = omega arith
length-header_lines ((name, value) ∷ headers) body = omega (
  arith,
  length-header_lines headers body,
  length-append (header_lines headers) (13 ∷ 10 ∷ body),
  length-append name (58 ∷ 32 ∷ (value ++ (13 ∷ 10 ∷ header_lines headers))),
  length-append value (13 ∷ 10 ∷ header_lines headers),
  length-append (name ++ (58 ∷ 32 ∷ (value ++ (13 ∷ 10 ∷ header_lines headers)))) (13 ∷ 10 ∷ body),
)

-- A key that comes later in a map is none of those before.
other_key :
    {V : Type 0} (k i : Text) (v : V) (m n : Map V)
    → find i (m ++ ((k, v) ∷ n)) ≡ none
    → text_eq i k ≡ false
unfolding find
other_key k i v [] n fresh = ground (arith, fresh, text_eq_iff k i, text_eq_iff i k)
other_key k i v ((j, w) ∷ m) n fresh = ground (arith, fresh, other_key k i v m n)

key_fresh :
    {V : Type 0} (k : Text) (v : V) (m n : Map V) → IsMap (m ++ ((k, v) ∷ n)) → find k m ≡ none
unfolding find
key_fresh k v [] n is_map = refl
key_fresh k v ((i, w) ∷ m) n (fresh, is_map) =
    rw (other_key k i v m n fresh) (key_fresh k v m n is_map)

insert-fresh :
    {V : Type 0} (k : Text) (v : V) (m : Map V)
    → find k m ≡ none
    → insert k v m ≡ m ++ ((k, v) ∷ [])
unfolding find insert
insert-fresh k v [] fresh = refl
insert-fresh k v ((i, w) ∷ m) fresh = ground (arith, fresh, insert-fresh k v m)

abbrev pub IsLower : Text × Text → Type 0
IsLower (name, value) = lower name ≡ name

added_headers :
    (headers m : Map Text) (host : Text)
    → All IsLower headers
    → IsMap (m ++ headers)
    → (add_all add_header headers (m, host)).0 ≡ m ++ headers
added_headers [] m host low is_map = sym (append-nil m)
added_headers ((k, v) ∷ headers) m host (this, low) is_map =
    let host' = if text_eq k (codes "host") then v else host in
    let m' = m ++ ((k, v) ∷ []) in
    ap (λ n. (add_all add_header headers (add_header n v (m, host))).0) this
    ∙ ap (λ n. (add_all add_header headers (n, host')).0)
        (insert-fresh k v m (key_fresh k v m headers is_map))
    ∙ added_headers headers m' host' low (rw append_assoc is_map)
    ∙ append_assoc m ((k, v) ∷ []) headers

-- The value of the header `host`.
abbrev pub host_or : Text → Map Text → Text
host_or host headers = elim (find (codes "host") headers) [ none ↦ host | some v ↦ v ]

added_host :
    (headers m : Map Text) (host : Text)
    → All IsLower headers
    → IsMap headers
    → (add_all add_header headers (m, host)).1 ≡ host_or host headers
unfolding find
added_host [] m host low is_map = refl
added_host ((k, v) ∷ headers) m host (this, low) (fresh, is_map) =
    let host' = if text_eq k (codes "host") then v else host in
    ap (λ n. (add_all add_header headers (add_header n v (m, host))).1) this
    ∙ added_host headers (insert k v m) host' low is_map
    ∙ ground (arith, fresh, text_eq_iff k (codes "host"))

-- What `to_string` can write so that it is read back: the request line is made of three words, the
-- headers are lines with names in lower case, and no name stands twice.
abbrev pub IsRequest : HttpRequest → Type 0
IsRequest r =
    IsWord r.method
    × (IsWord r.path
        × (IsWord r.version × (All IsHeader r.headers × (All IsLower r.headers × IsMap r.headers))))

-- A request whose line is made of words without spaces, and whose headers are distinct names in lower
-- case without colon or newline, with trimmed values without newline, is parsed from its text as it
-- was, whatever its body; the host is that of the headers, and the client's address is left to the
-- caller.
pub parse_request-request_to_string :
    (r : HttpRequest)
    → IsRequest r
    → parse_request (request_to_string r)
      ≡ some (record r { host = host_or [] r.headers; client_ip = [] })
unfolding parse_request
parse_request-request_to_string r (hm, (hp, (hv, (good, (low, is_map))))) =
    let rest = header_lines r.headers ++ (13 ∷ 10 ∷ r.body) in
    let line = request_line r.method r.path r.version in
    let loop =
      read_headers-header_lines add_header (length rest) r.headers r.body ([], []) good
        (length-header_lines r.headers r.body) in
    ground (
      arith,
      request_to_string_shape r,
      getline-line (line ++ (13 ∷ [])) rest (request_line-Lacks r.method r.path r.version hm hp hv),
      pop_cr-append line,
      read_words-request_line r.method r.path r.version hm hp hv,
      loop,
      added_headers r.headers [] [] low is_map,
      added_host r.headers [] [] low is_map,
    )
