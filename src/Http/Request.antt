-- ===== src/Http/Request.antt =====
-- `ReqInfo`, `parse_req`, `client_ip` and `body_limit` of src/server.cpp. A position in the buffer is
-- the rest of the buffer from there on.
pub mod Stable
use shrt_cpp.Prelude.{
  ℕ, ◌+◌, ◌-◌, ◌%◌, ◌^◌, Bool, true, not, ◌&&◌, ◌||◌, List, [], ◌∷◌, ◌++◌, Option, none, some,
  Bytes, codes, length, take, drop, is_empty, bytes_eq, split_at, ltb, ◌==◌, if◌then◌else◌,
}
use shrt_cpp.Codec.Number.{strtoll}
use shrt_cpp.Http.Head.{crlf, split_seq, crlf_lines, trim, is_blank}

-- `total` is a size_t: 0 for a request that is not complete, the largest one for a malformed one.
pub record ReqInfo : Type 0 where
  pub total : ℕ
  pub method : Bytes
  pub path : Bytes
  pub admin : Bytes
  pub xff : Bytes
  pub body_off : ℕ
  pub body_len : ℕ
  pub alive : Bool

abbrev pub size_max : ℕ
size_max = 2 ^ 64 - 1

abbrev pub no_request : ReqInfo
no_request = record {
  total = 0;
  method = [];
  path = [];
  admin = [];
  xff = [];
  body_off = 0;
  body_len = 0;
  alive = true;
}

abbrev pub malformed : ReqInfo
malformed = record no_request { total = size_max }

-- What the scan of the header lines collects; `cl` is the content length as a size_t.
pub record Fields : Type 0 where
  pub cl : ℕ
  pub alive : Bool
  pub admin : Bytes
  pub xff : Bytes

abbrev is_name : Bytes → Bytes → Bytes → Bool
is_name k lower upper = bytes_eq k lower || bytes_eq k upper

unfoldable pub set_field : Bytes → Bytes → Fields → Fields
set_field k v f =
    if is_name k (codes "content-length") (codes "Content-Length")
    then record f { cl = strtoll v }
    else if is_name k (codes "connection") (codes "Connection")
    then record f { alive = not (is_name v (codes "close") (codes "Close")) }
    else if is_name k (codes "x-admin-token") (codes "X-Admin-Token")
    then record f { admin = v }
    else if is_name k (codes "x-forwarded-for") (codes "X-Forwarded-For")
    then record f { xff = v }
    else f

-- A line without a colon is passed over.
unfoldable pub scan_header : Bytes → Fields → Fields
scan_header line f = elim (split_at b':' line) [
  | none ↦ f
  | some (k, v) ↦ set_field k (trim is_blank v) f
]

unfoldable pub scan_headers : List Bytes → Fields → Fields
scan_headers [] f = f
scan_headers (line ∷ lines) f = scan_headers lines (scan_header line f)

-- The version and the header lines, behind the second space.
unfoldable pub version_lines : Bytes → Bytes × List Bytes
version_lines s = elim (split_seq crlf s) [
  | none ↦ ([], [])
  | some (ver, rest) ↦ (let (x, xs) = crlf_lines rest in (ver, x ∷ xs))
]

abbrev pub needs_body : Bytes → Bool
needs_body method = bytes_eq method (codes "POST") || bytes_eq method (codes "PATCH")

-- `size` is what the buffer holds from the request on, `he` the length of the head.
unfoldable pub sized : ℕ → ℕ → Bytes → Bytes → Fields → ReqInfo
sized size he method path f =
    let body_len = if needs_body method then f.cl else 0 in
    let total = (he + 4 + body_len) % 2 ^ 64 in
    record {
      total = if ltb size total then 0 else total;
      method = method;
      path = path;
      admin = f.admin;
      xff = f.xff;
      body_off = he + 4;
      body_len = body_len;
      alive = f.alive;
    }

unfoldable pub parse_target : ℕ → ℕ → Bytes → Option (Bytes × Bytes) → ReqInfo
parse_target size he method none = malformed
parse_target size he method (some (path, rest)) =
    let (ver, lines) = version_lines rest in
    sized size he method path (
      scan_headers lines
        (record { cl = 0; alive = bytes_eq ver (codes "HTTP/1.1"); admin = []; xff = [] }))

unfoldable pub parse_method : ℕ → ℕ → Option (Bytes × Bytes) → ReqInfo
parse_method size he none = malformed
parse_method size he (some (method, rest)) = parse_target size he method (split_at b' ' rest)

unfoldable pub parse_head : ℕ → Bytes → ReqInfo
parse_head size head = parse_method size (length head) (split_at b' ' head)

unfoldable pub parse_req : Bytes → ReqInfo
parse_req buf = elim (split_seq (crlf ++ crlf) buf) [
  | none ↦ no_request
  | some (head, _) ↦ parse_head (length buf) head
]

unfoldable pub body_of : ReqInfo → Bytes → Bytes
body_of ri buf = if needs_body ri.method then take ri.body_len (drop ri.body_off buf) else []

abbrev pub max_body : ℕ
max_body = 4096

abbrev pub max_bulk_body : ℕ
max_bulk_body = 2 ^ 20

unfoldable pub before : ℕ → Bytes → Bytes
before c s = elim (split_at c s) [ none ↦ s | some (x, _) ↦ x ]

unfoldable pub body_limit : Bytes → ℕ
body_limit path =
    if bytes_eq (before b'?' path) (codes "/api/shorten/bulk") then max_bulk_body else max_body

-- `trust` says whether TRUST_PROXY is set.
unfoldable pub client_ip : Bool → ReqInfo → Bytes → Bytes
client_ip trust ri peer =
    let first = trim (λ c. c == b' ') (before b',' ri.xff) in
    if trust && (not (is_empty ri.xff) && not (is_empty first)) then first else peer
