-- ===== src/Net/Url.antt =====
-- libs/net/url.c: splitting an http URL. A C string is the list of its characters without the
-- final NUL; a failed allocation is left out.
pub mod Parts
use one_tool.Common.{
  ℕ, Bool, true, false, List, [], ◌∷◌, Option, none, some, ◌==◌, ◌||◌, if◌then◌else◌, length, drop,
}
use one_tool.Common.Text.{codes, is_empty}

pub record NetUrl : Type 0 where
  pub use_tls : Bool
  pub host : List ℕ
  pub port : List ℕ
  pub path : List ℕ

-- `strncmp(s, prefix, strlen(prefix)) == 0`.
unfoldable pub starts_with : List ℕ → List ℕ → Bool
starts_with [] s = true
starts_with (c ∷ prefix) [] = false
starts_with (c ∷ prefix) (x ∷ s) = if x == c then starts_with prefix s else false

-- The text before the first `c`, and the rest from it on: `strchr` for '/', the loop for ':'.
unfoldable pub break_at : ℕ → List ℕ → List ℕ × List ℕ
break_at c [] = ([], [])
break_at c (x ∷ xs) = let r = break_at c xs in if x == c then ([], x ∷ xs) else (x ∷ r.0, r.1)

-- `use_tls` and the text behind the scheme.
unfoldable pub scheme_of : List ℕ → Bool × List ℕ
unfolding starts_with
scheme_of url =
    if starts_with (codes "http://") url
    then (false, drop 7 url)
    else if starts_with (codes "https://") url
    then (true, drop 8 url)
    else (false, url)

unfoldable pub default_port : Bool → List ℕ
default_port use_tls = if use_tls then codes "443" else codes "80"

-- Host and port of the text before the path; the second part starts at the ':'.
unfoldable pub host_port : Bool → List ℕ × List ℕ → Option (List ℕ × List ℕ)
unfolding default_port
host_port use_tls (host, []) = some (host, default_port use_tls)
host_port use_tls (host, colon ∷ port) =
    if is_empty host || is_empty port then none else some (host, port)

unfoldable pub path_of : List ℕ → List ℕ
path_of [] = codes "/"
path_of (c ∷ path) = c ∷ path

-- The URL of a host and port, if they were found, and the rest.
unfoldable pub built : Bool → List ℕ → Option (List ℕ × List ℕ) → Option NetUrl
unfolding path_of
built use_tls rest none = none
built use_tls rest (some h) =
    some (record { use_tls = use_tls; host = h.0; port = h.1; path = path_of rest })

-- The steps behind the scheme, on the text before the path and the path.
unfoldable pub assemble : Bool → List ℕ × List ℕ → Option NetUrl
unfolding break_at host_port built
assemble use_tls parts =
    if is_empty parts.0
    then none
    else built use_tls parts.1 (host_port use_tls (break_at 58 parts.0))

unfoldable pub net_parse_http_url : List ℕ → Option NetUrl
unfolding scheme_of break_at assemble
net_parse_http_url url = let scheme = scheme_of url in assemble scheme.0 (break_at 47 scheme.1)
