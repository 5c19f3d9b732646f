-- ===== src/Net/Url/Parts.antt =====
-- libs/net/url.c: the parts of a URL that is put together from them.
use one_tool.Common.{
  ℕ, Bool, true, false, List, [], ◌∷◌, ◌++◌, Option, none, some, ◌==◌, ◌||◌, if◌then◌else◌, All,
  ◌≡◌, ◌≢◌, ◌⊎◌, ◌∙◌, ap, sym, refl, arith, Bool-cases, inl, inr,
}
use mathlib.Core.Path.{subst}
use one_tool.Common.Text.{codes, is_empty}
use one_tool.Net.Url.{
  NetUrl, break_at, assemble, built, scheme_of, host_port, path_of, net_parse_http_url,
  default_port,
}

-- A URL with its port written out.
abbrev pub written : NetUrl → List ℕ
written u =
    (if u.use_tls then codes "https://" else codes "http://") ++ ((u.host ++ 58 ∷ u.port) ++ u.path)

-- A host without '/' and ':', a port without '/', both not empty, and a path that begins with '/'.
abbrev pub IsUrl : NetUrl → Type 0
IsUrl u =
    (u.host ≢ [])
    × All (λ c. c ≢ 47) u.host
    × All (λ c. c ≢ 58) u.host
    × (u.port ≢ [])
    × All (λ c. c ≢ 47) u.port
    × ((rest : List ℕ) × (u.path ≡ 47 ∷ rest))

break_at-append :
    (c : ℕ) (xs ys : List ℕ) → All (λ x. x ≢ c) xs → break_at c (xs ++ c ∷ ys) ≡ (xs, c ∷ ys)
unfolding break_at
break_at-append c [] ys h = ground arith
break_at-append c (x ∷ xs) ys h = ground (arith, break_at-append c xs ys h.1)

All-append :
    (xs ys : List ℕ) (c : ℕ)
    → All (λ x. x ≢ c) xs
    → All (λ x. x ≢ c) ys
    → All (λ x. x ≢ c) (xs ++ ys)
All-append [] ys c h k = k
All-append (x ∷ xs) ys c h k = (h.0, All-append xs ys c h.1 k)

scheme_lem :
    (tls : Bool) (s : List ℕ)
    → scheme_of ((if tls then codes "https://" else codes "http://") ++ s) ≡ (tls, s)
unfolding scheme_of
scheme_lem true s = refl
scheme_lem false s = refl

not_empty : (s : List ℕ) → s ≢ [] → is_empty s ≡ false
not_empty [] h = absurd (h refl)
not_empty (c ∷ s) h = refl

host_port_lem :
    (tls : Bool) (host port : List ℕ)
    → host ≢ []
    → port ≢ []
    → host_port tls (host, 58 ∷ port) ≡ some (host, port)
unfolding host_port
host_port_lem tls host port h k = rw (not_empty host h, not_empty port k)

joined_not_empty : (host port : List ℕ) → is_empty (host ++ 58 ∷ port) ≡ false
joined_not_empty [] port = refl
joined_not_empty (c ∷ host) port = refl

assemble_lem :
    (tls : Bool) (host port rest : List ℕ)
    → host ≢ []
    → port ≢ []
    → All (λ c. c ≢ 58) host
    → assemble tls (host ++ 58 ∷ port, 47 ∷ rest)
      ≡ some (record { use_tls = tls; host = host; port = port; path = 47 ∷ rest })
unfolding assemble built path_of
assemble_lem tls host port rest h k plain =
    let found : host_port tls (break_at 58 (host ++ 58 ∷ port)) ≡ some (host, port) =
      ap (host_port tls) (break_at-append 58 host port plain) ∙ host_port_lem tls host port h k in
    (let full = joined_not_empty host port in rw full) ∙ ap (built tls (47 ∷ rest)) found

parsed_lem :
    (tls : Bool) (host port rest : List ℕ)
    → IsUrl (record { use_tls = tls; host = host; port = port; path = 47 ∷ rest })
    → net_parse_http_url
        (written (record { use_tls = tls; host = host; port = port; path = 47 ∷ rest }))
      ≡ some (record { use_tls = tls; host = host; port = port; path = 47 ∷ rest })
unfolding net_parse_http_url
parsed_lem tls host port rest (named, slashes, colons, ported, slashless, path) =
    ap (λ (s : Bool × List ℕ). assemble s.0 (break_at 47 s.1))
      (scheme_lem tls ((host ++ 58 ∷ port) ++ 47 ∷ rest))
    ∙ ap (assemble tls) (
        break_at-append 47 (host ++ 58 ∷ port) rest
          (All-append host (58 ∷ port) 47 slashes (omega arith, slashless)))
    ∙ assemble_lem tls host port rest named ported colons

-- A URL that is written out with a scheme, a host without '/' and ':', a port without '/', both
-- not empty, and a path that begins with '/', is split into these parts.
pub net_parse_http_url-written : (u : NetUrl) → IsUrl u → net_parse_http_url (written u) ≡ some u
net_parse_http_url-written u h =
    let (named, slashes, colons, ported, slashless, (rest, path)) = h in
    let same : u ≡ record { use_tls = u.use_tls; host = u.host; port = u.port; path = 47 ∷ rest } =
      ground arith in
    subst (λ v. net_parse_http_url (written v) ≡ some v) (sym same)
      (parsed_lem u.use_tls u.host u.port rest
        (named, slashes, colons, ported, slashless, (rest, refl)))

-- What `break_at` leaves in its two parts.
break_at-parts :
    (c d : ℕ) (xs : List ℕ)
    → All (λ x. x ≢ c) (break_at c xs).0
      × (((break_at c xs).1 ≡ []) ⊎ ((rest : List ℕ) × ((break_at c xs).1 ≡ c ∷ rest)))
      × (All (λ x. x ≢ d) xs
          → All (λ x. x ≢ d) (break_at c xs).0 × All (λ x. x ≢ d) (break_at c xs).1)
unfolding break_at
break_at-parts c d [] = (tt, inl refl, λ h. (tt, tt))
break_at-parts c d (x ∷ xs) = elim (Bool-cases (x == c)) [
  | inl e ↦
      let same : x ≡ c = ground (arith, e) in
      rw (break_at, e) (tt, inr (xs, ap (λ (k : ℕ). k ∷ xs) same), λ h. (tt, h))
  | inr e ↦
      let (free, tail, keeps) = break_at-parts c d xs in
      rw (break_at, e) ((ground (arith, e), free), tail, λ h. ((h.0, (keeps h.1).0), (keeps h.1).1))
]

path_lem :
    (rest : List ℕ)
    → (rest ≡ []) ⊎ ((more : List ℕ) × (rest ≡ 47 ∷ more))
    → (more : List ℕ) × (path_of rest ≡ 47 ∷ more)
unfolding path_of
path_lem rest (inl e) = ([], rw e)
path_lem rest (inr (more, e)) = (more, rw e)

default_lem : (tls : Bool) → (default_port tls ≢ []) × All (λ c. c ≢ 47) (default_port tls)
unfolding default_port
default_lem true = (λ e. cc, (omega arith, (omega arith, (omega arith, tt))))
default_lem false = (λ e. cc, (omega arith, (omega arith, tt)))

-- What is found in a URL: the conditions of `IsUrl` but for the path.
abbrev Found : List ℕ → List ℕ → Type 0
Found host port =
    (host ≢ [])
    × All (λ c. c ≢ 47) host
    × All (λ c. c ≢ 58) host
    × (port ≢ [])
    × All (λ c. c ≢ 47) port

full_lem : (s : List ℕ) → is_empty s ≡ false → s ≢ []
full_lem [] h e = cc
full_lem (c ∷ s) h e = cc

host_port-Found :
    (tls : Bool) (first second : List ℕ) (h : List ℕ × List ℕ)
    → (second ≡ [] → is_empty first ≡ false)
    → All (λ c. c ≢ 47) first
    → All (λ c. c ≢ 58) first
    → All (λ c. c ≢ 47) second
    → host_port tls (first, second) ≡ some h
    → Found h.0 h.1
unfolding host_port
host_port-Found tls first [] h full f g k e =
    let same : (first, default_port tls) ≡ h = ground arith in
    let known = default_lem tls in
    subst (λ (q : List ℕ × List ℕ). Found q.0 q.1) same
      (full_lem first (full refl), f, g, known.0, known.1)
host_port-Found tls first (c ∷ port) h full f g k e =
    elim (Bool-cases (is_empty first || is_empty port)) [
      | inl d ↦ absurd (ground (arith, d, e))
      | inr d ↦
          let same : (first, port) ≡ h = ground (arith, d, e) in
          subst (λ (q : List ℕ × List ℕ). Found q.0 q.1) same
            (full_lem first (ground (arith, d)), f, g, full_lem port (ground (arith, d)), k.1)
    ]

break_at-full :
    (c : ℕ) (xs : List ℕ)
    → (break_at c xs).1 ≡ []
    → is_empty xs ≡ false
    → is_empty (break_at c xs).0 ≡ false
unfolding break_at
break_at-full c [] h e = cc
break_at-full c (x ∷ xs) h e = ground (arith, h)

built-IsUrl :
    (tls : Bool) (rest : List ℕ) (o : Option (List ℕ × List ℕ)) (u : NetUrl)
    → ((h : List ℕ × List ℕ) → o ≡ some h → Found h.0 h.1)
    → (rest ≡ []) ⊎ ((more : List ℕ) × (rest ≡ 47 ∷ more))
    → built tls rest o ≡ some u
    → IsUrl u
unfolding built
built-IsUrl tls rest none u found tail e = cc
built-IsUrl tls rest (some h) u found tail e =
    let same : record { use_tls = tls; host = h.0; port = h.1; path = path_of rest } ≡ u =
      ground arith in
    let (named, slashes, colons, ported, slashless) = found h refl in
    subst IsUrl same (named, slashes, colons, ported, slashless, path_lem rest tail)

assemble-IsUrl :
    (tls : Bool) (text : List ℕ) (u : NetUrl) → assemble tls (break_at 47 text) ≡ some u → IsUrl u
unfolding assemble
assemble-IsUrl tls text u e =
    let authority = (break_at 47 text).0 in
    let (free, tail, _) = break_at-parts 47 47 text in
    elim (Bool-cases (is_empty authority)) [
      | inl d ↦ absurd (ground (arith, d, e))
      | inr d ↦
          let (colonless, _, keeps) = break_at-parts 58 47 authority in
          let split = keeps free in
          built-IsUrl tls (break_at 47 text).1 (host_port tls (break_at 58 authority)) u
            (λ h f.
              host_port-Found tls (break_at 58 authority).0 (break_at 58 authority).1 h
                (λ none_left. break_at-full 58 authority none_left d) split.0 colonless split.1 f)
            tail (ground (arith, d, e))
    ]

-- Whatever the text, an accepted URL has a host that is not empty and has neither '/' nor ':', a
-- port that is not empty and has no '/', and a path that begins with '/'; written out with its
-- scheme and port and split again it gives the same parts.
pub net_parse_http_url-IsUrl :
    (url : List ℕ) (u : NetUrl)
    → net_parse_http_url url ≡ some u
    → IsUrl u × (net_parse_http_url (written u) ≡ some u)
unfolding net_parse_http_url
net_parse_http_url-IsUrl url u e =
    let sound = assemble-IsUrl (scheme_of url).0 (scheme_of url).1 u e in
    (sound, net_parse_http_url-written u sound)
