-- ===== src/Ingestion/Dedup.antt =====
-- app/ingestion/dedup.py, with the part of `urllib.parse` that it calls. A host in brackets that
-- makes `urlsplit` raise is outside the model.
use Prim.Native.Char.{Char, code}
use text.Mathlib.Text.{starts_with}
use recru_flow.Base.{
  String, ◌<>◌, ◌≡◌, refl, Bool, true, false, not, ◌&&◌, ◌||◌, none, some, List, [], ◌∷◌, str_eq,
  leb, ◌==◌, if◌then◌else◌, get_or, any,
}
use recru_flow.Data.Text.{strip, lower, is_empty, join}
use recru_flow.Schemas.{Offer}

-- `SplitResult`
pub record Url : Type 0 where
  pub scheme : String
  pub netloc : String
  pub path : String
  pub query : String
  pub fragment : String

-- Up to the first character that passes the test, and from there on.
unfoldable pub cut : (Char → Bool) → String → String × String
cut stop String.[] = (String.[], String.[])
cut stop (String.◌∷◌ c s) =
    let (before, after) = cut stop s in
    if stop c then (String.[], String.◌∷◌ c s) else (String.◌∷◌ c before, after)

unfoldable pub drop_first : String → String
drop_first String.[] = String.[]
drop_first (String.◌∷◌ c s) = s

-- The characters up to U+0020 that `urlsplit` strips on the left.
unfoldable pub lstrip_control : String → String
lstrip_control String.[] = String.[]
lstrip_control (String.◌∷◌ c s) =
    let rest = lstrip_control s in if leb (code c) 32 then rest else String.◌∷◌ c s

-- Tabs and line ends are removed everywhere.
unfoldable pub remove_unsafe : String → String
remove_unsafe String.[] = String.[]
remove_unsafe (String.◌∷◌ c s) =
    let rest = remove_unsafe s in
    if code c == 9 || code c == 10 || code c == 13 then rest else String.◌∷◌ c rest

abbrev is_ascii_alpha : Char → Bool
is_ascii_alpha c =
    (leb b'a' (code c) && leb (code c) b'z') || (leb b'A' (code c) && leb (code c) b'Z')

abbrev is_scheme_char : Char → Bool
is_scheme_char c =
    is_ascii_alpha c
    || (leb b'0' (code c) && leb (code c) b'9')
    || code c == b'+'
    || code c == b'-'
    || code c == b'.'

unfoldable pub all_chars : (Char → Bool) → String → Bool
all_chars p String.[] = true
all_chars p (String.◌∷◌ c s) = p c && all_chars p s

abbrev starts_alpha : String → Bool
starts_alpha String.[] = false
starts_alpha (String.◌∷◌ c s) = is_ascii_alpha c

-- The scheme, if the text before the first colon is one, and what follows.
unfoldable pub split_scheme : String → String × String
unfolding cut drop_first all_chars is_empty lower
split_scheme url =
    let (before, after) = cut (λ c. code c == b':') url in
    if not (is_empty after) && starts_alpha before && all_chars is_scheme_char before
    then (lower before, drop_first after)
    else (String.[], url)

unfoldable pub split_netloc : String → String × String
unfolding cut drop_first
split_netloc url =
    if starts_with url "//"
    then cut (λ c. code c == b'/' || code c == b'?' || code c == b'#') (drop_first (drop_first url))
    else (String.[], url)

unfoldable pub urlsplit : String → Url
unfolding lstrip_control remove_unsafe split_scheme split_netloc cut drop_first
urlsplit text =
    let (scheme, rest) = split_scheme (remove_unsafe (lstrip_control text)) in
    let (netloc, rest') = split_netloc rest in
    let (before, fragment) = cut (λ c. code c == b'#') rest' in
    let (path, query) = cut (λ c. code c == b'?') before in
    record {
      scheme = scheme;
      netloc = netloc;
      path = path;
      query = drop_first query;
      fragment = drop_first fragment;
    }

-- `urllib.parse.uses_netloc`, without its empty entry.
abbrev uses_netloc : List String
uses_netloc =
    "ftp" ∷ "http" ∷ "gopher" ∷ "nntp" ∷ "telnet" ∷ "imap" ∷ "wais" ∷ "file" ∷ "mms" ∷ "https"
    ∷ "shttp" ∷ "snews" ∷ "prospero" ∷ "rtsp" ∷ "rtsps" ∷ "rtspu" ∷ "rsync" ∷ "svn" ∷ "svn+ssh"
    ∷ "sftp" ∷ "nfs" ∷ "git" ∷ "git+ssh" ∷ "ws" ∷ "wss" ∷ "itms-services" ∷ []

-- `urlunsplit((scheme, netloc, path, "", ""))`
unfoldable pub urlunsplit : String → String → String → String
unfolding is_empty any
urlunsplit scheme netloc path =
    let rooted = if is_empty path || starts_with path "/" then path else "/" <> path in
    let located =
      if not (is_empty netloc)
        || (any (λ s. str_eq s scheme) uses_netloc && not (starts_with path "//"))
      then "//" <> (netloc <> rooted)
      else path in
    if is_empty scheme then located else scheme <> (":" <> located)

-- `path.rstrip("/")`
unfoldable pub rstrip_slash : String → String
unfolding is_empty
rstrip_slash String.[] = String.[]
rstrip_slash (String.◌∷◌ c s) =
    let rest = rstrip_slash s in
    if is_empty rest && code c == b'/' then String.[] else String.◌∷◌ c rest

unfoldable pub normalize_canonical_url : String → String
unfolding strip lower urlsplit urlunsplit rstrip_slash
normalize_canonical_url url =
    let parsed = urlsplit (strip url) in
    urlunsplit (lower parsed.scheme) (lower parsed.netloc) (rstrip_slash parsed.path)

unfoldable pub is_comparable : String → Bool
unfolding urlsplit is_empty
is_comparable normalized_url = not (is_empty (urlsplit normalized_url).path)

-- What is hashed for an offer without a comparable URL.
unfoldable pub fallback_key : Offer → String
unfolding join lower strip
fallback_key offer = join "|" (
    lower (strip offer.title)
    ∷ lower (strip offer.company)
    ∷ lower (strip (get_or offer.location ""))
    ∷ [])

-- `compute_dedup_hash`, over the SHA-256 of a text.
unfoldable pub compute_dedup_hash : (String → String) → Offer → String
unfolding normalize_canonical_url is_comparable fallback_key is_empty
compute_dedup_hash sha256 offer = elim offer.canonical_url [
  | none ↦ sha256 (fallback_key offer)
  | some url ↦
      let normalized = normalize_canonical_url url in
      if not (is_empty url) && is_comparable normalized
      then sha256 normalized
      else sha256 (fallback_key offer)
]

normalize_example :
    normalize_canonical_url " HTTPS://Example.com/Jobs/Backend//?utm=1#top "
    ≡ "https://example.com/Jobs/Backend"
unfolding normalize_canonical_url
normalize_example = refl
