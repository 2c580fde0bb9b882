-- ===== src/Research/Fetch.antt =====
-- cmd/api/research.go: newPublicWebClient, publicIP, isHTTPURL and fetchPublicDocument.
-- The tests of package net on an address are written out; url.Parse, the resolver and the servers
-- are parameters. Client.Do asks CheckRedirect before it follows a redirection, with the requests
-- that were made. No proxy is configured.
pub mod Ranges
pub mod Guarded
use Prim.Native.Nat.{zero, suc}
use daiki_aipass_backend.Prelude.{
  ℕ, ◌/◌, ◌%◌, ◌≤◌, String, Option, none, some, Bool, true, false, not, ◌&&◌, ◌||◌, List, [], ◌∷◌,
  ◌++◌, length, take, str_eq, ltb, leb, ◌==◌, if◌then◌else◌, contains, to_lower, trim_space, Result,
  ok, err, ◌>>=◌,
}
use daiki_aipass_backend.Prelude.Int.{ℤ, is_pos, pos_part}

-- A net.IP: nil, four bytes (also an address of 16 bytes that To4 maps to these), or any other
-- address of 16 bytes.
pub data Address : Type 0 where
  nil : Address
  four : (a b c d : ℕ) → Address
  sixteen : (first second : ℕ) → List ℕ → Address

abbrev pub all_zero : List ℕ → Bool
all_zero [] = true
all_zero (x ∷ xs) = (x == 0) && all_zero xs

abbrev pub zeros_and_one : List ℕ → Bool
zeros_and_one [] = false
zeros_and_one (x ∷ []) = x == 1
zeros_and_one (x ∷ y ∷ xs) = (x == 0) && zeros_and_one (y ∷ xs)

-- 127.0.0.0/8 and ::1
is_loopback : Address → Bool
is_loopback nil = false
is_loopback (four a b c d) = a == 127
is_loopback (sixteen x y rest) = (x == 0) && (y == 0) && zeros_and_one rest

-- 10.0.0.0/8, 172.16.0.0/12, 192.168.0.0/16 and fc00::/7
is_private : Address → Bool
is_private nil = false
is_private (four a b c d) = (a == 10) || ((a == 172) && (b / 16 == 1)) || ((a == 192) && (b == 168))
is_private (sixteen x y rest) = x / 2 == 126

-- 169.254.0.0/16 and fe80::/10
is_link_local_unicast : Address → Bool
is_link_local_unicast nil = false
is_link_local_unicast (four a b c d) = (a == 169) && (b == 254)
is_link_local_unicast (sixteen x y rest) = (x == 254) && (y / 64 == 2)

-- 224.0.0.0/24 and ff02::/16 with any flags
is_link_local_multicast : Address → Bool
is_link_local_multicast nil = false
is_link_local_multicast (four a b c d) = (a == 224) && (b == 0) && (c == 0)
is_link_local_multicast (sixteen x y rest) = (x == 255) && (y % 16 == 2)

-- 224.0.0.0/4 and ff00::/8
is_multicast : Address → Bool
is_multicast nil = false
is_multicast (four a b c d) = a / 16 == 14
is_multicast (sixteen x y rest) = x == 255

-- 0.0.0.0 and ::
is_unspecified : Address → Bool
is_unspecified nil = false
is_unspecified (four a b c d) = (a == 0) && (b == 0) && (c == 0) && (d == 0)
is_unspecified (sixteen x y rest) = (x == 0) && (y == 0) && all_zero rest

abbrev is_not_nil : Address → Bool
is_not_nil nil = false
is_not_nil _ = true

-- publicIP
unfoldable pub public_ip : Address → Bool
unfolding is_loopback is_private is_link_local_unicast is_link_local_multicast is_multicast
    is_unspecified
public_ip ip =
    is_not_nil ip
    && not (is_loopback ip)
    && not (is_private ip)
    && not (is_link_local_unicast ip)
    && not (is_link_local_multicast ip)
    && not (is_multicast ip)
    && not (is_unspecified ip)

pub record Url : Type 0 where
  pub scheme : String
  pub hostname : String

-- What a server says to a request.
pub data Answer : Type 0 where
  broken : String → Answer
  redirected : String → Answer
  responded : (status : ℕ) (content_type : String) (body : List ℕ) → Answer

-- A request that was made: its address, and its URL.
pub record Connection : Type 0 where
  pub address : Address
  pub url : String

-- The parts of the environment: url.Parse, the resolver by the URL's host, and the servers.
pub record Web : Type 0 where
  pub parse : String → Option Url
  pub lookup_ip_addr : String → Result (List Address)
  pub serve : Address → String → Answer

abbrev pub first_public : List Address → Result Address
first_public [] = err "destination resolves only to private or unsafe addresses"
first_public (ip ∷ ips) = if public_ip ip then ok ip else first_public ips

module _ (web : Web) where
  open web use {parse, lookup_ip_addr, serve}

  abbrev pub has_http_scheme : Option Url → Bool
  has_http_scheme none = false
  has_http_scheme (some u) =
      not (str_eq u.hostname "") && (str_eq u.scheme "http" || str_eq u.scheme "https")

  -- isHTTPURL
  unfoldable pub is_http_url : String → Bool
  is_http_url raw = has_http_scheme (parse (trim_space raw))

  abbrev pub host_of : Option Url → Result String
  host_of none = err "invalid URL"
  host_of (some u) = ok u.hostname

  -- The address that DialContext connects to.
  abbrev pub dial_context : String → Result Address
  dial_context url = do host ← host_of (parse url); ips ← lookup_ip_addr host; first_public ips

  -- CheckRedirect, before a request to `url` that follows `via` requests.
  abbrev pub check_redirect : String → ℕ → Result (Unit {0})
  check_redirect url via =
      if leb 3 via
      then err "too many redirects"
      else if not (is_http_url url)
      then err "unsafe redirect"
      else ok tt

  abbrev pub Trace : Type 0
  Trace = List Connection × Option (Result Answer)

  -- The request that follows, if the redirection is allowed.
  abbrev pub redirect :
      (List Connection → String → Trace) → List Connection → String → Result (Unit {0}) → Trace
  redirect next made url (err e) = (made, some (err e))
  redirect next made url (ok _) = next made url

  abbrev pub received : (List Connection → String → Trace) → List Connection → Answer → Trace
  received next made (broken e) = (made, some (err e))
  received next made (responded status kind body) = (made, some (ok (responded status kind body)))
  received next made (redirected url) = redirect next made url (check_redirect url (length made))

  abbrev pub dialled :
      (List Connection → String → Trace) → List Connection → String → Result Address → Trace
  dialled next made url (err e) = (made, some (err e))
  dialled next made url (ok ip) =
      received next (made ++ record { address = ip; url = url } ∷ []) (serve ip url)

  -- Client.Do: the connections that are made, and the last answer. `rounds` bounds the
  -- requests; the answer is `none` if it is used up.
  pub do_request : ℕ → List Connection → String → Trace
  do_request zero made url = (made, none)
  do_request (suc rounds) made url = dialled (do_request rounds) made url (dial_context url)

  abbrev pub is_supported : String → Bool
  is_supported kind =
      str_eq kind "" || contains kind "text/" || contains kind "json" || contains kind "xml"

  abbrev pub read_limit : ℤ → ℕ
  read_limit max_bytes = if is_pos max_bytes then pos_part max_bytes else 358_400

  abbrev pub read_document : ℤ → Answer → Result (List ℕ × String)
  read_document max_bytes (responded status kind body) =
      if ltb status 200 || not (ltb status 300)
      then err "source HTTP status"
      else if not (is_supported (to_lower kind))
      then err "unsupported source content type"
      else ok (take (read_limit max_bytes) body, to_lower kind)
  read_document max_bytes _ = err "no answer"

  abbrev pub read_response : ℤ → Option (Result Answer) → Option (Result (List ℕ × String))
  read_response max_bytes none = none
  read_response max_bytes (some r) = some (r >>= read_document max_bytes)

  -- fetchPublicDocument, with the connections that it makes. CheckRedirect allows three requests.
  unfoldable pub fetch_public_document :
      String → ℤ → List Connection × Option (Result (List ℕ × String))
  unfolding do_request
  fetch_public_document raw max_bytes =
      if not (is_http_url raw)
      then ([], some (err "unsafe source URL"))
      else let (made, answer) = do_request 3 [] raw in (made, read_response max_bytes answer)
