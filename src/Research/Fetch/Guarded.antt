-- ===== src/Research/Fetch/Guarded.antt =====
-- Which connections fetchPublicDocument (Research/Fetch) makes, and what it reads.
use Prim.Native.Nat.{zero, suc}
use daiki_aipass_backend.Prelude.{
  false_ne_true, sym, ap, ◌∙◌, ◌≢◌, ◌⊎◌, ◌&&◌, inl, inr, refl, eq_iff, str_eq, Bool, false,
  Bool-cases, trim_space, All-map, ℕ, ◌+◌, ◌≤◌, ◌<◌, String, Option, none, some, true, not, ◌||◌,
  List, [], ◌∷◌, length, length-append, length-take, ltb, leb, ◌≡◌, to_lower, arith, All, All-snoc,
  if_both, if_cases, Result, ok, err, ◌>>=◌,
}
use daiki_aipass_backend.Prelude.Int.{ℤ}
use daiki_aipass_backend.Research.Fetch.{
  Address, Url, has_http_scheme, public_ip, Answer, broken, redirected, responded, Connection, Web,
  first_public, is_http_url, host_of, dial_context, check_redirect, redirect, received, dialled,
  do_request, is_supported, read_limit, read_document, read_response, fetch_public_document,
}
use daiki_aipass_backend.Research.Fetch.Ranges.{IsAddress, is_reserved_address, public_ip-ranges}

abbrev IsSome : {A : Type 0} → Option A → Type 0
IsSome none = ⊥
IsSome (some a) = Unit

-- The addresses of a name consist of bytes.
abbrev pub Octets : Result (List Address) → Type 0
Octets (err e) = Unit
Octets (ok ips) = All IsAddress ips

-- A URL with a host, of the scheme http or https.
abbrev pub IsHttp : Option Url → Type 0
IsHttp none = ⊥
IsHttp (some u) = (u.hostname ≢ "") × ((u.scheme ≡ "http") ⊎ (u.scheme ≡ "https"))

named : (s : String) → not (str_eq s "") ≡ true → s ≢ ""
named s h e = absurd (false_ne_true (sym (ap not ((eq_iff s "").1 e)) ∙ h))

one_of : (s a b : String) → (str_eq s a || str_eq s b) ≡ true → (s ≡ a) ⊎ (s ≡ b)
one_of s a b h = elim (Bool-cases (str_eq s a)) [
  | inl e ↦ inl ((eq_iff s a).0 e)
  | inr e ↦ inr ((eq_iff s b).0 (ground arith))
]

both : (p q : Bool) → (p && q) ≡ true → (p ≡ true) × (q ≡ true)
both true q h = (refl, h)
both false q h = absurd (false_ne_true h)

module _ (web : Web) (octets : (host : String) → Octets (web.lookup_ip_addr host)) where
  open web use {parse, lookup_ip_addr, serve}

  -- A connection that is allowed: to an address that is in no reserved range, for an HTTP URL.
  pub record IsAllowed (c : Connection) : Type 0 where
    pub outside : is_reserved_address c.address ≡ false
    pub http : IsHttp (parse (trim_space c.url))

  -- The tests that the code makes of a connection.
  abbrev IsTested : Connection → Type 0
  IsTested c = IsAddress c.address × (public_ip c.address ≡ true) × (is_http_url web c.url ≡ true)

  IsHttp-of : (o : Option Url) → has_http_scheme web o ≡ true → IsHttp o
  IsHttp-of none h = absurd (false_ne_true h)
  IsHttp-of (some u) h =
      let (p, q) = both (not (str_eq u.hostname "")) _ h in
      (named u.hostname p, one_of u.scheme "http" "https" q)

  tested-IsAllowed : (c : Connection) → IsTested c → IsAllowed c
  unfolding is_http_url
  tested-IsAllowed c (bytes, public, http) = record {
    outside =
        not_true (is_reserved_address c.address) (sym (public_ip-ranges c.address bytes) ∙ public);
    http = IsHttp-of (parse (trim_space c.url)) http;
  }
    where
      not_true : (b : Bool) → not b ≡ true → b ≡ false
      not_true true h = sym h
      not_true false h = refl

  abbrev IsPublicAddress : Result Address → Type 0
  IsPublicAddress (err e) = Unit
  IsPublicAddress (ok ip) = IsAddress ip × (public_ip ip ≡ true)

  first_public-IsPublic :
      (ips : List Address) → All IsAddress ips → IsPublicAddress (first_public ips)
  first_public-IsPublic [] h = tt
  first_public-IsPublic (ip ∷ ips) h =
      if_cases IsPublicAddress (public_ip ip) (λ e. (h.0, e)) (λ e. first_public-IsPublic ips h.1)

  after_host :
      (r : Result String) → IsPublicAddress (r >>= (λ h. lookup_ip_addr h >>= first_public))
  after_host (err e) = tt
  after_host (ok host) = after_lookup (lookup_ip_addr host) (octets host)
    where
      after_lookup : (r : Result (List Address)) → Octets r → IsPublicAddress (r >>= first_public)
      after_lookup (err e) h = tt
      after_lookup (ok ips) h = first_public-IsPublic ips h

  dial_context-IsPublic : (url : String) → IsPublicAddress (dial_context web url)
  dial_context-IsPublic url = after_host (host_of web (parse url))

  -- All connections are tested, there are at most three, and the rounds were not used up.
  abbrev Good : {A : Type 0} → List Connection × Option A → Type 0
  Good t = All IsTested t.0 × (length t.0 ≤ 3) × IsSome t.1

  IsFollowed : ℕ → (List Connection → String → List Connection × Option (Result Answer)) → Type 0
  IsFollowed rounds next =
      (made : List Connection) (url : String)
      → All IsTested made
      → length made < 3
      → 3 ≤ length made + rounds
      → is_http_url web url ≡ true
      → Good (next made url)

  redirect-Good :
      (rounds : ℕ) (next : List Connection → String → List Connection × Option (Result Answer))
      → IsFollowed rounds next
      → (made : List Connection) (url : String) → All IsTested made
      → length made ≤ 3
      → 3 ≤ length made + rounds
      → Good (redirect web next made url (check_redirect web url (length made)))
  unfolding IsFollowed
  redirect-Good rounds next follow made url all few enough =
      if_cases (λ r. Good (redirect web next made url r)) (leb 3 (length made))
        (λ e. (all, few, tt))
        (λ e.
          if_cases (λ r. Good (redirect web next made url r)) (not (is_http_url web url))
            (λ bad. (all, few, tt))
            (λ good. follow made url all (ground arith) enough (ground arith)))

  received-Good :
      (rounds : ℕ) (next : List Connection → String → List Connection × Option (Result Answer))
      → IsFollowed rounds next
      → (made : List Connection) (a : Answer) → All IsTested made
      → length made ≤ 3
      → 3 ≤ length made + rounds
      → Good (received web next made a)
  received-Good rounds next follow made (broken e) all few enough = (all, few, tt)
  received-Good rounds next follow made (responded status kind body) all few enough = (all, few, tt)
  received-Good rounds next follow made (redirected url) all few enough =
      redirect-Good rounds next follow made url all few enough

  dialled-Good :
      (rounds : ℕ) (next : List Connection → String → List Connection × Option (Result Answer))
      → IsFollowed rounds next
      → (made : List Connection) (url : String) (r : Result Address) → IsPublicAddress r
      → All IsTested made
      → length made < 3
      → 3 ≤ length made + suc rounds
      → is_http_url web url ≡ true
      → Good (dialled web next made url r)
  dialled-Good rounds next follow made url (err e) p all few enough http = (all, omega arith, tt)
  dialled-Good rounds next follow made url (ok ip) p all few enough http =
      received-Good rounds next follow _ (serve ip url)
        (All-snoc IsTested made (record { address = ip; url = url }) all (p.0, p.1, http))
        (omega (arith, length-append made (record { address = ip; url = url } ∷ [])))
        (omega (arith, length-append made (record { address = ip; url = url } ∷ [])))

  do_request-Good : (rounds : ℕ) → IsFollowed rounds (do_request web rounds)
  unfolding do_request IsFollowed
  do_request-Good zero made url all few enough http = absurd (omega arith)
  do_request-Good (suc rounds) made url all few enough http =
      dialled-Good rounds (do_request web rounds) (do_request-Good rounds) made url
        (dial_context web url) (dial_context-IsPublic url) all few enough http

  -- What is read is at most as long as the limit.
  abbrev IsRead : ℤ → Option (Result (List ℕ × String)) → Type 0
  IsRead max_bytes none = ⊥
  IsRead max_bytes (some (err e)) = Unit
  IsRead max_bytes (some (ok (body, kind))) =
      (length body ≤ read_limit web max_bytes) × (is_supported web kind ≡ true)

  pub record IsGuarded (max_bytes : ℤ) (t : List Connection × Option (Result (List ℕ × String)))
      : Type 0 where
    pub allowed : All IsAllowed t.0
    pub few : length t.0 ≤ 3
    pub read : IsRead max_bytes t.1

  read_document-IsRead :
      (max_bytes : ℤ) (a : Answer) → IsRead max_bytes (some (read_document web max_bytes a))
  read_document-IsRead max_bytes (broken e) = tt
  read_document-IsRead max_bytes (redirected url) = tt
  read_document-IsRead max_bytes (responded status kind body) =
      if_both (λ r. IsRead max_bytes (some r)) (ltb status 200 || not (ltb status 300)) tt
        (if_cases (λ r. IsRead max_bytes (some r)) (not (is_supported web (to_lower kind)))
          (λ e. tt)
          (λ e. (omega (arith, length-take (read_limit web max_bytes) body), ground arith)))

  read_response-IsRead :
      (max_bytes : ℤ) (o : Option (Result Answer))
      → IsSome o
      → IsRead max_bytes (read_response web max_bytes o)
  read_response-IsRead max_bytes none h = h
  read_response-IsRead max_bytes (some (err e)) h = tt
  read_response-IsRead max_bytes (some (ok a)) h = read_document-IsRead max_bytes a

  -- If the addresses that the resolver gives consist of bytes, and whatever they are, whatever the
  -- servers answer and wherever they redirect to: a fetch ends, makes at most three connections, each
  -- to an address in no reserved range and for an HTTP URL with a host, and reads a document of a
  -- supported type of at most the bytes asked for (350 KiB, if that is not positive).
  pub fetch_public_document-IsGuarded :
      (raw : String) (max_bytes : ℤ) → IsGuarded max_bytes (fetch_public_document web raw max_bytes)
  unfolding fetch_public_document IsFollowed
  fetch_public_document-IsGuarded raw max_bytes =
      if_cases (IsGuarded max_bytes) (not (is_http_url web raw))
        (λ bad. record { allowed = tt; few = omega arith; read = tt })
        (λ good. followed (do_request-Good 3 [] raw tt (omega arith) (omega arith) (ground arith)))
    where
      followed :
          Good (do_request web 3 [] raw)
          → IsGuarded max_bytes
              ((do_request web 3 [] raw).0, read_response web max_bytes (do_request web 3 [] raw).1)
      followed g = record {
        allowed = All-map IsTested IsAllowed (do_request web 3 [] raw).0 tested-IsAllowed g.0;
        few = g.1;
        read = read_response-IsRead max_bytes (do_request web 3 [] raw).1 g.2;
      }
