-- ===== src/Examples/Research.antt =====
-- Concrete inputs of the results on research.
use daiki_aipass_backend.Prelude.{String, some, [], ◌∷◌, arith, not, ◌≡◌, ok, if◌then◌else◌, str_eq}
use daiki_aipass_backend.Prelude.Int.{pos}
use daiki_aipass_backend.Research.Fetch.{
  four, Web, redirected, responded, public_ip, fetch_public_document,
}
use daiki_aipass_backend.Research.Fetch.Ranges.{is_reserved_address, public_ip-ranges}
use daiki_aipass_backend.Research.Fetch.Guarded.{Octets, IsGuarded, fetch_public_document-IsGuarded}

public_ip-ranges_example : public_ip (four 172 31 0 9) ≡ not (is_reserved_address (four 172 31 0 9))
public_ip-ranges_example = public_ip-ranges (four 172 31 0 9) (omega arith)

-- Every name is at a private and at a public address; the first page redirects to another.
abbrev small_web : Web
small_web = record {
  parse = λ raw. some (record { scheme = "https"; hostname = raw });
  lookup_ip_addr = λ host. ok (four 10 0 0 1 ∷ four 203 0 113 7 ∷ []);
  serve = λ ip url. if str_eq url "a" then redirected "b" else responded 200 "text/html" (60 ∷ []);
}

small_web_octets : (host : String) → Octets (small_web.lookup_ip_addr host)
small_web_octets host = omega arith

fetch_public_document-IsGuarded_example :
    IsGuarded small_web small_web_octets (pos 100) (fetch_public_document small_web "a" (pos 100))
fetch_public_document-IsGuarded_example =
    fetch_public_document-IsGuarded small_web small_web_octets "a" (pos 100)
