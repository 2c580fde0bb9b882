-- ===== src/Access/Admin.antt =====
-- Who reaches the administration through auth and adminOnly.
use daiki_aipass_backend.Prelude.{
  ◌≡◌, refl, ◌⊎◌, inl, inr, String, Option, some, none, Bool, true, false, not, ◌&&◌, ◌||◌, str_eq,
  if◌then◌else◌, if_cases, List, [], ◌∷◌, arith,
}
use daiki_aipass_backend.Access.{
  Claims, User, Identity, Config, Directory, Verdict, refused, passed, token_for_client, has_role,
  is_configured_admin, bearer, is_api_key, auth, auth_key, auth_token, auth_claims, roles,
  key_verdict, login_verdict, token_verdict,
}
use daiki_aipass_backend.Access.Guards.{admin_only, ◌then◌}

-- What is passed on, if anything is, satisfies the predicate.
abbrev pub Passes : (Identity → Type 0) → Verdict Identity → Type 0
Passes P (refused status message) = Unit
Passes P (passed i) = P i

either : (a b : Bool) → (not a && not b) ≡ false → (a || b) ≡ true
either a b h = ground arith

neither : (a b : Bool) → (a || b) ≡ true → (not a && not b) ≡ false
neither a b h = ground arith

not-not : (a : Bool) → not a ≡ false → a ≡ true
not-not a h = ground arith

true_ne_false : {b : Bool} → b ≡ true → b ≡ false → ⊥
true_ne_false h k = ground arith

module _ (cfg : Config) (dir : Directory) (header : String) where
  -- The header holds a token that is no API key, which the verifier accepts with these claims, and
  -- which is meant for the client.
  pub record IsVerified (i : Identity) : Type 0 where
    pub no_key : is_api_key (bearer header) ≡ false
    pub verified : dir.verify (bearer header) ≡ some (some i.claims)
    pub for_client : token_for_client i.claims cfg.client_id ≡ true

  -- The two ways to pass auth.
  abbrev SignedIn : Identity → Type 0
  SignedIn i = (str_eq i.principal.auth_kind "api_key" ≡ true) ⊎ IsVerified i

  auth_claims-Passes :
      (c : Claims)
      → is_api_key (bearer header) ≡ false
      → dir.verify (bearer header) ≡ some (some c)
      → Passes SignedIn (auth_claims cfg dir c)
  unfolding auth_claims
  auth_claims-Passes c k v =
      if_cases (Passes SignedIn) (not (token_for_client c cfg.client_id))
        {a = refused 401 "token client mismatch"} (λ e. tt)
        λ e.
          if_cases (Passes SignedIn) (not dir.has_store)
            {a = refused 503 "identity store unavailable"} (λ h. tt)
            λ h.
              login_cases (dir.upsert_login c (roles c cfg.client_id))
                (not-not (token_for_client c cfg.client_id) e)
    where
      login_cases :
          (o : Option User)
          → token_for_client c cfg.client_id ≡ true
          → Passes SignedIn (login_verdict cfg dir c o)
      login_cases none e = tt
      login_cases (some u) e = inr (record { no_key = k; verified = v; for_client = e })

  auth-Passes : Passes SignedIn (auth cfg dir header)
  unfolding auth auth_key auth_token
  auth-Passes =
      let token = bearer header in
      if_cases (Passes SignedIn) (str_eq token "") {a = refused 401 "missing bearer token"}
        (λ e. tt)
        λ e.
          if_cases (Passes SignedIn) (is_api_key token)
            (λ k.
              if_cases (Passes SignedIn) (not dir.has_store)
                {a = refused 503 "identity store unavailable"} (λ h. tt)
                λ h. key_cases (dir.authenticate_api_key token))
            λ k. token_cases k (dir.verify token) refl
    where
      key_cases : (o : Option (String × List String × User)) → Passes SignedIn (key_verdict o)
      key_cases none = tt
      key_cases (some found) = inl refl

      token_cases :
          is_api_key (bearer header) ≡ false
          → (o : Option (Option Claims)) → dir.verify (bearer header) ≡ o
          → Passes SignedIn (token_verdict cfg dir o)
      token_cases k none v = tt
      token_cases k (some none) v = tt
      token_cases k (some (some c)) v = auth_claims-Passes c k v

  -- A verified token of an approved user who is an administrator by role or by configuration.
  pub record IsAdmin (i : Identity) : Type 0 where
    pub verified : IsVerified i
    pub approved : str_eq i.user.status "approved" ≡ true
    pub entitled :
        (has_role i.claims cfg.client_id ("ai-admin" ∷ "admin" ∷ [])
          || is_configured_admin cfg i.claims)
        ≡ true

  admin_only-Passes : (i : Identity) → SignedIn i → Passes IsAdmin (admin_only cfg i)
  unfolding admin_only
  admin_only-Passes i h =
      let role = has_role i.claims cfg.client_id ("ai-admin" ∷ "admin" ∷ []) in
      let configured = is_configured_admin cfg i.claims in
      if_cases (Passes IsAdmin) (not (str_eq i.user.status "approved"))
        {a = refused 403 "admin_access_requires_approval"} (λ e. tt)
        λ e.
          if_cases (Passes IsAdmin) (str_eq i.principal.auth_kind "api_key")
            {a = refused 403 "admin API requires interactive OIDC"} (λ k. tt)
            λ k.
              if_cases (Passes IsAdmin) (not role && not configured)
                {a = refused 403 "admin role required"} {b = passed i} (λ l. tt)
                λ l. record {
                  verified = elim h [ inl key ↦ absurd (true_ne_false key k) | inr v ↦ v ];
                  approved = not-not (str_eq i.user.status "approved") e;
                  entitled = either role configured l;
                }

  admin_only_lets :
      (i : Identity)
      → str_eq i.principal.auth_kind "api_key" ≡ false
      → IsAdmin i
      → admin_only cfg i ≡ passed i
  unfolding admin_only
  admin_only_lets i k h =
      let role = has_role i.claims cfg.client_id ("ai-admin" ∷ "admin" ∷ []) in
      let configured = is_configured_admin cfg i.claims in
      rw (h.approved, k, neither role configured h.entitled) refl

  -- Whoever passes auth and adminOnly sent a token that is no API key, that the verifier accepts and
  -- that is meant for this client, and is an approved user with the role ai-admin or admin or with the
  -- configured administrator's verified address; and adminOnly lets everyone through for whom this
  -- holds and who did not sign in with an API key.
  pub admin_only-IsAdmin :
      Passes IsAdmin (auth cfg dir header then admin_only cfg)
      × ((i : Identity)
          → str_eq i.principal.auth_kind "api_key" ≡ false
          → IsAdmin i
          → admin_only cfg i ≡ passed i)
  admin_only-IsAdmin = (then_passes (auth cfg dir header) auth-Passes, admin_only_lets)
    where
      then_passes :
          (v : Verdict Identity) → Passes SignedIn v → Passes IsAdmin (v then admin_only cfg)
      then_passes (refused status message) h = tt
      then_passes (passed i) h = admin_only-Passes i h
