-- ===== src/LdapClient/Users/Credentials.antt =====
-- `ValidateCredentials` against what the directory accepts.
use portal_conductor.Base.{
  ℕ, String, ◌==◌, ◌≡◌, refl, sym, ap, ◌∙◌, Bool, true, false, not, ◌&&◌, Option, none, some, List,
  [], ◌∷◌, nat_eq, arith, Bool-cases, inl, inr, if◌then◌else◌,
}
use portal_conductor.External.{Error, as_ldap_error}
use portal_conductor.External.Effect.{Result, ok, err, Call, Done, pure}
use portal_conductor.External.Effect.Triple.{
  Triple, Ends, Triple-intro, Triple-of_keeps, Triple-bind, Triple-pure, Triple-lift, Triple-try,
  Triple-if, Triple-weaken, Triple-deferring, Triple-ok,
}
use portal_conductor.LdapClient.{Server, Client, Entry}
use portal_conductor.LdapClient.Connection.{with_connection, search_entries}
use portal_conductor.LdapClient.Users.{
  first_dn, person_filter, get_user_dn, bind_answer, bind_as, validate_credentials,
}

-- A server with one distinguished name for each user, empty where there is no entry, that accepts a
-- fixed set of pairs of a name and a password. Nothing is said of a bind without a name or without a
-- password, which LDAP servers answer with success.
pub record IsAuthority {W Conn : Type 0} (S : Server W Conn) (c : Client) (dn_of : String → String)
    (accepts : String → String → Bool) : Type 0 where
  pub bind_ok :
      (conn : Conn) (dn pw : String) (w : W)
      → (dn == "") ≡ false
      → (pw == "") ≡ false
      → (S.bind conn dn pw w).0 ≡ ok tt
      → accepts dn pw ≡ true
  pub bind_err :
      (conn : Conn) (dn pw : String) (w : W) (e : Error)
      → (S.bind conn dn pw w).0 ≡ err e
      → as_ldap_error e ≡ some 49
      → accepts dn pw ≡ false
  pub search_dn :
      (conn : Conn) (u : String) (w : W) (es : List Entry)
      → (S.search conn
          (record { base_dn = c.base_dn; filter = person_filter S c u; attributes = "dn" ∷ [] })
          w).0
        ≡ ok es
      → first_dn es ≡ dn_of u

-- Whether the pair of a user and a password is accepted.
abbrev pub is_accepted : (String → String) → (String → String → Bool) → String → String → Bool
is_accepted dn_of accepts u pw = not (pw == "") && not (dn_of u == "") && accepts (dn_of u) pw

module _ {W Conn : Type 0} (S : Server W Conn) (c : Client) (dn_of : String → String)
    (accepts : String → String → Bool) (I : IsAuthority S c dn_of accepts) where
  abbrev Anywhere : W → Type 0
  Anywhere w = true ≡ true

  abbrev Anything : Error → W → Type 0
  Anything e w = true ≡ true

  Triple-any : {A : Type 0} (m : Call W A) → Triple Anywhere m (λ _. Anywhere) Anything
  Triple-any m = Triple-of_keeps (record { after = λ w h. refl })

  Triple-get_user_dn :
      (u : String) → Triple Anywhere (get_user_dn S c u) (λ dn w. dn ≡ dn_of u) Anything
  unfolding get_user_dn with_connection search_entries
  Triple-get_user_dn u =
      Triple-bind (λ _. Anywhere) _ _ (Triple-any _)
        λ conn. Triple-deferring (S.close conn) _ (
          Triple-bind (λ es w. first_dn es ≡ dn_of u) _ _
            (Triple-intro _ (λ w h es e. I.search_dn conn u w es e) (λ w h x e. refl))
            (λ es. Triple-pure _ (λ w h. h)))

  -- What the error of a refused bind says.
  abbrev Refused : String → String → Error → W → Type 0
  Refused dn pw e w = as_ldap_error e ≡ some 49 → accepts dn pw ≡ false

  answer_of_error :
      (dn pw : String) (e : Error) (w : W) (code : Option ℕ)
      → as_ldap_error e ≡ code
      → Refused dn pw e w
      → Ends
          (λ b v. b ≡ accepts dn pw)
          Anything
          (elim code [ some k ↦ if nat_eq k 49 then ok false else err e | none ↦ err e ])
          w
  answer_of_error dn pw e w none k h = refl
  answer_of_error dn pw e w (some n) k h = elim (Bool-cases (nat_eq n 49)) [
    | inl t ↦ rw t (sym (h (k ∙ ap some (ground arith))))
    | inr t ↦ rw t refl
  ]

  answer :
      (dn pw : String) (r : Result Done) (w : W)
      → Ends (λ _ v. accepts dn pw ≡ true) (Refused dn pw) r w
      → Ends (λ b v. b ≡ accepts dn pw) Anything (bind_answer r) w
  answer dn pw (ok a) w h = sym h
  answer dn pw (err e) w h = answer_of_error dn pw e w (as_ldap_error e) refl h

  Triple-bind_as :
      (dn pw : String)
      → (dn == "") ≡ false
      → (pw == "") ≡ false
      → Triple Anywhere (bind_as S c dn pw) (λ b w. b ≡ accepts dn pw) Anything
  unfolding bind_as
  Triple-bind_as dn pw d p =
      Triple-bind (λ _. Anywhere) _ _ (Triple-any _)
        λ conn. Triple-deferring (S.close conn) _ (
          Triple-bind (λ r w. Ends (λ _ v. accepts dn pw ≡ true) (Refused dn pw) r w) _ _
            (Triple-try _ (
              Triple-intro _ (λ w h a e. I.bind_ok conn dn pw w d p e)
                (λ w h x e. I.bind_err conn dn pw w x e)))
            (λ r. Triple-lift _ (λ w h. answer dn pw r w h)))

  Triple-validate_credentials :
      (u pw : String)
      → Triple Anywhere
          (validate_credentials S c u pw)
          (λ b w. b ≡ is_accepted dn_of accepts u pw)
          Anything
  unfolding validate_credentials
  Triple-validate_credentials u pw =
      Triple-if (pw == "") _ _ (λ p. Triple-pure false (λ w h. rw p refl))
        λ p.
          Triple-bind _ _ _ (Triple-get_user_dn u)
            λ dn. record { run = λ w e. (with_dn dn e p).run w refl }
    where
      with_dn :
          (dn : String)
          → dn ≡ dn_of u
          → (pw == "") ≡ false
          → Triple Anywhere
              (if dn == "" then pure false else bind_as S c dn pw)
              (λ b w. b ≡ is_accepted dn_of accepts u pw)
              Anything
      with_dn dn e p =
          Triple-if (dn == "") _ _
            (λ d. Triple-pure false (λ w h. rw (p, ap (λ x. x == "") (sym e) ∙ d) refl))
            (λ d.
              Triple-weaken (λ w h. h) (λ b w h. h ∙ ap (λ x. accepts x pw) e ∙ accepted_as d p)
                (λ x w h. h) (Triple-bind_as dn pw d p))
        where
          accepted_as :
              (dn == "") ≡ false
              → (pw == "") ≡ false
              → accepts (dn_of u) pw ≡ is_accepted dn_of accepts u pw
          accepted_as d q = rw (q, ap (λ x. x == "") (sym e) ∙ d) refl

  -- The answer, where there is one, is whether the user has an entry whose name the directory accepts
  -- with the password; an empty password is never accepted, whatever the server does with it.
  pub validate_credentials-is_accepted :
      (u pw : String) (w : W) (b : Bool)
      → (validate_credentials S c u pw w).0 ≡ ok b
      → b ≡ is_accepted dn_of accepts u pw
  validate_credentials-is_accepted u pw w b e =
      Triple-ok (Triple-validate_credentials u pw) w refl e
