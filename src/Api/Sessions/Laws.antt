-- ===== src/Api/Sessions/Laws.antt =====
-- Who gets past the gate before the requests that need a session (api/src/main.ts).
use shore_sentinel_app.Base.{
  ℕ, ◌<◌, ◌≡◌, refl, sym, ap, ◌∙◌, String, Bool, true, false, Option, none, some, List, [], ◌∷◌,
  leb, str_eq, Bool-cases, inl, inr, arith,
}
use shore_sentinel_app.Api.Accounts.{User, Principal}
use shore_sentinel_app.Api.Sessions.{
  Session, Sessions, get_session, find_user, is_current, principal_of, found_session, session_user,
  me, needs_session, goes_on, is_principal, admit, gate,
}

-- The session and the user behind a token that is accepted.
pub record IsSignedIn (now : ℕ) (token : Option String) (users : List User) (sessions : Sessions)
    (p : Principal) : Type 0 where
  pub text : String
  pub session : Session
  pub user : User
  pub sent : token ≡ some text
  pub known : get_session text sessions ≡ some session
  pub unexpired : now < session.expires_at
  pub current : is_current session user ≡ true
  pub principal : p ≡ principal_of user

some_principal : {p q : Principal} → some p ≡ some q → p ≡ q
some_principal h = cc h

some_user : {u v : User} → some u ≡ some v → u ≡ v
some_user h = cc h

found_user :
    (p : User → Bool) (users : List User) (u : User) → find_user p users ≡ some u → p u ≡ true
found_user p [] u h = cc h
found_user p (v ∷ users) u h = elim (Bool-cases (p v)) [
  | inr e ↦ found_user p users u (rw e at h)
  | inl e ↦ let same : v ≡ u = some_user (rw e at h) in ap p (sym same) ∙ e
]

module _ (now : ℕ) (users : List User) (sessions : Sessions) (p : Principal) where
  found-IsSignedIn :
      (text : String) (session : Session) (o : Option User)
      → get_session text sessions ≡ some session
      → leb session.expires_at now ≡ false
      → find_user (is_current session) users ≡ o
      → (found_session text sessions o).0 ≡ some p
      → IsSignedIn now (some text) users sessions p
  found-IsSignedIn text session none known late e h = cc h
  found-IsSignedIn text session (some u) known late e h = record {
    text = text;
    session = session;
    user = u;
    sent = refl;
    known = known;
    unexpired = ground arith;
    current = found_user (is_current session) users u e;
    principal = sym (some_principal h);
  }

  session-IsSignedIn :
      (text : String) (o : Option Session)
      → get_session text sessions ≡ o
      → (session_user now text users sessions o).0 ≡ some p
      → IsSignedIn now (some text) users sessions p
  session-IsSignedIn text none known h = cc h
  session-IsSignedIn text (some session) known h = elim (Bool-cases (leb session.expires_at now)) [
    | inl e ↦ cc (rw e at h)
    | inr e ↦
        found-IsSignedIn text session (find_user (is_current session) users) known e refl
          (rw e at h)
  ]

  me-IsSignedIn :
      (token : Option String)
      → (me now token users sessions).0 ≡ some p
      → IsSignedIn now token users sessions p
  unfolding me
  me-IsSignedIn none h = cc h
  me-IsSignedIn (some text) h = elim (Bool-cases (str_eq text "")) [
    | inl e ↦ cc (rw e at h)
    | inr e ↦ session-IsSignedIn text (get_session text sessions) refl (rw e at h)
  ]

goes_on_inj : {o q : Option Principal} → goes_on o ≡ goes_on q → o ≡ q
goes_on_inj h = cc h

admitted :
    (r o : Option Principal) → admit r ≡ goes_on o → (p : Principal) × (r ≡ some p) × (o ≡ some p)
admitted none o h = cc h
admitted (some p) o h = elim (Bool-cases (is_principal p)) [
  | inl e ↦ (p, refl, sym (goes_on_inj (rw e at h)))
  | inr e ↦ cc (rw e at h)
]

-- A request that needs a session goes on only with the principal of a session that the server
-- keeps under the token that was sent, that has not expired, and whose user is still there, in the
-- same tenant, not disabled and with a role.
pub gate-IsSignedIn :
    (now : ℕ) (method path : String) (token : Option String) (users : List User)
    (sessions : Sessions) (o : Option Principal)
    → needs_session method path ≡ true
    → (gate now method path token users sessions).0 ≡ goes_on o
    → (p : Principal) × (o ≡ some p) × IsSignedIn now token users sessions p
unfolding gate
gate-IsSignedIn now method path token users sessions o needed h =
    let (p, e, f) = admitted (me now token users sessions).0 o (rw needed at h) in
    (p, f, me-IsSignedIn now users sessions p token e)
