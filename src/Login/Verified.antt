-- ===== src/Login/Verified.antt =====
-- What a login that succeeds has passed.
use cpp_backend_server.Base.{
  ◌≡◌, refl, subst, Bool, true, false, Option, none, some, [], if_cases, Bytes, ◌⊎◌, inl, inr, ◌==◌,
}
use cpp_backend_server.Router.{Uuid}
use cpp_backend_server.Login.{
  not_active_user, invalid_credentials, LoginServiceResult, PasswordLoginRecord, failed,
  login_issued, login_found, login_by_email, LoginTicketStatus, success, invalid_ticket,
  account_disabled, device_not_found, device_not_owned, device_not_active, LoginTicketResult,
  CompletedLogin, valid_ticket, hash_ticket, with_identity, by_status, complete, verify_device,
}

module _ (verify : Bytes → Bytes → Bool) (issue : Uuid → Option Bytes) where
  -- The record of a user who may have the ticket.
  pub record IsVerified (found : Option PasswordLoginRecord) (password ticket : Bytes)
      : Type 0 where
    pub user : PasswordLoginRecord
    pub is_found : found ≡ some user
    pub verified : verify user.password_hash password ≡ true
    pub active : user.is_active ≡ true
    pub issued : issue user.id ≡ some ticket

  issued_ticket :
      (o : Option Bytes) (ticket : Bytes)
      → (login_issued o).login_ticket ≡ some ticket
      → o ≡ some ticket
  unfolding login_issued
  issued_ticket none ticket e = e
  issued_ticket (some t) ticket e = e

  -- A login hands out a ticket only where the address has a user, the password fits the user's hash,
  -- the user is active and the ticket is the one that was issued to this user.
  pub login_by_email-IsVerified :
      (found : Option PasswordLoginRecord) (password ticket : Bytes)
      → (login_by_email verify issue found password).login_ticket ≡ some ticket
      → IsVerified found password ticket
  unfolding login_by_email login_found
  login_by_email-IsVerified none password ticket = λ e. absurd (cc e)
  login_by_email-IsVerified (some r) password ticket =
      if_cases
        (λ (x : LoginServiceResult).
          x.login_ticket ≡ some ticket → IsVerified (some r) password ticket)
        (verify r.password_hash password) _ (failed invalid_credentials)
        (λ fits.
          if_cases
            (λ (x : LoginServiceResult).
              x.login_ticket ≡ some ticket → IsVerified (some r) password ticket)
            r.is_active (login_issued (issue r.id)) (failed not_active_user)
            (λ active e. record {
              user = r;
              is_found = refl;
              verified = fits;
              active = active;
              issued = issued_ticket (issue r.id) ticket e;
            })
            (λ _ e. absurd (cc e)))
        (λ _ e. absurd (cc e))

module _ {Input : Type 0} (hash : Bytes → Bytes) (access : Uuid → Bytes)
    (store : Uuid → Bytes → Bool)
    (transact : Bytes → Bytes → Option Uuid → Option Input → LoginTicketResult)
    (refresh_token ticket : Bytes) where
  -- What the tokens of a login for a device say: there are none, or the device is not nil, the ticket
  -- is well-formed, and they belong to the user whom the transaction of both hashes names.
  pub record HasTokens (device : Uuid) (c : CompletedLogin) : Type 0 where
    pub user : Uuid
    pub other : Uuid
    pub not_nil : (device == 0) ≡ false
    pub well_formed : valid_ticket ticket ≡ true
    pub transaction :
        transact
          (hash_ticket hash access store transact ticket)
          (hash refresh_token)
          (some device)
          none
        ≡ record { status = success; identity = some (user, other) }
    pub access_given : c.access_token ≡ access user
    pub refresh_given : c.refresh_token ≡ refresh_token

  abbrev pub Tokens : Uuid → CompletedLogin → Type 0
  Tokens device c = ((c.access_token ≡ []) × (c.refresh_token ≡ [])) ⊎ HasTokens device c

  -- A property of what was completed, if it was.
  abbrev IfCompleted : Uuid → Option CompletedLogin → Type 0
  IfCompleted device none = Unit
  IfCompleted device (some c) = Tokens device c

  by_status-Tokens :
      (status : LoginTicketStatus) (identity : Option (Uuid × Uuid)) (device : Uuid)
      → (device == 0) ≡ false
      → valid_ticket ticket ≡ true
      → transact
          (hash_ticket hash access store transact ticket)
          (hash refresh_token)
          (some device)
          none
        ≡ record { status = status; identity = identity }
      → IfCompleted device (
          by_status hash access store transact status refresh_token
            (record { status = status; identity = identity }))
  unfolding by_status with_identity
  by_status-Tokens success none device n v e = tt
  by_status-Tokens success (some (user, other)) device n v e = inr (record {
    user = user;
    other = other;
    not_nil = n;
    well_formed = v;
    transaction = e;
    access_given = refl;
    refresh_given = refl;
  })
  by_status-Tokens invalid_ticket identity device n v e = inl (refl, refl)
  by_status-Tokens account_disabled identity device n v e = inl (refl, refl)
  by_status-Tokens device_not_found identity device n v e = inl (refl, refl)
  by_status-Tokens device_not_owned identity device n v e = inl (refl, refl)
  by_status-Tokens device_not_active identity device n v e = inl (refl, refl)

  completed_tokens :
      (device : Uuid)
      → IfCompleted device (verify_device hash access store transact refresh_token ticket device)
  unfolding verify_device complete
  completed_tokens device =
      let h = hash_ticket hash access store transact ticket in
      let r = transact h (hash refresh_token) (some device) none in
      if_cases (IfCompleted device) (device == 0) _
        (complete hash access store transact refresh_token ticket (some device) none)
        (λ _. inl (refl, refl))
        (λ n.
          if_cases (IfCompleted device) (valid_ticket ticket)
            (by_status hash access store transact r.status refresh_token r) _
            (λ v. by_status-Tokens r.status r.identity device n v refl) (λ _. inl (refl, refl)))

  -- A completed login for a device comes with no tokens, or the device is not nil, the ticket is
  -- well-formed, the transaction of the hashes of the ticket and of the refresh token has succeeded,
  -- and the tokens are the access token of the user whom it names and that refresh token.
  pub verify_device-Tokens :
      (device : Uuid) (c : CompletedLogin)
      → verify_device hash access store transact refresh_token ticket device ≡ some c
      → Tokens device c
  verify_device-Tokens device c e = subst (IfCompleted device) e (completed_tokens device)
