-- ===== src/Session/Signing.antt =====
-- Who gets to the unlock page.
use personal_password_manage.Prelude.{◌≡◌, refl, sym, ◌∙◌, ℕ, List, Bool, true, false, Text}
use personal_password_manage.Api.{ApiResult, value, failed}
use personal_password_manage.Json.{Value}
use personal_password_manage.Passkeys.{
  RequestOptions, Assertion, Prompted, Outcome, done, fails, not_allowed, other,
  get_passkey_assertion,
}
use personal_password_manage.Session.{
  LoginPage, opened_page, begin_submit, finish_login, finish_challenge, use_different_account,
  Started, finish_passkey, after_prompt, handle_passkey_login,
}

abbrev pub is_failed {ℓ} : {A : Type ℓ} → ApiResult A → Bool
is_failed (value v) = false
is_failed (failed message) = true

-- The steps of the sign-in page, with what the server has granted: the password of an account without a
-- second factor, the code, or the assertion of a passkey. A submit asks for the code once the page awaits it.
pub data SignIn : Bool → LoginPage → Type 0 where
  start : SignIn false opened_page
  typed :
      {granted : Bool} {page : LoginPage} (email password code : Text)
      → SignIn granted page
      → SignIn granted (record page { email = email; password = password; code = code })
  refused :
      {granted : Bool} {page : LoginPage} (message : Text)
      → SignIn granted page
      → page.awaiting2fa ≡ false
      → SignIn granted (finish_login (failed message) (begin_submit page))
  half :
      {granted : Bool} {page : LoginPage}
      → SignIn granted page
      → page.awaiting2fa ≡ false
      → SignIn granted (finish_login (value true) (begin_submit page))
  admitted :
      {granted : Bool} {page : LoginPage}
      → SignIn granted page
      → page.awaiting2fa ≡ false
      → SignIn true (finish_login (value false) (begin_submit page))
  wrong_code :
      {granted : Bool} {page : LoginPage} (message : Text)
      → SignIn granted page
      → page.awaiting2fa ≡ true
      → SignIn granted (finish_challenge {A = Unit} (failed message) (begin_submit page))
  right_code :
      {granted : Bool} {page : LoginPage}
      → SignIn granted page
      → page.awaiting2fa ≡ true
      → SignIn true (finish_challenge (value tt) (begin_submit page))
  other_account :
      {granted : Bool} {page : LoginPage}
      → SignIn granted page
      → page.awaiting2fa ≡ true
      → SignIn granted (use_different_account page)
  passkey_admitted :
      {granted : Bool} {page : LoginPage} (started : Started (RequestOptions Text))
      (get : RequestOptions (List ℕ) → Prompted (Assertion (List ℕ)))
      (finish : Text → Assertion Text → ApiResult Value) (assertion : Assertion Text) (v : Value)
      → SignIn granted page
      → get_passkey_assertion get started.options ≡ done assertion
      → finish started.ceremony_id assertion ≡ value v
      → SignIn true (handle_passkey_login (value started) get finish page)
  passkey_refused :
      {granted : Bool} {page : LoginPage} (started : ApiResult (Started (RequestOptions Text)))
      (get : RequestOptions (List ℕ) → Prompted (Assertion (List ℕ)))
      (finish : Text → Assertion Text → ApiResult Value)
      → SignIn granted page
      → ((id : Text) (a : Assertion Text) → is_failed (finish id a) ≡ true)
      → SignIn granted (handle_passkey_login started get finish page)

finish_passkey-unlocking :
    (r : ApiResult Value) (page : LoginPage)
    → is_failed r ≡ true
    → (finish_passkey r page).unlocking ≡ page.unlocking
unfolding finish_passkey
finish_passkey-unlocking (failed message) page h = refl
finish_passkey-unlocking (value v) page h = cc

after_prompt-unlocking :
    (finish : Assertion Text → ApiResult Value) (o : Outcome (Assertion Text)) (page : LoginPage)
    → ((a : Assertion Text) → is_failed (finish a) ≡ true)
    → (after_prompt finish o page).unlocking ≡ page.unlocking
unfolding after_prompt
after_prompt-unlocking finish (fails not_allowed) page h = refl
after_prompt-unlocking finish (fails (other message)) page h = refl
after_prompt-unlocking finish (done a) page h = finish_passkey-unlocking (finish a) page (h a)

passkey-unlocking :
    (started : ApiResult (Started (RequestOptions Text)))
    (get : RequestOptions (List ℕ) → Prompted (Assertion (List ℕ)))
    (finish : Text → Assertion Text → ApiResult Value) (page : LoginPage)
    → ((id : Text) (a : Assertion Text) → is_failed (finish id a) ≡ true)
    → (handle_passkey_login started get finish page).unlocking ≡ page.unlocking
unfolding handle_passkey_login
passkey-unlocking (failed message) get finish page h = refl
passkey-unlocking (value started) get finish page h =
    after_prompt-unlocking (finish started.ceremony_id) (get_passkey_assertion get started.options)
      page (h started.ceremony_id)

-- The sign-in page leaves for the unlock page only after the server has taken the password of an account
-- without a second factor, the code, or the assertion of a passkey; a half sign-in, a wrong code, a prompt
-- that is dismissed or an assertion that is refused does not get there.
pub SignIn-granted :
    {granted : Bool} {page : LoginPage}
    → SignIn granted page
    → page.unlocking ≡ true
    → granted ≡ true
unfolding finish_login finish_challenge begin_submit use_different_account
SignIn-granted start h = cc
SignIn-granted (typed e p c r) h = SignIn-granted r h
SignIn-granted (refused m r a) h = SignIn-granted r h
SignIn-granted (half r a) h = SignIn-granted r h
SignIn-granted (admitted r a) h = refl
SignIn-granted (wrong_code m r a) h = SignIn-granted r h
SignIn-granted (right_code r a) h = refl
SignIn-granted (other_account r a) h = SignIn-granted r h
SignIn-granted (passkey_admitted st g f a v r d e) h = refl
SignIn-granted (passkey_refused {page = page} st g f r n) h =
    SignIn-granted r (sym (passkey-unlocking st g f page n) ∙ h)
