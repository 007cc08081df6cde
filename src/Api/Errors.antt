-- ===== src/Api/Errors.antt =====
-- Which of the server's errors the pages recognise in the message that `request` gives them.
use personal_password_manage.Prelude.{
  ℕ, ◌≡◌, refl, true, false, some, [], ◌∷◌, ◌++◌, arith, Text, codes, Unicode, to_lower_case,
  lower_from, no_sigma, is_empty, includes-fold,
}
use personal_password_manage.Json.{Value, string, object, field, end}
use personal_password_manage.Api.{
  answered, failed, request, error_message, body_message, session_expired, is_conflict, is_ok,
}

-- The body of an error response of the server.
abbrev pub error_body : Text → Value
error_body message = object (field (codes "error") (string message) end)

infix_not_empty : (a p b : Text) → is_empty p ≡ false → is_empty (a ++ p ++ b) ≡ false
infix_not_empty [] [] b h = cc
infix_not_empty [] (c ∷ p) b h = refl
infix_not_empty (c ∷ a) p b h = refl

pub request-text :
    (status : ℕ) (message : Text)
    → is_ok status ≡ false
    → is_empty message ≡ false
    → request (answered (record { status = status; body = some (error_body message) }))
      ≡ failed message
unfolding request error_message body_message
request-text status message bad shown = rw (bad, shown)

-- An error response whose text says "Conflict" fails with that text, which the synchronisation takes
-- for a conflict; one whose text says "Authentication failed" fails with a text that the pages take
-- for an expired session. What stands before or after does not matter.
pub request-recognised :
    (u : Unicode) (status : ℕ) (before after : Text)
    → is_ok status ≡ false
    → let conflict = before ++ codes "Conflict" ++ after in
      let expired = before ++ codes "Authentication failed" ++ after in
      (request (answered (record { status = status; body = some (error_body conflict) }))
        ≡ failed conflict)
      × (is_conflict u conflict ≡ true)
      × (request (answered (record { status = status; body = some (error_body expired) }))
          ≡ failed expired)
      × (session_expired u expired ≡ true)
unfolding is_conflict session_expired to_lower_case lower_from no_sigma
request-recognised u status before after bad = (
  request-text status _ bad (infix_not_empty before (codes "Conflict") after refl),
  includes-fold u before (codes "Conflict") after (codes "conflict") refl refl,
  request-text status _ bad (infix_not_empty before (codes "Authentication failed") after refl),
  ground (
    arith,
    includes-fold u before (codes "Authentication failed") after (codes "authentication failed")
        refl refl,
  ),
)
