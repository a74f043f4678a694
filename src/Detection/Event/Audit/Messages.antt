-- ===== src/Detection/Event/Audit/Messages.antt =====
-- detection/normalize.py: the names given to the messages of auth/core.py.
use text.Mathlib.TextLemmas.{append_assoc}
use intrusion_detection_syst.Prelude.{String, ◌<>◌, Option, true, ◌≡◌, refl, ap, sym, ◌∙◌}
use intrusion_detection_syst.Prelude.Text.{occurs, occurs-append}
use intrusion_detection_syst.Auth.Events.{auth_success, auth_failure}
use intrusion_detection_syst.Auth.Token.{message_for}
use intrusion_detection_syst.Detection.Scoring.{Context}
use intrusion_detection_syst.Detection.Event.Audit.{Library, auth_name, classify_audit_row}

success_phrase :
    (message : String) (reason : Option String)
    → occurs "authenticated successfully" message ≡ true
    → auth_name message reason ≡ "AUTH_SUCCESS"
unfolding auth_name
success_phrase message reason h = simp h refl

-- Whatever the user's name and the context, the row that a success of `verify_token` logs is read
-- back as a successful authentication.
pub classify_audit_row_success :
    (lib : Library) (username : String) (context : Context)
    → (classify_audit_row lib "auth_core" (message_for auth_success username) context).1.0
      ≡ "AUTH_SUCCESS"
unfolding classify_audit_row message_for
classify_audit_row_success lib username context = success_phrase _ _ (
    ap (occurs "authenticated successfully") (
      sym (
        append_assoc "User '" (username <> "' ") ("authenticated successfully" <> ".")
        ∙ ap (λ s. "User '" <> s)
            (append_assoc username "' " ("authenticated successfully" <> "."))))
    ∙ occurs-append ("User '" <> (username <> "' ")) "authenticated successfully" ".")

-- A failed authentication under a name that holds the words "authenticated successfully" is read
-- back as a successful one.
pub classify_audit_row_forged :
    (lib : Library) (a b : String) (context : Context)
    → (classify_audit_row lib "auth_core"
        (message_for auth_failure (a <> ("authenticated successfully" <> b)))
        context).1.0
      ≡ "AUTH_SUCCESS"
unfolding classify_audit_row message_for
classify_audit_row_forged lib a b context =
    let n : String = "authenticated successfully" in
    let p : String = "Authentication failed for user '" in
    success_phrase _ _ (
      ap (λ s. occurs n (p <> s)) (append_assoc a (n <> b) "'.")
      ∙ ap (λ s. occurs n (p <> (a <> s))) (append_assoc n b "'.")
      ∙ ap (occurs n) (sym (append_assoc p a (n <> (b <> "'."))))
      ∙ occurs-append (p <> a) n (b <> "'."))
