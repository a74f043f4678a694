-- ===== src/Alerts/Delivery.antt =====
-- alerts/email_alert.py: what a call hands to the server, and what the throttle then suppresses.
use intrusion_detection_syst.Prelude.{
  ℕ, String, Bool, true, false, ◌&&◌, Option, List, [], ◌∷◌, ◌++◌, string_eq, nat_eq, ◌≡◌, refl,
  inl, inr, Bool-cases,
}
use intrusion_detection_syst.Alerts.{
  Environment, AttachmentFile, Mail, Mailer, Transmission, is_throttled, is_set, mail_for, transmit,
  deliver, subject_or, send_security_alert,
}

-- What a call that returned leaves: one more message handed over, or none.
abbrev pub IsDelivery : Mailer → Mail → Bool × Mailer → Type 0
IsDelivery before mail (true, after) = after.sent ≡ before.sent ++ mail ∷ []
IsDelivery before mail (false, after) = after.sent ≡ before.sent

transmit-IsDelivery :
    (session : Transmission) (mail : Mail) (m : Mailer)
    → IsDelivery m mail (transmit session mail m)
unfolding transmit
transmit-IsDelivery Transmission.delivered mail m = refl
transmit-IsDelivery Transmission.authentication_error mail m = refl
transmit-IsDelivery Transmission.connection_error mail m = refl
transmit-IsDelivery Transmission.protocol_error mail m = refl
transmit-IsDelivery Transmission.unexpected mail m = refl

deliver-IsDelivery :
    (disk : String → AttachmentFile) (smtp : Mail → Transmission) (env : Environment)
    (subject message : String) (paths : List String) (m : Mailer)
    → IsDelivery m
        (mail_for disk env subject message paths)
        (deliver disk smtp env subject message paths m)
unfolding deliver
deliver-IsDelivery disk smtp env subject message paths m =
    elim (Bool-cases (is_set env.sender && is_set env.password && is_set env.receiver)) [
      | inl t ↦ simp t (transmit-IsDelivery _ _ m)
      | inr t ↦ simp t refl
    ]

module _ (upper sha256 : String → String) (disk : String → AttachmentFile) (env : Environment)
    (level source message : String) (subject : Option String) (paths : List String) where
  -- `send_security_alert` answers True just when it handed one message, that of its arguments, to
  -- the server; when it answers False it handed over none.
  pub send_security_alert-IsDelivery :
      (smtp : Mail → Transmission) (now : ℕ) (m : Mailer)
      → IsDelivery m
          (mail_for disk env (subject_or upper level source subject) message paths)
          (send_security_alert upper sha256 disk smtp env now level source message subject paths m)
  unfolding send_security_alert
  send_security_alert-IsDelivery smtp now m =
      elim (Bool-cases (is_throttled sha256 env now level source message m.throttle).0) [
        | inl t ↦ simp t refl
        | inr t ↦ simp t (
            deliver-IsDelivery disk smtp env (subject_or upper level source subject) message paths
              (record m {
                throttle = (is_throttled sha256 env now level source message m.throttle).1;
              }))
      ]

  abbrev pub alert : (Mail → Transmission) → ℕ → Mailer → Bool × Mailer
  alert smtp now m =
      send_security_alert upper sha256 disk smtp env now level source message subject paths m
