-- ===== src/Network/Sensor/Evidence.antt =====
-- network/sensor.py: an alert goes out only behind its evidence, and a detector that raises costs
-- nothing else.
use mathlib.Core.List.{append_assoc}
use intrusion_detection_syst.Prelude.{
  ℕ, String, Bool, List, [], ◌∷◌, ◌++◌, ◌≡◌, refl, ap, ◌∙◌, inl, inr, Bool-cases,
}
use intrusion_detection_syst.Prelude.Lists.{All, All-append}
use intrusion_detection_syst.Network.Sensor.{
  Detection, Answer, raised, quiet, found, Logged, SensorState, ask, report_detection, handle_found,
  handle, dispatch_packet, log_detection,
}

-- An entry of a log.
abbrev pub IsLogged : Logged → List Logged → Type 0
IsLogged entry logged =
    (before : List Logged) × ((after : List Logged) × (logged ≡ before ++ entry ∷ after))

IsLogged-append :
    (entry next : Logged) (logged : List Logged)
    → IsLogged entry logged
    → IsLogged entry (logged ++ next ∷ [])
IsLogged-append entry next logged (before, (after, e)) = (
  before,
  (
    after ++ next ∷ [],
    ap (λ l. l ++ next ∷ []) e ∙ append_assoc before (entry ∷ after) (next ∷ []),
  ),
)

-- Each alerted event is logged.
abbrev pub IsEvidenced : String → SensorState → Type 0
IsEvidenced host s = All (λ e. IsLogged (log_detection host e) s.logged) s.alerted

module _ (sha256 : String → String) (host : String) (log_fails alert_fails : Detection → Bool) where
  grown :
      (next : Logged) (logged : List Logged) (alerted : List Detection)
      → All (λ e. IsLogged (log_detection host e) logged) alerted
      → All (λ e. IsLogged (log_detection host e) (logged ++ next ∷ [])) alerted
  grown next logged [] a = tt
  grown next logged (e ∷ es) a =
      (IsLogged-append (log_detection host e) next logged a.0, grown next logged es a.1)

  report_detection-IsEvidenced :
      (e : Detection) (s : SensorState)
      → IsEvidenced host s
      → IsEvidenced host (report_detection sha256 host log_fails alert_fails e s)
  unfolding report_detection
  report_detection-IsEvidenced e s a = elim (Bool-cases (log_fails e)) [
    | inl t ↦ simp t a
    | inr t ↦
        let logged = grown (log_detection host e) s.logged s.alerted a in
        elim (Bool-cases (alert_fails e)) [
          | inl u ↦ simp (t, u) logged
          | inr u ↦
              simp (t, u)
                (All-append
                  (λ x. IsLogged (log_detection host x) (s.logged ++ log_detection host e ∷ []))
                  s.alerted (e ∷ []) logged ((s.logged, ([], refl)), tt))
        ]
  ]

  handle-IsEvidenced :
      (now : ℕ) (o : Answer) (s : SensorState)
      → IsEvidenced host s
      → IsEvidenced host (handle sha256 host log_fails alert_fails now o s)
  unfolding handle_found
  handle-IsEvidenced now raised s a = a
  handle-IsEvidenced now quiet s a = a
  handle-IsEvidenced now (found e) s a = elim (Bool-cases (ask sha256 now e s.deduplicator).0) [
    | inl t ↦ simp t a
    | inr t ↦ simp t (
        report_detection-IsEvidenced e
          (record s { deduplicator = (ask sha256 now e s.deduplicator).1 }) a)
  ]

  -- Whatever the detectors answer and whichever sink raises, an event whose alert is sent has its
  -- entry in the log.
  pub dispatch_packet-IsEvidenced :
      (now : ℕ) (answers : List Answer) (s : SensorState)
      → IsEvidenced host s
      → IsEvidenced host (dispatch_packet sha256 host log_fails alert_fails now answers s)
  unfolding dispatch_packet
  dispatch_packet-IsEvidenced now [] s a = a
  dispatch_packet-IsEvidenced now (o ∷ answers) s a =
      dispatch_packet-IsEvidenced now answers (handle sha256 host log_fails alert_fails now o s)
        (handle-IsEvidenced now o s a)
