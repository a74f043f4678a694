-- ===== src/Network/Arp.antt =====
-- network/detectors/arp_detector.py: `ArpDetector.process_packet`.
use intrusion_detection_syst.Prelude.{
  ℕ, ◌+◌, ◌-◌, String, ◌<>◌, Bool, false, Option, none, some, List, [], ◌∷◌, ◌++◌, map, ltb,
  if◌then◌else◌, ◌==◌, string_eq,
}
use intrusion_detection_syst.Prelude.Lists.{length, get_last?}
use intrusion_detection_syst.Prelude.Dict.{Dict, get, put}
use intrusion_detection_syst.Network.Counter.{
  DetectionEvent, Processed, ignored, handled, deque_or_empty,
}

pub record ArpDetector : Type 0 where
  pub max_changes : ℕ
  pub window_seconds : ℕ
  pub state : Dict String (List (ℕ × String))

-- The `while` loop: sightings before `now - window` leave at the left.
unfoldable pub expire_macs : ℕ → ℕ → List (ℕ × String) → List (ℕ × String)
expire_macs window now [] = []
expire_macs window now ((t, mac) ∷ rest) =
    let later = expire_macs window now rest in
    if ltb (t + window) now then later else (t, mac) ∷ rest

abbrev pub is_last_mac : String → Option (ℕ × String) → Bool
is_last_mac mac none = false
is_last_mac mac (some (t, last)) = last == mac

-- Appends a MAC that differs from the last.
unfoldable pub note_mac : ℕ → String → List (ℕ × String) → List (ℕ × String)
note_mac now mac history =
    if is_last_mac mac (get_last? history) then history else history ++ (now, mac) ∷ []

unfoldable pub arp_alert : (ℕ → String) → String → ℕ → List (ℕ × String) → DetectionEvent String
arp_alert str ip now history = record {
  level = "CRITICAL";
  detector_name = "arp_spoofing";
  message =
      "ARP Spoofing detected for IP "
      <> ip
      <> ". MAC changed "
      <> str (length history - 1)
      <> " times within window.";
  timestamp = now;
  source_ip = ip;
  distinct_count = length history - 1;
  targets = map (λ x. x.1) history;
}

-- The address and the MAC of an ARP layer, if the packet has one. The history is never empty when
-- its length less 1 is taken.
unfoldable pub process_arp :
    (ℕ → String) → Option (String × String) → ℕ → ℕ → ArpDetector → Processed String × ArpDetector
unfolding expire_macs note_mac arp_alert
process_arp str none monotonic now d = (ignored, d)
process_arp str (some (ip, mac)) monotonic now d =
    let history =
      note_mac monotonic mac
        (expire_macs d.window_seconds monotonic (deque_or_empty (get d.state ip))) in
    if ltb d.max_changes (length history - 1)
    then (handled (some (arp_alert str ip now history)), record d { state = put d.state ip [] })
    else (handled none, record d { state = put d.state ip history })
