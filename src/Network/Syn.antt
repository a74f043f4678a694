-- ===== src/Network/Syn.antt =====
-- network/detectors/syn_detector.py: `SynDetector.process_packet`.
use intrusion_detection_syst.Prelude.{
  ℕ, String, ◌<>◌, Option, none, some, List, map, ltb, if◌then◌else◌, ◌==◌, nat_eq, string_eq,
}
use intrusion_detection_syst.Prelude.Lists.{length, take}
use intrusion_detection_syst.Prelude.Dict.{Dict, get, put, del}
use intrusion_detection_syst.Prelude.Sorting.{sort}
use intrusion_detection_syst.Network.Counter.{
  DetectionEvent, Processed, ignored, raised, handled, deque_or_empty, observe,
}

pub record SynDetector : Type 0 where
  pub threshold : ℕ
  pub window_seconds : ℕ
  pub port_deques : Dict String (List (ℕ × ℕ))
  pub port_counts : Dict String (Dict ℕ ℕ)

-- What is read of a packet: the TCP flags if it has that layer, the source if it has an IP layer.
pub record TcpPacket : Type 0 where
  pub flags : Option String
  pub src : Option String
  pub dport : ℕ
  pub time : ℕ

module _ (str : ℕ → String) where
  unfoldable pub syn_alert : ℕ → String → ℕ → Dict ℕ ℕ → DetectionEvent ℕ
  syn_alert window src now counts = record {
    level = "CRITICAL";
    detector_name = "syn_scan";
    message =
        "SYN scan detected from "
        <> src
        <> ": "
        <> str (length counts)
        <> " unique ports in "
        <> str window
        <> "s window.";
    timestamp = now;
    source_ip = src;
    distinct_count = length counts;
    targets = take 20 (sort (λ p. p) (map (λ kv. kv.0) counts));
  }

  -- From the eviction on; `now` is the clock of the alert.
  unfoldable pub syn_packet : String → ℕ → ℕ → ℕ → SynDetector → Processed ℕ × SynDetector
  unfolding syn_alert observe
  syn_packet src port time now d =
      let (deque, counts) =
        observe d.window_seconds time port (deque_or_empty (get d.port_deques src))
          (deque_or_empty (get d.port_counts src)) in
      if ltb d.threshold (length counts)
      then (
        handled (some (syn_alert d.window_seconds src now counts)),
        record d { port_deques = del d.port_deques src; port_counts = del d.port_counts src },
      )
      else (
        handled none,
        record d {
          port_deques = put d.port_deques src deque;
          port_counts = put d.port_counts src counts;
        },
      )

  abbrev pub syn_from : Option String → ℕ → ℕ → ℕ → SynDetector → Processed ℕ × SynDetector
  syn_from none port time now d = (raised, d)
  syn_from (some src) port time now d = syn_packet src port time now d

  abbrev pub syn_flags : Option String → TcpPacket → ℕ → SynDetector → Processed ℕ × SynDetector
  syn_flags none p now d = (ignored, d)
  syn_flags (some flags) p now d =
      if flags == "S" then syn_from p.src p.dport p.time now d else (ignored, d)

  unfoldable pub process_tcp : TcpPacket → ℕ → SynDetector → Processed ℕ × SynDetector
  unfolding syn_packet
  process_tcp p now d = syn_flags p.flags p now d
