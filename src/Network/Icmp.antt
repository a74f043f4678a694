-- ===== src/Network/Icmp.antt =====
-- network/detectors/icmp_detector.py: `IcmpSweepDetector.process_packet`.
use intrusion_detection_syst.Prelude.{
  ℕ, String, ◌<>◌, Option, none, some, List, map, ltb, if◌then◌else◌, ◌==◌, nat_eq, string_eq,
}
use intrusion_detection_syst.Prelude.Lists.{length, take}
use intrusion_detection_syst.Prelude.Dict.{Dict, get, put, del}
use intrusion_detection_syst.Network.Counter.{
  DetectionEvent, Processed, ignored, handled, deque_or_empty, observe,
}

pub record IcmpSweepDetector : Type 0 where
  pub threshold : ℕ
  pub window_seconds : ℕ
  pub dst_deques : Dict String (List (ℕ × String))
  pub dst_counts : Dict String (Dict String ℕ)

-- The ICMP type if the packet has that layer, and source and destination if it has an IP layer.
pub record IcmpPacket : Type 0 where
  pub icmp_type : Option ℕ
  pub addresses : Option (String × String)
  pub time : ℕ

abbrev pub icmp_echo_request : ℕ
icmp_echo_request = 8

-- `sorted` is Python's, on texts.
module _ (str : ℕ → String) (sorted : List String → List String) where
  unfoldable pub sweep_alert : ℕ → String → ℕ → Dict String ℕ → DetectionEvent String
  sweep_alert window src now counts = record {
    level = "WARNING";
    detector_name = "icmp_sweep";
    message =
        "ICMP sweep detected from "
        <> src
        <> ": "
        <> str (length counts)
        <> " distinct hosts pinged in "
        <> str window
        <> "s window.";
    timestamp = now;
    source_ip = src;
    distinct_count = length counts;
    targets = take 20 (sorted (map (λ kv. kv.0) counts));
  }

  unfoldable pub echo_packet :
      String → String → ℕ → ℕ → IcmpSweepDetector → Processed String × IcmpSweepDetector
  unfolding sweep_alert observe
  echo_packet src dst time now d =
      let (deque, counts) =
        observe d.window_seconds time dst (deque_or_empty (get d.dst_deques src))
          (deque_or_empty (get d.dst_counts src)) in
      if ltb d.threshold (length counts)
      then (
        handled (some (sweep_alert d.window_seconds src now counts)),
        record d { dst_deques = del d.dst_deques src; dst_counts = del d.dst_counts src },
      )
      else (
        handled none,
        record d {
          dst_deques = put d.dst_deques src deque;
          dst_counts = put d.dst_counts src counts;
        },
      )

  abbrev pub icmp_layers :
      Option ℕ
      → Option (String × String)
      → ℕ
      → ℕ
      → IcmpSweepDetector
      → Processed String × IcmpSweepDetector
  icmp_layers (some kind) (some (src, dst)) time now d =
      if kind == icmp_echo_request then echo_packet src dst time now d else (ignored, d)
  icmp_layers _ _ time now d = (ignored, d)

  unfoldable pub process_icmp :
      IcmpPacket → ℕ → IcmpSweepDetector → Processed String × IcmpSweepDetector
  unfolding echo_packet
  process_icmp p now d = icmp_layers p.icmp_type p.addresses p.time now d
