-- ===== src/Tests/World.antt =====
-- A small database, settings and stand-ins for the cryptography.
use intrusion_detection_syst.Prelude.{
  ℕ, String, ◌<>◌, true, false, [], ◌∷◌, ◌==◌, nat_eq, string_eq, if◌then◌else◌,
}
use intrusion_detection_syst.Auth.Events.{Outbox, Sinks}
use intrusion_detection_syst.Auth.Store.{User, RecoveryCode, Db}
use intrusion_detection_syst.Auth.Backoff.{Config}
use intrusion_detection_syst.Auth.Token.{Crypto, Times, World, plain, returned}
use intrusion_detection_syst.Auth.Users.{Enrollment}

abbrev pub alice : User
alice = record {
  id = 1;
  username = "alice";
  encrypted_secret = "sealed";
  is_active = true;
  role = "analyst";
  created_at = 0;
}

abbrev pub alice_code : RecoveryCode
alice_code = record { id = 1; user_id = 1; hashed_code = "c0de-salt"; salt = "-salt" }

abbrev pub db : Db
db = record {
  users = alice ∷ [];
  recovery_codes = alice_code ∷ [];
  auth_attempts = [];
  totp_consumptions = [];
  last_user_id = 1;
  last_code_id = 1;
}

abbrev pub out : Outbox
out = record { logged = []; alerted = [] }

abbrev pub world : World
world = record { db = db; out = out }

abbrev pub cfg : Config
cfg = record { base_delay = 2; max_delay = 60; window = 900; alert_threshold = 3; mode = "reject" }

abbrev pub sinks : Sinks
sinks = record { host = "gate"; log_raises = λ _. false }

abbrev pub code_at : ℕ → String
code_at counter = if counter == 2 then "222222" else "000000"

abbrev pub crypto : Crypto
crypto = record {
  decrypt = λ s. plain s;
  interval = 30;
  totp_at = λ secret counter. returned (code_at counter);
  compare_digest = λ a b. returned (a == b);
  sha256 = λ s. s;
  scrypt = λ code salt. code <> salt;
  str_of_int = λ n. "1";
}

-- The call arrives and resumes within the interval 2.
abbrev pub times : Times
times = record { arrive = 61_000_000; resume = 62_000_000 }

abbrev pub enrollment : Enrollment
enrollment = record {
  raw_secret = "BASE32";
  draw = λ n. ("c0de", "-salt");
  encrypt = λ s. s;
  scrypt = λ code salt. code <> salt;
  provisioning_uri = λ secret username. username;
}
