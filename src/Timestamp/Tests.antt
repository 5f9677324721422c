-- ===== src/Timestamp/Tests.antt =====
-- The theorems on ietf-cms/timestamp/timestamp.go at concrete inputs.
use git_kmssign.Base.{◌≡◌, ◌↔◌, refl, true, false, [], ◌∷◌, some, arith}
use git_kmssign.Base.Int.{pos, ◌≤ℤ◌, ◌+ℤ◌}
use git_kmssign.Oids.{digest_algorithm_sha256}
use git_kmssign.Protocol.{algorithm_of, no_value}
use git_kmssign.Timestamp.{MessageImprint, Info}
use git_kmssign.Timestamp.Interval.{before, after}
use git_kmssign.Timestamp.Interval.Correct.{nanoseconds, before-after}

abbrev imprint : MessageImprint
imprint = record { hash_algorithm = algorithm_of digest_algorithm_sha256; hashed_message = 2 ∷ [] }

-- Ten seconds, give or take one.
abbrev stamped : Info
stamped = record {
  version = pos 1;
  policy = [];
  message_imprint = imprint;
  serial_number = pos 7;
  gen_time = pos 10000000000;
  accuracy = record { seconds = pos 1; millis = pos 0; micros = pos 0 };
  ordering = false;
  nonce = some (pos 258);
  tsa = no_value;
  extensions = [];
}

before-after_example :
    ((before stamped (pos 11000000000) ≡ true)
      ↔ (pos 10000000000 +ℤ pos (nanoseconds 1 0 0) ≤ℤ pos 11000000000))
    × ((after stamped (pos 11000000000) ≡ true)
        ↔ (pos 11000000000 +ℤ pos (nanoseconds 1 0 0) ≤ℤ pos 10000000000))
before-after_example = before-after stamped 1 0 0 (pos 11000000000) refl (omega arith)
