-- ===== src/Database/Severity/Known.antt =====
-- The severities of database/severity.go, and the test whether a severity is valid.
use clair.Database.Severity.{
  valid, unknown_severity, negligible_severity, low_severity, medium_severity, high_severity,
  critical_severity,
}
use clair.Prelude.{Bytes-discrete, ℕ_discrete, true, ◌≡◌, refl}

pub unknown-valid : valid unknown_severity ≡ true
unfolding valid Bytes-discrete ℕ_discrete
unknown-valid = refl

pub negligible-valid : valid negligible_severity ≡ true
unfolding valid Bytes-discrete ℕ_discrete
negligible-valid = refl

pub low-valid : valid low_severity ≡ true
unfolding valid Bytes-discrete ℕ_discrete
low-valid = refl

pub medium-valid : valid medium_severity ≡ true
unfolding valid Bytes-discrete ℕ_discrete
medium-valid = refl

pub high-valid : valid high_severity ≡ true
unfolding valid Bytes-discrete ℕ_discrete
high-valid = refl

pub critical-valid : valid critical_severity ≡ true
unfolding valid Bytes-discrete ℕ_discrete
critical-valid = refl
