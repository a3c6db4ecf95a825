-- ===== src/Contracts/Tests.antt =====
-- A directory, a suite enrollment and their checks.
use locus_v.Prelude.{[], ◌∷◌, ◌≡◌, ◌↔◌, refl}
use locus_v.Prelude.Sets.{contains, to_set}
use locus_v.Prelude.Counts.{sorted}
use locus_v.Prelude.Results.{ok}
use locus_v.Contracts.Values.{Text, identifier, positive_int, IsIdentifier}
use locus_v.Contracts.Accepts.{identifier_iff}
use locus_v.Contracts.Directory.{
  LifecycleBinding, check_lifecycle, PartyDirectorySnapshot, check_threshold, check_directory,
}
use locus_v.Contracts.Suites.{RecoverySuiteEnrollment, check_suite_enrollment}
use locus_v.Contracts.Members.{
  IsLifecycle, check_lifecycle_iff, IsDirectory, check_directory-IsDirectory,
}

abbrev name : Text
name = 115 ∷ []

identifier_iff_example : (identifier name ≡ ok name) ↔ IsIdentifier name
identifier_iff_example = identifier_iff name

-- Two authorizers, the second of which holds the secret.
abbrev directory : PartyDirectorySnapshot
directory = record {
  authorizers =
      (record { authorizer_id = 1; endpoint = name; identity_digest = name })
      ∷ (record { authorizer_id = 4; endpoint = name; identity_digest = name })
      ∷ [];
  recovery_holders = (record { holder_id = 3; authorizer_id = 4; suite_id = name }) ∷ [];
  authorization_quorum = 2;
  recovery_threshold = record { k = 1; n = 1 };
}

threshold_accepted : check_threshold directory.recovery_threshold ≡ ok tt
unfolding check_threshold positive_int
threshold_accepted = refl

directory_accepted : check_directory directory ≡ ok tt
unfolding check_directory positive_int contains to_set sorted
directory_accepted = refl

check_directory-IsDirectory_example : IsDirectory directory
check_directory-IsDirectory_example =
    check_directory-IsDirectory directory threshold_accepted directory_accepted

abbrev enrollment : RecoverySuiteEnrollment
enrollment = record {
  public_state = record { suite_id = name; format_id = name; payload = 0 ∷ [] };
  party_states =
      (record { suite_id = name; format_id = name; holder_id = 1; payload = 0 ∷ [] })
      ∷ (record { suite_id = name; format_id = name; holder_id = 2; payload = 0 ∷ [] })
      ∷ [];
  recovery_secret = 7 ∷ [];
}

enrollment_accepted : check_suite_enrollment enrollment ≡ ok tt
unfolding check_suite_enrollment contains to_set sorted
enrollment_accepted = refl

abbrev lifecycle : LifecycleBinding
lifecycle = record {
  backup_id = name;
  predecessor_epoch = 3;
  successor_epoch = 4;
  successor_configuration_digest = name;
}

check_lifecycle_iff_example : (check_lifecycle lifecycle ≡ ok tt) ↔ IsLifecycle lifecycle
check_lifecycle_iff_example = check_lifecycle_iff lifecycle
