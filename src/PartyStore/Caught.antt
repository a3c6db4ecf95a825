-- ===== src/PartyStore/Caught.antt =====
-- The exceptions of epoch_lifecycle.py in prototype/locus/party_store.py: what returned was returned.
use locus_v.Prelude.{◌≡◌}
use locus_v.Prelude.Results.{ok, raise}
use locus_v.Lifecycle.Values.{
  Cycled, malformed, not_consecutive, count_exceeds_budget, unsupported_object, mismatch,
  reconfiguration, unknown_signer, bad_signature, incomplete_package, invalid_quorum, overflow,
  config_error,
}
use locus_v.PartyStore.Runtime.{pass, catch}

pub pass-ok : {A : Type 0} (x : Cycled A) (a : A) → pass x ≡ ok a → x ≡ ok a
pass-ok (ok b) a h = cc
pass-ok (raise (config_error e)) a h = absurd (cc)
pass-ok (raise malformed) a h = absurd (cc)
pass-ok (raise not_consecutive) a h = absurd (cc)
pass-ok (raise count_exceeds_budget) a h = absurd (cc)
pass-ok (raise unsupported_object) a h = absurd (cc)
pass-ok (raise mismatch) a h = absurd (cc)
pass-ok (raise reconfiguration) a h = absurd (cc)
pass-ok (raise unknown_signer) a h = absurd (cc)
pass-ok (raise bad_signature) a h = absurd (cc)
pass-ok (raise incomplete_package) a h = absurd (cc)
pass-ok (raise invalid_quorum) a h = absurd (cc)
pass-ok (raise overflow) a h = absurd (cc)

pub catch-ok : {A : Type 0} (x : Cycled A) (a : A) → catch x ≡ ok a → x ≡ ok a
catch-ok (ok b) a h = cc
catch-ok (raise (config_error e)) a h = absurd (cc)
catch-ok (raise malformed) a h = absurd (cc)
catch-ok (raise not_consecutive) a h = absurd (cc)
catch-ok (raise count_exceeds_budget) a h = absurd (cc)
catch-ok (raise unsupported_object) a h = absurd (cc)
catch-ok (raise mismatch) a h = absurd (cc)
catch-ok (raise reconfiguration) a h = absurd (cc)
catch-ok (raise unknown_signer) a h = absurd (cc)
catch-ok (raise bad_signature) a h = absurd (cc)
catch-ok (raise incomplete_package) a h = absurd (cc)
catch-ok (raise invalid_quorum) a h = absurd (cc)
catch-ok (raise overflow) a h = absurd (cc)
