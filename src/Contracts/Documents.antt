-- ===== src/Contracts/Documents.antt =====
-- The cue-policy, descriptor and capability types of prototype_final/locus/contracts.py and their
-- checks.
use locus_v.Prelude.{ℕ, ◌*◌}
use locus_v.Prelude.Eq.{nat_eq, list_eq}
use locus_v.Prelude.Results.{ok, ◌>>=◌}
use locus_v.Contracts.Values.{Text, Bytes, Checked, identifier, positive_int, opaque_bytes}
use locus_v.Contracts.Directory.{LifecycleBinding}
use locus_v.Contracts.Suites.{max_opaque_public_bytes}

abbrev pub max_opaque_capability_bytes : ℕ
max_opaque_capability_bytes = 64 * 1024

pub record CuePolicyMetadata : Type 0 where
  pub policy_id : Text
  pub input_category : Text
  pub input_schema : Text
  pub cardinality : ℕ
  pub resolver_profile_id : Text
  pub member_order_domain : Text
  pub ambiguity_rule : Text
  pub duplicate_rule : Text

unfoldable pub check_cue_policy_metadata : CuePolicyMetadata → Checked (Unit {0})
check_cue_policy_metadata x = do
  _ ← identifier x.policy_id
  _ ← identifier x.input_category
  _ ← identifier x.input_schema
  _ ← positive_int 1024 x.cardinality
  _ ← identifier x.resolver_profile_id
  _ ← identifier x.member_order_domain
  _ ← identifier x.ambiguity_rule
  _ ← identifier x.duplicate_rule
  ok tt

pub record CuePolicyResult : Type 0 where
  pub policy_id : Text
  pub canonical_bytes : Bytes

unfoldable pub check_cue_policy_result : CuePolicyResult → Checked (Unit {0})
check_cue_policy_result x = do
  _ ← identifier x.policy_id
  _ ← opaque_bytes max_opaque_public_bytes x.canonical_bytes
  ok tt

pub record ResolverResult : Type 0 where
  pub resolver_profile : Text
  pub policy_id : Text
  pub canonical_bytes : Bytes

unfoldable pub check_resolver_result : ResolverResult → Checked (Unit {0})
check_resolver_result x = do
  _ ← identifier x.resolver_profile
  _ ← identifier x.policy_id
  _ ← opaque_bytes max_opaque_public_bytes x.canonical_bytes
  ok tt

pub record DescriptorReference : Type 0 where
  pub locator : Text
  pub digest : Text

unfoldable pub check_descriptor_reference : DescriptorReference → Checked (Unit {0})
check_descriptor_reference x = do _ ← identifier x.locator; _ ← identifier x.digest; ok tt

pub record DescriptorDocument : Type 0 where
  pub format_id : Text
  pub payload : Bytes

unfoldable pub check_descriptor_document : DescriptorDocument → Checked (Unit {0})
check_descriptor_document x = do
  _ ← identifier x.format_id
  _ ← opaque_bytes max_opaque_public_bytes x.payload
  ok tt

pub record CurrentDescriptorPointer : Type 0 where
  pub format_id : Text
  pub payload : Bytes

unfoldable pub check_current_descriptor_pointer : CurrentDescriptorPointer → Checked (Unit {0})
check_current_descriptor_pointer x = do
  _ ← identifier x.format_id
  _ ← opaque_bytes max_opaque_public_bytes x.payload
  ok tt

pub record AdmissionCapability : Type 0 where
  pub format_id : Text
  pub payload : Bytes

unfoldable pub check_admission_capability : AdmissionCapability → Checked (Unit {0})
check_admission_capability x = do
  _ ← identifier x.format_id
  _ ← opaque_bytes max_opaque_capability_bytes x.payload
  ok tt

pub record LifecycleTransition : Type 0 where
  pub format_id : Text
  pub binding : LifecycleBinding
  pub payload : Bytes

unfoldable pub check_lifecycle_transition : LifecycleTransition → Checked (Unit {0})
check_lifecycle_transition x = do
  _ ← identifier x.format_id
  _ ← opaque_bytes max_opaque_public_bytes x.payload
  ok tt
