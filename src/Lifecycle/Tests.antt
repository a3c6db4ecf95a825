-- ===== src/Lifecycle/Tests.antt =====
-- The theorems on prototype/locus/epoch_lifecycle.py at concrete values.
use locus_v.Prelude.{◌≡◌}
use locus_v.Prelude.Results.{ok}
use locus_v.Certificates.Samples.{toy, config}
use locus_v.Lifecycle.Activation.{activation_to_dict, activation_from_dict}
use locus_v.Lifecycle.Reading.{activation_from_dict-activation_to_dict}
use locus_v.Lifecycle.Samples.{successor_config, activation, activation_verified}

activation_from_dict-activation_to_dict_example :
    activation_from_dict (activation_to_dict activation) ≡ ok activation
activation_from_dict-activation_to_dict_example =
    activation_from_dict-activation_to_dict toy activation config successor_config
      activation_verified
