-- ===== src/PartyStore/Methods.antt =====
-- create_entry_vote, create_install_vote and install_certificate of prototype/locus/party_store.py, from
-- their transactions: what the first has stored stays when the second raises.
use locus_v.Prelude.{Option, none, some}
use locus_v.Prelude.Results.{ok, raise}
use locus_v.Certificates.Hash.{Crypto}
use locus_v.Certificates.Config.{AuthorizerConfig}
use locus_v.Certificates.Entry.{AttemptEntry}
use locus_v.Certificates.Votes.{Vote, AuthorizerSigner}
use locus_v.Certificates.Prepare.{PrepareCertificate}
use locus_v.Certificates.Authorization.{AuthorizationCertificate}
use locus_v.PartyStore.Tables.{Stored, Store}
use locus_v.PartyStore.Ledger.{AttemptAuthorization}
use locus_v.PartyStore.Slots.{lock_entry, store_entry_vote, lock_prepare, store_install_vote}
use locus_v.PartyStore.Authorizations.{authorization_fields, install_attempt, record_authorization}

-- A method's result and the store that it leaves.
abbrev pub Outcome : Type 0 → Type 0
Outcome A = Stored A × Store

abbrev pub commit : {A : Type 0} → Store → Stored (A × Store) → Outcome A
commit s (ok (a, t)) = (ok a, t)
commit s (raise e) = (raise e, s)

-- Signs and stores unless the first transaction found a stored vote.
abbrev pub sign_after :
    Store → (Store → Stored (Vote × Store)) → Stored (Option Vote × Store) → Outcome Vote
sign_after s store (ok (some v, t)) = (ok v, t)
sign_after s store (ok (none, t)) = commit t (store t)
sign_after s store (raise e) = (raise e, s)

unfoldable pub vote_entry :
    Crypto → AttemptEntry → AuthorizerConfig → AuthorizerSigner → Store → Outcome Vote
unfolding lock_entry store_entry_vote
vote_entry crypto e config signer s =
    sign_after s (store_entry_vote crypto e signer) (lock_entry crypto e config signer s)

unfoldable pub vote_install :
    Crypto → PrepareCertificate → AuthorizerConfig → AuthorizerSigner → Store → Outcome Vote
unfolding lock_prepare store_install_vote
vote_install crypto p config signer s =
    sign_after s (store_install_vote crypto p signer) (lock_prepare crypto p config signer s)

abbrev pub record_after :
    Crypto → AuthorizationCertificate → Store → Stored Store → Outcome AttemptAuthorization
record_after crypto a s (raise e) = (raise e, s)
record_after crypto a s (ok t) = elim (record_authorization crypto a t) [
  | ok u ↦ (ok (authorization_fields crypto a), u)
  | raise e ↦ (raise e, t)
]

unfoldable pub install_certificate :
    Crypto → AuthorizationCertificate → AuthorizerConfig → Store → Outcome AttemptAuthorization
unfolding install_attempt record_authorization
install_certificate crypto a config s = record_after crypto a s (install_attempt crypto a config s)
