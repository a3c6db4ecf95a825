-- ===== src/AttemptModel/Sound.antt =====
-- What holds in every reachable state of every scenario: chains, locks and certificates stay within
-- the budget and never repeat a request, and only certified requests are evaluated.
mod Parties
pub use Parties.{IsSane, IsSoundCertificate, IsSound, IsCertified, Sound, IsSane-nil}
use Parties.{Move-IsSound, restored-IsSound}
use locus_v.Prelude.{
  ℕ, zero, suc, ◌+◌, ◌≤◌, ◌<◌, ◌≡◌, refl, subst, ◌⊎◌, inl, inr, Bool, true, false, not, ◌&&◌, ◌||◌,
  Option, none, some, List, [], ◌∷◌, ◌++◌, arith, Bool-cases, ltb, leb, if◌then◌else◌,
}
use locus_v.Prelude.Eq.{◌==◌, list_eq, list_beq_iff, beq_self}
use locus_v.Prelude.Lists.{
  length, get_elem?, take, drop_last, last?, All, In, here, there, All-append, length-append,
  length-take-le, last?-append,
}
use locus_v.Prelude.Counts.{All-get_elem?, All-In, All-mono, All-set, All-sorted, sorted}
use locus_v.Prelude.Sets.{
  contains, distinct, contains-append, contains-sorted, In-contains, distinct-append, distinct-take,
  distinct-sorted, last?-contains,
}
use locus_v.AttemptModel.State.{
  Request, request_eq, Chain, PartyState, ModelState, ModelScenario, budget,
}
use locus_v.AttemptModel.Party.{party_le, chain_le, request_le, is_anchored}
use locus_v.AttemptModel.Successors.{adopts}
use locus_v.AttemptModel.Step.{Move, Step, restored, with_party}
use locus_v.AttemptModel.Valid.{Fits, unlocked, locked}
use locus_v.AttemptModel.Refines.{readied, adopts-Fits}

-- A write of a sound party keeps a state sound.
with_party-Sound :
    {s : ModelState}
    → Sound s
    → (i : ℕ) (q : PartyState) → IsSound q
    → (n : ℕ) → Sound (record (with_party s i q) { rollback_count = n })
with_party-Sound {s} v i q h n = record {
  parties = All-sorted IsSound party_le _ (All-set IsSound s.parties i q h v.parties);
  certificates = v.certificates;
  evaluated = v.evaluated;
  once = v.once;
  anchor = v.anchor;
  anchor_certified = v.anchor_certified;
  retired = v.retired;
}

pub contains_kept :
    (cs : List Chain) (c d : Chain)
    → contains cs d ≡ true
    → contains (sorted chain_le (cs ++ c ∷ [])) d ≡ true
contains_kept cs c d h =
    ground (arith, contains-sorted chain_le (cs ++ c ∷ []) d, contains-append cs (c ∷ []) d)

pub contains_new :
    (cs : List Chain) (c : Chain) → contains (sorted chain_le (cs ++ c ∷ [])) c ≡ true
unfolding contains
contains_new cs c =
    ground
      (arith, contains-sorted chain_le (cs ++ c ∷ []) c, contains-append cs (c ∷ []) c, beq_self c)

-- The lock of a sound party is a certificate that extends the chain of the party.
pub lock-IsSoundCertificate :
    (p : PartyState) (c : Chain) → IsSound p → p.lock ≡ some c → IsSoundCertificate c
lock-IsSoundCertificate p c h e = go h.fits
  where
    go : Fits p → IsSoundCertificate c
    go (unlocked l k) = absurd (cc)
    go (locked r l k) = record {
      sane = h.lock c e;
      front = p.chain;
      request = r;
      extends = ground (arith, e, l);
    }

IsCertified-kept :
    (cs : List Chain) (c : Chain) (r : Request)
    → IsCertified cs r
    → IsCertified (sorted chain_le (cs ++ c ∷ [])) r
IsCertified-kept cs c r (d, m, k) = (d, contains_kept cs c d m, k)

if_IsSane : (c d : Chain) (b : Bool) → IsSane c → IsSane d → IsSane (if b then c else d)
if_IsSane c d true h k = h
if_IsSane c d false h k = k

anchor_kept :
    (cs : List Chain) (c anchor : Chain) (b : Bool)
    → (anchor ≡ []) ⊎ (contains cs anchor ≡ true)
    → ((if b then c else anchor) ≡ [])
      ⊎ (contains (sorted chain_le (cs ++ c ∷ [])) (if b then c else anchor) ≡ true)
anchor_kept cs c anchor true h = inr (contains_new cs c)
anchor_kept cs c anchor false (inl e) = inl e
anchor_kept cs c anchor false (inr e) = inr (contains_kept cs c anchor e)

-- Every step keeps a state sound.
pub Step-Sound : {sc : ModelScenario} {s t : ModelState} → Sound s → Step sc s t → Sound t
Step-Sound {s = s} v (Step.moves i p q e m r) = rw r (
    with_party-Sound v i q (Move-IsSound v (All-get_elem? IsSound s.parties i v.parties e) m)
      s.rollback_count)
Step-Sound {s = s} v (Step.rolls_back i p n e b changed r) = rw r (
    with_party-Sound v i (restored p n)
      (restored-IsSound p n (All-get_elem? IsSound s.parties i v.parties e)) (s.rollback_count + 1))
Step-Sound {sc} {s} v (Step.certifies c p m l new n a r) = rw r (record {
  parties = v.parties;
  once = v.once;
  retired = v.retired;
  certificates =
      All-sorted IsSoundCertificate chain_le _
        (All-append IsSoundCertificate s.certificates _ v.certificates (sound, tt));
  evaluated = All-mono _ _ s.evaluated (IsCertified-kept s.certificates c) v.evaluated;
  anchor = if_IsSane c s.anchor_chain (is_anchored sc) sound.sane v.anchor;
  anchor_certified =
      anchor_kept s.certificates c s.anchor_chain (is_anchored sc) v.anchor_certified;
})
  where
    sound : IsSoundCertificate c
    sound = lock-IsSoundCertificate p c (All-In IsSound s.parties v.parties m) l
Step-Sound {s = s} v (Step.evaluates c x m l new n r) = rw r (record {
  parties = v.parties;
  certificates = v.certificates;
  anchor = v.anchor;
  anchor_certified = v.anchor_certified;
  retired = v.retired;
  evaluated = All-sorted (IsCertified s.certificates) request_le _ (
      All-append (IsCertified s.certificates) s.evaluated _ v.evaluated
        ((c, In-contains s.certificates c m, last?-contains c x l), tt));
  once = distinct-sorted request_le _ (distinct-append s.evaluated x v.once new);
})
