-- ===== src/AttemptModel/Sound/Parties.antt =====
-- Sound parties: chains and locks within the budget and without repeats, kept by every move.
use locus_v.Prelude.{
  ℕ, ◌≤◌, ◌<◌, ◌≡◌, refl, subst, ◌⊎◌, inl, inr, Bool, true, false, not, some, List, [], ◌∷◌, ◌++◌,
  arith,
}
use locus_v.Prelude.Eq.{list_eq}
use locus_v.Prelude.Lists.{length, take, All, length-append, length-take-le}
use locus_v.Prelude.Counts.{All-In}
use locus_v.Prelude.Sets.{contains, distinct, distinct-append, distinct-take}
use locus_v.AttemptModel.State.{
  Request, request_eq, Chain, PartyState, ModelState, ModelScenario, budget,
}
use locus_v.AttemptModel.Successors.{adopts}
use locus_v.AttemptModel.Step.{Move, restored}
use locus_v.AttemptModel.Valid.{Fits, unlocked, locked}
use locus_v.AttemptModel.Refines.{readied, adopts-Fits}

pub record IsSane (c : Chain) : Type 0 where
  pub within : length c ≤ budget
  pub once : distinct c ≡ true

-- A party of a sound state.
pub record IsSound (p : PartyState) : Type 0 where
  pub fits : Fits p
  pub chain : IsSane p.chain
  pub lock : (c : Chain) → p.lock ≡ some c → IsSane c

-- A certificate of a sound state.
pub record IsSoundCertificate (c : Chain) : Type 0 where
  pub sane : IsSane c
  pub front : Chain
  pub request : Request
  pub extends : c ≡ front ++ request ∷ []

abbrev pub IsCertified : List Chain → Request → Type 0
IsCertified certificates r = (c : Chain) × (contains certificates c ≡ true) × (contains c r ≡ true)

pub record Sound (s : ModelState) : Type 0 where
  pub parties : All IsSound s.parties
  pub certificates : All IsSoundCertificate s.certificates
  pub evaluated : All (IsCertified s.certificates) s.evaluated
  pub once : distinct s.evaluated ≡ true
  pub anchor : IsSane s.anchor_chain
  pub anchor_certified : (s.anchor_chain ≡ []) ⊎ (contains s.certificates s.anchor_chain ≡ true)
  pub retired : s.anchor_retired ≡ true → s.retired_finalized ≡ true

pub IsSane-nil : IsSane []
unfolding distinct
IsSane-nil = record { within = omega arith; once = refl }

pub IsSane-append :
    (c : Chain) (r : Request)
    → IsSane c
    → contains c r ≡ false
    → length c < budget
    → IsSane (c ++ r ∷ [])
IsSane-append c r h new room = record {
  within = omega (arith, length-append c (r ∷ []));
  once = distinct-append c r h.once new;
}

pub IsSane-take : (n : ℕ) (c : Chain) → IsSane c → IsSane (take n c)
IsSane-take n c h = record {
  within = omega (arith, length-take-le n c, h.within);
  once = distinct-take n c h.once;
}

pub adopts-IsSound :
    (p : PartyState) (c : Chain) (b : Bool) → IsSound p → IsSane c → IsSound (adopts p c b)
adopts-IsSound p c b h k = record {
  fits = adopts-Fits p c b h.fits;
  chain = k;
  lock = λ d e. h.lock d (ground arith);
}

-- A move of a party of a sound state leads to a sound party.
pub Move-IsSound :
    {sc : ModelScenario} {s : ModelState} {p q : PartyState}
    → Sound s
    → IsSound p
    → Move sc s p q
    → IsSound q
Move-IsSound {p = p} v h (Move.vote r ready active unlock anchored new room e) = rw e (record {
  fits = locked r refl (inl refl);
  chain = h.chain;
  lock = λ c q. subst IsSane (ground (arith, q)) (IsSane-append p.chain r h.chain new room);
})
Move-IsSound {p = p} v h (Move.prepare lock l ready ph n e) =
    rw e (record { fits = refit h.fits; chain = h.chain; lock = h.lock })
  where
    refit : Fits p → Fits (record p { phase = 2 })
    refit (unlocked l k) = absurd (cc)
    refit (locked r l k) = locked r l (inr refl)
Move-IsSound {s = s} v h (Move.install c m ready d l e) = rw e (record {
  fits = unlocked refl refl;
  chain = (All-In IsSoundCertificate s.certificates v.certificates m).sane;
  lock = λ d q. absurd (cc);
})
Move-IsSound {p = p} v h (Move.crash ready e) =
    rw e (record { fits = readied p false h.fits; chain = h.chain; lock = h.lock })
Move-IsSound {p = p} v h (Move.trust_snapshot down mode e) =
    rw e (record { fits = readied p true h.fits; chain = h.chain; lock = h.lock })
Move-IsSound {s = s} {p = p} v h (Move.follow_anchor down mode live pre e) =
    rw e (adopts-IsSound p s.anchor_chain (not s.anchor_retired) h v.anchor)
Move-IsSound {s = s} {p = p} v h (Move.follow_quorum peer m down free mode live pre n e) =
    rw e (adopts-IsSound p peer.chain peer.active h (All-In IsSound s.parties v.parties m).chain)

pub restored-IsSound : (p : PartyState) (n : ℕ) → IsSound p → IsSound (restored p n)
restored-IsSound p n h = record {
  fits = unlocked refl refl;
  chain = IsSane-take n p.chain h.chain;
  lock = λ c q. absurd (cc);
}
