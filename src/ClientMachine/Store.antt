-- ===== src/ClientMachine/Store.antt =====
-- `begin` and `advance` of the two client state machines, over the rules in which they differ.
-- A dictionary is an association list, the newest entry first.
use locus_v.Prelude.{not, Option, none, some, List, [], ◌∷◌, ◌≡◌, ◌≢◌, arith, if◌then◌else◌}
use locus_v.Prelude.Eq.{Eq, ◌==◌, list_eq, nat_eq, pair_eq}
use locus_v.Prelude.Results.{ok, raise, ◌>>=◌, ◌>>◌, raise_if, or_raise}
use locus_v.Contracts.Values.{Text, Bytes, Checked, event_reused, stale_state}

module _ {K V : Type 0} ⦃e : Eq K⦄ where
  -- d.get(key)
  abbrev pub get : List (K × V) → K → Option V
  get [] key = none
  get (entry ∷ entries) key =
      let older = get entries key in if entry.0 == key then some entry.1 else older

  -- d[key] = value
  abbrev pub put : List (K × V) → K → V → List (K × V)
  put entries key value = (key, value) ∷ entries

  pub get-put : (d : List (K × V)) (k : K) (v : V) → get (put d k v) k ≡ some v
  get-put d k v = ground (arith, e.same_iff k k)

  pub get-put_other : (d : List (K × V)) (k j : K) (v : V) → k ≢ j → get (put d k v) j ≡ get d j
  get-put_other d k j v h = ground (arith, e.same_iff k j)

-- What a machine adds to the store: how it reads its states and events, which arguments `begin`
-- takes and tests, and the step of a current state by a new event.
pub record Rules (S V A : Type 0) : Type 0 where
  pub operation_id : S → Text
  pub event_id : V → Text
  pub fingerprint : V → Bytes
  pub admits : A → Text → Checked (Unit {0})
  pub rejoins : A → S → Checked (Unit {0})
  pub starts : A → Text → Checked S
  pub step : S → V → Checked S

-- self._states and self._events
pub record Machine (S : Type 0) : Type 0 where
  pub states : List (Text × S)
  pub events : List ((Text × Text) × (Bytes × S))

abbrev pub empty_machine : {S : Type 0} → Machine S
empty_machine = record { states = []; events = [] }

module _ {S V A : Type 0} ⦃same_state : Eq S⦄ (r : Rules S V A) where
  -- `state` is what `_states` has under the identifier.
  abbrev pub join : Machine S → A → Text → Option S → Checked (S × Machine S)
  join m a operation_id (some state) = do r.rejoins a state; ok (state, m)
  join m a operation_id none = do
    state ← r.starts a operation_id
    ok (state, record m { states = put m.states operation_id state })

  unfoldable pub begin : Machine S → A → Text → Checked (S × Machine S)
  begin m a operation_id = do
    r.admits a operation_id
    join m a operation_id (get m.states operation_id)

  abbrev pub key_of : S → V → Text × Text
  key_of s v = (r.operation_id s, r.event_id v)

  -- An event whose identifier was used before.
  abbrev pub retry : Machine S → V → Bytes × S → Checked (S × Machine S)
  retry m v prior = do raise_if (not (prior.0 == r.fingerprint v)) event_reused; ok (prior.1, m)

  -- An event that is new.
  abbrev pub apply : Machine S → S → V → Checked (S × Machine S)
  apply m s v = do
    current ← or_raise (get m.states (r.operation_id s)) stale_state
    raise_if (not (current == s)) stale_state
    result ← r.step current v
    ok (
      result,
      record m {
        states = put m.states (r.operation_id s) result;
        events = put m.events (key_of s v) (r.fingerprint v, result);
      },
    )

  -- `prior` is what `_events` has under the key.
  abbrev pub answer : Machine S → S → V → Option (Bytes × S) → Checked (S × Machine S)
  answer m s v (some prior) = retry m v prior
  answer m s v none = apply m s v

  unfoldable pub advance : Machine S → S → V → Checked (S × Machine S)
  advance m s v = answer m s v (get m.events (key_of s v))

-- A caller's call: `begin`, or `advance` with a state and an event that the caller holds.
pub data Command (S V A : Type 0) : Type 0 where
  begins : A → Text → Command S V A
  advances : S → V → Command S V A

module _ {S V A : Type 0} ⦃same_state : Eq S⦄ (r : Rules S V A) where
  -- The machine that a call leaves: its own when the call raises.
  abbrev pub left_by : Machine S → Checked (S × Machine S) → Machine S
  left_by m (ok (s, n)) = n
  left_by m (raise e) = m

  unfoldable pub perform : Machine S → Command S V A → Machine S
  unfolding begin advance
  perform m (begins a operation_id) = left_by m (begin r m a operation_id)
  perform m (advances s v) = left_by m (advance r m s v)

  unfoldable pub run : Machine S → List (Command S V A) → Machine S
  unfolding perform
  run m [] = m
  run m (c ∷ cs) = run (perform m c) cs
