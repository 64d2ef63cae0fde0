-- ===== src/Network/Exchange.antt =====
-- What the requests of an instance promise, apart from messages: the results by key, as a map that
-- changes by steps.
use holochain_rust.Prelude.HashMap
use holochain_rust.Prelude.{
  Bool-cases, Eq, err, Map, ◌≡◌, sym, ap, ◌∙◌, ◌≢◌, inl, inr, true, Option, none, some, arith,
}
use holochain_rust.Network.Requests.{waiting_or_failed}
use holochain_rust.CoreTypes.Errors.{HcResult, timeout}

-- What an action is to the requests with keys of a type
pub data Event (K : Type 0) : Type 0 where
  ask answer expire : K → Event K
  unrelated : Event K

module _ {K V : Type 0} ⦃e : Eq K⦄ where
  -- A request waits for its result or has failed at once, an answer is kept whenever it comes, and
  -- a timeout counts only while the request waits.
  pub data Step : Map K (Option (HcResult V)) → Event K → Map K (Option (HcResult V)) → Type 0 where
    skip : {m : Map K (Option (HcResult V))} → Step m unrelated m
    asked :
        {m : Map K (Option (HcResult V))} (k : K) (sent : HcResult (Unit {0}))
        → Step m (ask k) (HashMap.insert m k (waiting_or_failed sent))
    answered :
        {m : Map K (Option (HcResult V))} (k : K) (r : HcResult V)
        → Step m (answer k) (HashMap.insert m k (some r))
    expired :
        {m : Map K (Option (HcResult V))} (k : K)
        → HashMap.get m k ≡ some none
        → Step m (expire k) (HashMap.insert m k (some (err timeout)))
    too_late :
        {m : Map K (Option (HcResult V))} (k : K) (r : HcResult V)
        → HashMap.get m k ≡ some (some r)
        → Step m (expire k) m
    unknown :
        {m : Map K (Option (HcResult V))} (k : K) → HashMap.get m k ≡ none → Step m (expire k) m

  -- Several steps, the last one first
  pub data Steps (m : Map K (Option (HcResult V))) : Map K (Option (HcResult V)) → Type 0 where
    done : Steps m m
    more :
        {m' m'' : Map K (Option (HcResult V))} {v : Event K}
        → Steps m m'
        → Step m' v m''
        → Steps m m''

  get-insert_other :
      (m : Map K (Option (HcResult V))) (j k : K) (v : Option (HcResult V))
      → j ≢ k
      → HashMap.get (HashMap.insert m j v) k ≡ HashMap.get m k
  get-insert_other m j k v n = elim (Bool-cases (e.test j k)) [
    | inl same ↦ absurd (n ((e.test_iff j k).0 same))
    | inr other ↦ ground (arith, HashMap.get-insert m j k v)
  ]

  resolved_differs :
      (m : Map K (Option (HcResult V))) (k : K) (r : HcResult V) (j : K)
      → HashMap.get m k ≡ some (some r)
      → HashMap.get m j ≡ some none
      → j ≢ k
  resolved_differs m k r j h w q =
      let both : some none ≡ some (some r) = sym w ∙ ap (HashMap.get m) q ∙ h in ground arith

  -- A result is replaced only by asking again for its key or by an answer to it.
  pub Step-kept :
      {m m' : Map K (Option (HcResult V))} {v : Event K} (k : K) (r : HcResult V)
      → Step m v m'
      → HashMap.get m k ≡ some (some r)
      → v ≢ ask k
      → v ≢ answer k
      → HashMap.get m' k ≡ some (some r)
  Step-kept k r skip h a b = h
  Step-kept k r (asked {m} j sent) h a b =
      get-insert_other m j k (waiting_or_failed sent) (λ q. a (ap ask q)) ∙ h
  Step-kept k r (answered {m} j x) h a b =
      get-insert_other m j k (some x) (λ q. b (ap answer q)) ∙ h
  Step-kept k r (expired {m} j w) h a b =
      get-insert_other m j k (some (err timeout)) (resolved_differs m k r j h w) ∙ h
  Step-kept k r (too_late j x w) h a b = h
  Step-kept k r (unknown j w) h a b = h

  -- A key that is known stays known.
  pub Step-known :
      {m m' : Map K (Option (HcResult V))} {v : Event K} (k : K)
      → Step m v m'
      → HashMap.contains_key m k ≡ true
      → HashMap.contains_key m' k ≡ true
  unfolding HashMap.contains_key
  Step-known k skip h = h
  Step-known k (asked {m} j sent) h =
      ground (arith, HashMap.get-insert m j k (waiting_or_failed sent))
  Step-known k (answered {m} j x) h = ground (arith, HashMap.get-insert m j k (some x))
  Step-known k (expired {m} j w) h = ground (arith, HashMap.get-insert m j k (some (err timeout)))
  Step-known k (too_late j x w) h = h
  Step-known k (unknown j w) h = h

  pub Steps-known :
      {m m' : Map K (Option (HcResult V))} (k : K)
      → Steps m m'
      → HashMap.contains_key m k ≡ true
      → HashMap.contains_key m' k ≡ true
  Steps-known k done h = h
  Steps-known k (more r step) h = Step-known k step (Steps-known k r h)

  -- After a timeout the key, if it is known, has a result.
  pub expire-resolved :
      (k : K) {m m' : Map K (Option (HcResult V))}
      → HashMap.contains_key m k ≡ true
      → Step m (expire k) m'
      → (r : HcResult V) × (HashMap.get m' k ≡ some (some r))
  unfolding HashMap.contains_key
  expire-resolved k h (expired {m} _ w) =
      (err timeout, HashMap.get-insert_self m k (some (err timeout)))
  expire-resolved k h (too_late _ r w) = (r, w)
  expire-resolved k h (unknown _ w) = absurd (ground (arith, w))
