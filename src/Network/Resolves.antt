-- ===== src/Network/Resolves.antt =====
-- Every request of the instance comes to a result, and a result stays.
use mathlib.Core.Path.{subst}
use holochain_rust.Network.Exchange.{asked}
use holochain_rust.Network.{entry_key_eq, links_key_eq, NetworkEnvironment, NetworkState}
use holochain_rust.Network.Reduce.{reduce}
use holochain_rust.Network.Exchange.{
  Step, Steps, ask, answer, done, more, Step-kept, Steps-known, expire-resolved,
}
use holochain_rust.Prelude.HashMap
use holochain_rust.Prelude.{
  Eq, Map, ℕ, String, ◌≡◌, refl, ◌≢◌, true, Option, some, List, arith, nat_eq,
}
use holochain_rust.Actions.{ActionWrapper, GetEntryKey, EntryWithMetaAndHeader, GetLinksKey, Action}
use holochain_rust.Network.Requests.{
  reduce_get_links_timeout, reduce_get_entry_timeout, waiting_or_failed,
}
use holochain_rust.CoreTypes.Header.{ChainHeader}
use holochain_rust.Network.Refines.{
  entry_event, links_event, LinksStep, reduce-EntryStep, EntryStep, reduce-LinksStep,
}
use holochain_rust.Cas.{MemoryStorage}
use holochain_rust.CoreTypes.Errors.{HcResult}
use holochain_rust.Network.Frames.{WhenSome}

when_some :
    (P : NetworkState → Type 0) {o : Option NetworkState} {t : NetworkState}
    → WhenSome P o
    → o ≡ some t
    → P t
when_some P h q = subst (WhenSome P) q h

-- Every action that does not panic changes the results of the requests for entries, and those of
-- the requests for links, by a step that it may take: a request waits or has failed, an answer is
-- kept, and a timeout counts only while the request waits.
pub reduce-Step :
    (e : NetworkEnvironment) (fuel : ℕ) (st : MemoryStorage) (top : Option ChainHeader)
    (s t : NetworkState) (w : ActionWrapper)
    → reduce e fuel st top s w ≡ some t
    → Step s.get_entry_with_meta_results (entry_event w.action) t.get_entry_with_meta_results
      × Step s.get_links_results (links_event w.action) t.get_links_results
reduce-Step e fuel st top s t w run = (
  when_some (EntryStep s w.action) (reduce-EntryStep e s fuel st top w.action w.id) run,
  when_some (LinksStep s w.action) (reduce-LinksStep e s fuel st top w.action w.id) run,
)

-- A result of a request for an entry is replaced only where the same request is made again or
-- answered: a late timeout does not replace it.
pub entry_result_kept :
    (e : NetworkEnvironment) (fuel : ℕ) (st : MemoryStorage) (top : Option ChainHeader)
    (s t : NetworkState) (w : ActionWrapper) (key : GetEntryKey)
    (r : HcResult (Option EntryWithMetaAndHeader))
    → reduce e fuel st top s w ≡ some t
    → HashMap.get s.get_entry_with_meta_results key ≡ some (some r)
    → entry_event w.action ≢ ask key
    → entry_event w.action ≢ answer key
    → HashMap.get t.get_entry_with_meta_results key ≡ some (some r)
entry_result_kept e fuel st top s t w key r run h a b =
    Step-kept key r (reduce-Step e fuel st top s t w run).0 h a b

-- A run of actions that do not panic, each in an environment of its own
pub data Run (s : NetworkState) : NetworkState → Type 0 where
  rest : Run s s
  act :
      {t u : NetworkState} (e : NetworkEnvironment) (fuel : ℕ) (st : MemoryStorage)
      (top : Option ChainHeader) (w : ActionWrapper)
      → Run s t
      → reduce e fuel st top t w ≡ some u
      → Run s u

Run-Steps :
    {s t : NetworkState}
    → Run s t
    → Steps s.get_entry_with_meta_results t.get_entry_with_meta_results
      × Steps s.get_links_results t.get_links_results
Run-Steps rest = (done, done)
Run-Steps (act {t} {u} e fuel st top w r run) =
    let (entries, links) = Run-Steps r in
    let (a, b) = reduce-Step e fuel st top t u w run in (more entries a, more links b)

asked-known :
    {K V : Type 0} ⦃q : Eq K⦄ (k : K) {m m' : Map K (Option (HcResult V))}
    → Step m (ask k) m'
    → HashMap.contains_key m' k ≡ true
unfolding HashMap.contains_key
asked-known k (asked {m} _ sent) =
    ground (arith, HashMap.get-insert_self m k (waiting_or_failed sent))

-- A request for an entry ends: whatever actions come after it, its timeout does not panic and
-- leaves it with a result.
pub entry_request_resolved :
    (e e' : NetworkEnvironment) (fuel fuel' id id' : ℕ) (st st' : MemoryStorage)
    (top top' : Option ChainHeader) (s t u : NetworkState) (key : GetEntryKey)
    → reduce e fuel st top s (record { action = Action.fetch_entry key; id = id }) ≡ some t
    → Run t u
    → (v : NetworkState) × (r : HcResult (Option EntryWithMetaAndHeader)) × (reduce e' fuel' st'
          top' u
          (record { action = Action.get_entry_timeout key; id = id' })
        ≡ some v)
      × (HashMap.get v.get_entry_with_meta_results key ≡ some (some r))
unfolding reduce
entry_request_resolved e e' fuel fuel' id id' st st' top top' s t u key made run =
    let known = Steps-known key (Run-Steps run).0 (
      asked-known key
        (reduce-Step e fuel st top s t (record { action = Action.fetch_entry key; id = id })
          made).0) in
    let v : NetworkState = reduce_get_entry_timeout u key in
    let step =
      reduce-Step e' fuel' st' top' u v (record { action = Action.get_entry_timeout key; id = id' })
        refl in
    let (r, resolved) = expire-resolved key known step.0 in (v, r, refl, resolved)

-- A request for links ends too: whatever actions come after it, its timeout does not panic and
-- leaves it with a result.
pub links_request_resolved :
    (e e' : NetworkEnvironment) (fuel fuel' id id' : ℕ) (st st' : MemoryStorage)
    (top top' : Option ChainHeader) (s t u : NetworkState) (key : GetLinksKey)
    → reduce e fuel st top s (record { action = Action.get_links key; id = id }) ≡ some t
    → Run t u
    → (v : NetworkState) × (r : HcResult (List String)) × (reduce e' fuel' st' top' u
          (record { action = Action.get_links_timeout key; id = id' })
        ≡ some v)
      × (HashMap.get v.get_links_results key ≡ some (some r))
unfolding reduce
links_request_resolved e e' fuel fuel' id id' st st' top top' s t u key made run =
    let known = Steps-known key (Run-Steps run).1 (
      asked-known key
        (reduce-Step e fuel st top s t (record { action = Action.get_links key; id = id })
          made).1) in
    let v : NetworkState = reduce_get_links_timeout u key in
    let step =
      reduce-Step e' fuel' st' top' u v (record { action = Action.get_links_timeout key; id = id' })
        refl in
    let (r, resolved) = expire-resolved key known step.1 in (v, r, refl, resolved)
