-- ===== src/Network/Refines.antt =====
-- The network reducers keep to the steps of Network/Exchange.antt.
use holochain_rust.Network.{entry_key_eq, links_key_eq, NetworkEnvironment}
use holochain_rust.Network.Reduce.{reduce}
use holochain_rust.Prelude.HashMap
use holochain_rust.Prelude.{
  if◌then◌else◌, Eq, Result, ok, err, Map, ℕ, String, ◌≡◌, refl, Bool, true, false, Option, none,
  some, List, string_eq,
}
use holochain_rust.Network.Exchange.{
  Event, Step, ask, answer, expire, unrelated, skip, asked, expired, too_late, unknown, answered,
}
use holochain_rust.Network.Requests.{
  waiting_or_failed, option_of_star, reduce_handle_get_result_inner, reduce_fetch_entry_inner,
  expire_entry, reduce_get_entry, fetch_entry_message, expire_links, get_validation_package_inner,
  keep_links, reduce_get_links, reduce_handle_get_links_result_inner, reduce_get_links_inner,
  fetch_meta_message, links_key_of,
}
use holochain_rust.Actions.{
  GetLinksKey, Action, GetEntryKey, EntryWithMetaAndHeader, NetworkSettings,
}
use holochain_rust.CoreTypes.Errors.{HcResult}
use holochain_rust.Network.{NetworkState}
use holochain_rust.Cas.{MemoryStorage}
use holochain_rust.CoreTypes.Header.{ChainHeader}
use holochain_rust.Network.Frames.{
  WhenSome, conclude-WhenSome, send-KeepsAfter, get_validation_package-KeepsAfter,
  send_direct_message-KeepsAfter, publish-KeepsAfter,
}
use holochain_rust.Network.Messages.{
  expire_reply, fetch_meta_result_message, reduce_respond_fetch_data_inner,
  fetch_entry_result_message, reduce_init, reduce_respond_get_links_inner,
  send_direct_message_inner, opened_network, track_message, connected,
}
use holochain_rust.Net.Protocol.{FetchMetaResultData}
use holochain_rust.Network.Publish.{reduce_publish_inner}

-- What an action is to the requests for entries
abbrev pub entry_event : Action → Event GetEntryKey
entry_event (Action.fetch_entry key) = ask key
entry_event (Action.get_entry_timeout key) = expire key
entry_event (Action.handle_fetch_result d) =
    answer (record { address = d.entry_address; id = d.request_id })
entry_event _ = unrelated

-- and to those for links
abbrev pub links_event : Action → Event GetLinksKey
links_event (Action.get_links key) = ask key
links_event (Action.get_links_timeout key) = expire key
links_event (Action.handle_get_links_result d link_type tag) = answer (record {
  base_address = d.entry_address;
  link_type = option_of_star link_type;
  tag = option_of_star tag;
  id = d.request_id;
})
links_event _ = unrelated

abbrev pub EntryStep : NetworkState → Action → NetworkState → Type 0
EntryStep s a t = Step s.get_entry_with_meta_results (entry_event a) t.get_entry_with_meta_results

abbrev pub LinksStep : NetworkState → Action → NetworkState → Type 0
LinksStep s a t = Step s.get_links_results (links_event a) t.get_links_results

skip_to :
    {K V : Type 0} ⦃e : Eq K⦄ {m m' : Map K (Option (HcResult V))} → m' ≡ m → Step m unrelated m'
skip_to same = rw same skip

asked_from :
    {K V : Type 0} ⦃e : Eq K⦄ {m m' : Map K (Option (HcResult V))} (k : K) (r : HcResult (Unit {0}))
    → m' ≡ m
    → Step m (ask k) (HashMap.insert m' k (waiting_or_failed r))
asked_from k r same = rw same (asked k r)

entry_timeout-Step :
    (s : NetworkState) (key : GetEntryKey)
    (o : Option (Option (HcResult (Option EntryWithMetaAndHeader))))
    → HashMap.get s.get_entry_with_meta_results key ≡ o
    → EntryStep s (Action.get_entry_timeout key) (expire_entry s key o)
entry_timeout-Step s key none h = (unknown key h)
entry_timeout-Step s key (some none) h = (expired key h)
entry_timeout-Step s key (some (some r)) h = (too_late key r h)

links_timeout-Step :
    (s : NetworkState) (key : GetLinksKey) (o : Option (Option (HcResult (List String))))
    → HashMap.get s.get_links_results key ≡ o
    → LinksStep s (Action.get_links_timeout key) (expire_links s key o)
links_timeout-Step s key none h = (unknown key h)
links_timeout-Step s key (some none) h = (expired key h)
links_timeout-Step s key (some (some r)) h = (too_late key r h)

expire_entry-links :
    (s : NetworkState) (key : GetEntryKey)
    (o : Option (Option (HcResult (Option EntryWithMetaAndHeader))))
    → (expire_entry s key o).get_links_results ≡ s.get_links_results
expire_entry-links s key none = refl
expire_entry-links s key (some none) = refl
expire_entry-links s key (some (some r)) = refl

expire_links-entries :
    (s : NetworkState) (key : GetLinksKey) (o : Option (Option (HcResult (List String))))
    → (expire_links s key o).get_entry_with_meta_results ≡ s.get_entry_with_meta_results
expire_links-entries s key none = refl
expire_links-entries s key (some none) = refl
expire_links-entries s key (some (some r)) = refl

expire_reply-entries :
    (s : NetworkState) (id : String) (o : Option (HcResult String))
    → (expire_reply s id o).get_entry_with_meta_results ≡ s.get_entry_with_meta_results
expire_reply-entries s id none = refl
expire_reply-entries s id (some reply) = refl

expire_reply-links :
    (s : NetworkState) (id : String) (o : Option (HcResult String))
    → (expire_reply s id o).get_links_results ≡ s.get_links_results
expire_reply-links s id none = refl
expire_reply-links s id (some reply) = refl

connected-kept :
    (s : NetworkState) (settings : NetworkSettings) (r : Result (Unit {0}) String)
    → ((connected s settings r).get_entry_with_meta_results ≡ s.get_entry_with_meta_results)
      × ((connected s settings r).get_links_results ≡ s.get_links_results)
connected-kept s settings (err x) = (refl, refl)
connected-kept s settings (ok x) = (refl, refl)

when-WhenSome :
    (P : NetworkState → Type 0) (b : Bool) (t : NetworkState)
    → P t
    → WhenSome P (if b then some t else none)
when-WhenSome P true t h = h
when-WhenSome P false t h = tt

-- Where the reducer does not panic
module _ (e : NetworkEnvironment) (s : NetworkState) where
  links_result-entries :
      (d : FetchMetaResultData) (link_type tag : String) (o : Option (HcResult (List String)))
      → WhenSome
          (EntryStep s (Action.handle_get_links_result d link_type tag))
          (keep_links s d link_type tag o)
  links_result-entries d link_type tag none = tt
  links_result-entries d link_type tag (some r) = skip

  links_result-Step :
      (d : FetchMetaResultData) (link_type tag : String) (o : Option (HcResult (List String)))
      → WhenSome
          (LinksStep s (Action.handle_get_links_result d link_type tag))
          (keep_links s d link_type tag o)
  links_result-Step d link_type tag none = tt
  links_result-Step d link_type tag (some r) = answered (links_key_of d link_type tag) r

  init-EntryStep :
      (settings : NetworkSettings)
      → WhenSome (EntryStep s (Action.init_network settings)) (reduce_init e s settings)
  unfolding reduce_init
  init-EntryStep settings =
      let r = e.outcome (opened_network settings) (track_message settings) in
      when-WhenSome (EntryStep s (Action.init_network settings)) (e.opens settings.p2p_config)
        (connected s settings r) (skip_to (connected-kept s settings r).0)

  init-LinksStep :
      (settings : NetworkSettings)
      → WhenSome (LinksStep s (Action.init_network settings)) (reduce_init e s settings)
  unfolding reduce_init
  init-LinksStep settings =
      let r = e.outcome (opened_network settings) (track_message settings) in
      when-WhenSome (LinksStep s (Action.init_network settings)) (e.opens settings.p2p_config)
        (connected s settings r) (skip_to (connected-kept s settings r).1)

  pub reduce-EntryStep :
      (fuel : ℕ) (st : MemoryStorage) (top : Option ChainHeader) (a : Action) (id : ℕ)
      → WhenSome (EntryStep s a) (reduce e fuel st top s (record { action = a; id = id }))
  unfolding reduce reduce_get_entry reduce_get_links reduce_fetch_entry_inner reduce_get_links_inner
  reduce-EntryStep fuel st top (Action.get_validation_package h) id =
      conclude-WhenSome s (get_validation_package_inner e s h) _
        (EntryStep s (Action.get_validation_package h)) (get_validation_package-KeepsAfter e s h)
        λ r t kept. skip_to kept.entries
  reduce-EntryStep fuel st top (Action.publish address) id =
      conclude-WhenSome s (reduce_publish_inner e fuel st top s address) _
        (EntryStep s (Action.publish address)) (publish-KeepsAfter e s fuel st top address)
        λ r t kept. skip_to kept.entries
  reduce-EntryStep fuel st top (Action.respond_fetch d o) id =
      conclude-WhenSome s (reduce_respond_fetch_data_inner e s d o) _
        (EntryStep s (Action.respond_fetch d o))
        (send-KeepsAfter e s (fetch_entry_result_message e d o)) λ r t kept. skip_to kept.entries
  reduce-EntryStep fuel st top (Action.respond_get_links d links) id =
      conclude-WhenSome s (reduce_respond_get_links_inner e s d links) _
        (EntryStep s (Action.respond_get_links d links))
        (send-KeepsAfter e s (fetch_meta_result_message e d links)) λ r t kept. skip_to kept.entries
  reduce-EntryStep fuel st top (Action.send_direct_message d) id =
      conclude-WhenSome s (send_direct_message_inner e s d) _
        (EntryStep s (Action.send_direct_message d)) (send_direct_message-KeepsAfter e s d)
        λ r t kept. skip_to kept.entries
  reduce-EntryStep fuel st top (Action.fetch_entry key) id =
      conclude-WhenSome s (reduce_fetch_entry_inner e s key) _
        (EntryStep s (Action.fetch_entry key)) (send-KeepsAfter e s (fetch_entry_message key))
        λ r t kept. asked_from key r kept.entries
  reduce-EntryStep fuel st top (Action.get_entry_timeout key) id =
      entry_timeout-Step s key (HashMap.get s.get_entry_with_meta_results key) refl
  reduce-EntryStep fuel st top (Action.handle_fetch_result d) id =
      answered (record { address = d.entry_address; id = d.request_id })
        (reduce_handle_get_result_inner e s d)
  reduce-EntryStep fuel st top (Action.get_links key) id =
      conclude-WhenSome s (reduce_get_links_inner e s key) _ (EntryStep s (Action.get_links key))
        (send-KeepsAfter e s (fetch_meta_message key)) λ r t kept. skip_to kept.entries
  reduce-EntryStep fuel st top (Action.get_links_timeout key) id =
      skip_to (expire_links-entries s key (HashMap.get s.get_links_results key))
  reduce-EntryStep fuel st top (Action.handle_get_links_result d link_type tag) id =
      links_result-entries d link_type tag (reduce_handle_get_links_result_inner e s d)
  reduce-EntryStep fuel st top (Action.init_network settings) id = init-EntryStep settings
  reduce-EntryStep fuel st top (Action.send_direct_message_timeout key) id =
      skip_to (expire_reply-entries s key (HashMap.get s.custom_direct_message_replys key))
  reduce-EntryStep fuel st top _ id = skip

  pub reduce-LinksStep :
      (fuel : ℕ) (st : MemoryStorage) (top : Option ChainHeader) (a : Action) (id : ℕ)
      → WhenSome (LinksStep s a) (reduce e fuel st top s (record { action = a; id = id }))
  unfolding reduce reduce_get_entry reduce_get_links reduce_fetch_entry_inner reduce_get_links_inner
  reduce-LinksStep fuel st top (Action.get_validation_package h) id =
      conclude-WhenSome s (get_validation_package_inner e s h) _
        (LinksStep s (Action.get_validation_package h)) (get_validation_package-KeepsAfter e s h)
        λ r t kept. skip_to kept.links
  reduce-LinksStep fuel st top (Action.publish address) id =
      conclude-WhenSome s (reduce_publish_inner e fuel st top s address) _
        (LinksStep s (Action.publish address)) (publish-KeepsAfter e s fuel st top address)
        λ r t kept. skip_to kept.links
  reduce-LinksStep fuel st top (Action.respond_fetch d o) id =
      conclude-WhenSome s (reduce_respond_fetch_data_inner e s d o) _
        (LinksStep s (Action.respond_fetch d o))
        (send-KeepsAfter e s (fetch_entry_result_message e d o)) λ r t kept. skip_to kept.links
  reduce-LinksStep fuel st top (Action.respond_get_links d links) id =
      conclude-WhenSome s (reduce_respond_get_links_inner e s d links) _
        (LinksStep s (Action.respond_get_links d links))
        (send-KeepsAfter e s (fetch_meta_result_message e d links)) λ r t kept. skip_to kept.links
  reduce-LinksStep fuel st top (Action.send_direct_message d) id =
      conclude-WhenSome s (send_direct_message_inner e s d) _
        (LinksStep s (Action.send_direct_message d)) (send_direct_message-KeepsAfter e s d)
        λ r t kept. skip_to kept.links
  reduce-LinksStep fuel st top (Action.get_links key) id =
      conclude-WhenSome s (reduce_get_links_inner e s key) _ (LinksStep s (Action.get_links key))
        (send-KeepsAfter e s (fetch_meta_message key)) λ r t kept. asked_from key r kept.links
  reduce-LinksStep fuel st top (Action.get_links_timeout key) id =
      links_timeout-Step s key (HashMap.get s.get_links_results key) refl
  reduce-LinksStep fuel st top (Action.handle_get_links_result d link_type tag) id =
      links_result-Step d link_type tag (reduce_handle_get_links_result_inner e s d)
  reduce-LinksStep fuel st top (Action.fetch_entry key) id =
      conclude-WhenSome s (reduce_fetch_entry_inner e s key) _
        (LinksStep s (Action.fetch_entry key)) (send-KeepsAfter e s (fetch_entry_message key))
        λ r t kept. skip_to kept.links
  reduce-LinksStep fuel st top (Action.get_entry_timeout key) id =
      skip_to (expire_entry-links s key (HashMap.get s.get_entry_with_meta_results key))
  reduce-LinksStep fuel st top (Action.init_network settings) id = init-LinksStep settings
  reduce-LinksStep fuel st top (Action.send_direct_message_timeout key) id =
      skip_to (expire_reply-links s key (HashMap.get s.custom_direct_message_replys key))
  reduce-LinksStep fuel st top _ id = skip
