-- ===== src/Cas.antt =====
-- `MemoryStorage` of cas_implementations/src/cas/memory.rs, the content addressable store. An
-- address and a content are their texts, the lock is the flag `poisoned`.
use holochain_rust.Prelude.HashMap
use holochain_rust.Prelude.{
  if◌then◌else◌, ◌==◌, ok, err, Map, String, ◌≡◌, Bool, false, Option, some, arith, string_eq,
}
use holochain_rust.CoreTypes.Errors.{poison_error, HcResult}

pub record MemoryStorage : Type 0 where
  pub storage : Map String String
  pub poisoned : Bool

-- `add` of a value with its address and its content
unfoldable pub add : MemoryStorage → String → String → HcResult (Unit {0}) × MemoryStorage
add s address content =
    if s.poisoned
    then (err poison_error, s)
    else (ok tt, record s { storage = HashMap.insert s.storage address content })

unfoldable pub contains : MemoryStorage → String → HcResult Bool
contains s address =
    if s.poisoned then err poison_error else ok (HashMap.contains_key s.storage address)

unfoldable pub fetch : MemoryStorage → String → HcResult (Option String)
fetch s address = if s.poisoned then err poison_error else ok (HashMap.get s.storage address)

-- After an addition exactly the address that was added has a new content.
pub fetch-add :
    (s : MemoryStorage) (a b content : String)
    → s.poisoned ≡ false
    → ((add s a content).0 ≡ ok tt)
      × (fetch (add s a content).1 b ≡ (if a == b then ok (some content) else fetch s b))
unfolding add fetch
fetch-add s a b content p = (ground arith, ground (arith, HashMap.get-insert s.storage a b content))
