-- ===== src/Conductor.antt =====
-- conductor_api/src/config.rs: the configuration of a conductor, the check that its parts refer to
-- each other consistently, and the removal of an instance. What other crates read from the file (a
-- logger, the network) is its text.
pub mod Checks
pub mod Removal
use holochain_rust.Prelude.{
  if◌then◌else◌, ◌==◌, keep, find, any, Result, ok, err, ℕ, String, Bool, not, Option, none, some,
  List, [], ◌∷◌, map, string_eq,
}
use Prim.Native.String.{◌++◌ as text_append}

pub record AgentConfiguration : Type 0 where
  pub id : String
  pub name : String
  pub public_address : String
  pub keystore_file : String
  pub holo_remote_key : Option Bool

pub record DnaConfiguration : Type 0 where
  pub id : String
  pub file : String
  pub hash : Option String

pub data StorageConfiguration : Type 0 where
  memory : StorageConfiguration
  file pickle : String → StorageConfiguration

pub record InstanceConfiguration : Type 0 where
  pub id : String
  pub dna : String
  pub agent : String
  pub storage : StorageConfiguration

pub data InterfaceDriver : Type 0 where
  websocket http : ℕ → InterfaceDriver
  domain_socket custom : String → InterfaceDriver

pub record InstanceReferenceConfiguration : Type 0 where
  pub id : String

pub record InterfaceConfiguration : Type 0 where
  pub id : String
  pub driver : InterfaceDriver
  pub admin : Bool
  pub instances : List InstanceReferenceConfiguration

pub record Bridge : Type 0 where
  pub caller_id : String
  pub callee_id : String
  pub handle : String

pub record UiBundleConfiguration : Type 0 where
  pub id : String
  pub root_dir : String
  pub hash : Option String

pub record UiInterfaceConfiguration : Type 0 where
  pub id : String
  pub bundle : String
  pub port : ℕ
  pub dna_interface : Option String

pub record DpkiConfiguration : Type 0 where
  pub instance_id : String
  pub init_params : String

pub record Configuration : Type 0 where
  pub agents : List AgentConfiguration
  pub dnas : List DnaConfiguration
  pub instances : List InstanceConfiguration
  pub interfaces : List InterfaceConfiguration
  pub bridges : List Bridge
  pub ui_bundles : List UiBundleConfiguration
  pub ui_interfaces : List UiInterfaceConfiguration
  pub logger : String
  pub network : Option String
  pub persistence_dir : String
  pub signing_service_uri : Option String
  pub dpki : Option DpkiConfiguration
  pub expose_trace_signals : Bool

abbrev pub Checked : Type 0
Checked = Result (Unit {0}) String

-- The items that are in the set already, which grows by each item
unfoldable pub dupes_from : List String → List String → List String
dupes_from set [] = []
dupes_from set (x ∷ xs) =
    let found = x ∷ dupes_from set xs in
    let more = dupes_from (x ∷ set) xs in if any (λ y. y == x) set then found else more

-- `dupes.join(", ")`
abbrev pub join : List String → String
join [] = ""
join (x ∷ []) = x
join (x ∷ (y ∷ ys)) = text_append x (text_append ", " (join (y ∷ ys)))

abbrev pub report_dupes : String → List String → Checked
report_dupes name [] = ok tt
report_dupes name (x ∷ xs) =
    err
      (text_append "Duplicate " (text_append name (text_append " IDs detected: " (join (x ∷ xs)))))

unfoldable pub detect_dupes : String → List String → Checked
unfolding dupes_from
detect_dupes name items = report_dupes name (dupes_from [] items)

unfoldable pub agent_by_id : Configuration → String → Option AgentConfiguration
agent_by_id c id = find (λ a. a.id == id) c.agents

unfoldable pub dna_by_id : Configuration → String → Option DnaConfiguration
dna_by_id c id = find (λ d. d.id == id) c.dnas

unfoldable pub instance_by_id : Configuration → String → Option InstanceConfiguration
instance_by_id c id = find (λ i. i.id == id) c.instances

unfoldable pub interface_by_id : Configuration → String → Option InterfaceConfiguration
interface_by_id c id = find (λ i. i.id == id) c.interfaces

unfoldable pub ui_bundle_by_id : Configuration → String → Option UiBundleConfiguration
ui_bundle_by_id c id = find (λ b. b.id == id) c.ui_bundles

-- `.is_some().ok_or_else(…)`
abbrev pub known_or : {A : Type 0} → Option A → String → Checked
known_or none text = err text
known_or (some a) text = ok tt

-- `?`, and what follows
infixr 30 ◌andthen◌
abbrev pub ◌andthen◌ : Checked → Checked → Checked
(err e) andthen r = err e
(ok x) andthen r = r

-- `for x in xs { f(x)?; }`
abbrev pub for_each : {A : Type 0} → (A → Checked) → List A → Checked
for_each f [] = ok tt
for_each f (x ∷ xs) = f x andthen for_each f xs

abbrev pub two_names : String → String → String → String → String → String
two_names before a between b after =
    text_append before (text_append a (text_append between (text_append b after)))

abbrev pub instance_missing : String → String → String
instance_missing id where_it_is =
    text_append "Instance configuration \""
      (text_append id (text_append "\" not found, mentioned in " where_it_is))

unfoldable pub check_instance : Configuration → InstanceConfiguration → Checked
unfolding agent_by_id dna_by_id
check_instance c i =
    known_or (agent_by_id c i.agent)
      (two_names "Agent configuration " i.agent " not found, mentioned in instance " i.id "")
    andthen known_or (dna_by_id c i.dna)
        (two_names "DNA configuration \"" i.dna "\" not found, mentioned in instance \"" i.id "\"")

unfoldable pub check_reference : Configuration → InstanceReferenceConfiguration → Checked
unfolding instance_by_id
check_reference c r = known_or (instance_by_id c r.id) (instance_missing r.id "interface")

unfoldable pub check_bridge : Configuration → Bridge → Checked
unfolding instance_by_id
check_bridge c b =
    known_or (instance_by_id c b.callee_id) (instance_missing b.callee_id "bridge")
    andthen known_or (instance_by_id c b.caller_id) (instance_missing b.caller_id "bridge")

abbrev pub check_dna_interface : Configuration → String → Option String → Checked
check_dna_interface c id none = ok tt
check_dna_interface c id (some dna_interface_id) = known_or (interface_by_id c dna_interface_id) (
    two_names "DNA Interface configuration \"" dna_interface_id
      "\" not found, mentioned in UI interface \"" id "\"")

unfoldable pub check_ui_interface : Configuration → UiInterfaceConfiguration → Checked
unfolding ui_bundle_by_id interface_by_id
check_ui_interface c u =
    known_or (ui_bundle_by_id c u.bundle) (
      two_names "UI bundle configuration " u.bundle " not found, mentioned in UI interface " u.id
        "")
    andthen check_dna_interface c u.id u.dna_interface

abbrev pub check_dpki : Configuration → Option DpkiConfiguration → Checked
check_dpki c none = ok tt
check_dpki c (some d) =
    known_or (instance_by_id c d.instance_id) (instance_missing d.instance_id "dpki")

-- `check_consistency` up to the sorting of the instances
unfoldable pub check_references : Configuration → Checked
unfolding detect_dupes check_instance check_reference check_bridge check_ui_interface instance_by_id
check_references c =
    detect_dupes "agent" (map (λ a. a.id) c.agents)
    andthen detect_dupes "dna" (map (λ d. d.id) c.dnas)
    andthen detect_dupes "instance" (map (λ i. i.id) c.instances)
    andthen detect_dupes "interface" (map (λ i. i.id) c.interfaces)
    andthen for_each (check_instance c) c.instances
    andthen for_each (λ i. for_each (check_reference c) i.instances) c.interfaces
    andthen for_each (check_bridge c) c.bridges
    andthen for_each (check_ui_interface c) c.ui_interfaces
    andthen check_dpki c c.dpki

abbrev pub without : String → InterfaceConfiguration → InterfaceConfiguration
without id i = record i { instances = keep (λ r. not (r.id == id)) i.instances }

unfoldable pub save_remove_instance : Configuration → String → Configuration
save_remove_instance c id = record c {
  instances = keep (λ i. not (i.id == id)) c.instances;
  interfaces = map (without id) c.interfaces;
}

unfoldable pub bridge_dependencies : Configuration → String → List Bridge
bridge_dependencies c caller_instance_id = keep (λ b. b.caller_id == caller_instance_id) c.bridges
