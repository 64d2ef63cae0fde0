-- ===== src/Examples/Conductor.antt =====
-- A configuration with a bridge, and the removal of either of its instances.
use holochain_rust.Prelude.{any, ok, String, ◌≡◌, refl, ◌↔◌, true, false, ◌||◌, none, [], ◌∷◌}
use holochain_rust.Conductor.{
  Configuration, InstanceConfiguration, StorageConfiguration, InterfaceDriver, check_references,
  save_remove_instance, check_instance, detect_dupes, check_ui_interface, check_bridge,
  instance_by_id, dupes_from, dna_by_id, check_reference, agent_by_id,
}
use holochain_rust.Conductor.Removal.{
  save_remove_instance-check_references_iff, bridge_mentions, dpki_mentions,
}

abbrev app_instance : String → InstanceConfiguration
app_instance id = record {
  id = id;
  dna = "app";
  agent = "alice";
  storage = StorageConfiguration.memory;
}

abbrev two_instances : Configuration
two_instances = record {
  agents =
      record {
        id = "alice";
        name = "Alice";
        public_address = "HcScA";
        keystore_file = "alice.key";
        holo_remote_key = none;
      }
      ∷ [];
  dnas = record { id = "app"; file = "app.dna.json"; hash = none } ∷ [];
  instances = app_instance "first" ∷ app_instance "second" ∷ [];
  interfaces =
      record {
        id = "admin";
        driver = InterfaceDriver.websocket 8080;
        admin = true;
        instances = record { id = "first" } ∷ record { id = "second" } ∷ [];
      }
      ∷ [];
  bridges = record { caller_id = "first"; callee_id = "second"; handle = "app" } ∷ [];
  ui_bundles = [];
  ui_interfaces = [];
  logger = "debug";
  network = none;
  persistence_dir = "";
  signing_service_uri = none;
  dpki = none;
  expose_trace_signals = false;
}

two_instances-check_references : check_references two_instances ≡ ok tt
unfolding check_references check_instance check_reference check_bridge check_ui_interface
    detect_dupes agent_by_id dna_by_id instance_by_id dupes_from
two_instances-check_references = refl

save_remove_instance-check_references_iff_example :
    (check_references (save_remove_instance two_instances "second") ≡ ok tt) ↔ (
      (any (bridge_mentions "second") two_instances.bridges
        || dpki_mentions "second" two_instances.dpki)
      ≡ false)
save_remove_instance-check_references_iff_example =
    save_remove_instance-check_references_iff two_instances "second" two_instances-check_references
