-- ===== src/Conductor/Removal.antt =====
-- When a configuration stays consistent after an instance was removed.
use holochain_rust.Prelude.{
  Bool-cases, ◌==◌, keep, any, ok, String, ◌≡◌, refl, ap, ◌∙◌, ◌↔◌, inl, inr, Bool, false, not,
  ◌||◌, Option, none, some, List, [], ◌∷◌, map, arith, string_eq,
}
use holochain_rust.Conductor.{
  Bridge, instance_missing, InterfaceConfiguration, DpkiConfiguration, check_dpki, for_each,
  UiInterfaceConfiguration, check_bridge, instance_by_id, check_reference, Configuration, known_or,
  InstanceReferenceConfiguration, check_ui_interface, without, check_dna_interface, interface_by_id,
  ui_bundle_by_id, dna_by_id, save_remove_instance, check_instance, detect_dupes, agent_by_id,
  check_references,
}
use holochain_rust.Conductor.Checks.{
  found-without, dupes_from-keep, check_references_iff, andthen_iff, known_or_iff, found-keep,
  report_dupes_iff, interface_ids-without, for_each-keep,
}

-- The removed instance is mentioned by a bridge or by the configuration of DPKI.
abbrev pub bridge_mentions : String → Bridge → Bool
bridge_mentions id b = b.callee_id == id || b.caller_id == id

abbrev pub dpki_mentions : String → Option DpkiConfiguration → Bool
dpki_mentions id none = false
dpki_mentions id (some d) = d.instance_id == id

module _ (c : Configuration) (id : String) where
  abbrev removed : Configuration
  removed = record c {
    instances = keep (λ i. not (i.id == id)) c.instances;
    interfaces = map (without id) c.interfaces;
  }

  references-removed :
      (rs : List InstanceReferenceConfiguration)
      → for_each (check_reference c) rs ≡ ok tt
      → for_each (check_reference removed) (keep (λ r. not (r.id == id)) rs) ≡ ok tt
  unfolding check_reference instance_by_id
  references-removed [] h = refl
  references-removed (r ∷ rs) h =
      let (first, others) =
        (andthen_iff (check_reference c r) (for_each (check_reference c) rs)).0 h in
      elim (Bool-cases (r.id == id)) [
        | inl dropped ↦ rw dropped (references-removed rs others)
        | inr kept ↦ rw kept (
            (andthen_iff (check_reference removed r) _).1 (
              (known_or_iff (instance_by_id removed r.id) (instance_missing r.id "interface")).1 (
                  ground (
                    arith,
                    kept,
                    found-keep id r.id c.instances,
                    (known_or_iff (instance_by_id c r.id) (instance_missing r.id "interface")).0
                        first,
                  )),
              references-removed rs others,
            ))
      ]

  interfaces-removed :
      (is : List InterfaceConfiguration)
      → for_each (λ i. for_each (check_reference c) i.instances) is ≡ ok tt
      → for_each (λ i. for_each (check_reference removed) i.instances) (map (without id) is) ≡ ok tt
  interfaces-removed [] h = refl
  interfaces-removed (i ∷ is) h =
      let (first, others) = (andthen_iff (for_each (check_reference c) i.instances) _).0 h in
      (andthen_iff (for_each (check_reference removed) (without id i).instances) _).1
        (references-removed i.instances first, interfaces-removed is others)

  bridge-removed :
      (b : Bridge)
      → check_bridge c b ≡ ok tt
      → (check_bridge removed b ≡ ok tt) ↔ (bridge_mentions id b ≡ false)
  unfolding check_bridge instance_by_id
  bridge-removed b h =
      let (callee, caller) =
        (andthen_iff
            (known_or (instance_by_id c b.callee_id) (instance_missing b.callee_id "bridge"))
            (known_or (instance_by_id c b.caller_id) (instance_missing b.caller_id "bridge"))).0
          h in
      (
        λ q. ground (
          arith,
          found-keep id b.callee_id c.instances,
          found-keep id b.caller_id c.instances,
          andthen_iff
              (known_or (instance_by_id removed b.callee_id)
                (instance_missing b.callee_id "bridge"))
              (known_or (instance_by_id removed b.caller_id)
                (instance_missing b.caller_id "bridge")),
          known_or_iff (instance_by_id removed b.callee_id) (instance_missing b.callee_id "bridge"),
          known_or_iff (instance_by_id removed b.caller_id) (instance_missing b.caller_id "bridge"),
        ),
        λ q. ground (
          arith,
          found-keep id b.callee_id c.instances,
          found-keep id b.caller_id c.instances,
          (known_or_iff (instance_by_id c b.callee_id) (instance_missing b.callee_id "bridge")).0
              callee,
          (known_or_iff (instance_by_id c b.caller_id) (instance_missing b.caller_id "bridge")).0
              caller,
          andthen_iff
              (known_or (instance_by_id removed b.callee_id)
                (instance_missing b.callee_id "bridge"))
              (known_or (instance_by_id removed b.caller_id)
                (instance_missing b.caller_id "bridge")),
          known_or_iff (instance_by_id removed b.callee_id) (instance_missing b.callee_id "bridge"),
          known_or_iff (instance_by_id removed b.caller_id) (instance_missing b.caller_id "bridge"),
        ),
      )

  bridges-removed :
      (bs : List Bridge)
      → for_each (check_bridge c) bs ≡ ok tt
      → (for_each (check_bridge removed) bs ≡ ok tt) ↔ (any (bridge_mentions id) bs ≡ false)
  bridges-removed [] h = (λ q. refl, λ q. refl)
  bridges-removed (b ∷ bs) h =
      let (first, others) = (andthen_iff (check_bridge c b) (for_each (check_bridge c) bs)).0 h in
      let this = bridge-removed b first in
      let those = bridges-removed bs others in
      let joined = andthen_iff (check_bridge removed b) (for_each (check_bridge removed) bs) in
      (
        λ q. ground (arith, this.0 (joined.0 q).0, those.0 (joined.0 q).1),
        λ q. joined.1 (this.1 (ground arith), those.1 (ground arith)),
      )

  dna_interface-removed :
      (ui_id : String) (o : Option String)
      → check_dna_interface c ui_id o ≡ ok tt
      → check_dna_interface removed ui_id o ≡ ok tt
  unfolding interface_by_id
  dna_interface-removed ui_id none h = refl
  dna_interface-removed ui_id (some j) h =
      (known_or_iff (interface_by_id removed j) _).1
        (found-without id j c.interfaces ∙ (known_or_iff (interface_by_id c j) _).0 h)

  ui_interface-removed :
      (u : UiInterfaceConfiguration)
      → check_ui_interface c u ≡ ok tt
      → check_ui_interface removed u ≡ ok tt
  unfolding check_ui_interface ui_bundle_by_id
  ui_interface-removed u h =
      let (bundle, interface) = (andthen_iff _ (check_dna_interface c u.id u.dna_interface)).0 h in
      (andthen_iff _ (check_dna_interface removed u.id u.dna_interface)).1
        (bundle, dna_interface-removed u.id u.dna_interface interface)

  ui-removed :
      (us : List UiInterfaceConfiguration)
      → for_each (check_ui_interface c) us ≡ ok tt
      → for_each (check_ui_interface removed) us ≡ ok tt
  ui-removed [] h = refl
  ui-removed (u ∷ us) h =
      let (first, others) =
        (andthen_iff (check_ui_interface c u) (for_each (check_ui_interface c) us)).0 h in
      (andthen_iff (check_ui_interface removed u) (for_each (check_ui_interface removed) us)).1
        (ui_interface-removed u first, ui-removed us others)

  dpki-removed :
      (d : Option DpkiConfiguration)
      → check_dpki c d ≡ ok tt
      → (check_dpki removed d ≡ ok tt) ↔ (dpki_mentions id d ≡ false)
  unfolding instance_by_id
  dpki-removed none h = (λ q. refl, λ q. refl)
  dpki-removed (some d) h = (
    λ q. ground (
      arith,
      found-keep id d.instance_id c.instances,
      known_or_iff (instance_by_id removed d.instance_id) (instance_missing d.instance_id "dpki"),
    ),
    λ q. ground (
      arith,
      found-keep id d.instance_id c.instances,
      (known_or_iff (instance_by_id c d.instance_id) (instance_missing d.instance_id "dpki")).0 h,
      known_or_iff (instance_by_id removed d.instance_id) (instance_missing d.instance_id "dpki"),
    ),
  )

-- After an instance was removed from a consistent configuration, the references are consistent
-- again exactly if neither a bridge nor the configuration of DPKI mentions the instance: those
-- mentions are not removed with it.
pub save_remove_instance-check_references_iff :
    (c : Configuration) (id : String)
    → check_references c ≡ ok tt
    → (check_references (save_remove_instance c id) ≡ ok tt)
      ↔ ((any (bridge_mentions id) c.bridges || dpki_mentions id c.dpki) ≡ false)
unfolding save_remove_instance check_instance agent_by_id dna_by_id detect_dupes
save_remove_instance-check_references_iff c id h =
    let (
      agents, dnas, instances, interfaces, of_instances, of_interfaces, of_bridges, of_ui, of_dpki,
    ) =
      (check_references_iff c).0 h in
    let fewer = (report_dupes_iff "instance" _).1 (
      dupes_from-keep id [] [] c.instances (λ y m. m)
        ((report_dupes_iff "instance" _).0 instances)) in
    let same_ids =
      ap (detect_dupes "interface") (interface_ids-without id c.interfaces) ∙ interfaces in
    let bridges = bridges-removed c id c.bridges of_bridges in
    let dpki = dpki-removed c id c.dpki of_dpki in
    (
      λ q.
          let (p1, p2, p3, p4, p5, p6, left_bridges, p8, left_dpki) =
            (check_references_iff (removed c id)).0 q in
          ground (arith, bridges.0 left_bridges, dpki.0 left_dpki),
      λ q. (check_references_iff (removed c id)).1 (
        agents,
        dnas,
        fewer,
        same_ids,
        for_each-keep (check_instance c) (λ i. not (i.id == id)) c.instances of_instances,
        interfaces-removed c id c.interfaces of_interfaces,
        bridges.1 (ground arith),
        ui-removed c id c.ui_interfaces of_ui,
        dpki.1 (ground arith),
      ),
    )
