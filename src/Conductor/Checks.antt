-- ===== src/Conductor/Checks.antt =====
-- The steps of the check of a configuration, each from its parts.
use holochain_rust.Prelude.HashMap
use holochain_rust.Prelude.{
  Bool-cases, ◌==◌, keep, find, any, ok, err, String, ◌≡◌, refl, ap, ◌↔◌, inl, inr, Bool, true,
  false, not, ◌&&◌, Option, none, some, List, [], ◌∷◌, map, arith, eq_iff, string_eq,
}
use holochain_rust.Conductor.{
  Checked, ◌andthen◌, InterfaceConfiguration, InstanceConfiguration, report_dupes, dupes_from,
  check_dpki, for_each, check_bridge, check_reference, Configuration, known_or, check_ui_interface,
  without, check_instance, detect_dupes, check_references,
}

pub andthen_iff : (a b : Checked) → (a andthen b ≡ ok tt) ↔ ((a ≡ ok tt) × (b ≡ ok tt))
andthen_iff (err e) b = (λ h. ground arith, λ h. h.0)
andthen_iff (ok x) b = (λ h. (refl, h), λ h. h.1)

pub known_or_iff :
    {A : Type 0} (o : Option A) (text : String)
    → (known_or o text ≡ ok tt) ↔ (HashMap.is_some o ≡ true)
known_or_iff none text = (λ h. ground arith, λ h. ground arith)
known_or_iff (some a) text = (λ h. refl, λ h. refl)

pub found-keep :
    (id j : String) (xs : List InstanceConfiguration)
    → HashMap.is_some (find (λ i. i.id == j) (keep (λ i. not (i.id == id)) xs))
      ≡ (not (j == id) && HashMap.is_some (find (λ i. i.id == j) xs))
found-keep id j [] = ground arith
found-keep id j (x ∷ xs) =
    ground (arith, found-keep id j xs, eq_iff x.id j, eq_iff x.id id, eq_iff j id)

pub for_each-keep :
    {A : Type 0} (f : A → Checked) (p : A → Bool) (xs : List A)
    → for_each f xs ≡ ok tt
    → for_each f (keep p xs) ≡ ok tt
for_each-keep f p [] h = refl
for_each-keep f p (x ∷ xs) h =
    let (first, others) = (andthen_iff (f x) (for_each f xs)).0 h in
    elim (Bool-cases (p x)) [
      | inl kept ↦ rw kept ((andthen_iff (f x) _).1 (first, for_each-keep f p xs others))
      | inr dropped ↦ rw dropped (for_each-keep f p xs others)
    ]

dupes_from-cons_iff :
    (set : List String) (x : String) (xs : List String)
    → (dupes_from set (x ∷ xs) ≡ [])
      ↔ ((any (λ y. y == x) set ≡ false) × (dupes_from (x ∷ set) xs ≡ []))
unfolding dupes_from
dupes_from-cons_iff set x xs = elim (Bool-cases (any (λ y. y == x) set)) [
  | inl found ↦ (λ h. ground arith, λ h. ground arith)
  | inr new ↦ (λ h. ground arith, λ h. ground arith)
]

-- What is in the one set is in the other.
abbrev Within : List String → List String → Type 0
Within set' set = (y : String) → any (λ z. z == y) set' ≡ true → any (λ z. z == y) set ≡ true

not-Within :
    (set set' : List String) (x : String)
    → Within set' set
    → any (λ z. z == x) set ≡ false
    → any (λ z. z == x) set' ≡ false
not-Within set set' x sub h = elim (Bool-cases (any (λ z. z == x) set')) [
  | inl found ↦ absurd (ground (arith, sub x found))
  | inr new ↦ new
]

pub dupes_from-keep :
    (id : String) (set set' : List String) (xs : List InstanceConfiguration)
    → Within set' set
    → dupes_from set (map (λ i. i.id) xs) ≡ []
    → dupes_from set' (map (λ i. i.id) (keep (λ i. not (i.id == id)) xs)) ≡ []
unfolding dupes_from
dupes_from-keep id set set' [] sub h = refl
dupes_from-keep id set set' (x ∷ xs) sub h =
    let (new, others) = (dupes_from-cons_iff set x.id (map (λ i. i.id) xs)).0 h in
    elim (Bool-cases (x.id == id)) [
      | inl dropped ↦
          let wider : Within set' (x.id ∷ set) = λ y m. ground (arith, sub y m) in
          ground (arith, dropped, dupes_from-keep id (x.id ∷ set) set' xs wider others)
      | inr kept ↦
          let both : Within (x.id ∷ set') (x.id ∷ set) = λ y m. ground (arith, sub y) in
          let rest = dupes_from-keep id (x.id ∷ set) (x.id ∷ set') xs both others in
          let made =
            (dupes_from-cons_iff set' x.id (map (λ i. i.id) (keep (λ i. not (i.id == id)) xs))).1
              (not-Within set set' x.id sub new, rest) in
          ground (arith, kept, made)
    ]

pub report_dupes_iff :
    (name : String) (ds : List String) → (report_dupes name ds ≡ ok tt) ↔ (ds ≡ [])
report_dupes_iff name [] = (λ h. refl, λ h. refl)
report_dupes_iff name (x ∷ xs) = (λ h. ground arith, λ h. ground arith)

pub interface_ids-without :
    (id : String) (xs : List InterfaceConfiguration)
    → map (λ i. i.id) (map (without id) xs) ≡ map (λ i. i.id) xs
interface_ids-without id [] = refl
interface_ids-without id (x ∷ xs) = ap (λ l. x.id ∷ l) (interface_ids-without id xs)

pub found-without :
    (id j : String) (xs : List InterfaceConfiguration)
    → HashMap.is_some (find (λ i. i.id == j) (map (without id) xs))
      ≡ HashMap.is_some (find (λ i. i.id == j) xs)
found-without id j [] = refl
found-without id j (x ∷ xs) = ground (arith, found-without id j xs)

chain_iff :
    (a b d e f g h i j : Checked)
    → (a andthen b andthen d andthen e andthen f andthen g andthen h andthen i andthen j ≡ ok tt)
      ↔ ((a ≡ ok tt)
          × (b ≡ ok tt)
          × (d ≡ ok tt)
          × (e ≡ ok tt)
          × (f ≡ ok tt)
          × (g ≡ ok tt)
          × (h ≡ ok tt)
          × (i ≡ ok tt)
          × (j ≡ ok tt))
chain_iff a b d e f g h i j = (
  λ q.
      let (qa, r1) = (andthen_iff a _).0 q in
      let (qb, r2) = (andthen_iff b _).0 r1 in
      let (qd, r3) = (andthen_iff d _).0 r2 in
      let (qe, r4) = (andthen_iff e _).0 r3 in
      let (qf, r5) = (andthen_iff f _).0 r4 in
      let (qg, r6) = (andthen_iff g _).0 r5 in
      let (qh, r7) = (andthen_iff h _).0 r6 in
      let (qi, qj) = (andthen_iff i j).0 r7 in (qa, qb, qd, qe, qf, qg, qh, qi, qj),
  λ (qa, qb, qd, qe, qf, qg, qh, qi, qj). (andthen_iff a _).1 (
    qa,
    (andthen_iff b _).1 (
      qb,
      (andthen_iff d _).1 (
        qd,
        (andthen_iff e _).1 (
          qe,
          (andthen_iff f _).1 (
            qf,
            (andthen_iff g _).1 (qg, (andthen_iff h _).1 (qh, (andthen_iff i j).1 (qi, qj))),
          ),
        ),
      ),
    ),
  ),
)

-- The parts of the check
abbrev pub Parts : Configuration → Type 0
Parts c =
    (detect_dupes "agent" (map (λ a. a.id) c.agents) ≡ ok tt)
    × (detect_dupes "dna" (map (λ d. d.id) c.dnas) ≡ ok tt)
    × (detect_dupes "instance" (map (λ i. i.id) c.instances) ≡ ok tt)
    × (detect_dupes "interface" (map (λ i. i.id) c.interfaces) ≡ ok tt)
    × (for_each (check_instance c) c.instances ≡ ok tt)
    × (for_each (λ i. for_each (check_reference c) i.instances) c.interfaces ≡ ok tt)
    × (for_each (check_bridge c) c.bridges ≡ ok tt)
    × (for_each (check_ui_interface c) c.ui_interfaces ≡ ok tt)
    × (check_dpki c c.dpki ≡ ok tt)

pub check_references_iff : (c : Configuration) → (check_references c ≡ ok tt) ↔ Parts c
unfolding check_references
check_references_iff c =
    chain_iff (detect_dupes "agent" (map (λ a. a.id) c.agents))
      (detect_dupes "dna" (map (λ d. d.id) c.dnas))
      (detect_dupes "instance" (map (λ i. i.id) c.instances))
      (detect_dupes "interface" (map (λ i. i.id) c.interfaces))
      (for_each (check_instance c) c.instances)
      (for_each (λ i. for_each (check_reference c) i.instances) c.interfaces)
      (for_each (check_bridge c) c.bridges) (for_each (check_ui_interface c) c.ui_interfaces)
      (check_dpki c c.dpki)
