-- ===== src/Loader/Stale.antt =====
-- `list_loader_endpoints` lists every endpoint whose hooks are pinned, and `reconcile` detaches it
-- when it is not wanted.
use mathlib.Core.List.{foldl}
use sarena.Prelude.{
  ◌≡◌, refl, true, false, not, Option, none, some, List, [], ◌∷◌, ◌++◌, map, String, All, keep,
  ◌=?◌, =?_refl, string_eq, pair_eq, arith, Bool-cases, Option-cases, inl, inr,
}
use sarena.Prelude.Map.{Map, get, get-insert, get-insert_self}
use sarena.Prelude.Set.{member, member-insert}
use sarena.Prelude.Set
use sarena.Loader.{
  HookSpec, LoaderEndpointKind, container, host, net_dev, overlay, wireguard, kind_str, kind_eq,
  hooks, PinPath, join, links_dir, endpoint_link_dir, parse_pin_subpath,
}
use sarena.Loader.Calls.{
  Key, match_pin, parent_and_name, programs_of, note_program, note_name, note_pin, is_complete,
}
use sarena.Loader.Mock.{path_eq, strip_prefix, starts_with, pins_below}
use sarena.Loader.Attached.{without_pins, kept_links}
use sarena.Loader.Infos.{member-keep, member-append}
use sarena.Loader.Pins.{from_kind_str-kind_str, All-both}

abbrev programs : Key → Map Key (List String) → List String
programs key m = programs_of (get key m)

match_hooks :
    (k : LoaderEndpointKind) → All (λ spec. match_pin k spec.program_name ≡ some spec) (hooks k)
unfolding match_pin
match_hooks container = (refl, (refl, tt))
match_hooks host = (refl, (refl, tt))
match_hooks net_dev = (refl, (refl, tt))
match_hooks overlay = (refl, (refl, tt))
match_hooks wireguard = (refl, (refl, tt))

is_complete-All :
    (k : LoaderEndpointKind) (l : String) (ps : List String)
    → All (λ spec. member spec.program_name ps ≡ true) (hooks k)
    → is_complete ((k, l), ps) ≡ true
unfolding is_complete
is_complete-All container l ps h = rw (h.0, h.1.0) refl
is_complete-All host l ps h = rw (h.0, h.1.0) refl
is_complete-All net_dev l ps h = rw (h.0, h.1.0) refl
is_complete-All overlay l ps h = rw (h.0, h.1.0) refl
is_complete-All wireguard l ps h = rw (h.0, h.1.0) refl

is_complete-empty : (k : LoaderEndpointKind) (l : String) → is_complete ((k, l), []) ≡ false
unfolding is_complete member
is_complete-empty container l = refl
is_complete-empty host l = refl
is_complete-empty net_dev l = refl
is_complete-empty overlay l = refl
is_complete-empty wireguard l = refl

note_program-keeps :
    (m : Map Key (List String)) (key j : Key) (o : Option HookSpec) (p : String)
    → member p (programs key m) ≡ true
    → member p (programs key (note_program m j o)) ≡ true
note_program-keeps m key j none p h = h
note_program-keeps m key j (some spec) p h = elim (Bool-cases (j =? key)) [
  | inl e ↦
      let same : j ≡ key = (pair_eq.beq_iff j key).0 e in
      let before : member p (programs j m) ≡ true = rw same h in
      rw (get-insert j key (Set.insert spec.program_name (programs j m)) m, e)
        (ground (arith, member-insert spec.program_name p (programs j m), before))
  | inr e ↦ rw (get-insert j key (Set.insert spec.program_name (programs j m)) m, e) h
]

note_name-keeps :
    (m : Map Key (List String)) (key : Key) (name : String) (o : Option Key) (p : String)
    → member p (programs key m) ≡ true
    → member p (programs key (note_name m name o)) ≡ true
note_name-keeps m key name none p h = h
note_name-keeps m key name (some j) p h = note_program-keeps m key j (match_pin j.0 name) p h

note_pin-keeps :
    (m : Map Key (List String)) (key : Key) (rel : PinPath) (p : String)
    → member p (programs key m) ≡ true
    → member p (programs key (note_pin m rel)) ≡ true
unfolding note_pin
note_pin-keeps m key rel p h = elim (Option-cases (parent_and_name rel)) [
  | inl e ↦ rw (e, note_pin) h
  | inr ((parent, name), e) ↦
      rw (e, note_pin) (note_name-keeps m key name (parse_pin_subpath parent) p h)
]

note_pin-has :
    (m : Map Key (List String)) (k : LoaderEndpointKind) (l : String) (spec : HookSpec)
    → match_pin k spec.program_name ≡ some spec
    → member spec.program_name
        (programs (k, l) (note_pin m (kind_str k ∷ l ∷ spec.program_name ∷ [])))
      ≡ true
unfolding note_pin parse_pin_subpath parent_and_name
note_pin-has m k l spec h =
    let noted = Set.insert spec.program_name (programs (k, l) m) in
    rw (from_kind_str-kind_str k) (
      rw (h, get-insert_self (k, l) noted m)
        (ground (
          arith,
          member-insert spec.program_name spec.program_name (programs (k, l) m),
          =?_refl spec.program_name,
        )))

noted_keeps :
    (pins : List PinPath) (m : Map Key (List String)) (key : Key) (p : String)
    → member p (programs key m) ≡ true
    → member p (programs key (foldl note_pin m pins)) ≡ true
unfolding foldl
noted_keeps [] m key p h = h
noted_keeps (rel ∷ pins) m key p h =
    noted_keeps pins (note_pin m rel) key p (note_pin-keeps m key rel p h)

noted_has :
    (pins : List PinPath) (m : Map Key (List String)) (k : LoaderEndpointKind) (l : String)
    (spec : HookSpec)
    → match_pin k spec.program_name ≡ some spec
    → member (kind_str k ∷ l ∷ spec.program_name ∷ []) pins ≡ true
    → member spec.program_name (programs (k, l) (foldl note_pin m pins)) ≡ true
unfolding foldl member
noted_has [] m k l spec f h = absurd (cc h)
noted_has (rel ∷ pins) m k l spec f h =
    let wanted = kind_str k ∷ l ∷ spec.program_name ∷ [] in
    elim (Bool-cases (rel =? wanted)) [
      | inl e ↦
          let same : rel ≡ wanted = (path_eq.beq_iff rel wanted).0 e in
          noted_keeps pins (note_pin m rel) (k, l) spec.program_name
            (rw same (note_pin-has m k l spec f))
      | inr e ↦ noted_has pins (note_pin m rel) k l spec f (rw e at h)
    ]

-- An endpoint whose programs were all matched is listed.
listed_lem :
    (m : Map Key (List String)) (key : Key)
    → is_complete (key, programs key m) ≡ true
    → member key (map (λ e. e.0) (keep is_complete m)) ≡ true
unfolding member get
listed_lem [] (k, l) h = absurd (cc (h, is_complete-empty k l))
listed_lem ((j, v) ∷ m) key h = elim (Bool-cases (j =? key)) [
  | inl e ↦
      let same : j ≡ key = (pair_eq.beq_iff j key).0 e in
      let full : is_complete (j, v) ≡ true = rw same (rw e at h) in rw full (rw e refl)
  | inr e ↦
      let ih = listed_lem m key (rw e at h) in
      elim (Bool-cases (is_complete (j, v))) [ inl c ↦ rw c (rw e ih) | inr c ↦ rw c ih ]
]

pins_below-has :
    (prefix p rel : PinPath) (links : List PinPath)
    → strip_prefix prefix p ≡ some rel
    → member p links ≡ true
    → member rel (pins_below prefix links) ≡ true
unfolding pins_below member
pins_below-has prefix p rel [] e h = absurd (cc h)
pins_below-has prefix p rel (q ∷ links) e h = elim (Bool-cases (q =? p)) [
  | inl same ↦
      let it : strip_prefix prefix q ≡ some rel = rw ((path_eq.beq_iff q p).0 same) e in
      rw (it, pins_below, member) (rw (=?_refl rel) refl)
  | inr other ↦
      let ih = pins_below-has prefix p rel links e (rw other at h) in
      elim (Option-cases (strip_prefix prefix q)) [
        | inl n ↦ rw (n, pins_below) ih
        | inr (r, n) ↦ rw (n, pins_below, member) (ground (arith, ih))
      ]
]

strip_prefix-links_dir :
    (root : PinPath) (k : LoaderEndpointKind) (l program : String)
    → strip_prefix (links_dir root) (join (endpoint_link_dir root k l) program)
      ≡ some (kind_str k ∷ l ∷ program ∷ [])
unfolding strip_prefix
strip_prefix-links_dir [] k l program = refl
strip_prefix-links_dir (c ∷ root) k l program =
    rw (=?_refl c) (strip_prefix-links_dir root k l program)

module _ (root : PinPath) where
  -- Every hook of the kind has its pin.
  abbrev pub IsPinned : List PinPath → Key → Type 0
  IsPinned links key =
      All
        (λ spec. member (join (endpoint_link_dir root key.0 key.1) spec.program_name) links ≡ true)
        (hooks key.0)

  -- What is pinned completely is listed, whatever other pins there are.
  pub listed_IsPinned :
      (others links : List PinPath) (key : Key)
      → IsPinned links key
      → member key (
          map
            (λ e. e.0)
            (keep is_complete (foldl note_pin [] (others ++ pins_below (links_dir root) links))))
        ≡ true
  listed_IsPinned others links (k, l) pinned =
      let pins = others ++ pins_below (links_dir root) links in
      listed_lem (foldl note_pin [] pins) (k, l)
        (is_complete-All k l (programs (k, l) (foldl note_pin [] pins)) (
          All-both (hooks k)
            (λ spec f h.
              let rel = kind_str k ∷ l ∷ spec.program_name ∷ [] in
              noted_has pins [] k l spec f (
                ground (
                  arith,
                  member-append rel others (pins_below (links_dir root) links),
                  pins_below-has (links_dir root)
                      (join (endpoint_link_dir root k l) spec.program_name) rel links
                      (strip_prefix-links_dir root k l spec.program_name) h,
                )))
            (match_hooks k) pinned))

  module _ (p : PinPath) where
    absent_stays :
        (wanted existing : List Key) (links : List PinPath)
        → member p links ≡ false
        → member p (kept_links root wanted existing links) ≡ false
    absent_stays wanted [] links h = h
    absent_stays wanted (key ∷ existing) links h = elim (Bool-cases (member key wanted)) [
      | inl e ↦ rw e (absent_stays wanted existing links h)
      | inr e ↦
          let dir = endpoint_link_dir root key.0 key.1 in
          rw e (
            absent_stays wanted existing (without_pins root key links)
              (ground (arith, member-keep (λ q. not (starts_with q dir)) p links)))
    ]

    -- No pin is left of an endpoint that was listed and is not wanted.
    pub kept_links_detached :
        (wanted existing : List Key) (links : List PinPath) (key : Key)
        → member key existing ≡ true
        → member key wanted ≡ false
        → starts_with p (endpoint_link_dir root key.0 key.1) ≡ true
        → member p (kept_links root wanted existing links) ≡ false
    unfolding member
    kept_links_detached wanted [] links key is_listed stale h = absurd (cc is_listed)
    kept_links_detached wanted (j ∷ existing) links key is_listed stale h =
        elim (Bool-cases (j =? key)) [
          | inl e ↦
              let same : j ≡ key = (pair_eq.beq_iff j key).0 e in
              let dir = endpoint_link_dir root key.0 key.1 in
              rw same (
                rw stale (
                  absent_stays wanted existing (without_pins root key links)
                    (ground (arith, member-keep (λ q. not (starts_with q dir)) p links))))
          | inr e ↦ kept_links_detached wanted existing _ key (rw e at is_listed) stale h
        ]
