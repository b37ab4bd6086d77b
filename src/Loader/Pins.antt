-- ===== src/Loader/Pins.antt =====
-- Which pins the loader's steps leave: attaching adds pins only, and detaching an endpoint keeps those
-- of the others.
use sarena.Prelude.{
  ◌≡◌, ◌≢◌, refl, ap, sym, ◌∙◌, true, not, some, List, [], ◌∷◌, map, String, All, =?_refl,
  string_eq, pair_eq, arith, Bool-cases, inl, inr,
}
use sarena.Prelude.Set.{member, member-insert}
use sarena.Prelude.Set
use sarena.Loader.{
  HookSpec, LoaderEndpointKind, container, host, net_dev, overlay, wireguard, kind_str, kind_eq,
  from_kind_str, hooks, LoaderEndpoint, endpoint_kind, endpoint_link, PinPath, join,
  endpoint_link_dir,
}
use sarena.Loader.Calls.{Key, key_of}
use sarena.Loader.Mock.{path_eq, strip_prefix, starts_with}
use sarena.Loader.Attached.{pin_all, added_links, all_links, without_pins, kept_links}
use sarena.Loader.Infos.{member-keep}

module _ {A : Type 0} {P Q R : A → Type 0} where
  pub All-both : (xs : List A) → ((a : A) → P a → Q a → R a) → All P xs → All Q xs → All R xs
  All-both [] f ps qs = tt
  All-both (x ∷ xs) f ps qs = (f x ps.0 qs.0, All-both xs f ps.1 qs.1)

module _ {A : Type 0} {P Q : A → Type 0} where
  pub All-map : (xs : List A) → ((a : A) → P a → Q a) → All P xs → All Q xs
  All-map [] f ps = tt
  All-map (x ∷ xs) f ps = (f x ps.0, All-map xs f ps.1)

pub from_kind_str-kind_str : (k : LoaderEndpointKind) → from_kind_str (kind_str k) ≡ some k
unfolding from_kind_str
from_kind_str-kind_str container = refl
from_kind_str-kind_str host = refl
from_kind_str-kind_str net_dev = refl
from_kind_str-kind_str overlay = refl
from_kind_str-kind_str wireguard = refl

kind_str_injective : (k j : LoaderEndpointKind) → kind_str k ≡ kind_str j → k ≡ j
kind_str_injective k j e =
    let same : some k ≡ some j =
      sym (from_kind_str-kind_str k) ∙ ap from_kind_str e ∙ from_kind_str-kind_str j in
    cc same

-- A pin of one endpoint stands in the directory of another only if both are the same.
starts_with-endpoint_link_dir :
    (root : PinPath) (k : LoaderEndpointKind) (l program : String) (key : Key)
    → starts_with (join (endpoint_link_dir root k l) program) (endpoint_link_dir root key.0 key.1)
      ≡ true
    → key ≡ (k, l)
unfolding strip_prefix
starts_with-endpoint_link_dir [] k l program (k', l') h =
    let same : (kind_str k' ≡ kind_str k) × (l' ≡ l) =
      ground (arith, string_eq.beq_iff (kind_str k') (kind_str k), string_eq.beq_iff l' l) in
    let kinds = kind_str_injective k' k same.0 in cc (kinds, same.1)
starts_with-endpoint_link_dir (c ∷ root) k l program key h =
    starts_with-endpoint_link_dir root k l program key (ground (arith, string_eq.beq_iff c c))

module _ (p : PinPath) where
  member-pin_all :
      (dir : PinPath) (specs : List HookSpec) (links : List PinPath)
      → member p links ≡ true
      → member p (pin_all dir specs links) ≡ true
  member-pin_all dir [] links h = h
  member-pin_all dir (spec ∷ specs) links h =
      let q = join dir spec.program_name in
      member-pin_all dir specs (Set.insert q links) (ground (arith, member-insert q p links))

  pub member-all_links :
      (root : PinPath) (desired : List LoaderEndpoint) (links : List PinPath)
      → member p links ≡ true
      → member p (all_links root desired links) ≡ true
  member-all_links root [] links h = h
  member-all_links root (e ∷ desired) links h =
      member-all_links root desired (added_links root e links) (
        member-pin_all (endpoint_link_dir root (endpoint_kind e) (endpoint_link e))
          (hooks (endpoint_kind e)) links h)

member-pin_all_self :
    (dir : PinPath) (specs : List HookSpec) (links : List PinPath)
    → All (λ spec. member (join dir spec.program_name) (pin_all dir specs links) ≡ true) specs
member-pin_all_self dir [] links = tt
member-pin_all_self dir (spec ∷ specs) links =
    let q = join dir spec.program_name in
    (
      member-pin_all q dir specs (Set.insert q links)
          (ground (arith, member-insert q q links, path_eq.beq_iff q q)),
      member-pin_all_self dir specs (Set.insert q links),
    )

module _ (root : PinPath) where
  -- Every hook of the endpoint's kind has its pin.
  abbrev pub IsAttached : List PinPath → LoaderEndpoint → Type 0
  IsAttached links e =
      All
        (λ spec.
          member
            (join (endpoint_link_dir root (endpoint_kind e) (endpoint_link e)) spec.program_name)
            links
          ≡ true)
        (hooks (endpoint_kind e))

  pub all_links-IsAttached :
      (desired : List LoaderEndpoint) (links : List PinPath)
      → All (IsAttached (all_links root desired links)) desired
  all_links-IsAttached [] links = tt
  all_links-IsAttached (e ∷ desired) links =
      let dir = endpoint_link_dir root (endpoint_kind e) (endpoint_link e) in
      (
        All-map (hooks (endpoint_kind e))
            (λ spec.
              member-all_links (join dir spec.program_name) root desired (added_links root e links))
            (member-pin_all_self dir (hooks (endpoint_kind e)) links),
        all_links-IsAttached desired (added_links root e links),
      )

  member-without_pins :
      (k : LoaderEndpointKind) (l program : String) (key : Key) (links : List PinPath)
      → key ≢ (k, l)
      → member (join (endpoint_link_dir root k l) program) links ≡ true
      → member (join (endpoint_link_dir root k l) program) (without_pins root key links) ≡ true
  member-without_pins k l program key links other h =
      let p = join (endpoint_link_dir root k l) program in
      let dir = endpoint_link_dir root key.0 key.1 in
      elim (Bool-cases (starts_with p dir)) [
        | inl e ↦ absurd (other (starts_with-endpoint_link_dir root k l program key e))
        | inr e ↦ ground (arith, member-keep (λ q. not (starts_with q dir)) p links)
      ]

  member-kept_links :
      (k : LoaderEndpointKind) (l program : String) (wanted existing : List Key)
      (links : List PinPath)
      → member (k, l) wanted ≡ true
      → member (join (endpoint_link_dir root k l) program) links ≡ true
      → member (join (endpoint_link_dir root k l) program) (kept_links root wanted existing links)
        ≡ true
  member-kept_links k l program wanted [] links w h = h
  member-kept_links k l program wanted (key ∷ existing) links w h =
      elim (Bool-cases (member key wanted)) [
        | inl e ↦ rw e (member-kept_links k l program wanted existing links w h)
        | inr e ↦ rw e (
            member-kept_links k l program wanted existing (without_pins root key links) w
              (member-without_pins k l program key links (λ same. cc) h))
      ]

  pub kept_links-IsAttached :
      (e : LoaderEndpoint) (wanted existing : List Key) (links : List PinPath)
      → member (key_of e) wanted ≡ true
      → IsAttached links e
      → IsAttached (kept_links root wanted existing links) e
  kept_links-IsAttached e wanted existing links w h =
      All-map (hooks (endpoint_kind e))
        (λ spec.
          member-kept_links (endpoint_kind e) (endpoint_link e) spec.program_name wanted existing
            links w)
        h

pub wanted-All :
    (desired : List LoaderEndpoint) (wanted : List Key)
    → ((key : Key) → member key (map key_of desired) ≡ true → member key wanted ≡ true)
    → All (λ e. member (key_of e) wanted ≡ true) desired
unfolding member
wanted-All [] wanted f = tt
wanted-All (e ∷ desired) wanted f = (
  f (key_of e) (ground (arith, =?_refl (key_of e))),
  wanted-All desired wanted (λ key h. f key (ground arith)),
)
