-- ===== src/Endpoint/Service/Request.antt =====
-- What `check_request` finds of a request: its addresses, or why it is refused.
use sarena.Prelude.{ℕ, ◌≡◌, ◌⊎◌, refl, inl, inr, none, some, true, String, Option, Option-cases}
use sarena.Net.{IpAddr, v4, v6}
use sarena.Endpoint.IdAllocator.{EndpointId}
use sarena.Endpoint.IdAllocator
use sarena.Endpoint.Manager.{
  EndpointManager, lookup_container_id, lookup_ipv4, lookup_ipv6, endpoint_exists,
}
use sarena.Endpoint.Service.{
  Addressing, EndpointCreateRequest, EndpointError, ServiceRes, done, failed, ◌>>=◌, AddressParsers,
  parse_ip, parse_ipv4, parse_ipv6, as_ipv4, as_ipv6, refuse_used, check_ipv4, check_ipv6,
  check_request,
}

-- The address that the parsers read in a text: the network's, or else the plain one.
abbrev pub Reads : AddressParsers → String → IpAddr → Type 0
Reads P text a = (P.net_addr text ≡ some a) ⊎ ((P.net_addr text ≡ none) × (P.ip_addr text ≡ some a))

-- The address of a family that a request asks for, if it asks for one.
abbrev pub Asks : AddressParsers → (ℕ → IpAddr) → Option Addressing → Option ℕ → Type 0
Asks P of_number none o = o ≡ none
Asks P of_number (some addr) o = (ip : ℕ) × (o ≡ some ip) × Reads P addr.ip (of_number ip)

-- The text is no address, or one of the other family.
abbrev pub IsBad : AddressParsers → (ℕ → IpAddr) → Addressing → Type 0
IsBad P other addr =
    ((P.net_addr addr.ip ≡ none) × (P.ip_addr addr.ip ≡ none))
    ⊎ ((ip : ℕ) × Reads P addr.ip (other ip))

-- The reasons for which `create` enters no endpoint.
pub data Refused (P : AddressParsers) (pick : ℕ) (request : EndpointCreateRequest)
    (m : EndpointManager) : Type 0 where
  container_used :
      (j : EndpointId)
      → lookup_container_id request.container_id m.inner ≡ some j
      → Refused P pick request m
  ipv4_bad :
      (addr : Addressing) → request.ipv4 ≡ some addr → IsBad P v6 addr → Refused P pick request m
  ipv6_bad :
      (addr : Addressing) → request.ipv6 ≡ some addr → IsBad P v4 addr → Refused P pick request m
  ipv4_used :
      (ip : ℕ) (j : EndpointId)
      → Asks P v4 request.ipv4 (some ip)
      → lookup_ipv4 ip m.inner ≡ some j
      → Refused P pick request m
  ipv6_used :
      (ip : ℕ) (j : EndpointId)
      → Asks P v6 request.ipv6 (some ip)
      → lookup_ipv6 ip m.inner ≡ some j
      → Refused P pick request m
  no_id : (IdAllocator.allocate pick m.id_allocator).1 ≡ none → Refused P pick request m
  id_used :
      (id : EndpointId)
      → (IdAllocator.allocate pick m.id_allocator).1 ≡ some id
      → endpoint_exists id m ≡ true
      → Refused P pick request m

-- `?`, with what is known of the answer on both branches.
>>=-cases :
    {A B : Type 0} (R : ServiceRes A → Type 0) (Q : ServiceRes B → Type 0) (m : ServiceRes A)
    (f : A → ServiceRes B)
    → R m
    → ((e : EndpointError) → R (failed e) → Q (failed e))
    → ((a : A) → R (done a) → Q (f a))
    → Q (m >>= f)
>>=-cases R Q (done a) f r g h = h a r
>>=-cases R Q (failed e) f r g h = g e r

abbrev UsedBy : Option EndpointId → ServiceRes (Unit {0}) → Type 0
UsedBy o (done u) = o ≡ none
UsedBy o (failed e) = (j : EndpointId) × (o ≡ some j)

refuse_used-UsedBy : (o : Option EndpointId) (text : String) → UsedBy o (refuse_used o text)
refuse_used-UsedBy none text = refl
refuse_used-UsedBy (some j) text = (j, refl)

-- No endpoint has the address that is asked for.
abbrev pub IsFree : (ℕ → Option EndpointId) → Option ℕ → Type 0
IsFree lookup o = (ip : ℕ) → o ≡ some ip → lookup ip ≡ none

abbrev FreeOr : (ℕ → Option EndpointId) → Option ℕ → ServiceRes (Unit {0}) → Type 0
FreeOr lookup o (done u) = IsFree lookup o
FreeOr lookup o (failed e) = (ip : ℕ) × (o ≡ some ip) × ((j : EndpointId) × (lookup ip ≡ some j))

FreeOr-refuse :
    (lookup : ℕ → Option EndpointId) (ip : ℕ) (r : ServiceRes (Unit {0}))
    → UsedBy (lookup ip) r
    → FreeOr lookup (some ip) r
FreeOr-refuse lookup ip (done u) h = λ k e. let same : ip ≡ k = cc e in rw same at h
FreeOr-refuse lookup ip (failed e) h = (ip, refl, h)

check_ipv4-FreeOr :
    (o : Option ℕ) (m : EndpointManager) → FreeOr (λ ip. lookup_ipv4 ip m.inner) o (check_ipv4 o m)
check_ipv4-FreeOr none m = λ ip e. absurd (cc e)
check_ipv4-FreeOr (some ip) m =
    FreeOr-refuse (λ k. lookup_ipv4 k m.inner) ip _ (refuse_used-UsedBy (lookup_ipv4 ip m.inner) _)

check_ipv6-FreeOr :
    (o : Option ℕ) (m : EndpointManager) → FreeOr (λ ip. lookup_ipv6 ip m.inner) o (check_ipv6 o m)
check_ipv6-FreeOr none m = λ ip e. absurd (cc e)
check_ipv6-FreeOr (some ip) m =
    FreeOr-refuse (λ k. lookup_ipv6 k m.inner) ip _ (refuse_used-UsedBy (lookup_ipv6 ip m.inner) _)

module _ (P : AddressParsers) where
  abbrev Parsed : String → ServiceRes IpAddr → Type 0
  Parsed text (done a) = Reads P text a
  Parsed text (failed e) = (P.net_addr text ≡ none) × (P.ip_addr text ≡ none)

  parse_ip-Parsed : (text : String) → Parsed text (parse_ip P text)
  parse_ip-Parsed text = elim (Option-cases (P.net_addr text)) [
    | inr (a, e) ↦ rw (e, parse_ip) (inl e)
    | inl n ↦ elim (Option-cases (P.ip_addr text)) [
      | inr (a, e) ↦ rw (n, e, parse_ip) (inr (n, e))
      | inl e ↦ rw (n, e, parse_ip) (n, e)
    ]
  ]

  abbrev AsksOr : (ℕ → IpAddr) → (ℕ → IpAddr) → Option Addressing → ServiceRes (Option ℕ) → Type 0
  AsksOr mine other o (done x) = Asks P mine o x
  AsksOr mine other o (failed e) = (addr : Addressing) × (o ≡ some addr) × IsBad P other addr

  as_ipv4-AsksOr :
      (addr : Addressing) (a : IpAddr) → Reads P addr.ip a → AsksOr v4 v6 (some addr) (as_ipv4 a)
  as_ipv4-AsksOr addr (v4 ip) r = (ip, refl, r)
  as_ipv4-AsksOr addr (v6 ip) r = (addr, refl, inr (ip, r))

  as_ipv6-AsksOr :
      (addr : Addressing) (a : IpAddr) → Reads P addr.ip a → AsksOr v6 v4 (some addr) (as_ipv6 a)
  as_ipv6-AsksOr addr (v6 ip) r = (ip, refl, r)
  as_ipv6-AsksOr addr (v4 ip) r = (addr, refl, inr (ip, r))

  parse_ipv4-AsksOr : (o : Option Addressing) → AsksOr v4 v6 o (parse_ipv4 P o)
  unfolding parse_ipv4
  parse_ipv4-AsksOr none = refl
  parse_ipv4-AsksOr (some addr) =
      >>=-cases (Parsed addr.ip) (AsksOr v4 v6 (some addr)) (parse_ip P addr.ip) as_ipv4
        (parse_ip-Parsed addr.ip) (λ e bad. (addr, refl, inl bad)) (as_ipv4-AsksOr addr)

  parse_ipv6-AsksOr : (o : Option Addressing) → AsksOr v6 v4 o (parse_ipv6 P o)
  unfolding parse_ipv6
  parse_ipv6-AsksOr none = refl
  parse_ipv6-AsksOr (some addr) =
      >>=-cases (Parsed addr.ip) (AsksOr v6 v4 (some addr)) (parse_ip P addr.ip) as_ipv6
        (parse_ip-Parsed addr.ip) (λ e bad. (addr, refl, inl bad)) (as_ipv6-AsksOr addr)

  module _ (pick : ℕ) (request : EndpointCreateRequest) (m : EndpointManager) where
    abbrev pub Passes : ServiceRes (Option ℕ × Option ℕ) → Type 0
    Passes (failed e) = Refused P pick request m
    Passes (done (ipv4, ipv6)) =
        Asks P v4 request.ipv4 ipv4
        × Asks P v6 request.ipv6 ipv6
        × (lookup_container_id request.container_id m.inner ≡ none)
        × IsFree (λ ip. lookup_ipv4 ip m.inner) ipv4
        × IsFree (λ ip. lookup_ipv6 ip m.inner) ipv6

    abbrev asked :
        (mine : ℕ → IpAddr) (o : Option Addressing) (x : Option ℕ) (ip : ℕ)
        → Asks P mine o x
        → x ≡ some ip
        → Asks P mine o (some ip)
    asked mine o x ip h e = rw e at h

    pub check_request-Passes : Passes (check_request P request m)
    unfolding check_request
    check_request-Passes =
        >>=-cases (UsedBy (lookup_container_id request.container_id m.inner)) Passes _ _
          (refuse_used-UsedBy (lookup_container_id request.container_id m.inner) _)
          (λ e (j, used). container_used j used)
          λ u1 new.
            >>=-cases (AsksOr v4 v6 request.ipv4) Passes (parse_ipv4 P request.ipv4) _
              (parse_ipv4-AsksOr request.ipv4) (λ e (addr, is, bad). ipv4_bad addr is bad)
              λ ipv4 asks4.
                >>=-cases (AsksOr v6 v4 request.ipv6) Passes (parse_ipv6 P request.ipv6) _
                  (parse_ipv6-AsksOr request.ipv6) (λ e (addr, is, bad). ipv6_bad addr is bad)
                  λ ipv6 asks6.
                    >>=-cases (FreeOr (λ ip. lookup_ipv4 ip m.inner) ipv4) Passes
                      (check_ipv4 ipv4 m) _ (check_ipv4-FreeOr ipv4 m)
                      (λ e (ip, is, (j, used)).
                        ipv4_used ip j (asked v4 request.ipv4 ipv4 ip asks4 is) used)
                      λ u2 free4.
                        >>=-cases (FreeOr (λ ip. lookup_ipv6 ip m.inner) ipv6) Passes
                          (check_ipv6 ipv6 m) _ (check_ipv6-FreeOr ipv6 m)
                          (λ e (ip, is, (j, used)).
                            ipv6_used ip j (asked v6 request.ipv6 ipv6 ip asks6 is) used)
                          λ u3 free6. (asks4, asks6, new, free4, free6)
