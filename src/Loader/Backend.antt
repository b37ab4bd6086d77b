-- ===== src/Loader/Backend.antt =====
-- sarena-data-plane/src/loader/backend.rs: what the loader asks of the kernel, as operations on the
-- backend's state; and the values of sarena-shared that it stores in maps.
use sarena.Prelude.{ℕ, Option, List, String}
use sarena.Prelude.Map.{Map}
use sarena.Net.{IpAddr}
use sarena.Endpoint.Error.{Res, ok, err}
use sarena.Endpoint.IdAllocator.{EndpointId}
use sarena.Endpoint.Persist.{EndpointPersist}
use sarena.Loader.{Hook, PinPath}

pub record EndpointConfig : Type 0 where
  pub endpoint_id : EndpointId
  pub host_mac : List ℕ
  pub ipv4 : Option ℕ
  pub ipv6 : Option ℕ

pub record EndpointInfo : Type 0 where
  pub endpoint_id : EndpointId
  pub if_index : ℕ
  pub container_mac : List ℕ
  pub host_mac : List ℕ

-- A method of `&mut self` that can fail: the new state and the answer.
abbrev pub Method : Type 0 → Type 0 → Type 0
Method S A = S → S × Res A

pub record BpfBackend : Type 1 where
  pub Backend : Type 0
  pub Instance : Type 0
  pub LinkType : Type 0
  pub ifname : LinkType → String
  pub ifindex : LinkType → ℕ
  pub resolve_link : String → Method Backend LinkType
  pub load_global_maps : Map String PinPath → Method Backend Instance
  pub load_instance : String → Map String PinPath → Method Backend Instance
  pub ensure_attached : Instance → String → Hook → LinkType → PinPath → Method Backend (Unit {0})
  pub unpin_map : PinPath → Method Backend (Unit {0})
  pub remove_pin_dir : PinPath → Method Backend (Unit {0})
  pub list_pins : PinPath → Backend → Res (List PinPath)
  pub set_endpoint_config : String → EndpointConfig → Method Backend (Unit {0})
  pub upsert_endpoint_info : EndpointPersist → EndpointInfo → Method Backend (Unit {0})
  pub remove_endpoint_info : IpAddr → Method Backend (Unit {0})
  pub list_endpoint_infos : Backend → Res (Map IpAddr EndpointInfo)
  pub stop_logging : String → Backend → Backend
  pub stop_all_logging : Backend → Backend

-- `?` on the answer of a method.
infixl 5 ◌>>=◌
abbrev pub ◌>>=◌ : {S A B : Type 0} → Method S A → (A → Method S B) → Method S B
◌>>=◌ m f s = let (s', answer) = m s in elim answer [ err e ↦ (s', err e) | ok a ↦ f a s' ]

abbrev pub pure : {S A : Type 0} → A → Method S A
pure a s = (s, ok a)
