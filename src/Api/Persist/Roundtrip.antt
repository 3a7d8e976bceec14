-- ===== src/Api/Persist/Roundtrip.antt =====
-- What was saved is what a restart loads.
use Prim.Native.String.{String}
use franka_deploy.Common.{◌≡◌, refl, Option, none, some, List, Numpy, true}
use franka_deploy.Schema.Json.{Json, object, array, Fields, get}
use franka_deploy.Schema.Spec.{RequestSpec}
use franka_deploy.Schema.Serialize.{
  each, as_list, items_of, request_spec_from_dict, request_spec_to_dict,
}
use franka_deploy.Schema.Serialize.Roundtrip.{
  each-items_of, strings_back, request_spec_from_dict-request_spec_to_dict,
}
use franka_deploy.Control.Config.{LoopConfig}
use franka_deploy.Api.State.{AppConfig, CameraConfig}
use franka_deploy.Api.Persist.{
  camera_to_dict, camera_from_dict, loop_to_dict, loop_from_dict, config_to_dict, load_saved,
  save_config, load_config_into, truthy, Changing, and_then, if_in, if_truthy, set_from, set_limits,
  set_cameras, set_spec, set_loop, spec_of,
}

camera_from_dict-camera_to_dict :
    (c : CameraConfig) → camera_from_dict (object (camera_to_dict c)) ≡ some c
unfolding camera_from_dict camera_to_dict get
camera_from_dict-camera_to_dict c = rw (strings_back c.serial) refl

loop_from_dict-loop_to_dict :
    (np : Numpy) (c : LoopConfig) → loop_from_dict np (object (loop_to_dict c)) ≡ some c
unfolding loop_from_dict loop_to_dict get
loop_from_dict-loop_to_dict np c = refl

-- A specification that was saved, or else the one that is there.
abbrev pub or_else : Option RequestSpec → Option RequestSpec → Option RequestSpec
or_else none present = present
or_else (some s) present = some s

spec_back :
    (np : Numpy) (s : RequestSpec) → request_spec_from_dict np (request_spec_to_dict s) ≡ some s
spec_back np s = request_spec_from_dict-request_spec_to_dict np s

camera_list_back :
    (cs : List CameraConfig)
    → each camera_from_dict (items_of (λ c. object (camera_to_dict c)) cs) ≡ some cs
camera_list_back cs =
    each-items_of camera_from_dict (λ c. object (camera_to_dict c)) camera_from_dict-camera_to_dict
      cs

-- The dicts of a specification and of a loop have keys.
spec_truthy : (s : RequestSpec) → truthy (object (request_spec_to_dict s)) ≡ true
unfolding request_spec_to_dict
spec_truthy s = refl

loop_truthy : (c : LoopConfig) → truthy (object (loop_to_dict c)) ≡ true
unfolding loop_to_dict
loop_truthy c = refl

-- A change that went through goes on with the next.
and_then-true :
    (m : Changing) (cfg : AppConfig) (change : AppConfig → Changing) (out : Changing)
    → m ≡ (cfg, true)
    → change cfg ≡ out
    → and_then m change ≡ out
and_then-true m cfg change out h k = rw h k

module _ {A : Type 0} (k : String) (saved : Fields) (j : Json) (here : get k saved ≡ some j)
    (read : Json → Option A) (a : A) (good : read j ≡ some a) (assign : A → AppConfig → AppConfig)
    (cfg : AppConfig) where
  if_in-set_from : if_in k saved (set_from read assign) cfg ≡ (assign a cfg, true)
  if_in-set_from = rw (here, if_in) (rw (good, set_from) refl)

  if_truthy-set_from :
      truthy j ≡ true → if_truthy k saved (set_from read assign) cfg ≡ (assign a cfg, true)
  if_truthy-set_from t = rw (here, if_truthy) (rw t (rw (good, set_from) refl))

set_limits-config_to_dict :
    (np : Numpy) (cfg c : AppConfig)
    → set_limits np (config_to_dict cfg) c ≡ (
      record c {
        v_max = cfg.v_max;
        a_max = cfg.a_max;
        j_max = cfg.j_max;
        filter_wn = cfg.filter_wn;
      },
      true,
    )
unfolding config_to_dict get
set_limits-config_to_dict np cfg c = refl

-- The steps of a load of what was saved.
module _ (np : Numpy) (cfg : AppConfig) where
  load_cameras :
      (c : AppConfig)
      → if_in "cameras" (config_to_dict cfg) (set_cameras np) c
        ≡ (record c { cameras = cfg.cameras }, true)
  unfolding config_to_dict get
  load_cameras c =
      if_in-set_from "cameras" (config_to_dict cfg)
        (array (items_of (λ k. object (camera_to_dict k)) cfg.cameras)) refl
        (as_list camera_from_dict) cfg.cameras (camera_list_back cfg.cameras)
        (λ cs k. record k { cameras = cs }) c

  load_loop :
      (c : AppConfig)
      → if_truthy "loop" (config_to_dict cfg) (set_loop np) c ≡ (record c { loop = cfg.loop }, true)
  unfolding config_to_dict get
  load_loop c =
      if_truthy-set_from "loop" (config_to_dict cfg) (object (loop_to_dict cfg.loop)) refl
        (loop_from_dict np) cfg.loop (loop_from_dict-loop_to_dict np cfg.loop)
        (λ l k. record k { loop = l }) c (loop_truthy cfg.loop)

  load_spec :
      (c : AppConfig) (o : Option RequestSpec)
      → cfg.request_spec ≡ o
      → if_truthy "request_spec" (config_to_dict cfg) (set_spec np) c
        ≡ (record c { request_spec = or_else o c.request_spec }, true)
  unfolding config_to_dict get
  load_spec c none e = rw e refl
  load_spec c (some s) e =
      if_truthy-set_from "request_spec" (config_to_dict cfg) (object (request_spec_to_dict s))
        (rw e refl) (spec_of np) s (spec_back np s) (λ t k. record k { request_spec = some t }) c
        (spec_truthy s)

  load_saved-config_to_dict :
      (other : AppConfig)
      → load_saved np (config_to_dict cfg) other
        ≡ (record cfg { request_spec = or_else cfg.request_spec other.request_spec }, true)
  unfolding load_saved config_to_dict get
  load_saved-config_to_dict other =
      let d = config_to_dict cfg in
      let c₁ = record other { robot_node_address = cfg.robot_node_address } in
      let c₂ = record c₁ { cameras = cfg.cameras } in
      let c₃ = record c₂ { request_spec = or_else cfg.request_spec other.request_spec } in
      let c₄ = record c₃ { loop = cfg.loop } in
      and_then-true _ c₄ (set_limits np d) _
        (and_then-true _ c₃ (if_truthy "loop" d (set_loop np)) _
          (and_then-true _ c₂ (if_truthy "request_spec" d (set_spec np)) _
            (and_then-true _ c₁ (if_in "cameras" d (set_cameras np)) _ refl (load_cameras c₁))
            (load_spec c₂ cfg.request_spec refl))
          (load_loop c₃))
        (set_limits-config_to_dict np cfg c₄)

  module _ {File : Type 0} (dumps : Json → File) (loads : File → Option Json) where
    -- A configuration that is saved is loaded back as it was over any other one, and only a request
    -- specification that was not set leaves the one that is there. `json.loads` reads what
    -- `json.dumps` wrote.
    pub load_config_into-save_config :
        (other : AppConfig)
        → loads (dumps (object (config_to_dict cfg))) ≡ some (object (config_to_dict cfg))
        → load_config_into np dumps loads other (some (save_config np dumps loads cfg))
          ≡ (record cfg { request_spec = or_else cfg.request_spec other.request_spec }, true)
    unfolding load_config_into save_config
    load_config_into-save_config other back =
        rw (back, load_config_into) (load_saved-config_to_dict other)
