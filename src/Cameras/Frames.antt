-- ===== src/Cameras/Frames.antt =====
-- What a camera's reader offers after any reads.
use Prim.Native.String.{String}
use franka_deploy.Common.{◌≡◌, refl, false, Option, none, some, List, [], ◌∷◌, Result, ok, err}
use franka_deploy.Cameras.{Camera, CameraWorker, read_round, reads}

module _ {Frame : Type 0} where
  -- The frame of the last read that succeeded, and the error of the last read if it failed.
  unfoldable pub last_frame : Option Frame → List (Result String Frame) → Option Frame
  last_frame before [] = before
  last_frame before (ok rgb ∷ rs) = last_frame (some rgb) rs
  last_frame before (err e ∷ rs) = last_frame before rs

  unfoldable pub last_error : Option String → List (Result String Frame) → Option String
  last_error before [] = before
  last_error before (ok rgb ∷ rs) = last_error none rs
  last_error before (err e ∷ rs) = last_error (some e) rs

  abbrev pub running : Camera → Option Frame → Option String → CameraWorker Frame
  running camera latest error = record {
    camera = camera;
    latest = latest;
    error = error;
    stop_evt = false;
  }

  -- A reader that is not stopped offers, after any reads, the frame of the last read that succeeded,
  -- however many have failed since, and an error exactly if the last read failed.
  pub reads-last :
      (camera : Camera) (latest : Option Frame) (error : Option String)
      (rs : List (Result String Frame))
      → reads (running camera latest error) rs
        ≡ running camera (last_frame latest rs) (last_error error rs)
  unfolding reads last_frame last_error read_round
  reads-last camera latest error [] = refl
  reads-last camera latest error (ok rgb ∷ rs) = reads-last camera (some rgb) none rs
  reads-last camera latest error (err e ∷ rs) = reads-last camera latest (some e) rs
