-- ===== src/Cameras/Devices.antt =====
-- franka_deploy/cameras/realsense.py: the devices, and the square that a frame is cropped to.
-- What librealsense reports and what cv2 does with the crop are parameters.
pub mod Crop
use Prim.Native.String.{String}
use franka_deploy.Common.{
  ℕ, ◌-◌, ◌/◌, min, Bool, Option, List, [], ◌∷◌, ◌++◌, map, length, take, drop, if◌then◌else◌,
}

pub record Device : Type 0 where
  pub name : String
  pub serial : String

-- What is done with the devices in order: one is reset, or its serial number is read.
pub data Query : Type 0 where
  hardware_reset get_serial : Device → Query

unfoldable pub list_devices : List Device → List (String × String)
list_devices devices = map (λ (d : Device). (d.name, d.serial)) devices

unfoldable pub get_device_ids : List Device → Bool → List Query × List String
get_device_ids [] reset = ([], [])
get_device_ids (d ∷ ds) reset =
    let (queries, ids) = get_device_ids ds reset in
    let read = get_serial d ∷ queries in
    (if reset then hardware_reset d ∷ read else read, d.serial ∷ ids)

-- `img[y0 : y0 + s]`.
abbrev pub slice : {A : Type 0} → ℕ → ℕ → List A → List A
slice start len xs = take len (drop start xs)

abbrev pub width_of : {Pixel : Type 0} → List (List Pixel) → ℕ
width_of [] = 0
width_of (row ∷ rows) = length row

-- The image is its rows.
unfoldable pub cropped : {Pixel : Type 0} → List (List Pixel) → List (List Pixel)
cropped img =
    let h = length img in
    let w = width_of img in
    let s = min h w in map (λ row. slice ((w - s) / 2) s row) (slice ((h - s) / 2) s img)

module _ {Pixel : Type 0} (resize : List (List Pixel) → ℕ → Option (List (List Pixel))) where
  unfoldable pub preprocess_libero : List (List Pixel) → ℕ → Option (List (List Pixel))
  unfolding cropped
  preprocess_libero img size = resize (cropped img) size
