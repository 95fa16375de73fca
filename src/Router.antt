-- ===== src/Router.antt =====
-- src/services/CommandRouter.cpp and include/lpr/JsonFind.h: the backend's JSON commands, turned
-- into calls of the live view and the recording service. The JSON library parses the text; its
-- values are data here, an object's entries in the library's order. `stoi` stands for std::stoi,
-- `none` for the exception. The forwarding of settings messages to a handler is left out.
pub mod Find
pub mod Live
mod Tests
use lpr_refactored.Prelude.{
  ℕ, ◌+◌, min, max, Bool, true, false, ◌&&◌, Option, none, some, List, [], ◌∷◌, ◌++◌, ltb,
  if◌then◌else◌, is_empty, Text, codes, text_eq, to_string, ℤ, pos_part, to_int,
}
use lpr_refactored.LiveView.{LiveViewService, enable_live, disable_live}
use lpr_refactored.Recording

-- A floating-point number is given by its conversion to int.
mutual
  pub data Json : Type 0 where
    null : Json
    boolean : Bool → Json
    integer : ℤ → Json
    real : ℤ → Json
    text : Text → Json
    array : Items → Json
    object : Fields → Json

  pub data Items : Type 0 where
    nil : Items
    item : Json → Items → Items

  pub data Fields : Type 0 where
    end : Fields
    field : Text → Json → Fields → Fields

-- `j.find(key)` of an object.
unfoldable pub get_field : Text → Fields → Option Json
get_field k end = none
get_field k (field j v fs) = if text_eq j k then some v else get_field k fs

-- The first of two results, where the first is there.
abbrev pub or_else : Option Json → Option Json → Option Json
or_else none o = o
or_else (some v) o = some v

unfoldable mutual
  unfolding get_field

  pub find_key_deep : Text → Json → Option Json
  find_key_deep k null = none
  find_key_deep k (boolean b) = none
  find_key_deep k (integer z) = none
  find_key_deep k (real z) = none
  find_key_deep k (text t) = none
  find_key_deep k (array xs) = find_in_items k xs
  find_key_deep k (object fs) = or_else (get_field k fs) (find_in_fields k fs)

  pub find_in_items : Text → Items → Option Json
  find_in_items k nil = none
  find_in_items k (item v xs) = or_else (find_key_deep k v) (find_in_items k xs)

  pub find_in_fields : Text → Fields → Option Json
  find_in_fields k end = none
  find_in_fields k (field j v fs) = or_else (find_key_deep k v) (find_in_fields k fs)

unfoldable pub find_any_key_deep : Json → List Text → Option Json
find_any_key_deep msg [] = none
find_any_key_deep msg (k ∷ ks) = or_else (find_key_deep k msg) (find_any_key_deep msg ks)

-- std::to_string of a signed number.
abbrev pub signed_text : ℤ → Text
signed_text (ℤ.pos n) = to_string n
signed_text (ℤ.negsuc n) = codes "-" ++ to_string (n + 1)

abbrev pub id_text : Option Json → Text
id_text none = []
id_text (some null) = []
id_text (some (boolean b)) = []
id_text (some (integer z)) = signed_text z
id_text (some (real z)) = signed_text z
id_text (some (text t)) = t
id_text (some (array xs)) = []
id_text (some (object fs)) = []

unfoldable pub camera_id_of : Json → Text
camera_id_of msg = id_text (
    find_any_key_deep msg
      (codes "camera_id" ∷ codes "cameraId" ∷ codes "gate_id" ∷ codes "gate" ∷ []))

abbrev or_default : ℤ → Option ℤ → ℤ
or_default d none = d
or_default d (some z) = z

module _ (stoi : Text → Option ℤ) where
  -- What the message asks for, or the default.
  abbrev pub asked : ℤ → Option Json → ℤ
  asked d none = d
  asked d (some null) = d
  asked d (some (boolean b)) = d
  asked d (some (integer z)) = to_int z
  asked d (some (real z)) = z
  asked d (some (text t)) = or_default d (stoi t)
  asked d (some (array xs)) = d
  asked d (some (object fs)) = d

  -- The bounds are not negative, so a negative number comes to the lower one.
  unfoldable pub duration_of : Json → ℤ → ℕ → ℕ → ℕ
  duration_of msg def lo hi =
      min (max (pos_part (asked def (find_key_deep (codes "duration") msg))) lo) hi

  -- The length of a live view: 2 s at least, or 0 for one without end.
  unfoldable pub live_duration : Json → ℕ
  live_duration msg =
      let raw = duration_of msg (ℤ.pos 2) 0 86400 in if ltb 0 raw && ltb raw 2 then 2 else raw

  unfoldable pub live_view : Json → ℕ → LiveViewService → LiveViewService
  live_view msg now s =
      let id = camera_id_of msg in
      if is_empty id then s else enable_live id (live_duration msg) now s

  -- `stamp` is the recording service's time stamp.
  unfoldable pub start_recording : Recording.Env → Json → ℕ → Text → Recording.Recs → Recording.Recs
  start_recording env msg now stamp recs =
      let id = camera_id_of msg in
      if is_empty id
      then recs
      else (Recording.start_recording env id (duration_of msg (ℤ.pos 0) 0 86400) now stamp recs).0

unfoldable pub stop_live_view : Text → LiveViewService → LiveViewService
stop_live_view id s = disable_live id s

unfoldable pub stop_recording : Text → Recording.Recs → Recording.Outcome
stop_recording id recs = Recording.stop_recording id recs
