-- ===== src/Commands/Tests.antt =====
-- A message and an area of interest.
use lpr_refactored.Prelude.{
  ℕ, ◌+◌, ◌≡◌, refl, true, Option, none, some, List, [], ◌∷◌, ◌++◌, Text, codes, ℤ, arith,
}
use lpr_refactored.Router.{Json, Fields}
use lpr_refactored.Commands.{Conversions, Command, make_command}
use lpr_refactored.Commands.Aoi.{Axis}
use lpr_refactored.Commands.Targets.{Answers, make_command-Answers}
use lpr_refactored.Commands.Queue.{push, drain, idle, steps}

abbrev integer_of : Json → Option ℤ
integer_of (Json.integer z) = some z
integer_of j = none

abbrev conversions : Conversions
conversions = record {
  Num = ℤ;
  number = integer_of;
  is_zero = λ z. elim z [
    | ℤ.pos n ↦ lpr_refactored.Prelude.leb n 0
    | ℤ.negsuc n ↦ lpr_refactored.Prelude.false
  ];
  llround = λ z. z;
  stoll = λ t. none;
  to_lower = λ t. t;
}

abbrev message : Json
message = Json.object (
    Fields.field (codes "camera_serial") (Json.text (codes "7"))
      (Fields.field (codes "value") (Json.integer (ℤ.pos 5)) Fields.end))

gain_of_camera :
    make_command conversions (codes "Gain") message
    ≡ some (some (Command.set_gain (codes "7") (ℤ.pos 5) lpr_refactored.Commands.ExposureUnit.auto))
unfolding make_command lpr_refactored.Commands.make_for lpr_refactored.Router.get_field
    lpr_refactored.Prelude.text_eq
gain_of_camera = refl

make_command-Answers_example : Answers conversions (codes "Gain") message
make_command-Answers_example = make_command-Answers conversions (codes "Gain") message

abbrev axis : Axis
axis = record {
  size = 1920;
  offset = 0;
  size_min = 64;
  size_inc = 32;
  size_max = λ o. lpr_refactored.Prelude.◌-◌ 1936 o;
  offset_min = 0;
  offset_inc = 4;
  size_writable = true;
  offset_writable = true;
}

executed_in_order :
    (steps ◌+◌ (push (some 3) ∷ push none ∷ drain ∷ push (some 4) ∷ []) (idle ◌+◌ 0)).executed
    ≡ 3 ∷ []
unfolding steps
executed_in_order = refl
